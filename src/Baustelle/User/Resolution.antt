-- ===== src/Baustelle/User/Resolution.antt =====
-- Which ids baustelle/src/runtime_config/user.rs resolves a user string to.
use mathlib.Core.List.{append-nil}
use knast.Base.{
  ℕ, Text, codes, Option, none, some, false, [], ◌∷◌, ◌++◌, ◌≡◌, refl, ap, sym, ◌∙◌, arith, ◌==◌,
}
use knast.Base.Exec.{Result, ok, err, message}
use knast.Base.Nom.{Parser}
use knast.Base.Nom.Words.{
  is_alphanumeric, IsWord, Stops, with_rest, or_else, Combinators, CombinatorsLaws,
}
use knast.Baustelle.User.{
  Files, EtcPasswdEntry, EtcGroupEntry, parse_u32, number, name, find_group_by_name,
  find_user_by_name, find_user_by_uid, with_group, with_gid, user_with_group, own_ids, uid_gid,
  uid_group, user_group, user_gid, username, uid, finish, parse, pair,
}
use knast.Baustelle.User.Parsers.{
  NoColon, both, bind_option, number_word, name_word, map_res_word, map_res_none, pair_words,
  map_pair_words, pair_stops, alt_six,
}

or_else-with_rest :
    {A : Type 0} (x y : Option A) (rest : Text)
    → or_else (with_rest x rest) (with_rest y rest) ≡ with_rest (or_else x y) rest
or_else-with_rest none y rest = refl
or_else-with_rest (some a) y rest = refl

abbrev pub answer : Option (ℕ × ℕ) → Result (ℕ × ℕ)
answer none = err (message (codes "Failed to parse user config string"))
answer (some ids) = ok ids

finish-with_rest : (x : Option (ℕ × ℕ)) (rest : Text) → finish (with_rest x rest) ≡ answer x
unfolding finish
finish-with_rest none rest = refl
finish-with_rest (some ids) rest = refl

abbrev first : Option (ℕ × ℕ) → Result (ℕ × ℕ) → Result (ℕ × ℕ)
first none r = r
first (some ids) r = ok ids

finish_or :
    (x : Option (ℕ × ℕ)) (rest : Text) (o : Option ((ℕ × ℕ) × Text))
    → finish (or_else (with_rest x rest) o) ≡ first x (finish o)
unfolding finish
finish_or none rest o = refl
finish_or (some ids) rest o = refl

answer_or : (x y : Option (ℕ × ℕ)) → answer (or_else x y) ≡ first x (answer y)
answer_or none y = refl
answer_or (some ids) y = refl

module _ (files : Files) (rootfs : Text) where
  abbrev user_of : Text → Option EtcPasswdEntry
  user_of = find_user_by_name files rootfs

  abbrev group_of : Text → Option EtcGroupEntry
  group_of = find_group_by_name files rootfs

  -- The ids of one word: a name is tried before a number.
  pub own : Text → Option (ℕ × ℕ)
  own a =
      or_else (own_ids (user_of a))
        (bind_option (parse_u32 a) λ uid. own_ids (find_user_by_uid files rootfs uid))

  -- The ids of two words, in the order in which they are tried; the first word alone comes last.
  pub pair_ids : Text → Text → Option (ℕ × ℕ)
  unfolding own
  pair_ids a b = or_else (both (parse_u32 a) (parse_u32 b)) (
      or_else (bind_option (parse_u32 a) λ uid. with_group uid (group_of b)) (
        or_else (user_with_group (user_of a) (group_of b))
          (or_else (bind_option (parse_u32 b) λ gid. with_gid gid (user_of a)) (own a))))

  pair_ids_fallback : (a b : Text) → parse_u32 b ≡ none → group_of b ≡ none → pair_ids a b ≡ own a
  unfolding pair_ids user_with_group with_group
  pair_ids_fallback a b n g = ground (arith, n, g)

  module _ (n : Combinators) (L : CombinatorsLaws n) where
    module _ (a rest : Text) (wa : IsWord a) (sa : Stops rest) where
      username_word : username files rootfs n (a ++ rest) ≡ with_rest (own_ids (user_of a)) rest
      unfolding username
      username_word = map_res_word n L (name n) _ _ (some a) rest (name_word n L a rest wa sa)

      uid_word :
          uid files rootfs n (a ++ rest)
          ≡ with_rest
              (bind_option (parse_u32 a) λ uid. own_ids (find_user_by_uid files rootfs uid))
              rest
      unfolding uid
      uid_word = map_res_word n L (number n) _ _ (parse_u32 a) rest (number_word n L a rest wa sa)

      -- A user string of one word, with no letter, digit or colon behind it, resolves to the
      -- user of this name, and otherwise to the user of this number.
      parse_word : NoColon rest → parse files rootfs n (a ++ rest) ≡ answer (own a)
      unfolding parse uid_gid uid_group user_group user_gid own
      parse_word h =
          ap finish (alt_six n L _ _ _ _ _ _ (a ++ rest))
          ∙ rw
              (
                stops_number (number n),
                map_res_none n L _ _ _ (stops_number (name n)),
                map_res_none n L _ _ _ (stops_name (name n)),
                map_res_none n L _ _ _ (stops_name (number n)),
                username_word,
                uid_word,
                or_else-with_rest,
              )
              (finish-with_rest _ rest)
        where
          stops_number : {B : Type 0} (q : Parser B) → pair n (number n) q (a ++ rest) ≡ none
          stops_number q = pair_stops n L _ q (parse_u32 a) _ rest (number_word n L a rest wa sa) h

          stops_name : {B : Type 0} (q : Parser B) → pair n (name n) q (a ++ rest) ≡ none
          stops_name q = pair_stops n L _ q (some a) _ rest (name_word n L a rest wa sa) h

    module _ (a b rest : Text) (wa : IsWord a) (wb : IsWord b) (sb : Stops rest) where
      -- A user string of two words with a colon between, and nothing alphanumeric behind,
      -- resolves to the first reading of the two words that has an answer, in a fixed order, and
      -- at last to that of the first word.
      pub parse_pair : parse files rootfs n (a ++ b':' ∷ (b ++ rest)) ≡ answer (pair_ids a b)
      unfolding parse uid_gid uid_group user_group user_gid pair_ids own
      parse_pair =
          ap finish (alt_six n L _ _ _ _ _ _ (a ++ b':' ∷ (b ++ rest)))
          ∙ rw
              (
                pair_words n L _ _ (parse_u32 a) (parse_u32 b) a b rest number_a number_b,
                map_pair_words n L _ _ _ (parse_u32 a) (some b) a b rest number_a name_b,
                map_pair_words n L _ _ _ (some a) (some b) a b rest name_a name_b,
                map_pair_words n L _ _ _ (some a) (parse_u32 b) a b rest name_a number_b,
                username_word a (b':' ∷ (b ++ rest)) wa colon,
                uid_word a (b':' ∷ (b ++ rest)) wa colon,
              )
              (simp (finish_or, finish-with_rest, answer_or))
        where
          colon : Stops (b':' ∷ (b ++ rest))
          colon = unfold is_alphanumeric in refl

          number_a :
              number n (a ++ b':' ∷ (b ++ rest)) ≡ with_rest (parse_u32 a) (b':' ∷ (b ++ rest))
          number_a = number_word n L a _ wa colon

          number_b : number n (b ++ rest) ≡ with_rest (parse_u32 b) rest
          number_b = number_word n L b rest wb sb

          name_a : name n (a ++ b':' ∷ (b ++ rest)) ≡ some (a, b':' ∷ (b ++ rest))
          name_a = name_word n L a _ wa colon

          name_b : name n (b ++ rest) ≡ some (b, rest)
          name_b = name_word n L b rest wb sb

    -- A user string that is a word of alphanumeric characters and then a character that is
    -- neither alphanumeric nor a colon resolves like the word alone, whatever stands behind.
    pub parse_cut :
        (a rest : Text) (c : ℕ)
        → IsWord a
        → is_alphanumeric c ≡ false
        → (c == b':') ≡ false
        → parse files rootfs n (a ++ c ∷ rest) ≡ parse files rootfs n a
    parse_cut a rest c w s h =
        parse_word a (c ∷ rest) w s h
        ∙ sym (parse_word a [] w tt tt)
        ∙ ap (parse files rootfs n) (append-nil a)

    -- A second word that is no number and no group is no error: the first word alone is resolved.
    parse_unknown_group :
        (a b rest : Text)
        → IsWord a
        → IsWord b
        → Stops rest
        → parse_u32 b ≡ none
        → group_of b ≡ none
        → parse files rootfs n (a ++ b':' ∷ (b ++ rest)) ≡ answer (own a)
    parse_unknown_group a b rest wa wb sb no_number no_group =
        parse_pair a b rest wa wb sb ∙ ap answer (pair_ids_fallback a b no_number no_group)
