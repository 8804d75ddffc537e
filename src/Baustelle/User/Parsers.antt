-- ===== src/Baustelle/User/Parsers.antt =====
-- The parsers of baustelle/src/runtime_config/user.rs on a word, and on two words with a colon.
use knast.Base.{Text, codes, Option, none, some, false, [], ◌∷◌, ◌++◌, ◌≡◌, refl, ap, ◌∙◌, ◌==◌}
use knast.Base.Nom.{Parser}
use knast.Base.Nom.Words.{
  IsWord, Stops, with_rest, map_result, second, or_else, Combinators, CombinatorsLaws,
}
use knast.Baustelle.User.{parse_u32, number, name, pair}

abbrev pub NoColon : Text → Type 0
NoColon [] = Unit {0}
NoColon (c ∷ s) = (c == b':') ≡ false

abbrev pub both : {A B : Type 0} → Option A → Option B → Option (A × B)
both none o = none
both (some a) none = none
both (some a) (some b) = some (a, b)

abbrev pub bind_option : {A B : Type 0} → Option A → (A → Option B) → Option B
bind_option none f = none
bind_option (some a) f = f a

map_both :
    {A B C : Type 0} (F : A × B → Option C) (x : Option A) (y : Option B) (rest : Text)
    → map_result F (with_rest (both x y) rest)
      ≡ with_rest (bind_option x λ a. bind_option y λ b. F (a, b)) rest
map_both F none y rest = refl
map_both F (some a) none rest = refl
map_both F (some a) (some b) rest = refl

map_one :
    {A C : Type 0} (F : A → Option C) (x : Option A) (rest : Text)
    → map_result F (with_rest x rest) ≡ with_rest (bind_option x F) rest
map_one F none rest = refl
map_one F (some a) rest = refl

module _ (n : Combinators) (L : CombinatorsLaws n) where
  pub number_word :
      (a rest : Text) → IsWord a → Stops rest → number n (a ++ rest) ≡ with_rest (parse_u32 a) rest
  unfolding number
  number_word a rest h s =
      L.map_res_lem n.alphanumeric1 parse_u32 _
      ∙ ap (map_result parse_u32) (L.alphanumeric1_lem a rest h s)

  pub name_word : (a rest : Text) → IsWord a → Stops rest → name n (a ++ rest) ≡ some (a, rest)
  unfolding name
  name_word a rest h s =
      L.map_res_lem n.alphanumeric1 some _ ∙ ap (map_result some) (L.alphanumeric1_lem a rest h s)

  -- What a function makes of the value of a parser.
  pub map_res_word :
      {A B : Type 0} (p : Parser A) (F : A → Option B) (s : Text) (x : Option A) (rest : Text)
      → p s ≡ with_rest x rest
      → n.map_res p F s ≡ with_rest (bind_option x F) rest
  map_res_word p F s x rest h = L.map_res_lem p F s ∙ ap (map_result F) h ∙ map_one F x rest

  pub map_res_none :
      {A B : Type 0} (p : Parser A) (F : A → Option B) (s : Text)
      → p s ≡ none
      → n.map_res p F s ≡ none
  map_res_none p F s h = L.map_res_lem p F s ∙ ap (map_result F) h

  -- On two words with a colon between, a pair of parsers reads both.
  pub pair_words :
      {A B : Type 0} (p : Parser A) (q : Parser B) (x : Option A) (y : Option B) (a b rest : Text)
      → p (a ++ b':' ∷ (b ++ rest)) ≡ with_rest x (b':' ∷ (b ++ rest))
      → q (b ++ rest) ≡ with_rest y rest
      → pair n p q (a ++ b':' ∷ (b ++ rest)) ≡ with_rest (both x y) rest
  unfolding pair
  pair_words p q none y a b rest hp hq = L.separated_pair_none p _ q _ hp
  pair_words p q (some v) none a b rest hp hq =
      L.separated_pair_lem p _ q _ v _ _ _ hp (L.tag_lem (codes ":") _) ∙ ap (second v) hq
  pair_words p q (some v) (some w) a b rest hp hq =
      L.separated_pair_lem p _ q _ v _ _ _ hp (L.tag_lem (codes ":") _) ∙ ap (second v) hq

  -- What a function makes of the two words.
  pub map_pair_words :
      {A B C : Type 0} (p : Parser A) (q : Parser B) (F : A × B → Option C) (x : Option A)
      (y : Option B) (a b rest : Text)
      → p (a ++ b':' ∷ (b ++ rest)) ≡ with_rest x (b':' ∷ (b ++ rest))
      → q (b ++ rest) ≡ with_rest y rest
      → n.map_res (pair n p q) F (a ++ b':' ∷ (b ++ rest))
        ≡ with_rest (bind_option x λ a. bind_option y λ b. F (a, b)) rest
  map_pair_words p q F x y a b rest hp hq =
      L.map_res_lem (pair n p q) F _
      ∙ ap (map_result F) (pair_words p q x y a b rest hp hq)
      ∙ map_both F x y rest

  no_tag : (rest : Text) → NoColon rest → n.tag (codes ":") rest ≡ none
  no_tag [] h = L.tag_end b':'
  no_tag (c ∷ rest) h = L.tag_other b':' c rest h

  -- Before anything but a colon, a pair of parsers fails.
  pub pair_stops :
      {A B : Type 0} (p : Parser A) (q : Parser B) (x : Option A) (s rest : Text)
      → p s ≡ with_rest x rest
      → NoColon rest
      → pair n p q s ≡ none
  unfolding pair
  pair_stops p q none s rest hp h = L.separated_pair_none p _ q s hp
  pair_stops p q (some v) s rest hp h = L.separated_pair_stop p _ q s v rest hp (no_tag rest h)

  -- The first of six parsers that succeeds.
  pub alt_six :
      {A : Type 0} (p q r s t u : Parser A) (input : Text)
      → n.alt (p ∷ q ∷ r ∷ s ∷ t ∷ u ∷ []) input
        ≡ or_else (p input) (
            or_else (q input) (or_else (r input) (or_else (s input) (or_else (t input) (u input)))))
  alt_six p q r s t u input =
      rw
        (
          L.alt_next p q _ input,
          L.alt_next q r _ input,
          L.alt_next r s _ input,
          L.alt_next s t _ input,
          L.alt_next t u _ input,
          L.alt_one u input,
        )
        refl
