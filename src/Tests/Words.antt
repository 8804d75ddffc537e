-- ===== src/Tests/Words.antt =====
-- The combinators of nom that user strings take, as nom documents them.
use knast.Base.{
  ℕ, Text, Option, none, some, true, List, [], ◌∷◌, ◌++◌, ◌≡◌, refl, ap, ◌==◌, if◌then◌else◌, All,
  arith,
}
use knast.Base.Nom.{Parser}
use knast.Base.Nom.Words.{
  is_alphanumeric, IsWord, Stops, map_result, second, or_else, Combinators, CombinatorsLaws,
}
use knast.Tests.Registry.{span}

-- At least one character must pass.
abbrev not_empty : Text × Text → Option (Text × Text)
not_empty ([], rest) = none
not_empty (c ∷ word, rest) = some (c ∷ word, rest)

abbrev tag : Text → Parser Text
tag [] s = some ([], s)
tag (c ∷ t) [] = none
tag (c ∷ t) (d ∷ s) =
    let rest = tag t s in if d == c then map_result (λ word. some (c ∷ word)) rest else none

abbrev and_second : {A B : Type 0} → A → Parser B → Option (Text × Text) → Option ((A × B) × Text)
and_second a r none = none
and_second a r (some (b, u)) = second a (r u)

abbrev separated :
    {A B : Type 0} → Parser Text → Parser B → Option (A × Text) → Option ((A × B) × Text)
separated q r none = none
separated q r (some (a, t)) = and_second a r (q t)

abbrev alt : {A : Type 0} → List (Parser A) → Parser A
alt [] s = none
alt (p ∷ ps) s = or_else (p s) (alt ps s)

abbrev pub combinators : Combinators
combinators = record {
  alphanumeric1 = λ s. not_empty (span is_alphanumeric s);
  tag = tag;
  map_res = λ p f s. map_result f (p s);
  separated_pair = λ p q r s. separated q r (p s);
  alt = alt;
}

span_word :
    (a rest : Text)
    → All (λ c. is_alphanumeric c ≡ true) a
    → Stops rest
    → span is_alphanumeric (a ++ rest) ≡ (a, rest)
span_word [] [] h s = refl
span_word [] (c ∷ rest) h s = rw s refl
span_word (c ∷ a) rest h s = rw (h.0, span_word a rest h.1 s) refl

word_lem :
    (a rest : Text)
    → IsWord a
    → Stops rest
    → not_empty (span is_alphanumeric (a ++ rest)) ≡ some (a, rest)
word_lem [] rest h s = absurd h
word_lem (c ∷ a) rest h s = ap not_empty (span_word (c ∷ a) rest h s)

==-refl : (c : ℕ) → (c == c) ≡ true
==-refl c = ground arith

tag_lem : (t rest : Text) → tag t (t ++ rest) ≡ some (t, rest)
tag_lem [] rest = refl
tag_lem (c ∷ t) rest = rw (==-refl c, tag_lem t rest) refl

or_none : {A : Type 0} (o : Option A) → or_else o none ≡ o
or_none none = refl
or_none (some a) = refl

pub combinators_laws : CombinatorsLaws combinators
combinators_laws = record {
  alphanumeric1_lem = word_lem;
  tag_lem = tag_lem;
  tag_end = λ c. refl;
  tag_other = λ c d rest h. rw h refl;
  map_res_lem = λ p f s. refl;
  separated_pair_lem = λ p q r s a t b u h k. rw h (rw k refl);
  separated_pair_none = λ p q r s h. rw h refl;
  separated_pair_stop = λ p q r s a t h k. rw h (rw k refl);
  alt_one = λ p s. or_none (p s);
  alt_next = λ p q ps s. refl;
}
