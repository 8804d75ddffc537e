-- ===== src/Base/Nom/Words.antt =====
-- The combinators of nom that the parser of user strings takes, at any type of values.
use knast.Base.{
  ℕ, Text, Option, none, some, Bool, true, false, ◌&&◌, ◌||◌, List, [], ◌∷◌, ◌++◌, All, ◌≡◌, ◌==◌,
  leb,
}
use knast.Base.Nom.{Parser}

-- ASCII letters and digits.
unfoldable pub is_alphanumeric : ℕ → Bool
is_alphanumeric c =
    (leb b'0' c && leb c b'9') || ((leb b'A' c && leb c b'Z') || (leb b'a' c && leb c b'z'))

-- A word is letters and digits, one at least.
abbrev pub IsWord : Text → Type 0
IsWord [] = ⊥
IsWord (c ∷ s) = All (λ c. is_alphanumeric c ≡ true) (c ∷ s)

-- A word ends before this text.
abbrev pub Stops : Text → Type 0
Stops [] = Unit {0}
Stops (c ∷ s) = is_alphanumeric c ≡ false

abbrev pub with_rest : {A : Type 0} → Option A → Text → Option (A × Text)
with_rest none rest = none
with_rest (some a) rest = some (a, rest)

abbrev pub map_result : {A B : Type 0} → (A → Option B) → Option (A × Text) → Option (B × Text)
map_result f none = none
map_result f (some (a, rest)) = with_rest (f a) rest

abbrev pub second : {A B : Type 0} → A → Option (B × Text) → Option ((A × B) × Text)
second a none = none
second a (some (b, rest)) = some ((a, b), rest)

abbrev pub or_else : {A : Type 0} → Option A → Option A → Option A
or_else (some a) o = some a
or_else none o = o

-- `alt` takes a tuple of parsers, here a list.
pub record Combinators : Type 1 where
  pub alphanumeric1 : Parser Text
  pub tag : Text → Parser Text
  pub map_res : {A B : Type 0} → Parser A → (A → Option B) → Parser B
  pub separated_pair : {A B : Type 0} → Parser A → Parser Text → Parser B → Parser (A × B)
  pub alt : {A : Type 0} → List (Parser A) → Parser A

-- What the documentation of nom says of them, as far as it is used.
pub record CombinatorsLaws (n : Combinators) : Type 1 where
  -- One or more letters and digits, as many as there are.
  pub alphanumeric1_lem :
      (word rest : Text)
      → IsWord word
      → Stops rest
      → n.alphanumeric1 (word ++ rest) ≡ some (word, rest)
  pub tag_lem : (t rest : Text) → n.tag t (t ++ rest) ≡ some (t, rest)
  pub tag_end : (c : ℕ) → n.tag (c ∷ []) [] ≡ none
  pub tag_other : (c d : ℕ) (rest : Text) → (d == c) ≡ false → n.tag (c ∷ []) (d ∷ rest) ≡ none
  -- An error of the function is a failure of the parser.
  pub map_res_lem :
      {A B : Type 0} (p : Parser A) (f : A → Option B) (s : Text)
      → n.map_res p f s ≡ map_result f (p s)
  -- Three parsers in turn; the value of the second is dropped.
  pub separated_pair_lem :
      {A B : Type 0} (p : Parser A) (q : Parser Text) (r : Parser B) (s : Text) (a : A) (t : Text)
      (b : Text) (u : Text)
      → p s ≡ some (a, t)
      → q t ≡ some (b, u)
      → n.separated_pair p q r s ≡ second a (r u)
  pub separated_pair_none :
      {A B : Type 0} (p : Parser A) (q : Parser Text) (r : Parser B) (s : Text)
      → p s ≡ none
      → n.separated_pair p q r s ≡ none
  pub separated_pair_stop :
      {A B : Type 0} (p : Parser A) (q : Parser Text) (r : Parser B) (s : Text) (a : A) (t : Text)
      → p s ≡ some (a, t)
      → q t ≡ none
      → n.separated_pair p q r s ≡ none
  -- The first that succeeds.
  pub alt_one : {A : Type 0} (p : Parser A) (s : Text) → n.alt (p ∷ []) s ≡ p s
  pub alt_next :
      {A : Type 0} (p q : Parser A) (ps : List (Parser A)) (s : Text)
      → n.alt (p ∷ q ∷ ps) s ≡ or_else (p s) (n.alt (q ∷ ps) s)
