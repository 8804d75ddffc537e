-- ===== src/Base/Nom.antt =====
-- The crate nom, a parameter of the parsers that are written with it. A parser returns its value
-- and the rest of the input, or fails.
pub mod Words
use knast.Base.{ℕ, Text, Option, none, some, Bool, [], ◌∷◌, ◌++◌, true, false, ◌≡◌}

abbrev pub Parser : Type 0 → Type 0
Parser A = Text → Option (A × Text)

-- The combinators, at the types of their uses.
pub record Nom : Type 0 where
  pub take_while : (ℕ → Bool) → Parser Text
  pub char : ℕ → Parser ℕ
  pub preceded : Parser Text → Parser ℕ → Parser ℕ
  pub delimited : Parser ℕ → Parser Text → Parser ℕ → Parser Text
  pub tuple : Parser Text → Parser Text → Parser Text → Parser (Text × Text × Text)

-- No character of the text passes the test.
abbrev pub Passes : (ℕ → Bool) → Text → Type 0
Passes p [] = Unit
Passes p (c ∷ s) = (p c ≡ true) × Passes p s

-- What the documentation of nom says of them, as far as it is used.
pub record NomLaws (n : Nom) : Type 0 where
  -- The longest prefix whose characters pass the test; a character that fails it ends it.
  pub take_while_lem :
      (p : ℕ → Bool) (word : Text) (c : ℕ) (rest : Text)
      → Passes p word
      → p c ≡ false
      → n.take_while p (word ++ c ∷ rest) ≡ some (word, c ∷ rest)
  pub take_while_end :
      (p : ℕ → Bool) (word : Text) → Passes p word → n.take_while p word ≡ some (word, [])
  pub char_lem : (c : ℕ) (rest : Text) → n.char c (c ∷ rest) ≡ some (c, rest)
  pub char_end : (c : ℕ) → n.char c [] ≡ none
  -- The second value, if both succeed in turn.
  pub preceded_lem :
      (p : Parser Text) (q : Parser ℕ) (s : Text) (a : Text) (t : Text)
      → p s ≡ some (a, t)
      → n.preceded p q s ≡ q t
  pub delimited_lem :
      (p : Parser ℕ) (q : Parser Text) (r : Parser ℕ) (s : Text) (a : ℕ) (t : Text) (b : Text)
      (u : Text) (c : ℕ) (v : Text)
      → p s ≡ some (a, t)
      → q t ≡ some (b, u)
      → r u ≡ some (c, v)
      → n.delimited p q r s ≡ some (b, v)
  pub delimited_none :
      (p : Parser ℕ) (q : Parser Text) (r : Parser ℕ) (s : Text)
      → p s ≡ none
      → n.delimited p q r s ≡ none
  pub tuple_lem :
      (p q r : Parser Text) (s : Text) (a t b u c v : Text)
      → p s ≡ some (a, t)
      → q t ≡ some (b, u)
      → r u ≡ some (c, v)
      → n.tuple p q r s ≡ some ((a, b, c), v)
