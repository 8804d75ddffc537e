-- ===== src/Base/Paths/Split.antt =====
-- `str::split`: the pieces of a text that is put together.
use knast.Base.{ℕ, Text, List, [], ◌∷◌, ◌++◌, false, contains, ◌≡◌, refl, ap, arith}
use knast.Base.Paths.{cons_head, split}

cons_head-append :
    (x c : ℕ) (s : Text) (ys : List Text)
    → cons_head x (split c s ++ ys) ≡ cons_head x (split c s) ++ ys
unfolding split
cons_head-append x c [] ys = refl
cons_head-append x c (y ∷ s) ys = ground (arith, cons_head-append y c s ys)

-- A separator between two texts separates their pieces.
pub split-append : (c : ℕ) (a b : Text) → split c (a ++ c ∷ b) ≡ split c a ++ split c b
unfolding split
split-append c [] b = ground arith
split-append c (x ∷ a) b = ground (arith, split-append c a b, cons_head-append x c a (split c b))

-- A text without the separator is one piece.
pub split_one : (c : ℕ) (a : Text) → contains c a ≡ false → split c a ≡ a ∷ []
unfolding split contains
split_one c [] h = refl
split_one c (x ∷ a) h = ground (arith, split_one c a)

pub split-cons : (c : ℕ) (a b : Text) → contains c a ≡ false → split c (a ++ c ∷ b) ≡ a ∷ split c b
split-cons c a b h = cc (split-append c a b, ap (λ ps. ps ++ split c b) (split_one c a h))
