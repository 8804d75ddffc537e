-- ===== src/Libknast/Bundle/Mounts.antt =====
-- libknast/src/operations.rs, `mounts`: the order in which file systems are mounted.
use knast.Base.{
  ℕ, Text, true, false, List, [], ◌∷◌, ◌++◌, ◌≡◌, refl, arith, All, inl, inr, Bool-cases, subst,
}
use mathlib.Core.List.{Perm}
use mathlib.Core.List.Perm
use knast.Baustelle.RuntimeConfig.{Mount}
use knast.Libknast.Bundle.{text_le, insert_mount, sort_mounts}

text_le_total : (s t : Text) → text_le s t ≡ false → text_le t s ≡ true
unfolding text_le
text_le_total [] t h = absurd (ground arith)
text_le_total (x ∷ s) [] h = refl
text_le_total (x ∷ s) (y ∷ t) h = ground (arith, text_le_total s t)

text_le_trans : (s t u : Text) → text_le s t ≡ true → text_le t u ≡ true → text_le s u ≡ true
unfolding text_le
text_le_trans [] t u h g = refl
text_le_trans (x ∷ s) [] u h g = absurd (ground arith)
text_le_trans (x ∷ s) (y ∷ t) [] h g = absurd (ground arith)
text_le_trans (x ∷ s) (y ∷ t) (z ∷ u) h g = ground (arith, text_le_trans s t u)

-- A directory comes before what is inside it.
text_le-append : (s t : Text) → text_le s (s ++ t) ≡ true
unfolding text_le
text_le-append [] t = refl
text_le-append (x ∷ s) t = ground (arith, text_le-append s t)

abbrev Behind : Mount → Mount → Type 0
Behind m n = text_le m.destination n.destination ≡ true

abbrev pub Sorted : List Mount → Type 0
Sorted [] = Unit
Sorted (m ∷ ms) = All (Behind m) ms × Sorted ms

All-insert :
    (P : Mount → Type 0) (m : Mount) (ms : List Mount) → P m → All P ms → All P (insert_mount m ms)
unfolding insert_mount
All-insert P m [] p ps = (p, tt)
All-insert P m (n ∷ ms) p ps = elim (Bool-cases (text_le m.destination n.destination)) [
  | inl h ↦ rw h (p, ps)
  | inr h ↦ rw h (ps.0, All-insert P m ms p ps.1)
]

All-below : (m n : Mount) (ms : List Mount) → Behind m n → All (Behind n) ms → All (Behind m) ms
All-below m n [] h hs = tt
All-below m n (k ∷ ms) h hs =
    (text_le_trans m.destination n.destination k.destination h hs.0, All-below m n ms h hs.1)

insert-Sorted : (m : Mount) (ms : List Mount) → Sorted ms → Sorted (insert_mount m ms)
unfolding insert_mount
insert-Sorted m [] h = (tt, tt)
insert-Sorted m (n ∷ ms) h = elim (Bool-cases (text_le m.destination n.destination)) [
  | inl le ↦ rw le ((le, All-below m n ms le h.0), h)
  | inr gt ↦ rw gt (
    All-insert (Behind n) m ms (text_le_total m.destination n.destination gt) h.0,
    insert-Sorted m ms h.1,
  )
]

sort-Sorted : (ms : List Mount) → Sorted (sort_mounts ms)
unfolding sort_mounts
sort-Sorted [] = tt
sort-Sorted (m ∷ ms) = insert-Sorted m (sort_mounts ms) (sort-Sorted ms)

Perm-insert : (m : Mount) (ms : List Mount) → Perm (insert_mount m ms) (m ∷ ms)
unfolding insert_mount
Perm-insert m [] = Perm.refl (m ∷ [])
Perm-insert m (n ∷ ms) = elim (Bool-cases (text_le m.destination n.destination)) [
  | inl le ↦ rw le (Perm.refl (m ∷ n ∷ ms))
  | inr gt ↦ rw gt (Perm.trans (Perm.cons n (Perm-insert m ms)) (Perm.swap m n ms))
]

Perm-sort : (ms : List Mount) → Perm (sort_mounts ms) ms
unfolding sort_mounts
Perm-sort [] = Perm.refl []
Perm-sort (m ∷ ms) = Perm.trans (Perm-insert m (sort_mounts ms)) (Perm.cons m (Perm-sort ms))

-- The mounts of a configuration are ordered by their destinations, each once.
pub sort_mounts_lem : (ms : List Mount) → Sorted (sort_mounts ms) × Perm (sort_mounts ms) ms
sort_mounts_lem ms = (sort-Sorted ms, Perm-sort ms)

not-le-append : (s : Text) (x : ℕ) (t : Text) → text_le (s ++ x ∷ t) s ≡ true → ⊥
unfolding text_le
not-le-append [] x t h = ground arith
not-le-append (y ∷ s) x t h = ground (arith, not-le-append s x t)

-- The destination of `n` is inside that of `m`.
abbrev pub Inside : Mount → Mount → Type 0
Inside n m = (x : ℕ) × (t : Text) × (n.destination ≡ m.destination ++ x ∷ t)

-- No mount stands before one that it is inside of.
abbrev pub OuterFirst : List Mount → Type 0
OuterFirst [] = Unit
OuterFirst (n ∷ ms) = All (λ m. ¬ Inside n m) ms × OuterFirst ms

not-Inside : (n m : Mount) → Behind n m → ¬ Inside n m
not-Inside n m b (x, t, p) =
    not-le-append m.destination x t (subst (λ d. text_le d m.destination ≡ true) p b)

Behind-not-Inside : (n : Mount) (ms : List Mount) → All (Behind n) ms → All (λ m. ¬ Inside n m) ms
Behind-not-Inside n [] h = tt
Behind-not-Inside n (m ∷ ms) h = (not-Inside n m h.0, Behind-not-Inside n ms h.1)

Sorted-OuterFirst : (ms : List Mount) → Sorted ms → OuterFirst ms
Sorted-OuterFirst [] h = tt
Sorted-OuterFirst (m ∷ ms) h = (Behind-not-Inside m ms h.0, Sorted-OuterFirst ms h.1)

-- Mounts are sorted so that none stands before one whose destination, as a text, is a proper
-- prefix of its own.
pub sort-OuterFirst : (ms : List Mount) → OuterFirst (sort_mounts ms)
sort-OuterFirst ms = Sorted-OuterFirst (sort_mounts ms) (sort-Sorted ms)
