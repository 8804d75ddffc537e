-- ===== src/Base/Paths.antt =====
-- `str::split` and `std::path::Path`, as the program uses them.
pub mod Split
pub mod Join
pub mod Names
use mathlib.Core.List.{append_assoc, append-nil}
use knast.Base.{
  ℕ, Text, codes, text_eq, text_eq_iff, List, [], ◌∷◌, ◌++◌, Bool, true, false, ◌==◌, if◌then◌else◌,
  contains, starts_with, ◌≡◌, refl, ap, arith, Bool-cases, inl, inr, sym, ◌∙◌, subst, ◌⊎◌, All,
  All-append,
}

cons_head : ℕ → List Text → List Text
cons_head x [] = (x ∷ []) ∷ []
cons_head x (p ∷ ps) = (x ∷ p) ∷ ps

-- The pieces between the separators: one more than there are separators.
unfoldable pub split : ℕ → Text → List Text
unfolding cons_head
split c [] = [] ∷ []
split c (x ∷ s) = let rest = split c s in if x == c then [] ∷ rest else cons_head x rest

-- `std::path::Component`
pub data Component : Type 0 where
  root_dir cur_dir parent_dir : Component
  normal : Text → Component

abbrev pub slash : ℕ
slash = b'/'

abbrev pub dot : Text
dot = codes "."

abbrev pub dot_dot : Text
dot_dot = codes ".."

-- A piece after the first: repeated separators and `.` are skipped.
unfoldable pub component : Text → List Component
component piece =
    if text_eq piece []
    then []
    else if text_eq piece dot
    then []
    else if text_eq piece dot_dot
    then parent_dir ∷ []
    else normal piece ∷ []

unfoldable pub components_of : List Text → List Component
unfolding component
components_of [] = []
components_of (p ∷ ps) = component p ++ components_of ps

-- The first piece: empty before a leading separator, and a leading `.` is kept.
first_component : Text → List Text → List Component
first_component p ps =
    if text_eq p dot
    then cur_dir ∷ []
    else if text_eq p []
    then (elim ps [ [] ↦ [] | q ∷ qs ↦ root_dir ∷ [] ])
    else component p

of_pieces : List Text → List Component
unfolding first_component components_of
of_pieces [] = []
of_pieces (p ∷ ps) = first_component p ps ++ components_of ps

-- `Path::components`
unfoldable pub components : Text → List Component
unfolding of_pieces
components path = of_pieces (split slash path)

ends_with_slash : Text → Bool
ends_with_slash [] = false
ends_with_slash (x ∷ []) = x == slash
ends_with_slash (x ∷ y ∷ s) = ends_with_slash (y ∷ s)

-- `PathBuf::push`, and `Path::join`
unfoldable pub join : Text → Text → Text
unfolding ends_with_slash
join base path =
    if starts_with (slash ∷ []) path
    then path
    else if text_eq base []
    then path
    else if ends_with_slash base
    then base ++ path
    else base ++ slash ∷ path
