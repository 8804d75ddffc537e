-- ===== src/Base/Paths/Names.antt =====
-- `Path::components`: the names among the components of a path can be pushed.
use knast.Base.{
  ℕ, Text, text_eq, List, [], ◌∷◌, false, ◌==◌, contains, ◌≡◌, refl, arith, Bool-cases, inl, inr,
  ◌⊎◌, All, All-append,
}
use knast.Base.Paths.{
  cons_head, split, Component, slash, dot, component, components_of, first_component, of_pieces,
  components, root_dir, parent_dir, normal,
}
use knast.Base.Paths.Join.{IsName}

abbrev pub NormalName : Component → Type 0
NormalName (normal n) = IsName n
NormalName c = Unit {0}

component_cases :
    (p : Text)
    → (component p ≡ []) ⊎ ((component p ≡ parent_dir ∷ []) ⊎ (component p ≡ normal p ∷ []))
unfolding component
component_cases p = ground arith

component_names : (p : Text) → contains slash p ≡ false → All NormalName (component p)
component_names p h = elim (component_cases p) [
  | inl e ↦ rw e tt
  | inr r ↦ elim r [ inl e ↦ rw e (tt, tt) | inr e ↦ rw e ((e, h), tt) ]
]

components_of_names :
    (ps : List Text) → All (λ p. contains slash p ≡ false) ps → All NormalName (components_of ps)
unfolding components_of
components_of_names [] h = tt
components_of_names (p ∷ ps) h =
    All-append NormalName (component p) (components_of ps) (component_names p h.0)
      (components_of_names ps h.1)

cons_head_names :
    (x : ℕ) (ps : List Text)
    → (slash == x) ≡ false
    → All (λ p. contains slash p ≡ false) ps
    → All (λ p. contains slash p ≡ false) (cons_head x ps)
unfolding cons_head contains
cons_head_names x [] h a = (ground arith, tt)
cons_head_names x (p ∷ ps) h a = (ground arith, a.1)

split_names : (s : Text) → All (λ p. contains slash p ≡ false) (split slash s)
unfolding split
split_names [] = (unfold contains in refl, tt)
split_names (x ∷ s) = elim (Bool-cases (x == slash)) [
  | inl e ↦ rw e (unfold contains in refl, split_names s)
  | inr e ↦ rw e (cons_head_names x (split slash s) (ground arith) (split_names s))
]

first_component_names :
    (p : Text) (ps : List Text) → contains slash p ≡ false → All NormalName (first_component p ps)
unfolding first_component
first_component_names p ps h = elim (Bool-cases (text_eq p dot)) [
  | inl e ↦ rw e (tt, tt)
  | inr e ↦ elim (Bool-cases (text_eq p [])) [
    | inl f ↦ rw (e, f) (rooted ps)
    | inr f ↦ rw (e, f) (component_names p h)
  ]
]
  where
    rooted : (ps : List Text) → All NormalName (elim ps [ [] ↦ [] | q ∷ qs ↦ root_dir ∷ [] ])
    rooted [] = tt
    rooted (q ∷ qs) = (tt, tt)

-- Every `Normal` component of a path is a name that a push adds as one component.
pub components_names : (path : Text) → All NormalName (components path)
unfolding components
components_names path = names (split slash path) (split_names path)
  where
    names :
        (ps : List Text) → All (λ p. contains slash p ≡ false) ps → All NormalName (of_pieces ps)
    names [] h = tt
    names (p ∷ ps) h =
        All-append NormalName (first_component p ps) (components_of ps)
          (first_component_names p ps h.0) (components_of_names ps h.1)
