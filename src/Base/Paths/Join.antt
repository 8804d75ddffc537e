-- ===== src/Base/Paths/Join.antt =====
-- `PathBuf::push` of a name: the components of the path, and then the name.
use mathlib.Core.List.{append_assoc, append-nil}
use knast.Base.{
  ℕ, Text, text_eq, text_eq_iff, List, [], ◌∷◌, ◌++◌, true, false, ◌==◌, contains, starts_with, ◌≡◌,
  refl, ap, arith, Bool-cases, inl, inr, sym, ◌∙◌, subst,
}
use knast.Base.Paths.{
  cons_head, split, slash, dot, dot_dot, component, components_of, first_component, of_pieces,
  components, ends_with_slash, join, normal,
}
use knast.Base.Paths.Split.{split-append, split_one}

-- A name that a path shows as a `Normal` component.
abbrev pub IsName : Text → Type 0
IsName n = (component n ≡ normal n ∷ []) × (contains slash n ≡ false)

components_of-append :
    (ps qs : List Text) → components_of (ps ++ qs) ≡ components_of ps ++ components_of qs
unfolding components_of
components_of-append [] qs = refl
components_of-append (p ∷ ps) qs = rw (components_of-append ps qs, append_assoc (component p)) refl

-- Before a further piece, the first one is read in the same way whatever follows.
first_component-append :
    (p x : Text) (ps : List Text) → first_component p (ps ++ x ∷ []) ≡ first_component p ([] ∷ [])
unfolding first_component
first_component-append p x [] = ground arith
first_component-append p x (q ∷ qs) = ground arith

of_pieces-append :
    (p x : Text) (ps : List Text)
    → of_pieces (p ∷ (ps ++ x ∷ []))
      ≡ first_component p ([] ∷ []) ++ (components_of ps ++ component x)
unfolding of_pieces components_of
of_pieces-append p x ps =
    rw (first_component-append p x ps, components_of-append ps (x ∷ []), append-nil (component x))
      refl

abbrev NotEmpty {ℓ} : {A : Type ℓ} → List A → Type 0
NotEmpty [] = ⊥
NotEmpty (x ∷ xs) = Unit {0}

cons_head-NotEmpty : (x : ℕ) (ps : List Text) → NotEmpty (cons_head x ps)
unfolding cons_head
cons_head-NotEmpty x [] = tt
cons_head-NotEmpty x (p ∷ ps) = tt

split-NotEmpty : (c : ℕ) (s : Text) → NotEmpty (split c s)
unfolding split
split-NotEmpty c [] = tt
split-NotEmpty c (x ∷ s) = elim (Bool-cases (x == c)) [
  | inl e ↦ rw e tt
  | inr e ↦ rw e (cons_head-NotEmpty x (split c s))
]

component_nil : component [] ≡ []
unfolding component text_eq
component_nil = refl

first_component_cons :
    (p q : Text) (qs : List Text) → first_component p (q ∷ qs) ≡ first_component p ([] ∷ [])
unfolding first_component
first_component_cons p q qs = ground arith

first_component_one :
    (p : Text) → text_eq p [] ≡ false → first_component p [] ≡ first_component p ([] ∷ [])
unfolding first_component
first_component_one p h = ground arith

-- One more name behind the pieces of a path, where a further piece follows the first.
name_behind :
    (ps : List Text) (n : Text)
    → NotEmpty ps
    → IsName n
    → of_pieces (ps ++ n ∷ []) ≡ of_pieces (ps ++ [] ∷ []) ++ normal n ∷ []
name_behind [] n h m = absurd h
name_behind (p ∷ ps) n h m =
    rw (of_pieces-append p n ps, of_pieces-append p [] ps, m.0)
      (rw (component_nil, append-nil (components_of ps), append_assoc (first_component p ([] ∷ [])))
        refl)

ends_with_slash_lem : (s : Text) → ends_with_slash s ≡ true → (r : Text) × (s ≡ r ++ slash ∷ [])
unfolding ends_with_slash
ends_with_slash_lem [] h = cc
ends_with_slash_lem (x ∷ []) h = ([], ground arith)
ends_with_slash_lem (x ∷ y ∷ s) h =
    let (r, e) = ends_with_slash_lem (y ∷ s) h in (x ∷ r, ap (λ t. x ∷ t) e)

-- A path that is not empty: a further piece does not change how the others are read.
of_pieces_self :
    (p x : Text) (ps : List Text)
    → (ps ≡ [] → text_eq p [] ≡ false)
    → of_pieces (p ∷ ps) ++ component x ≡ of_pieces (p ∷ (ps ++ x ∷ []))
of_pieces_self p x [] h = rw (of_pieces-append p x []) (
    unfold of_pieces components_of in
    rw (first_component_one p (h refl), append-nil (first_component p ([] ∷ []))) refl)
of_pieces_self p x (q ∷ qs) h = rw (of_pieces-append p x (q ∷ qs)) (
    unfold of_pieces in
    rw (first_component_cons p q qs, append_assoc (first_component p ([] ∷ []))) refl)

not-starts_with : (n : Text) → contains slash n ≡ false → starts_with (slash ∷ []) n ≡ false
unfolding contains starts_with
not-starts_with [] h = refl
not-starts_with (x ∷ n) h = ground arith

join_nil : (n : Text) → IsName n → join [] n ≡ n
unfolding join text_eq
join_nil n h = ground (arith, not-starts_with n h.1)

join-slash :
    (r n : Text)
    → IsName n
    → ends_with_slash (r ++ slash ∷ []) ≡ true
    → join (r ++ slash ∷ []) n ≡ r ++ slash ∷ n
unfolding join text_eq
join-slash r n h e = rw (not-starts_with n h.1, e, nonempty r) (append_assoc r _ _)
  where
    nonempty : (r : Text) → text_eq (r ++ slash ∷ []) [] ≡ false
    nonempty [] = refl
    nonempty (x ∷ r) = refl

join_plain :
    (path n : Text)
    → IsName n
    → text_eq path [] ≡ false
    → ends_with_slash path ≡ false
    → join path n ≡ path ++ slash ∷ n
unfolding join
join_plain path n h e f = ground (arith, not-starts_with n h.1)

components-slash :
    (r n : Text)
    → IsName n
    → components (r ++ slash ∷ n) ≡ components (r ++ slash ∷ []) ++ normal n ∷ []
unfolding components contains
components-slash r n h =
    rw
      (
        split-append slash r n,
        split-append slash r [],
        split_one slash n h.1,
        split_one slash [] refl,
      )
      (name_behind (split slash r) n (split-NotEmpty slash r) h)

cons_head_first :
    (x : ℕ) (ps : List Text)
    → (p : Text) × (qs : List Text) × (cons_head x ps ≡ p ∷ qs) × (text_eq p [] ≡ false)
unfolding cons_head text_eq
cons_head_first x [] = (x ∷ [], [], refl, refl)
cons_head_first x (p ∷ ps) = (x ∷ p, ps, refl, refl)

-- Only the empty path is one empty piece.
split_first :
    (path : Text)
    → text_eq path [] ≡ false
    → (p : Text) × (ps : List Text) × (split slash path ≡ p ∷ ps) × (ps ≡ [] → text_eq p [] ≡ false)
unfolding split text_eq
split_first [] h = cc
split_first (x ∷ s) h = elim (Bool-cases (x == slash)) [
  | inl e ↦ ([], split slash s, rw e refl, λ q. absurd (subst NotEmpty q (split-NotEmpty slash s)))
  | inr e ↦ let (p, ps, q, k) = cons_head_first x (split slash s) in (p, ps, rw e q, λ _. k)
]

components_plain :
    (path n : Text)
    → IsName n
    → text_eq path [] ≡ false
    → components (path ++ slash ∷ n) ≡ components path ++ normal n ∷ []
unfolding components
components_plain path n h e =
    let (p, ps, q, k) = split_first path e in
    rw (split-append slash path n, split_one slash n h.1, q)
      (sym (of_pieces_self p n ps k) ∙ ap (λ c. of_pieces (p ∷ ps) ++ c) h.0)

name_component :
    (n : Text)
    → component n ≡ normal n ∷ []
    → (text_eq n [] ≡ false) × (text_eq n dot ≡ false) × (text_eq n dot_dot ≡ false)
unfolding component
name_component n h = ground arith

first_name : (n : Text) → component n ≡ normal n ∷ [] → first_component n [] ≡ normal n ∷ []
unfolding first_component
first_name n h = ground (arith, h, name_component n)

components_name : (n : Text) → IsName n → components n ≡ normal n ∷ []
unfolding components of_pieces components_of
components_name n h =
    rw (split_one slash n h.1) (rw (append-nil (first_component n [])) (first_name n h.0))

components_nil : components [] ≡ []
unfolding components of_pieces first_component component split components_of text_eq
components_nil = refl

-- Pushing a name adds one component, whatever the path.
pub components-join :
    (path n : Text) → IsName n → components (join path n) ≡ components path ++ normal n ∷ []
components-join path n h = elim (Bool-cases (text_eq path [])) [
  | inl e ↦
      rw ((text_eq_iff path []).0 e, join_nil n h) (rw (components_nil, components_name n h) refl)
  | inr e ↦ elim (Bool-cases (ends_with_slash path)) [
    | inl f ↦
        let (r, q) = ends_with_slash_lem path f in
        rw q (rw (join-slash r n h (ap ends_with_slash (sym q) ∙ f)) (components-slash r n h))
    | inr f ↦ rw (join_plain path n h e f) (components_plain path n h e)
  ]
]
