-- ===== src/Netzwerk/Interface/Name.antt =====
-- The names of interfaces in netzwerk/src/interface.rs: what is copied in is read back.
use knast.Base.{
  ℕ, zero, suc, ◌<◌, ◌≤◌, Text, Option, none, some, false, [], ◌∷◌, ◌++◌, ◌≡◌, refl, arith, ap,
  length, contains, drop, Option-cases, inl, inr, ◌∙◌, length-append,
}
use knast.Base.Exec.{
  ok, pure, ◌>>=◌, Triple, Triple-bind, Triple-bind-lift, Triple-pure, Triple-true,
}
use mathlib.Core.List.{append_assoc}
use knast.Host.{Host}
use knast.Netzwerk.Interface.{
  Interface, copy, zeroed, c_string, ifnamsiz, of_copy, new, name, get_name,
}

-- The copy lays the bytes over the front of the buffer.
pub copy_fits :
    (buffer bytes : Text)
    → length bytes ≤ length buffer
    → copy buffer bytes ≡ some (bytes ++ drop (length bytes) buffer)
unfolding copy
copy_fits buffer [] h = refl
copy_fits [] (b ∷ bytes) h = elim h [ ]
copy_fits (x ∷ buffer) (b ∷ bytes) h = ground (arith, copy_fits buffer bytes (omega arith))

copy_overflows : (buffer bytes : Text) → length buffer < length bytes → copy buffer bytes ≡ none
unfolding copy
copy_overflows buffer [] h = elim h [ ]
copy_overflows [] (b ∷ bytes) h = refl
copy_overflows (x ∷ buffer) (b ∷ bytes) h =
    ground (arith, copy_overflows buffer bytes (omega arith))

pub c_string-append :
    (name rest : Text) → contains 0 name ≡ false → c_string (name ++ 0 ∷ rest) ≡ some name
unfolding c_string contains
c_string-append [] rest h = refl
c_string-append (c ∷ name) rest h = ground (arith, c_string-append name rest)

drop-zeroed : (m n : ℕ) → n < m → (rest : Text) × (drop n (zeroed m) ≡ 0 ∷ rest)
unfolding zeroed
drop-zeroed zero n h = absurd (omega (arith, h))
drop-zeroed (suc m) zero h = (zeroed m, refl)
drop-zeroed (suc m) (suc n) h = drop-zeroed m n (omega (arith, h))

pub length-zeroed : (n : ℕ) → length (zeroed n) ≡ n
unfolding zeroed
length-zeroed zero = refl
length-zeroed (suc n) = omega (arith, length-zeroed n)

length-copy : (buffer bytes b : Text) → copy buffer bytes ≡ some b → length b ≡ length buffer
unfolding copy
length-copy buffer [] b h = ground arith
length-copy [] (x ∷ bytes) b h = absurd (ground arith)
length-copy (y ∷ buffer) (x ∷ bytes) b h = elim (Option-cases (copy buffer bytes)) [
  | inl p ↦ absurd (ground (arith, p))
  | inr p ↦ ground (arith, p.1, length-copy buffer bytes p.0 p.1)
]

-- The buffer of an interface that has a name.
abbrev pub Named : Text → Interface → Type 0
Named n i = (c_string i.ifr_name ≡ some n) × (length i.ifr_name ≡ ifnamsiz)

copied :
    (buffer bytes b : Text)
    → length bytes ≤ length buffer
    → copy buffer bytes ≡ some b
    → b ≡ bytes ++ drop (length bytes) buffer
copied buffer bytes b h p = let q = copy_fits buffer bytes h in ground (arith, q, p)

pub c_string-copy :
    (buffer n b : Text)
    → contains 0 n ≡ false
    → length n < length buffer
    → copy buffer (n ++ 0 ∷ []) ≡ some b
    → c_string b ≡ some n
c_string-copy buffer n b z h p =
    ap c_string (
      copied buffer (n ++ 0 ∷ []) b (omega (arith, h, length-append n (0 ∷ []))) p
      ∙ append_assoc n (0 ∷ []) (drop (length (n ++ 0 ∷ [])) buffer))
    ∙ c_string-append n (drop (length (n ++ 0 ∷ [])) buffer) z

pub c_string-zeroed :
    (size : ℕ) (n b : Text)
    → contains 0 n ≡ false
    → length n < size
    → copy (zeroed size) n ≡ some b
    → c_string b ≡ some n
c_string-zeroed size n b z h p =
    let fits : length n ≤ length (zeroed size) = omega (arith, h, length-zeroed size) in
    let (rest, q) = drop-zeroed size (length n) h in
    ap c_string (copied (zeroed size) n b fits p ∙ ap (λ d. n ++ d) q) ∙ c_string-append n rest z

pub of_copy-ok : (o : Option Text) (b : Text) → of_copy o ≡ ok b → o ≡ some b
unfolding of_copy
of_copy-ok none b p = absurd (ground arith)
of_copy-ok (some c) b p = ground arith

module _ (H : Host) where
  new_Triple :
      (n : Text)
      → contains 0 n ≡ false
      → length n < ifnamsiz
      → Triple (λ _. Unit) (new H n) (λ i _. Named n i) (λ _ _. Unit)
  unfolding new
  new_Triple n z h = Triple-bind _ _ (Triple-true H.socket) λ _.
      Triple-bind-lift _ _
        (λ b p. Triple-pure _ (λ _ _. (
          c_string-zeroed ifnamsiz n b z h (of_copy-ok _ b p),
          length-copy (zeroed ifnamsiz) n b (of_copy-ok _ b p) ∙ length-zeroed ifnamsiz,
        )))
        (λ _ _ _ _. tt)

  name_Triple :
      (old n : Text) (i : Interface)
      → contains 0 n ≡ false
      → length n < ifnamsiz
      → Triple (λ _. Named old i) (name H i n) (λ j _. Named n j) (λ _ _. Unit)
  unfolding name
  name_Triple old n i z h = record {
    at = λ s named.
        (Triple-bind _ _ (Triple-true (H.if_rename i.ifr_name (n ++ 0 ∷ []))) λ _.
            Triple-bind-lift _ _
              (λ b p. Triple-pure {Q = λ j _. Named n j} _ (λ _ _. (
                c_string-copy i.ifr_name n b z (omega (arith, h, named.1)) (of_copy-ok _ b p),
                length-copy i.ifr_name (n ++ 0 ∷ []) b (of_copy-ok _ b p) ∙ named.1,
              )))
              (λ _ _ _ _. tt)).at
          s tt;
  }

  get_name_Triple :
      (n : Text) (i : Interface)
      → Triple (λ _. Named n i) (get_name H i) (λ r _. r ≡ n) (λ _ _. Unit)
  unfolding get_name
  get_name_Triple n i = record { at = λ s h. rw (get_name, h.0) (unfold pure in refl) }

  -- The name that an interface is given, of at most 15 bytes and without a zero byte, is the one
  -- that it reports.
  pub name-get_name :
      (iface n : Text)
      → contains 0 iface ≡ false
      → length iface < ifnamsiz
      → contains 0 n ≡ false
      → length n < ifnamsiz
      → Triple
          (λ _. Unit)
          (new H iface >>= λ i. name H i n >>= λ j. get_name H j)
          (λ r _. r ≡ n)
          (λ _ _. Unit)
  name-get_name iface n zi hi zn hn =
      Triple-bind _ _ (new_Triple iface zi hi)
        λ i. Triple-bind _ _ (name_Triple iface n i zn hn) λ j. get_name_Triple n j
