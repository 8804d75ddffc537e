-- ===== src/Storage/Reliable.antt =====
-- storage/src/lib.rs: an engine of which every call answers, while a condition of its database holds.
use knast.Base.{Text, Option, none, some, ◌≡◌, refl, ◌⊎◌, ◌∙◌, sym, ap, arith}
use knast.Base.Exec.{
  Result, ok, err, Triple, Triple-bind, Triple-pure, Triple-lift, Triple-assume, lift, ok-injective,
}
use knast.Storage.{StorageEngine, Codec, get, compare_and_swap, transpose, serialize_option}
use knast.Storage.Contract.{View, update, Contract}
use knast.Storage.Typed.{CodecLaws, Stored, transpose-Stored}

-- Reads succeed, and so do swaps that the contract allows.
pub record Reliable (e : StorageEngine) (C : Contract e) (Up : e.Db → Type 0) : Type 1 where
  pub get_answers :
      (v : View) (t k : Text)
      → Triple
          (λ s. C.Sees v s × Up s)
          (e.get t k)
          (λ o s. (o ≡ v t k) × (C.Sees v s × Up s))
          (λ _ _. ⊥)
  pub swap_answers :
      (v : View) (t k : Text) (old : Option Text) (new : Text)
      → (v t k ≡ old) ⊎ (v t k ≡ none)
      → Triple
          (λ s. C.Sees v s × Up s)
          (e.compare_and_swap t k old (some new))
          (λ _ s. C.Sees (update v t k (some new)) s × Up s)
          (λ _ _. ⊥)

module _ (e : StorageEngine) (C : Contract e) (Up : e.Db → Type 0) (R : Reliable e C Up)
    {A : Type 0} (c : Codec A) (L : CodecLaws c) where
  pub lift_total :
      {B : Type 0} {P : e.Db → Type 0} (r : Result B) (b : B)
      → r ≡ ok b
      → Triple P (lift r) (λ a s. (a ≡ b) × P s) (λ _ _. ⊥)
  lift_total (ok a) b p =
      Triple-lift (ok a) (λ x q s h. (ok-injective x b (sym q ∙ p), h))
        (λ x q s h. absurd (ground arith))
  lift_total (err x) b p = absurd (ground arith)

  pub get_total :
      (v : View) (t k : Text) (o : Option A)
      → Stored c o (v t k)
      → Triple
          (λ s. C.Sees v s × Up s)
          (get e c t k)
          (λ r s. (r ≡ o) × (C.Sees v s × Up s))
          (λ _ _. ⊥)
  unfolding get
  get_total v t k o h = Triple-bind _ _ (R.get_answers v t k) λ x. Triple-assume λ q.
      lift_total (transpose e c x) o (ap (transpose e c) q ∙ transpose-Stored e C c L o (v t k) h)

  serialized_some :
      (a : A) (bytes : Text)
      → c.serialize a ≡ ok bytes
      → serialize_option e c (some a) ≡ ok (some bytes)
  unfolding serialize_option
  serialized_some a bytes q = rw (serialize_option, q) refl

  pub swap_total :
      (v : View) (t k : Text) (old : Option A) (o : Option Text) (a : A) (bytes : Text)
      → serialize_option e c old ≡ ok o
      → (v t k ≡ o) ⊎ (v t k ≡ none)
      → c.serialize a ≡ ok bytes
      → Triple
          (λ s. C.Sees v s × Up s)
          (compare_and_swap e c t k old (some a))
          (λ _ s. C.Sees (update v t k (some bytes)) s × Up s)
          (λ _ _. ⊥)
  unfolding compare_and_swap
  swap_total v t k old o a bytes p h q =
      Triple-bind _ _ (lift_total (serialize_option e c old) o p) λ x. Triple-assume λ x_is.
        Triple-bind _ _
          (lift_total (serialize_option e c (some a)) (some bytes) (serialized_some a bytes q))
          λ y. Triple-assume λ y_is.
            rw (x_is, y_is)
              (Triple-bind {R = λ _ s. C.Sees (update v t k (some bytes)) s × Up s} _ _
                (R.swap_answers v t k o bytes h) λ _. Triple-pure (some a) (λ _ w. w))

  -- The serialized form of a stored value.
  pub serialize_option-Stored :
      (o : Option A) (x : Option Text) → Stored c o x → serialize_option e c o ≡ ok x
  unfolding serialize_option
  serialize_option-Stored none none h = refl
  serialize_option-Stored (some a) (some bytes) h = rw (serialize_option, h) refl
  serialize_option-Stored none (some bytes) h = absurd h
  serialize_option-Stored (some a) none h = absurd h
