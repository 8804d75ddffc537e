-- ===== src/Storage/Typed.antt =====
-- storage/src/lib.rs, `Storage`: what its methods do to typed cells, over any engine that keeps
-- the contract.
use knast.Base.{Text, Option, none, some, ◌≡◌, refl, ◌⊎◌, inl, inr, ◌∙◌, arith, subst}
use knast.Base.Exec.{
  Triple-bind-lift, ok, Triple, Triple-bind, Triple-pure, Triple-lift, Triple-weaken, ◌>>◌,
  Result-cases,
}
use knast.Storage.{
  StorageEngine, Codec, transpose, serialize_option, get, put, compare_and_swap, exists, flush,
  remove,
}
use knast.Storage.Contract.{View, update, Contract, is_some, update_self, update-update}

-- What bincode promises: a value that serializes comes back.
pub record CodecLaws {A : Type 0} (c : Codec A) : Type 0 where
  pub deserialize-serialize :
      (a : A) (bytes : Text) → c.serialize a ≡ ok bytes → c.deserialize bytes ≡ ok a

-- A cell that holds the serialized form of an optional value.
abbrev pub Stored : {A : Type 0} → Codec A → Option A → Option Text → Type 0
Stored c none none = Unit
Stored c (some a) (some bytes) = c.serialize a ≡ ok bytes
Stored c none (some bytes) = ⊥
Stored c (some a) none = ⊥

module _ (e : StorageEngine) (C : Contract e) where
  -- The untyped methods pass on what the engine promises.
  pub exists_Triple :
      (v : View) (t k : Text)
      → Triple (C.Sees v) (exists e t k) (λ b s. (b ≡ is_some (v t k)) × C.Sees v s) (λ _. C.Sees v)
  unfolding exists
  exists_Triple v t k = C.exists_Triple v t k

  pub remove_Triple :
      (v : View) (t k : Text)
      → Triple (C.Sees v) (remove e t k) (λ _. C.Sees (update v t k none)) (λ _. C.Sees v)
  unfolding remove
  remove_Triple v t k = C.remove_Triple v t k

  pub flush_Triple : (v : View) → Triple (C.Sees v) (flush e) (λ _. C.Sees v) (λ _. C.Sees v)
  unfolding flush
  flush_Triple v = C.flush_Triple v

-- A cell that reads as an optional value.
abbrev pub Reads : {A : Type 0} → Codec A → Option Text → Option A → Type 0
Reads c x none = x ≡ none
Reads c x (some a) = (bytes : Text) × (x ≡ some bytes) × (c.deserialize bytes ≡ ok a)

module _ (e : StorageEngine) (C : Contract e) {A : Type 0} (c : Codec A) where
  transpose-Reads : (x : Option Text) (r : Option A) → transpose e c x ≡ ok r → Reads c x r
  unfolding transpose
  transpose-Reads none none p = refl
  transpose-Reads none (some a) p = absurd (ground arith)
  transpose-Reads (some bytes) none p = elim (Result-cases (c.deserialize bytes)) [
    | inl q ↦ absurd (ground (arith, q.1))
    | inr q ↦ absurd (ground (arith, q.1))
  ]
  transpose-Reads (some bytes) (some a) p = (
    bytes,
    refl,
    elim (Result-cases (c.deserialize bytes)) [
      | inl q ↦ ground (arith, q.1)
      | inr q ↦ absurd (ground (arith, q.1))
    ],
  )

  -- A read returns what the cell reads as, whatever it is, or fails; it changes nothing.
  pub get_any :
      (v : View) (t k : Text)
      → Triple (C.Sees v) (get e c t k) (λ r s. Reads c (v t k) r × C.Sees v s) (λ _. C.Sees v)
  unfolding get
  get_any v t k = Triple-bind _ _ (C.get_Triple v t k) λ x.
      Triple-lift (transpose e c x)
        (λ r p s q. (subst (λ y. Reads c y r) q.0 (transpose-Reads x r p), q.1)) (λ _ _ s q. q.1)

module _ (e : StorageEngine) (C : Contract e) {A : Type 0} (c : Codec A) (L : CodecLaws c) where
  open C use {Sees}

  -- From the map `v`: the cell (t, k) now holds `a`, and the others are as they were.
  pub record Writes (v : View) (t k : Text) (a : A) (s : e.Db) : Type 0 where
    pub bytes : Text
    pub serialized : c.serialize a ≡ ok bytes
    pub sees : Sees (update v t k (some bytes)) s

  pub transpose-Stored : (o : Option A) (x : Option Text) → Stored c o x → transpose e c x ≡ ok o
  unfolding transpose
  transpose-Stored none none h = refl
  transpose-Stored (some a) (some bytes) h = rw (L.deserialize-serialize a bytes h, transpose) refl
  transpose-Stored none (some bytes) h = absurd h
  transpose-Stored (some a) none h = absurd h

  -- A read returns the value of the cell, or fails; it changes nothing.
  pub get_Triple :
      (v : View) (t k : Text) (o : Option A)
      → Stored c o (v t k)
      → Triple (Sees v) (get e c t k) (λ r s. (r ≡ o) × Sees v s) (λ _. Sees v)
  unfolding get
  get_Triple v t k o h =
      Triple-bind _ _ (C.get_Triple v t k)
        λ x. Triple-lift (transpose e c x) (λ r p s q. (reads x r (q.0) p, q.1)) (λ _ _ s q. q.1)
    where
      reads : (x : Option Text) (r : Option A) → x ≡ v t k → transpose e c x ≡ ok r → r ≡ o
      reads x r q p = cc (transpose-Stored o (v t k) h, q, p)

  serialize_lem :
      (a : A) (x : Option Text)
      → serialize_option e c (some a) ≡ ok x
      → (bytes : Text) × (x ≡ some bytes) × (c.serialize a ≡ ok bytes)
  unfolding serialize_option
  serialize_lem a x h = elim (Result-cases (c.serialize a)) [
    | inl r ↦ (r.0, ground (arith, r.1), r.1)
    | inr r ↦ absurd (ground (arith, r.1))
  ]

  -- A write leaves the serialized value in the cell, or fails and changes nothing.
  pub put_Triple :
      (v : View) (t k : Text) (a : A)
      → Triple (Sees v) (put e c t k a) (λ r s. (r ≡ a) × Writes v t k a s) (λ _. Sees v)
  unfolding put
  put_Triple v t k a =
      Triple-bind-lift (c.serialize a) _
        (λ bytes p.
          Triple-bind _ _ (C.put_Triple v t k bytes)
            λ _. Triple-pure a (λ s h. (refl, record { bytes = bytes; serialized = p; sees = h })))
        (λ _ _ s h. h)

  -- The cell takes a swap from this value.
  abbrev pub Accepts : Option A → Option Text → Type 0
  Accepts none x = x ≡ none
  Accepts (some a) x = ((bytes : Text) × (c.serialize a ≡ ok bytes) × (x ≡ some bytes)) ⊎ (x ≡ none)

  accepted :
      (old : Option A) (o : Option Text) (x : Option Text)
      → serialize_option e c old ≡ ok o
      → (x ≡ o) ⊎ (x ≡ none)
      → Accepts old x
  unfolding serialize_option
  accepted none o x p (inl q) = cc
  accepted none o x p (inr q) = q
  accepted (some a) o x p (inr q) = inr q
  accepted (some a) o x p (inl q) = let (bytes, r, h) = serialize_lem a o p in inl (bytes, h, q ∙ r)

  -- A swap writes the new value if the cell takes the swap, or fails and changes nothing.
  pub swap_Triple :
      (v : View) (t k : Text) (old : Option A) (a : A)
      → Triple
          (Sees v)
          (compare_and_swap e c t k old (some a))
          (λ _ s. Accepts old (v t k) × Writes v t k a s)
          (λ _. Sees v)
  unfolding compare_and_swap
  swap_Triple v t k old a =
      Triple-bind-lift (serialize_option e c old) _
        (λ o p.
          Triple-bind-lift (serialize_option e c (some a)) _
            (λ x q.
              let (bytes, r, h) = serialize_lem a x q in
              rw r (
                Triple-bind _ _ (C.swap_Triple v t k o bytes) λ _. Triple-pure (some a) (λ s w. (
                  accepted old o (v t k) p w.0,
                  record { bytes = bytes; serialized = h; sees = w.1 },
                ))))
            (λ _ _ s h. h))
        (λ _ _ s h. h)

  -- A read changes nothing, whatever the cell holds.
  pub read_Triple :
      (v : View) (t k : Text) → Triple (Sees v) (get e c t k) (λ _. Sees v) (λ _. Sees v)
  unfolding get
  read_Triple v t k =
      Triple-bind _ _ (C.get_Triple v t k)
        λ x. Triple-lift (transpose e c x) (λ _ _ s q. q.1) (λ _ _ s q. q.1)

  -- The value that was written is in its cell.
  pub Writes-Stored :
      (v : View) (t k : Text) (a : A) (bytes : Text)
      → c.serialize a ≡ ok bytes
      → Stored c (some a) (update v t k (some bytes) t k)
  Writes-Stored v t k a bytes h = rw (update_self v t k (some bytes)) h

  -- A second write of a cell stands for the first.
  pub Writes-over :
      (v : View) (t k : Text) (x : Option Text) (a : A) (s : e.Db)
      → Writes (update v t k x) t k a s
      → Writes v t k a s
  Writes-over v t k x a s w = record {
    bytes = w.bytes;
    serialized = w.serialized;
    sees = subst (λ u. Sees u s) (update-update v t k x (some w.bytes)) w.sees;
  }

  -- Over any engine that keeps the contract, the value that was put is the value that is read
  -- next, if both calls succeed.
  pub put-get :
      (v : View) (t k : Text) (a : A)
      → Triple (Sees v) (put e c t k a >> get e c t k) (λ r _. r ≡ some a) (λ _ _. Unit)
  put-get v t k a =
      Triple-bind _ _ (Triple-weaken (put_Triple v t k a) (λ _ s. s) (λ _ _ s. s.1) (λ _ _ _. tt))
        λ _. record {
          at = λ s w.
              (Triple-weaken
                  (get_Triple (update v t k (some w.bytes)) t k (some a)
                    (Writes-Stored v t k a w.bytes w.serialized))
                  (λ _ p. p) (λ _ _ p. p.0) (λ _ _ _. tt)).at
                s w.sees;
        }
