-- ===== src/Libknast/Network/Pool/Fuel.antt =====
-- libknast/src/operations/network.rs: how often a loop on the pool runs where the engine answers.
use knast.Base.{ℕ, suc, Text, Option, none, some, ◌≡◌, refl, inl, sym, subst}
use knast.Base.Exec.{
  Result, ok, Triple, Triple-bind, Triple-pure, Triple-weaken, Triple-assume, Triple-match,
}
use knast.Storage.{StorageEngine, Codec}
use knast.Storage.Contract.{View, update, Contract, update_self, update-update}
use knast.Storage.Typed.{CodecLaws, Stored}
use knast.Storage.Reliable.{Reliable, lift_total, get_total, swap_total, serialize_option-Stored}
use knast.Host.{Host}
use knast.Netzwerk.Range
use knast.Libknast.AddressPool.{
  ContainerAddressStorage, network_state, default_network, default_range, take_address,
}
use knast.Base.Heap.{Heap}
use knast.Libknast.Network.{get_address}
use knast.Libknast.Network.Pool.{or_first, retry, step, get_address-retry}

module _ (e : StorageEngine) (C : Contract e) (Up : e.Db → Type 0) (R : Reliable e C Up)
    {A B : Type 0} (c : Codec A) (L : CodecLaws c) (t k : Text) (first : A)
    (f : A → Result (B × A)) where
  -- The cell holds `a`: one round is enough.
  retry_once :
      (fuel : ℕ) (v : View) (a : A) (b : B) (a' : A) (bytes : Text)
      → Stored c (some a) (v t k)
      → f a ≡ ok (b, a')
      → c.serialize a' ≡ ok bytes
      → Triple
          (λ s. C.Sees v s × Up s)
          (retry e c t k first f (suc fuel))
          (λ r s. (r ≡ b) × (C.Sees (update v t k (some bytes)) s × Up s))
          (λ _ _. ⊥)
  unfolding retry step
  retry_once fuel v a b a' bytes h is ser =
      Triple-bind _ _ (get_total e C Up R c L v t k (some a) h) λ found. Triple-assume λ q. rw q (
        rw is (
          Triple-bind {R = λ r s. (r ≡ (b, a')) × (C.Sees v s × Up s)} _ _
            (lift_total e C Up R c L (ok (b, a')) (b, a') refl)
            λ r. Triple-assume λ r_is. rw r_is (
              Triple-match _ _ _
                (swap_total e C Up R c L v t k (some a) (v t k) a' bytes
                  (serialize_option-Stored e C Up R c L (some a) (v t k) h) (inl refl) ser)
                (λ _. Triple-pure b (λ s w. (refl, w))) (λ _. record { at = λ s x. absurd x }))))

  -- The cell is empty or full: two rounds are enough.
  retry_twice :
      (fuel : ℕ) (v : View) (o : Option A) (b : B) (a' : A) (first_bytes bytes : Text)
      → Stored c o (v t k)
      → f (or_first first o) ≡ ok (b, a')
      → c.serialize first ≡ ok first_bytes
      → c.serialize a' ≡ ok bytes
      → Triple
          (λ s. C.Sees v s × Up s)
          (retry e c t k first f (suc (suc fuel)))
          (λ r s. (r ≡ b) × (C.Sees (update v t k (some bytes)) s × Up s))
          (λ _ _. ⊥)
  unfolding retry step
  retry_twice fuel v (some a) b a' first_bytes bytes h is fser ser =
      retry_once (suc fuel) v a b a' bytes h is ser
  retry_twice fuel v none b a' first_bytes bytes h is fser ser =
      Triple-bind _ _ (get_total e C Up R c L v t k none h) λ found. Triple-assume λ q. rw q (
        Triple-bind {R = λ _ s. C.Sees (update v t k (some first_bytes)) s × Up s} _ _
          (swap_total e C Up R c L v t k none (v t k) first first_bytes
            (serialize_option-Stored e C Up R c L none (v t k) h) (inl refl) fser)
          λ _.
            Triple-weaken
              (retry_once fuel (update v t k (some first_bytes)) first b a' bytes
                (subst (Stored c (some first)) (sym (update_self v t k (some first_bytes))) fser) is
                ser)
              (λ _ w. w)
              (λ _ s w. (
                w.0,
                (
                  subst (λ u. C.Sees u s) (update-update v t k (some first_bytes) (some bytes))
                      w.1.0,
                  w.1.1,
                ),
              ))
              (λ _ _ w. w))

module _ (e : StorageEngine) (C : Contract e) (Up : e.Db → Type 0) (R : Reliable e C Up) (H : Host)
    (heap_codec : Codec Heap) (L : CodecLaws heap_codec)
    (cache_codec : Codec ContainerAddressStorage) where
  -- Where the engine answers, heaps serialize and the pool is not exhausted, get_address returns
  -- the address that the pool gives and stores the rest, in at most two rounds.
  pub get_address_total :
      (fuel : ℕ) (v : View) (o : Option Heap) (address : ℕ) (rest : Heap) (range_bytes bytes : Text)
      → Stored heap_codec o (v network_state default_network)
      → take_address (or_first (Range.range H.ip default_range) o) ≡ ok (address, rest)
      → heap_codec.serialize (Range.range H.ip default_range) ≡ ok range_bytes
      → heap_codec.serialize rest ≡ ok bytes
      → Triple
          (λ s. C.Sees v s × Up s)
          (get_address e H heap_codec cache_codec (suc (suc fuel)))
          (λ r s.
            (r ≡ address) × (C.Sees (update v network_state default_network (some bytes)) s × Up s))
          (λ _ _. ⊥)
  get_address_total fuel v o address rest range_bytes bytes h is rser ser =
      subst
        (λ m.
          Triple (λ s. C.Sees v s × Up s) m
            (λ r s.
              (r ≡ address)
              × (C.Sees (update v network_state default_network (some bytes)) s × Up s))
            (λ _ _. ⊥))
        (sym (get_address-retry e H heap_codec cache_codec (suc (suc fuel))))
        (retry_twice e C Up R heap_codec L network_state default_network
          (Range.range H.ip default_range) take_address fuel v o address rest range_bytes bytes h is
          rser ser)
