-- ===== src/Libknast/Network/Pool.antt =====
-- libknast/src/operations/network.rs: the loops that take, return and record addresses, over any
-- engine that keeps the contract. They are instances of one loop.
pub mod Fuel
use knast.Base.{ℕ, zero, suc, Text, Option, none, some, [], ◌≡◌, refl, ◌⊎◌, inl, inr, ap}
use knast.Base.Exec.{
  Exec, exhausted, Result, ok, pure, lift, raise, match_result, ◌>>=◌, ◌>>◌, Triple, Triple-bind,
  Triple-pure, Triple-weaken, Triple-bind-lift, Triple-raise, Triple-assume, Triple-match,
}
use knast.Storage.{StorageEngine, Codec}
use knast.Storage
use knast.Storage.Contract.{View, update, Contract}
use knast.Storage.Typed.{
  CodecLaws, Stored, Writes, get_Triple, swap_Triple, Writes-Stored, Writes-over,
}
use knast.Host.{Host}
use knast.Netzwerk.Range
use knast.Libknast.Network.{get_address, free_address, reserve_addresses, release_addresses}
use knast.Libknast.AddressPool.{
  ContainerAddressStorage, Addresses, network_state, default_network, default_range,
  container_address, take_address, insert, remove,
}
use knast.Base.Heap.{Heap, push}

-- What a cell holds, or its first value.
abbrev pub or_first : {A : Type 0} → A → Option A → A
or_first first none = first
or_first first (some a) = a

module _ (e : StorageEngine) {A B : Type 0} (c : Codec A) (t k : Text) (first : A)
    (f : A → Result (B × A)) where
  -- Read the cell, fill it if it is empty, and swap in what `f` makes of it; or do it again.
  step : Exec e.Db B → Exec e.Db B
  step again = do
    found ← Storage.get e c t k
    elim found [
      | some a ↦ (do
        (b, a') ← lift (f a)
        match_result (Storage.compare_and_swap e c t k (some a) (some a')) (λ _. pure b)
            (λ _. again))
      | none ↦ (do Storage.compare_and_swap e c t k none (some first); again)
    ]

  pub retry : ℕ → Exec e.Db B
  unfolding step
  retry zero = raise exhausted
  retry (suc fuel) = step (retry fuel)

module _ (e : StorageEngine) (C : Contract e) {A B : Type 0} (c : Codec A) (L : CodecLaws c)
    (t k : Text) (first : A) (f : A → Result (B × A)) where
  open C use {Sees}

  -- A failed loop has at most filled the cell.
  abbrev pub Filled : View → Option A → e.Db → Type 0
  Filled v o s = Sees v s ⊎ Writes e C c L v t k (or_first first o) s

  pub retry_Triple :
      (fuel : ℕ) (v : View) (o : Option A)
      → Stored c o (v t k)
      → Triple
          (Sees v)
          (retry e c t k first f fuel)
          (λ b s. (a : A) × (f (or_first first o) ≡ ok (b, a)) × Writes e C c L v t k a s)
          (λ _. Filled v o)
  unfolding retry step
  retry_Triple zero v o h = Triple-raise exhausted (λ _ s. inl s)
  retry_Triple (suc fuel) v none h =
      Triple-bind _ _
        (Triple-weaken (get_Triple e C c L v t k none h) (λ _ s. s) (λ _ _ s. s) (λ _ _ s. inl s))
        λ found. Triple-assume λ q. rw q (
          Triple-bind _ _
            (Triple-weaken (swap_Triple e C c L v t k none first) (λ _ s. s) (λ _ _ s. s.1)
              (λ _ _ s. inl s))
            λ _. record {
              at = λ s w.
                  (Triple-weaken
                      (retry_Triple fuel (update v t k (some w.bytes)) (some first)
                        (Writes-Stored e C c L v t k first w.bytes w.serialized))
                      (λ _ s. s) (λ _ s r. (r.0, r.1, Writes-over e C c L v t k _ r.0 s r.2))
                      (λ _ s r. inr (elim r [
                        | inl sees ↦ record {
                          bytes = w.bytes;
                          serialized = w.serialized;
                          sees = sees;
                        }
                        | inr more ↦ Writes-over e C c L v t k _ first s more
                      ]))).at
                    s w.sees;
            })
  retry_Triple (suc fuel) v (some a) h =
      Triple-bind _ _
        (Triple-weaken (get_Triple e C c L v t k (some a) h) (λ _ s. s) (λ _ _ s. s)
          (λ _ _ s. inl s))
        λ found. Triple-assume λ q. rw q (
          Triple-bind-lift (f a) _
            (λ r is.
              Triple-match _ _ _ (swap_Triple e C c L v t k (some a) r.1)
                (λ _. Triple-pure r.0 (λ s w. (r.1, is, w.1)))
                (λ _. retry_Triple fuel v (some a) h))
            (λ _ _ s p. inl p))

module _ (e : StorageEngine) (H : Host) (heap_codec : Codec Heap)
    (cache_codec : Codec ContainerAddressStorage) where
  pub get_address-retry :
      (fuel : ℕ)
      → get_address e H heap_codec cache_codec fuel
        ≡ retry e heap_codec network_state default_network
            (Range.range H.ip default_range)
            take_address
            fuel
  unfolding get_address retry step
  get_address-retry zero = refl
  get_address-retry (suc fuel) =
      ap
        (step e heap_codec network_state default_network (Range.range H.ip default_range)
          take_address)
        (get_address-retry fuel)

  -- Returning an address pushes it.
  abbrev pub give : ℕ → Heap → Result ((Unit {0}) × Heap)
  give address heap = ok (tt, push address heap)

  pub free_address-retry :
      (fuel address : ℕ)
      → free_address e H heap_codec cache_codec fuel address
        ≡ retry e heap_codec network_state default_network
            (Range.range H.ip default_range)
            (give address)
            fuel
  unfolding free_address retry step lift ◌>>=◌
  free_address-retry zero address = refl
  free_address-retry (suc fuel) address =
      ap
        (step e heap_codec network_state default_network (Range.range H.ip default_range)
          (give address))
        (free_address-retry fuel address)

  -- Recording a container's addresses inserts them.
  abbrev pub record_as :
      Text → Addresses → ContainerAddressStorage → Result ((Unit {0}) × ContainerAddressStorage)
  record_as key addresses cache = ok (tt, insert key addresses cache)

  pub reserve-retry :
      (fuel : ℕ) (key : Text) (addresses : Addresses)
      → reserve_addresses e H heap_codec cache_codec fuel key addresses
        ≡ retry e cache_codec network_state container_address [] (record_as key addresses) fuel
  unfolding reserve_addresses retry step lift ◌>>=◌
  reserve-retry zero key addresses = refl
  reserve-retry (suc fuel) key addresses =
      ap (step e cache_codec network_state container_address [] (record_as key addresses))
        (reserve-retry fuel key addresses)

  abbrev pub forget : Text → ContainerAddressStorage → Result ((Unit {0}) × ContainerAddressStorage)
  forget key cache = ok (tt, remove key cache)

  pub release-retry :
      (fuel : ℕ) (key : Text)
      → release_addresses e H heap_codec cache_codec fuel key
        ≡ retry e cache_codec network_state container_address [] (forget key) fuel
  unfolding release_addresses retry step lift ◌>>=◌
  release-retry zero key = refl
  release-retry (suc fuel) key =
      ap (step e cache_codec network_state container_address [] (forget key))
        (release-retry fuel key)
