-- ===== src/Libknast/Network/Frame.antt =====
-- libknast/src/operations/network.rs: setting up and tearing down a network changes no table but
-- its own, over any engine that keeps the contract.
use knast.Base.{ℕ, zero, suc, Text, text_eq, Option, some, true, false, ◌≡◌, ◌∙◌, if◌then◌else◌}
use knast.Base.Exec.{
  Exec, Error, Result, pure, raise, lift, Triple, Triple-bind, Triple-pure, Triple-lift,
  Triple-weaken, Triple-raise, Triple-match, Triple-option,
}
use knast.Storage.{StorageEngine, Codec}
use knast.Storage
use knast.Storage.Contract.{View, update, Contract, update_ne_tree}
use knast.Storage.Typed.{CodecLaws, read_Triple, swap_Triple}
use knast.Host.{Host}
use knast.Libknast.World.{World, on_db, on_os, db_Triple, os_Triple}
use knast.Libknast.Network.{
  get_address, free_address, reserve_addresses, release_addresses, setup_pair, make_bridge,
  setup_bridge, setup, teardown,
}
use knast.Libknast.AddressPool.{Addresses, ContainerAddressStorage, network_state}
use knast.Base.Heap.{Heap}

module _ (e : StorageEngine) (C : Contract e) (H : Host) (heap_codec : Codec Heap)
    (J : CodecLaws heap_codec) (cache_codec : Codec ContainerAddressStorage)
    (K : CodecLaws cache_codec) (v : View) where
  open C use {Sees}

  -- The database shows a map that is `v` outside the network's table.
  pub record Frame (s : e.Db) : Type 0 where
    pub map : View
    pub sees : Sees map s
    pub others : (t k : Text) → text_eq network_state t ≡ false → map t k ≡ v t k

  abbrev pub Framed : {A : Type 0} → Exec (World e H) A → Type 0
  Framed m = Triple (λ w. Frame w.db) m (λ _ w. Frame w.db) (λ _ w. Frame w.db)

  abbrev pub Inside : {A : Type 0} → Exec e.Db A → Type 0
  Inside m = Triple Frame m (λ _. Frame) (λ _. Frame)

  pub read-Inside :
      {A : Type 0} (c : Codec A) (L : CodecLaws c) (t k : Text) → Inside (Storage.get e c t k)
  read-Inside c L t k = record {
    at = λ s h.
        (Triple-weaken (read_Triple e C c L h.map t k) (λ _ p. p)
            (λ _ _ p. record { map = h.map; sees = p; others = h.others })
            (λ _ _ p. record { map = h.map; sees = p; others = h.others })).at
          s h.sees;
  }

  swap-Inside :
      {A : Type 0} (c : Codec A) (L : CodecLaws c) (k : Text) (old : Option A) (a : A)
      → Inside (Storage.compare_and_swap e c network_state k old (some a))
  swap-Inside c L k old a = record {
    at = λ s h.
        (Triple-weaken (swap_Triple e C c L h.map network_state k old a) (λ _ p. p)
            (λ _ _ p. record {
              map = update h.map network_state k (some p.1.bytes);
              sees = p.1.sees;
              others = λ t l n. update_ne_tree h.map network_state k _ t l n ∙ h.others t l n;
            })
            (λ _ _ p. record { map = h.map; sees = p; others = h.others })).at
          s h.sees;
  }

  pure-Inside : {A : Type 0} (a : A) → Inside (pure a)
  pure-Inside a = Triple-pure a (λ _ h. h)

  lift-Inside : {A : Type 0} (r : Result A) → Inside (lift r)
  lift-Inside r = Triple-lift r (λ _ _ _ h. h) (λ _ _ _ h. h)

  raise-Inside : {A : Type 0} (x : Error) → Triple Frame (raise x) (λ (a : A). Frame) (λ _. Frame)
  raise-Inside x = Triple-raise x (λ _ h. h)

  get_address-Inside : (fuel : ℕ) → Inside (get_address e H heap_codec cache_codec fuel)
  unfolding get_address
  get_address-Inside zero = raise-Inside _
  get_address-Inside (suc fuel) = Triple-bind _ _ (read-Inside heap_codec J _ _) λ maybe_heap.
      Triple-option maybe_heap _ _
        (Triple-bind _ _ (swap-Inside heap_codec J _ _ _) λ _. get_address-Inside fuel)
        (λ heap. Triple-bind _ _ (lift-Inside _) λ taken.
          Triple-match _ _ _ (swap-Inside heap_codec J _ _ _) (λ _. pure-Inside _)
            (λ _. get_address-Inside fuel))

  free_address-Inside :
      (fuel address : ℕ) → Inside (free_address e H heap_codec cache_codec fuel address)
  unfolding free_address
  free_address-Inside zero address = raise-Inside _
  free_address-Inside (suc fuel) address =
      Triple-bind _ _ (read-Inside heap_codec J _ _) λ maybe_heap.
        Triple-option maybe_heap _ _
          (Triple-bind _ _ (swap-Inside heap_codec J _ _ _) λ _. free_address-Inside fuel address)
          (λ heap.
            Triple-match _ _ _ (swap-Inside heap_codec J _ _ _) (λ _. pure-Inside _)
              (λ _. free_address-Inside fuel address))

  reserve-Inside :
      (fuel : ℕ) (key : Text) (a : Addresses)
      → Inside (reserve_addresses e H heap_codec cache_codec fuel key a)
  unfolding reserve_addresses
  reserve-Inside zero key a = raise-Inside _
  reserve-Inside (suc fuel) key a = Triple-bind _ _ (read-Inside cache_codec K _ _) λ maybe_cache.
      Triple-option maybe_cache _ _
        (Triple-bind _ _ (swap-Inside cache_codec K _ _ _) λ _. reserve-Inside fuel key a)
        (λ cache.
          Triple-match _ _ _ (swap-Inside cache_codec K _ _ _) (λ _. pure-Inside _)
            (λ _. reserve-Inside fuel key a))

  release-Inside :
      (fuel : ℕ) (key : Text) → Inside (release_addresses e H heap_codec cache_codec fuel key)
  unfolding release_addresses
  release-Inside zero key = raise-Inside _
  release-Inside (suc fuel) key = Triple-bind _ _ (read-Inside cache_codec K _ _) λ maybe_cache.
      Triple-option maybe_cache _ _
        (Triple-bind _ _ (swap-Inside cache_codec K _ _ _) λ _. release-Inside fuel key)
        (λ cache.
          Triple-match _ _ _ (swap-Inside cache_codec K _ _ _) (λ _. pure-Inside _)
            (λ _. release-Inside fuel key))

  pub db-Framed : {A : Type 0} (m : Exec e.Db A) → Inside m → Framed (on_db m)
  db-Framed m t = db_Triple m t

  pub os-Framed : {A : Type 0} (m : Exec H.Os A) → Framed (on_os m)
  os-Framed m = os_Triple Frame m

  pub lift-Framed : {A : Type 0} (r : Result A) → Framed (lift r)
  lift-Framed r = Triple-lift r (λ _ _ _ h. h) (λ _ _ _ h. h)

  pub pure-Framed : {A : Type 0} (a : A) → Framed (pure a)
  pure-Framed a = Triple-pure a (λ _ h. h)

  setup_pair-Framed :
      (fuel : ℕ) (key : Text) (jail : H.Jail)
      → Framed (setup_pair e H heap_codec cache_codec fuel key jail)
  unfolding setup_pair
  setup_pair-Framed fuel key jail = Triple-bind _ _ (db-Framed _ (get_address-Inside fuel)) λ host.
      Triple-bind _ _ (db-Framed _ (get_address-Inside fuel)) λ container.
        Triple-bind _ _ (os-Framed _) λ _. Triple-bind _ _ (os-Framed _) λ _.
          Triple-bind _ _ (os-Framed _) λ pair_a. Triple-bind _ _ (os-Framed _) λ name.
            Triple-bind _ _ (Triple-lift _ (λ _ _ _ f. f) (λ _ _ _ f. f)) λ name_b.
              Triple-bind _ _ (db-Framed _ (reserve-Inside fuel key _)) λ _.
                Triple-bind _ _ (os-Framed _) λ _.
                  Triple-bind _ _ (os-Framed _)
                    λ _. Triple-bind _ _ (os-Framed _) λ _. pure-Framed pair_a

  setup_bridge-Framed : (fuel : ℕ) → Framed (setup_bridge e H heap_codec cache_codec fuel)
  unfolding setup_bridge make_bridge
  setup_bridge-Framed fuel = Triple-bind _ _ (os-Framed _) λ bridge.
      Triple-bind _ _ (os-Framed _) λ there.
        elim there
          as (λ there.
            Framed (if there then pure bridge else make_bridge e H heap_codec cache_codec fuel)) [
              | true ↦ pure-Framed bridge
              | false ↦ Triple-bind _ _ (db-Framed _ (get_address-Inside fuel)) λ _.
                  Triple-bind _ _ (os-Framed _) λ _.
                    Triple-bind _ _ (os-Framed _)
                      λ _. Triple-bind _ _ (os-Framed _) λ _. os-Framed _
            ]

  -- The setup of a network changes no cell outside its own table, whether it succeeds or fails.
  pub setup-Framed :
      (fuel : ℕ) (key : Text) (jail : H.Jail) (nat : Option Text)
      → Framed (setup e H heap_codec cache_codec fuel key jail nat)
  unfolding setup
  setup-Framed fuel key jail nat = Triple-bind _ _ (setup_bridge-Framed fuel) λ bridge.
      Triple-bind _ _ (setup_pair-Framed fuel key jail)
        λ host. Triple-bind _ _ (os-Framed _) λ _. Triple-bind _ _ (os-Framed _) λ _. os-Framed _

  pub teardown-Framed :
      (fuel : ℕ) (key : Text) → Framed (teardown e H heap_codec cache_codec fuel key)
  unfolding teardown
  teardown-Framed fuel key = Triple-bind _ _ (db-Framed _ (read-Inside cache_codec K _ _)) λ _.
      Triple-bind _ _ (lift-Framed _) λ _. Triple-bind _ _ (lift-Framed _) λ addresses.
        Triple-bind _ _ (os-Framed _) λ _. Triple-bind _ _ (os-Framed _) λ _.
          Triple-bind _ _ (db-Framed _ (release-Inside fuel key)) λ _.
            Triple-bind _ _ (db-Framed _ (free_address-Inside fuel _))
              λ _. db-Framed _ (free_address-Inside fuel _)
