-- ===== src/Libknast/Network.antt =====
-- libknast/src/operations/network.rs and operations/utils.rs: the addresses and interfaces of
-- containers.
pub mod Pool
pub mod Frame
pub mod Allocation
pub mod Fork
use knast.Base.{
  ℕ, zero, suc, ◌+◌, ◌-◌, Text, codes, text_eq, Option, none, some, Bool, List, [], ◌∷◌, ◌++◌,
  if◌then◌else◌, ltb, ◌==◌, take, length,
}
use knast.Base.Exec.{
  Exec, Error, message, exhausted, panic, Result, ok, err, pure, lift, raise, ok_or, attempt,
  match_result, ◌>>=◌, ◌>>◌,
}
use knast.Base.Int.{ℤ, pos}
use knast.Storage
use knast.Storage.{StorageEngine, Codec}
use knast.Host.{Host, WaitStatus, exited, other}
use knast.Netzwerk.Range
use knast.Netzwerk.Range.{Network}
use knast.Netzwerk.Interface
use knast.Netzwerk.Interface.{Interface}
use knast.Netzwerk.Pf
use knast.Netzwerk.Route
use knast.Libknast.World.{World, on_db, on_os}
use knast.Libknast.AddressPool.{
  Addresses, ContainerAddressStorage, container_address, default_network, default_range, insert,
  lookup, network_state, remove, take_address,
}
use knast.Base.Heap.{Heap, pop, push}

abbrev pub default_bridge : Text
default_bridge = codes "knast0"

no_network_state : Error
no_network_state = message (codes "Failed to read network state data")

module _ (e : StorageEngine) (H : Host) (heap_codec : Codec Heap)
    (cache_codec : Codec ContainerAddressStorage) where
  -- The retry after a failed swap has fuel.
  pub get_address : ℕ → Exec e.Db ℕ
  get_address zero = raise exhausted
  get_address (suc fuel) = do
    maybe_heap ← Storage.get e heap_codec network_state default_network
    elim maybe_heap [
      | some heap ↦ (do
        (address, new_heap) ← lift (take_address heap)
        match_result
            (Storage.compare_and_swap e heap_codec network_state default_network (some heap)
              (some new_heap))
            (λ _. pure address) (λ _. get_address fuel))
      | none ↦ (do
        Storage.compare_and_swap e heap_codec network_state default_network none
            (some (Range.range H.ip default_range))
        get_address fuel)
    ]

  pub free_address : ℕ → ℕ → Exec e.Db (Unit {0})
  free_address zero address = raise exhausted
  free_address (suc fuel) address = do
    maybe_heap ← Storage.get e heap_codec network_state default_network
    elim maybe_heap [
      | some heap ↦
          match_result
            (Storage.compare_and_swap e heap_codec network_state default_network (some heap)
              (some (push address heap)))
            (λ _. pure tt) (λ _. free_address fuel address)
      | none ↦ (do
        Storage.compare_and_swap e heap_codec network_state default_network none
            (some (Range.range H.ip default_range))
        free_address fuel address)
    ]

  pub reserve_addresses : ℕ → Text → Addresses → Exec e.Db (Unit {0})
  reserve_addresses zero key addresses = raise exhausted
  reserve_addresses (suc fuel) key addresses = do
    maybe_cache ← Storage.get e cache_codec network_state container_address
    elim maybe_cache [
      | some cache ↦
          match_result
            (Storage.compare_and_swap e cache_codec network_state container_address (some cache)
              (some (insert key addresses cache)))
            (λ _. pure tt) (λ _. reserve_addresses fuel key addresses)
      | none ↦ (do
        Storage.compare_and_swap e cache_codec network_state container_address none (some [])
        reserve_addresses fuel key addresses)
    ]

  pub release_addresses : ℕ → Text → Exec e.Db (Unit {0})
  release_addresses zero key = raise exhausted
  release_addresses (suc fuel) key = do
    maybe_cache ← Storage.get e cache_codec network_state container_address
    elim maybe_cache [
      | some cache ↦
          match_result
            (Storage.compare_and_swap e cache_codec network_state container_address (some cache)
              (some (remove key cache)))
            (λ _. pure tt) (λ _. release_addresses fuel key)
      | none ↦ (do
        Storage.compare_and_swap e cache_codec network_state container_address none (some [])
        release_addresses fuel key)
    ]

  fork_failed : Error
  fork_failed = message (codes "Forked process failed unexpectedly. Check logs")

  unexpected_status : Error
  unexpected_status = message (codes "unexpected status")

  -- The result that the child writes; a child that panics writes none and does not exit with 0.
  told : {A : Type 0} → Result A → Exec H.Os A
  unfolding unexpected_status
  told (ok a) = pure a
  told (err panic) = raise unexpected_status
  told (err x) = raise x

  -- `read_line` and `from_str` of the parent may fail.
  child_result : {A : Type 0} → WaitStatus → Result A → Exec H.Os A
  unfolding fork_failed unexpected_status told
  child_result other result = raise unexpected_status
  child_result (exited (pos code)) result =
      if code == 0
      then (H.read_child >>= λ _. told result)
      else if code == 15
      then raise fork_failed
      else raise unexpected_status
  child_result (exited code) result = raise unexpected_status

  -- The child runs the closure and exits; the parent reads its result if it exited with 0.
  pub run_in_fork : {A : Type 0} → Exec H.Os A → Exec H.Os A
  unfolding child_result
  run_in_fork f = do H.fork; result ← attempt f; status ← H.wait_child; child_result status result

  -- `[&name[..len - 1], "b"].join("")`: an empty name has no last byte: a panic.
  abbrev peer : Text → Result Text
  peer [] = err panic
  peer (c ∷ name) = ok (take (length name) (c ∷ name) ++ codes "b")

  in_jail : H.Jail → Text → Addresses → Exec H.Os (Unit {0})
  in_jail jail name_b addresses = do
    H.attach jail
    pair_b ← Interface.new H name_b
    Interface.address H pair_b addresses.container (Range.broadcast H.ip default_range)
        (Range.mask H.ip default_range)
    Route.add_default H addresses.host

  -- The ends of the pair: one stays on the host, the other goes into the jail.
  pub setup_pair : ℕ → Text → H.Jail → Exec (World e H) Interface
  unfolding in_jail
  setup_pair fuel key jail = do
    host_address ← on_db (get_address fuel)
    container_address ← on_db (get_address fuel)
    pair_new ← on_os (Interface.new H (codes "epair"))
    pair_made ← on_os (Interface.create H pair_new)
    pair_a ← on_os (
        Interface.address H pair_made host_address (Range.broadcast H.ip default_range)
          (Range.mask H.ip default_range))
    name ← on_os (Interface.get_name H pair_a)
    let addresses : Addresses = record {
      interface = name;
      host = host_address;
      container = container_address;
    }
    name_b ← lift (peer name)
    on_db (reserve_addresses fuel key addresses)
    pair_b ← on_os (Interface.new H name_b)
    on_os (Interface.vnet H pair_b (H.jid jail))
    on_os (run_in_fork (in_jail jail name_b addresses))
    pure pair_a

  make_bridge : ℕ → Exec (World e H) Interface
  make_bridge fuel = do
    bridge_address ← on_db (get_address fuel)
    bridge_new ← on_os (Interface.new H (codes "bridge"))
    bridge_made ← on_os (Interface.create H bridge_new)
    bridge ← on_os (Interface.name H bridge_made default_bridge)
    on_os (
        Interface.address H bridge bridge_address (Range.broadcast H.ip default_range)
          (Range.mask H.ip default_range))

  pub setup_bridge : ℕ → Exec (World e H) Interface
  unfolding make_bridge
  setup_bridge fuel = do
    bridge ← on_os (Interface.new H default_bridge)
    there ← on_os (Interface.exists H bridge)
    if there then pure bridge else make_bridge fuel

  setup_nat : Option Text → Exec H.Os (Unit {0})
  setup_nat none = pure tt
  setup_nat (some interface) = do Pf.new H interface; Pf.add H default_range

  pub setup : ℕ → Text → H.Jail → Option Text → Exec (World e H) (Unit {0})
  unfolding setup_nat
  setup fuel key jail nat_interface = do
    bridge ← setup_bridge fuel
    host ← setup_pair fuel key jail
    host_name ← on_os (Interface.get_name H host)
    on_os (Interface.bridge_addm H bridge (host_name ∷ []))
    on_os (setup_nat nat_interface)

  pub teardown : ℕ → Text → Exec (World e H) (Unit {0})
  unfolding no_network_state
  teardown fuel key = do
    maybe_cache ← on_db (Storage.get e cache_codec network_state container_address)
    cache ← lift (ok_or no_network_state maybe_cache)
    addresses ← lift (ok_or no_network_state (lookup key cache))
    interface ← on_os (Interface.new H addresses.interface)
    on_os (Interface.destroy H interface)
    on_db (release_addresses fuel key)
    on_db (free_address fuel addresses.host)
    on_db (free_address fuel addresses.container)
