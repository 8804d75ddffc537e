-- ===== src/Libknast/AddressPool.antt =====
-- libknast/src/operations/network.rs: the pool of addresses and the record of those in use, as data.
-- Texts of addresses that are parsed back at once are the addresses themselves.
pub mod Order
pub mod Cache
use knast.Base.{
  ℕ, zero, suc, ◌+◌, ◌-◌, Text, codes, text_eq, Option, none, some, Bool, List, [], ◌∷◌, ◌++◌,
  if◌then◌else◌, ltb, ◌==◌, take, length,
}
use knast.Base.Exec.{
  Exec, Error, message, exhausted, Result, ok, err, pure, lift, raise, ok_or, attempt, match_result,
  ◌>>=◌, ◌>>◌,
}
use knast.Base.Int.{ℤ, pos}
use knast.Storage
use knast.Storage.{StorageEngine, Codec}
use knast.Host.{Host, WaitStatus, exited, other}
use knast.Netzwerk.Range
use knast.Netzwerk.Range.{Network}
use knast.Netzwerk.Interface
use knast.Netzwerk.Interface.{Interface}
use knast.Netzwerk.Pf
use knast.Libknast.World.{World, on_db, on_os}
use knast.Base.Heap.{Heap, push, pop}

-- What a container's name maps to: its interface, the host's address and its own.
pub record Addresses : Type 0 where
  pub interface : Text
  pub host : ℕ
  pub container : ℕ

-- A BTreeMap by the names of containers; only lookups are made, so the order is not kept.
abbrev pub ContainerAddressStorage : Type 0
ContainerAddressStorage = List (Text × Addresses)

unfoldable pub lookup : Text → ContainerAddressStorage → Option Addresses
lookup key [] = none
lookup key ((k, a) ∷ cache) = if text_eq k key then some a else lookup key cache

unfoldable pub remove : Text → ContainerAddressStorage → ContainerAddressStorage
remove key [] = []
remove key ((k, a) ∷ cache) =
    let rest = remove key cache in if text_eq k key then rest else (k, a) ∷ rest

unfoldable pub insert : Text → Addresses → ContainerAddressStorage → ContainerAddressStorage
unfolding remove
insert key a cache = (key, a) ∷ remove key cache

abbrev pub network_state : Text
network_state = codes "NETWORK_STATE"

abbrev pub container_address : Text
container_address = codes "CONTAINER_ADDRESS"

-- 172.24.0.0/16, as a key and as a network
abbrev pub default_network : Text
default_network = codes "172.24.0.0/16"

abbrev pub default_range : Network
default_range = record { base = 2887254016; prefix = 16 }

no_addresses_left : Error
no_addresses_left = message (codes "No addresses left")

-- `Ipv4Addr::is_broadcast`: 255.255.255.255
is_broadcast : ℕ → Bool
is_broadcast address = address == 4294967295

-- The address that a heap gives and the heap that is left: a second pop follows a broadcast one.
unfoldable pub take_address : Heap → Result (ℕ × Heap)
unfolding pop no_addresses_left is_broadcast
take_address heap = elim (pop heap) [
  | none ↦ err no_addresses_left
  | some (address, rest) ↦
      (if is_broadcast address then ok_or no_addresses_left (pop rest) else ok (address, rest))
]
