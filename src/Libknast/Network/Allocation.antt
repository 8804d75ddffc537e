-- ===== src/Libknast/Network/Allocation.antt =====
-- libknast/src/operations/network.rs, `get_address` and `free_address`: what they do to the stored
-- pool, over any engine that keeps the contract.
use knast.Base.{ℕ, ◌+◌, ◌<◌, Option, none, some, ◌∷◌, ◌≡◌, ◌⊎◌, sym, subst, ◌∙◌, ap, arith}
use knast.Base.Exec.{ok-injective, pure, ◌>>=◌, Triple, Triple-bind, Triple-pure, Triple-weaken}
use knast.Storage.{StorageEngine, Codec}
use knast.Storage.Contract.{View, update, Contract}
use knast.Storage.Typed.{CodecLaws, Stored, Writes, Writes-Stored, Writes-over}
use knast.Host.{Host}
use knast.Netzwerk.Range
use knast.Netzwerk.Range.Laws.{addresses, IpLaws, range_lem}
use knast.Libknast.Network.{get_address, free_address}
use knast.Libknast.AddressPool.{
  ContainerAddressStorage, network_state, default_network, default_range, take_address,
}
use knast.Base.Heap.{Heap, push}
use knast.Libknast.AddressPool.Order.{
  Falls, Falls-mono, addresses-Falls, take_address_lem, push_greatest,
}
use knast.Libknast.Network.Pool.{
  or_first, retry_Triple, get_address-retry, free_address-retry, give,
}

-- The pool that a database without one starts from.
abbrev pub pool : Host → Option Heap → Heap
pool H o = or_first (Range.range H.ip default_range) o

-- Every address is below a bound, falling, and the bound is not beyond 255.255.255.255.
abbrev pub Ordered : Heap → Type 0
Ordered heap = Falls 4294967295 heap

module _ (e : StorageEngine) (C : Contract e) (H : Host) (heap_codec : Codec Heap)
    (L : CodecLaws heap_codec) (cache_codec : Codec ContainerAddressStorage) where
  open C use {Sees}

  abbrev pub Pool : View → Heap → e.Db → Type 0
  Pool v heap = Writes e C heap_codec L v network_state default_network heap

  -- From an ordered pool, get_address returns its greatest address and stores the others; if it
  -- fails, the storage is unchanged or holds the pool that it started from.
  pub get_address_Triple :
      (fuel : ℕ) (v : View) (o : Option Heap)
      → Stored heap_codec o (v network_state default_network)
      → Ordered (pool H o)
      → Triple
          (Sees v)
          (get_address e H heap_codec cache_codec fuel)
          (λ a s. (rest : Heap) × (pool H o ≡ a ∷ rest) × Pool v rest s)
          (λ _ s. Sees v s ⊎ Pool v (pool H o) s)
  get_address_Triple fuel v o h f =
      subst
        (λ m.
          Triple (Sees v) m (λ a s. (rest : Heap) × (pool H o ≡ a ∷ rest) × Pool v rest s)
            (λ _ s. Sees v s ⊎ Pool v (pool H o) s))
        (sym (get_address-retry e H heap_codec cache_codec fuel))
        (Triple-weaken
          (retry_Triple e C heap_codec L network_state default_network
            (Range.range H.ip default_range) take_address fuel v o h)
          (λ _ s. s)
          (λ a s r. (r.0, take_address_lem (pool H o) 4294967295 a r.0 (omega arith) f r.1, r.2))
          (λ _ _ s. s))

  -- An address that comes back is pushed on the pool.
  pub free_address_Triple :
      (fuel address : ℕ) (v : View) (o : Option Heap)
      → Stored heap_codec o (v network_state default_network)
      → Triple
          (Sees v)
          (free_address e H heap_codec cache_codec fuel address)
          (λ _ s. Pool v (push address (pool H o)) s)
          (λ _ s. Sees v s ⊎ Pool v (pool H o) s)
  free_address_Triple fuel address v o h =
      subst
        (λ m.
          Triple (Sees v) m (λ _ s. Pool v (push address (pool H o)) s)
            (λ _ s. Sees v s ⊎ Pool v (pool H o) s))
        (sym (free_address-retry e H heap_codec cache_codec fuel address))
        (Triple-weaken
          (retry_Triple e C heap_codec L network_state default_network
            (Range.range H.ip default_range) (give e H heap_codec cache_codec address) fuel v o h)
          (λ _ s. s)
          (λ _ s r.
            subst (λ heap. Pool v heap s) (sym (ap (λ x. x.1) (ok-injective _ (tt, r.0) r.1))) r.2)
          (λ _ _ s. s))

  Pool-Stored :
      (v : View) (heap : Heap) (s : e.Db) (w : Pool v heap s)
      → Stored heap_codec
          (some heap)
          (update v network_state default_network (some w.bytes) network_state default_network)
  Pool-Stored v heap s w = Writes-Stored e C heap_codec L v _ _ heap w.bytes w.serialized

  -- From an ordered pool, two addresses that are taken in turn differ: the second is below the
  -- first.
  pub get_address_twice :
      (fuel : ℕ) (v : View) (o : Option Heap)
      → Stored heap_codec o (v network_state default_network)
      → Ordered (pool H o)
      → Triple {A = ℕ × ℕ}
          (Sees v)
          (get_address e H heap_codec cache_codec fuel >>= λ a.
            get_address e H heap_codec cache_codec fuel >>= λ b. pure (a, b))
          (λ r _. r.1 < r.0)
          (λ _ _. Unit)
  get_address_twice fuel v o h f =
      Triple-bind _ _
        (Triple-weaken (get_address_Triple fuel v o h f) (λ _ s. s) (λ _ _ s. s) (λ _ _ _. tt))
        λ a. record {
          at = λ s taken.
              (Triple-bind _ _
                  (Triple-weaken
                    (get_address_Triple fuel _ (some taken.0) (Pool-Stored v taken.0 s taken.2)
                      (ordered_rest a taken.0 (subst Ordered taken.1 f)))
                    (λ _ s. s) (λ b _ r. below a b taken.0 r.0 (subst Ordered taken.1 f) r.1)
                    (λ _ _ _. tt))
                  λ b. Triple-pure (a, b) (λ _ p. p)).at
                s taken.2.sees;
        }
    where
      ordered_rest : (a : ℕ) (rest : Heap) → Ordered (a ∷ rest) → Ordered rest
      ordered_rest a rest f = Falls-mono rest a 4294967295 (omega (arith, f.0)) f.1

      below : (a b : ℕ) (rest others : Heap) → Ordered (a ∷ rest) → rest ≡ b ∷ others → b < a
      below a b rest others f p = (subst (Falls a) p f.1).0

  -- From an ordered pool, an address that is taken and returned leaves the stored pool as it
  -- was, if both calls succeed.
  pub get_free_address :
      (fuel : ℕ) (v : View) (o : Option Heap)
      → Stored heap_codec o (v network_state default_network)
      → Ordered (pool H o)
      → Triple
          (Sees v)
          (get_address e H heap_codec cache_codec fuel >>= λ a.
            free_address e H heap_codec cache_codec fuel a)
          (λ _. Pool v (pool H o))
          (λ _ _. Unit)
  get_free_address fuel v o h f =
      Triple-bind _ _
        (Triple-weaken (get_address_Triple fuel v o h f) (λ _ s. s) (λ _ _ s. s) (λ _ _ _. tt))
        λ a. record {
          at = λ s taken.
              (Triple-weaken
                  (free_address_Triple fuel a _ (some taken.0) (Pool-Stored v taken.0 s taken.2))
                  (λ _ s. s)
                  (λ _ s r.
                    subst (λ heap. Pool v heap s)
                      (push_greatest a taken.0 (subst Ordered taken.1 f).1 ∙ sym taken.1)
                      (Writes-over e C heap_codec L v _ _ _ _ s r))
                  (λ _ _ _. tt)).at
                s taken.2.sees;
        }

-- The pool that a database starts from is in order.
pub pool-Ordered : (H : Host) → IpLaws H.ip → Ordered (pool H none)
pool-Ordered H L = subst Ordered (sym (range_lem H.ip L default_range)) (
    Falls-mono (addresses 2887254016 65536) (2887254016 + 65536) 4294967295 (omega arith)
      (addresses-Falls 2887254016 65536))
