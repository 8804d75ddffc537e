-- ===== src/Libknast/AddressPool/Cache.antt =====
-- libknast/src/operations/network.rs: the map from containers to addresses.
use knast.Base.{
  Text, text_eq, text_eq_refl, text_eq_iff, none, some, false, [], ◌∷◌, ◌≡◌, refl, arith,
}
use knast.Libknast.AddressPool.{Addresses, ContainerAddressStorage, lookup, insert, remove}

-- What is recorded for a container is found.
lookup-insert :
    (key : Text) (a : Addresses) (cache : ContainerAddressStorage)
    → lookup key (insert key a cache) ≡ some a
unfolding lookup insert
lookup-insert key a cache = ground (arith, text_eq_refl key)

lookup-remove :
    (key : Text) (cache : ContainerAddressStorage) → lookup key (remove key cache) ≡ none
unfolding lookup remove
lookup-remove key [] = refl
lookup-remove key ((k, a) ∷ cache) = ground (arith, lookup-remove key cache)

lookup-remove_other :
    (key other : Text) (cache : ContainerAddressStorage)
    → text_eq key other ≡ false
    → lookup other (remove key cache) ≡ lookup other cache
unfolding lookup remove
lookup-remove_other key other [] h = refl
lookup-remove_other key other ((k, a) ∷ cache) h = ground (
  arith,
  lookup-remove_other key other cache h,
  text_eq_iff k key,
  text_eq_iff k other,
  text_eq_iff key other,
)

-- What is recorded for a container is found until it is removed, and the entries of other
-- containers stay.
pub lookup_lem :
    (key other : Text) (a : Addresses) (cache : ContainerAddressStorage)
    → text_eq key other ≡ false
    → (lookup key (insert key a cache) ≡ some a)
      × (lookup other (insert key a cache) ≡ lookup other cache)
      × (lookup key (remove key cache) ≡ none)
      × (lookup other (remove key cache) ≡ lookup other cache)
unfolding lookup insert
lookup_lem key other a cache h = (
  lookup-insert key a cache,
  ground (arith, lookup-remove_other key other cache h),
  lookup-remove key cache,
  lookup-remove_other key other cache h,
)
