-- ===== src/Libknast/AddressPool/Order.antt =====
-- The pool of addresses in libknast/src/operations/network.rs as a heap.
use knast.Base.{
  ℕ, zero, suc, ◌+◌, ◌-◌, ◌<◌, ◌≤◌, ◌^◌, ==_iff, [], ◌∷◌, ◌≡◌, ◌≢◌, ◌⊎◌, inl, inr, refl, ap, arith,
  sym, ◌∙◌,
}
use knast.Base.Exec.{ok}
use knast.Netzwerk.Range.{Network, IpNetwork, range, broadcast}
use knast.Netzwerk.Range.Laws.{IpLaws, size, addresses, range_lem}
use knast.Libknast.AddressPool.{take_address, is_broadcast}
use knast.Base.Heap.{Heap, push, pop}

-- The addresses fall along the heap and stay below a bound: it is ordered and has no address twice.
abbrev pub Falls : ℕ → Heap → Type 0
Falls n [] = Unit {0}
Falls n (x ∷ heap) = (x < n) × Falls x heap

pub addresses-Falls : (base count : ℕ) → Falls (base + count) (addresses base count)
unfolding addresses
addresses-Falls base zero = tt
addresses-Falls base (suc count) = (omega arith, addresses-Falls base count)

pub Falls-mono : (heap : Heap) (m n : ℕ) → m ≤ n → Falls m heap → Falls n heap
Falls-mono [] m n h f = tt
Falls-mono (x ∷ heap) m n h f = (omega arith, f.1)

-- An address is in the heap.
abbrev pub In : ℕ → Heap → Type 0
In a [] = ⊥
In a (x ∷ heap) = (a ≡ x) ⊎ In a heap

pub push-Falls :
    (heap : Heap) (a n : ℕ) → a < n → Falls n heap → ¬ In a heap → Falls n (push a heap)
unfolding push
push-Falls [] a n h f m = (h, tt)
push-Falls (x ∷ heap) a n h f m =
    ground
      (arith, push-Falls heap a x, f, m, λ (p : a ≡ x). m (inl p), λ (p : In a heap). m (inr p))

-- The greatest address is taken from an ordered heap of addresses below 255.255.255.255, and the others stay.
pub take_address_lem :
    (heap : Heap) (n a : ℕ) (rest : Heap)
    → n ≤ 4294967295
    → Falls n heap
    → take_address heap ≡ ok (a, rest)
    → heap ≡ a ∷ rest
unfolding take_address pop is_broadcast
take_address_lem [] n a rest h f p = absurd (ground arith)
take_address_lem (x ∷ heap) n a rest h f p = ground (arith, h, f.0, p)

-- It goes back to its place.
pub push_greatest : (a : ℕ) (rest : Heap) → Falls a rest → push a rest ≡ a ∷ rest
unfolding push
push_greatest a [] f = refl
push_greatest a (x ∷ rest) f = ground (arith, f.0)

power_positive : (k : ℕ) → 1 ≤ 2 ^ k
power_positive zero = omega arith
power_positive (suc k) = omega (arith, power_positive k)

addresses_first :
    (n : Network)
    → addresses n.base (size n) ≡ (n.base + (size n - 1)) ∷ addresses n.base (size n - 1)
unfolding addresses
addresses_first n = go (size n) (power_positive (32 - n.prefix))
  where
    go : (k : ℕ) → 1 ≤ k → addresses n.base k ≡ (n.base + (k - 1)) ∷ addresses n.base (k - 1)
    go zero h = absurd (omega (arith, h))
    go (suc k) h =
        let p : k ≡ suc k - 1 = omega arith in ap (λ m. (n.base + m) ∷ addresses n.base m) p

range_first :
    (ip : IpNetwork)
    → IpLaws ip
    → (n : Network) → range ip n ≡ broadcast ip n ∷ addresses n.base (size n - 1)
unfolding broadcast
range_first ip L n =
    range_lem ip L n
    ∙ (addresses_first n ∙ ap (λ x. x ∷ addresses n.base (size n - 1)) (sym (L.broadcasts n)))

-- With ipnetwork as documented, the first address that the pool of a network gives is the
-- broadcast address of the network, unless that is 255.255.255.255.
pub broadcast_first :
    (ip : IpNetwork)
    → IpLaws ip
    → (n : Network) → broadcast ip n ≢ 4294967295
    → take_address (range ip n) ≡ ok (broadcast ip n, addresses n.base (size n - 1))
unfolding take_address pop is_broadcast
broadcast_first ip L n h =
    rw (range_first ip L n) ground (arith, ==_iff (broadcast ip n) 4294967295)
