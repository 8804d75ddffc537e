-- ===== src/Netzwerk/Range/Laws.antt =====
-- What ipnetwork documents of a network, and the heap of netzwerk/src/range.rs that follows.
use knast.Base.{ℕ, zero, suc, ◌+◌, ◌-◌, ◌^◌, List, [], ◌∷◌, ◌≡◌, refl, ap, ◌∙◌, arith}
use knast.Base.Heap.{Heap, push}
use knast.Netzwerk.Range.{Network, IpNetwork, collect, range}

abbrev pub size : Network → ℕ
size n = 2 ^ (32 - n.prefix)

-- `count` addresses from `base` on, as ipnetwork iterates over them.
unfoldable pub ascending : ℕ → ℕ → List ℕ
ascending base zero = []
ascending base (suc count) = base ∷ ascending (base + 1) count

-- The addresses of a network are all those from its first one on, its broadcast address is the last.
pub record IpLaws (ip : IpNetwork) : Type 0 where
  pub iterates : (n : Network) → ip.network_iter n ≡ ascending n.base (size n)
  pub broadcasts : (n : Network) → ip.network_broadcast n ≡ n.base + (size n - 1)

-- The same addresses, the greatest first.
unfoldable pub addresses : ℕ → ℕ → Heap
addresses base zero = []
addresses base (suc count) = (base + count) ∷ addresses base count

push_lowest : (base count : ℕ) → push base (addresses (base + 1) count) ≡ addresses base (suc count)
unfolding push addresses
push_lowest base zero = let p : base ≡ base + 0 = omega arith in ap (λ x. x ∷ []) p
push_lowest base (suc count) = ground (arith, push_lowest base count)

collect-ascending : (base count : ℕ) → collect (ascending base count) ≡ addresses base count
unfolding collect ascending addresses
collect-ascending base zero = refl
collect-ascending base (suc count) =
    ap (push base) (collect-ascending (base + 1) count) ∙ push_lowest base count

pub range_lem :
    (ip : IpNetwork) → IpLaws ip → (n : Network) → range ip n ≡ addresses n.base (size n)
unfolding range
range_lem ip L n = ap collect (L.iterates n) ∙ collect-ascending n.base (size n)
