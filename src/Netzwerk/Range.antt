-- ===== src/Netzwerk/Range.antt =====
-- netzwerk/src/range.rs. The crate ipnetwork, which parses a network and iterates over it, is a
-- parameter. An address is a 32-bit number.
pub mod Laws
use knast.Base.{ℕ, List, [], ◌∷◌}
use knast.Base.Heap.{Heap, push}

pub record Network : Type 0 where
  pub base : ℕ
  pub prefix : ℕ

-- The methods of `Ipv4Network`.
pub record IpNetwork : Type 0 where
  pub network_iter : Network → List ℕ
  pub network_broadcast : Network → ℕ
  pub network_mask : Network → ℕ

-- `collect` into a BinaryHeap
unfoldable pub collect : List ℕ → Heap
collect [] = []
collect (x ∷ xs) = push x (collect xs)

unfoldable pub range : IpNetwork → Network → Heap
range ip n = collect (ip.network_iter n)

unfoldable pub broadcast : IpNetwork → Network → ℕ
broadcast ip n = ip.network_broadcast n

unfoldable pub mask : IpNetwork → Network → ℕ
mask ip n = ip.network_mask n
