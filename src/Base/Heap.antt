-- ===== src/Base/Heap.antt =====
-- std::collections::BinaryHeap of numbers.
use knast.Base.{ℕ, Option, none, some, List, [], ◌∷◌, if◌then◌else◌, ltb}

-- A BinaryHeap in the order of its pops: the greatest element first.
abbrev pub Heap : Type 0
Heap = List ℕ

-- `BinaryHeap::push`
unfoldable pub push : ℕ → Heap → Heap
push x [] = x ∷ []
push x (y ∷ heap) = let rest = push x heap in if ltb x y then y ∷ rest else x ∷ y ∷ heap

-- `BinaryHeap::pop`
unfoldable pub pop : Heap → Option (ℕ × Heap)
pop [] = none
pop (x ∷ heap) = some (x, heap)
