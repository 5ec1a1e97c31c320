-- ===== src/Simulation/Heap.antt =====
-- What the event loop relies on of Python's `heapq`, and what scheduling and canceling keep with it.
use industrial_ams.Base.{ℕ, ◌+◌, ◌≡◌, refl, false, Option, some, List, [], ◌∷◌, length, All, arith}
use industrial_ams.Base.Int.{◌≤ℤ◌}
use industrial_ams.Simulation.{Entry, before, mark, mark_all}

-- `heappush` and `heappop` keep a heap and neither lose nor invent items, and `heappop` gives an item
-- that no other comes before. A heap stays one when an item is canceled, which no comparison sees.
pub record HeapLaws (heappush : Entry → List Entry → List Entry)
    (heappop : List Entry → Option (Entry × List Entry)) : Type 1 where
  pub IsHeap : List Entry → Type 0
  pub push-IsHeap : (e : Entry) (q : List Entry) → IsHeap q → IsHeap (heappush e q)
  pub push-length : (e : Entry) (q : List Entry) → length (heappush e q) ≡ length q + 1
  pub push-All :
      (P : Entry → Type 0) (e : Entry) (q : List Entry) → P e → All P q → All P (heappush e q)
  pub mark-IsHeap : (n : ℕ) (q : List Entry) → IsHeap q → IsHeap (mark_all n q)
  pub pop-IsHeap : (e : Entry) (q r : List Entry) → heappop q ≡ some (e, r) → IsHeap q → IsHeap r
  pub pop-length :
      (e : Entry) (q r : List Entry) → heappop q ≡ some (e, r) → length q ≡ length r + 1
  pub pop-All :
      (P : Entry → Type 0) (e : Entry) (q r : List Entry)
      → heappop q ≡ some (e, r)
      → All P q
      → P e × All P r
  pub pop_least :
      (e : Entry) (q r : List Entry)
      → heappop q ≡ some (e, r)
      → IsHeap q
      → All (λ x. before x e ≡ false) r

-- Canceling changes neither the number of items nor what does not speak of the mark.
pub length-mark_all : (n : ℕ) (q : List Entry) → length (mark_all n q) ≡ length q
length-mark_all n [] = refl
length-mark_all n (e ∷ q) = ground (arith, length-mark_all n q)

pub mark-time : (n : ℕ) (e : Entry) → (mark n e).time ≡ e.time
unfolding mark
mark-time n e = ground arith

-- An item that is not before another is not earlier.
pub not_before-le : (x e : Entry) → before x e ≡ false → e.time ≤ℤ x.time
unfolding before
not_before-le x e h = ground arith
