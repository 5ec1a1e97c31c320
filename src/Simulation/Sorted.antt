-- ===== src/Simulation/Sorted.antt =====
-- A sorted list keeps the laws of a heap.
use industrial_ams.Base.{
  ℕ, ◌+◌, ◌≡◌, refl, subst, inl, inr, Bool, true, false, Option, none, some, List, [], ◌∷◌, length,
  All, All-map, Bool-cases, if◌then◌else◌, arith,
}
use industrial_ams.Base.{ltb, ◌==◌}
use industrial_ams.Base.Int.{ℤ, ltb_ℤ, eqb_ℤ}
use industrial_ams.Simulation.{Entry, priority_value, before, mark, mark_all}
use industrial_ams.Simulation.Heap.{HeapLaws}

abbrev pub insert : Entry → List Entry → List Entry
insert e [] = e ∷ []
insert e (x ∷ q) = if before e x then e ∷ x ∷ q else x ∷ insert e q

abbrev pub first : List Entry → Option (Entry × List Entry)
first [] = none
first (e ∷ q) = some (e, q)

abbrev pub Sorted : List Entry → Type 0
Sorted [] = Unit
Sorted (e ∷ q) = All (λ x. before x e ≡ false) q × Sorted q

before_asymm : (a b : Entry) → before a b ≡ true → before b a ≡ false
unfolding before
before_asymm a b h = ground arith

-- The order within one time
within : ℕ × ℤ → ℕ × ℤ → Bool
within (p, c) (q, d) = if p == q then ltb_ℤ d c else ltb p q

before-within :
    (a b : Entry)
    → before a b ≡ (
        if eqb_ℤ a.time b.time
        then within (priority_value a.priority, a.dt) (priority_value b.priority, b.dt)
        else ltb_ℤ a.time b.time)
unfolding before within
before-within a b = refl

within_through : (a b c : ℕ × ℤ) → within a b ≡ true → within c b ≡ false → within c a ≡ false
unfolding within
within_through (p, c) (q, d) (r, f) h k = ground arith

before_through : (e x y : Entry) → before e x ≡ true → before y x ≡ false → before y e ≡ false
before_through e x y h k =
    let through =
      within_through (priority_value e.priority, e.dt) (priority_value x.priority, x.dt)
        (priority_value y.priority, y.dt) in
    ground (arith, before-within e x, before-within y x, before-within y e, through)

before-mark : (n : ℕ) (x e : Entry) → before (mark n x) (mark n e) ≡ before x e
unfolding before mark
before-mark n x e = ground arith

pub length-insert : (e : Entry) (q : List Entry) → length (insert e q) ≡ length q + 1
length-insert e [] = refl
length-insert e (x ∷ q) = ground (arith, length-insert e q)

pub insert-All :
    (P : Entry → Type 0) (e : Entry) (q : List Entry) → P e → All P q → All P (insert e q)
insert-All P e [] p h = (p, tt)
insert-All P e (x ∷ q) p h = elim (Bool-cases (before e x)) [
  | inl first ↦ rw first (p, h)
  | inr later ↦ rw later (h.0, insert-All P e q p h.1)
]

pub insert-Sorted : (e : Entry) (q : List Entry) → Sorted q → Sorted (insert e q)
insert-Sorted e [] h = (tt, tt)
insert-Sorted e (x ∷ q) h = elim (Bool-cases (before e x)) [
  | inl first ↦ rw first (
    (
      before_asymm e x first,
      All-map _ (λ y. before y e ≡ false) q (λ y k. before_through e x y first k) h.0,
    ),
    h,
  )
  | inr later ↦ rw later (insert-All (λ y. before y x ≡ false) e q later h.0, insert-Sorted e q h.1)
]

mark_all-later :
    (n : ℕ) (e : Entry) (q : List Entry)
    → All (λ x. before x e ≡ false) q
    → All (λ x. before x (mark n e) ≡ false) (mark_all n q)
mark_all-later n e [] h = tt
mark_all-later n e (x ∷ q) h = (rw (before-mark n x e) h.0, mark_all-later n e q h.1)

pub mark_all-Sorted : (n : ℕ) (q : List Entry) → Sorted q → Sorted (mark_all n q)
mark_all-Sorted n [] h = tt
mark_all-Sorted n (e ∷ q) h = (mark_all-later n e q h.0, mark_all-Sorted n q h.1)

first-eq : (x e : Entry) (q r : List Entry) → first (x ∷ q) ≡ some (e, r) → (x ≡ e) × (q ≡ r)
first-eq x e q r h = ground arith

pub first-Sorted : (e : Entry) (q r : List Entry) → first q ≡ some (e, r) → Sorted q → Sorted r
first-Sorted e [] r h k = cc
first-Sorted e (x ∷ q) r h k = subst Sorted (first-eq x e q r h).1 k.1

pub first-length : (e : Entry) (q r : List Entry) → first q ≡ some (e, r) → length q ≡ length r + 1
first-length e [] r h = cc
first-length e (x ∷ q) r h = ground arith

pub first-All :
    (P : Entry → Type 0) (e : Entry) (q r : List Entry)
    → first q ≡ some (e, r)
    → All P q
    → P e × All P r
first-All P e [] r h k = cc
first-All P e (x ∷ q) r h k =
    let (same, rest) = first-eq x e q r h in (subst P same k.0, subst (All P) rest k.1)

pub first_least :
    (e : Entry) (q r : List Entry)
    → first q ≡ some (e, r)
    → Sorted q
    → All (λ x. before x e ≡ false) r
first_least e [] r h k = cc
first_least e (x ∷ q) r h k =
    let (same, rest) = first-eq x e q r h in
    subst (λ y. All (λ z. before z y ≡ false) r) same
      (subst (All (λ z. before z x ≡ false)) rest k.0)

unfoldable pub sorted_heap : HeapLaws insert first
sorted_heap = record {
  IsHeap = Sorted;
  push-IsHeap = insert-Sorted;
  push-length = length-insert;
  push-All = insert-All;
  mark-IsHeap = mark_all-Sorted;
  pop-IsHeap = first-Sorted;
  pop-length = first-length;
  pop-All = first-All;
  pop_least = first_least;
}
