-- ===== src/Buffer/Model/Overlap.antt =====
-- What a solution says of the events that use one resource.
use industrial_ams.Base.{◌≤◌, ◌≡◌, ◌⊎◌, true, false, List, [], ◌∷◌, All, arith}
use industrial_ams.Base.Int.{ℤ, ◌≤ℤ◌, ◌<ℤ◌}
use industrial_ams.Buffer.Model.{Span}
use industrial_ams.Buffer.Model.Meaning.{Assignment, value, runs_at, running}

-- The time spans of two events do not overlap.
abbrev pub Apart : Assignment → Span → Span → Type 0
Apart a p q =
    value a p.first <ℤ value a p.last
    → value a q.first <ℤ value a q.last
    → (value a p.last ≤ℤ value a q.first) ⊎ (value a q.last ≤ℤ value a p.first)

abbrev pub Disjoint : Assignment → List Span → Type 0
Disjoint a [] = Unit
Disjoint a (p ∷ ss) = All (Apart a p) ss × Disjoint a ss

never_both-Apart :
    (a : Assignment) (p q : Span)
    → ((t : ℤ) → runs_at a t p ≡ true → runs_at a t q ≡ false)
    → Apart a p q
never_both-Apart a p q h x y = ground (arith, h (value a p.first), h (value a q.first))

alone-Apart :
    (a : Assignment) (p : Span) (ss : List Span)
    → ((t : ℤ) → runs_at a t p ≡ true → running a t ss ≤ 0)
    → All (Apart a p) ss
alone-Apart a p [] h = tt
alone-Apart a p (q ∷ ss) h = (
  never_both-Apart a p q (λ t r. ground (arith, h t r)),
  alone-Apart a p ss (λ t r. ground (arith, h t r)),
)

-- Where the capacity is one, spans do not overlap.
pub cumulative-Disjoint :
    (a : Assignment) (ss : List Span) → ((t : ℤ) → running a t ss ≤ 1) → Disjoint a ss
cumulative-Disjoint a [] h = tt
cumulative-Disjoint a (p ∷ ss) h = (
  alone-Apart a p ss (λ t r. ground (arith, h t)),
  cumulative-Disjoint a ss (λ t. ground (arith, h t)),
)
