-- ===== src/Buffer/Solve/Checked.antt =====
-- A solver that answers with given values where it has checked them: it keeps the promise of `IsSound`.
use industrial_ams.Base.{
  ◌≤◌, ◌≡◌, refl, subst, inl, inr, Bool, true, false, ◌&&◌, ◌||◌, not, List, [], ◌∷◌, All,
  Bool-cases, if◌then◌else◌, arith,
}
use industrial_ams.Base.Int.{ℤ, pos, ◌+ℤ◌, ltb_ℤ, eqb_ℤ, eqb_ℤ→eq}
use industrial_ams.Buffer.Model.{Span, Constraint, domain, interval, at_most, cumulative, Model}
use industrial_ams.Buffer.Model.Meaning.{Assignment, value, runs_at, running, Satisfies, Solves}
use industrial_ams.Buffer.Solve.{Answer, failed, answered, optimal}
use industrial_ams.Buffer.Solve.Outcomes.{IsSound}

-- One of the spans is empty, or one ends before the other begins.
apart : Assignment → Span → Span → Bool
apart a p q =
    not (ltb_ℤ (value a p.first) (value a p.last))
    || not (ltb_ℤ (value a q.first) (value a q.last))
    || not (ltb_ℤ (value a q.first) (value a p.last))
    || not (ltb_ℤ (value a p.first) (value a q.last))

apart_from : Assignment → Span → List Span → Bool
apart_from a p [] = true
apart_from a p (q ∷ ss) = apart a p q && apart_from a p ss

all_apart : Assignment → List Span → Bool
all_apart a [] = true
all_apart a (p ∷ ss) = apart_from a p ss && all_apart a ss

check : Assignment → Constraint → Bool
check a (domain v low high) = not (ltb_ℤ (value a v) low) && not (ltb_ℤ high (value a v))
check a (interval s) = eqb_ℤ (value a s.first +ℤ value a s.size) (value a s.last)
check a (at_most v w) = not (ltb_ℤ (value a w) (value a v))
check a (cumulative ss capacity) = not (ltb_ℤ capacity (pos 1)) && all_apart a ss

check_all : Assignment → List Constraint → Bool
check_all a [] = true
check_all a (c ∷ cs) = check a c && check_all a cs

unfoldable pub checked : Assignment → Model → Answer
unfolding check_all check all_apart apart_from apart
checked a model = if check_all a model.constraints then answered optimal a else failed

apart_stops :
    (a : Assignment) (t : ℤ) (p q : Span)
    → apart a p q ≡ true
    → runs_at a t p ≡ true
    → runs_at a t q ≡ false
unfolding apart
apart_stops a t p q h r = ground arith

apart_from_stops :
    (a : Assignment) (t : ℤ) (p : Span) (ss : List Span)
    → apart_from a p ss ≡ true
    → runs_at a t p ≡ true
    → running a t ss ≡ 0
unfolding apart_from
apart_from_stops a t p [] h r = refl
apart_from_stops a t p (q ∷ ss) h r = ground (arith, apart_stops a t p q, apart_from_stops a t p ss)

all_apart-running :
    (a : Assignment) (t : ℤ) (ss : List Span) → all_apart a ss ≡ true → running a t ss ≤ 1
unfolding all_apart
all_apart-running a t [] h = omega arith
all_apart-running a t (p ∷ ss) h =
    ground (arith, apart_from_stops a t p ss, all_apart-running a t ss)

check-Satisfies : (a : Assignment) (c : Constraint) → check a c ≡ true → Satisfies a c
unfolding check
check-Satisfies a (domain v low high) h = ground arith
check-Satisfies a (interval s) h = eqb_ℤ→eq (value a s.first +ℤ value a s.size) (value a s.last) h
check-Satisfies a (at_most v w) h = ground arith
check-Satisfies a (cumulative ss capacity) h = λ t. ground (arith, all_apart-running a t ss)

check_all-Solves :
    (a : Assignment) (cs : List Constraint) → check_all a cs ≡ true → All (Satisfies a) cs
unfolding check_all
check_all-Solves a [] h = tt
check_all-Solves a (c ∷ cs) h = elim (Bool-cases (check a c)) [
  | inl met ↦ (check-Satisfies a c met, check_all-Solves a cs (ground arith))
  | inr broken ↦ absurd (ground arith)
]

pub checked-IsSound : (a : Assignment) → IsSound (checked a)
unfolding checked
checked-IsSound a model b h = elim (Bool-cases (check_all a model.constraints)) [
  | inl met ↦ subst (λ c. Solves c model) (ground arith) (check_all-Solves a model.constraints met)
  | inr broken ↦ absurd (ground arith)
]
