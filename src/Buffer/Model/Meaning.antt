-- ===== src/Buffer/Model/Meaning.antt =====
-- What the constraints of a model mean for the values of its variables, as ortools documents them.
use industrial_ams.Base.{ℕ, ◌+◌, ◌≡◌, Bool, false, List, [], ◌∷◌, All, if◌then◌else◌}
use industrial_ams.Base.Int.{ℤ, pos, ◌+ℤ◌, ◌≤ℤ◌, ltb_ℤ}
use industrial_ams.Buffer.Variables.{Name}
use industrial_ams.Buffer.Model.{
  Var, Span, Constraint, domain, interval, at_most, cumulative, Model,
}

abbrev pub Assignment : Type 0
Assignment = ℕ → Name → ℤ

abbrev pub value : Assignment → Var → ℤ
value a v = a v.number v.name

-- The interval runs at the time: it has begun and has not ended.
abbrev pub runs_at : Assignment → ℤ → Span → Bool
runs_at a t s = if ltb_ℤ t (value a s.first) then false else ltb_ℤ t (value a s.last)

abbrev pub running : Assignment → ℤ → List Span → ℕ
running a t [] = 0
running a t (s ∷ ss) = (if runs_at a t s then 1 else 0) + running a t ss

abbrev pub Satisfies : Assignment → Constraint → Type 0
Satisfies a (domain v low high) = (low ≤ℤ value a v) × (value a v ≤ℤ high)
Satisfies a (interval s) = value a s.first +ℤ value a s.size ≡ value a s.last
Satisfies a (at_most v w) = value a v ≤ℤ value a w
Satisfies a (cumulative ss capacity) = (t : ℤ) → pos (running a t ss) ≤ℤ capacity

abbrev pub Solves : Assignment → Model → Type 0
Solves a m = All (Satisfies a) m.constraints
