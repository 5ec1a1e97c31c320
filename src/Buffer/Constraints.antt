-- ===== src/Buffer/Constraints.antt =====
-- The constraints of an ETX in steps, as the event class of the scheduler reads them.
use industrial_ams.Base.{ℕ, ◌≡◌, false, Option, some, arith}
use industrial_ams.Base.Int.{ℤ}
use industrial_ams.Py.{ok, Value, number}
use industrial_ams.Etx.{Etx}
use industrial_ams.Buffer.{to_steps, constraints}

-- The upper constraint is read off the lower one: in an ETX in numbers both bounds given, the pair has
-- the lower bound in steps and that result converted a second time; the upper bound has no part in it.
pub constraints_ignore_high :
    (k : ℕ) (e : Etx) (now : Option Value) (low high m n : ℤ)
    → e.use_datetime ≡ false
    → e.constraint_low ≡ some (number low)
    → e.constraint_high ≡ some (number high)
    → to_steps k low ≡ ok m
    → to_steps k m ≡ ok n
    → constraints k e now ≡ ok (some m, some n)
unfolding constraints
constraints_ignore_high k e now low high m n plain l h p q = ground arith
