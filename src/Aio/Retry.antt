-- ===== src/Aio/Retry.antt =====
-- Waiting longer and longer: the loops with `wait = min(60, wait + 1)` of iams/aio/tcp.py,
-- iams/aio/opcua.py and iams/aio/zeebe.py. What the remote side does is a list of attempts, in the
-- order in which they are made; the loop waits still when the list is at its end.
pub mod Waits
use industrial_ams.Base.{ℕ, ◌+◌, Bool, true, false, List, [], ◌∷◌, leb, if◌then◌else◌}

-- `min(most, n)`
abbrev pub capped : ℕ → ℕ → ℕ
capped most n = if leb n most then n else most

-- What the clauses of a `try` make of an attempt: `break` or `return`, another attempt, or an exception
-- that is not caught
pub data Reply (A : Type 0) : Type 0 where
  gives : A → Reply A
  again escapes : Reply A

-- Where the loop is after these attempts
pub data Progress (A : Type 0) : Type 0 where
  waiting raised : Progress A
  returned : A → Progress A

abbrev pub slept : {A : Type 0} → ℕ → List ℕ × Progress A → List ℕ × Progress A
slept wait (waits, progress) = (wait ∷ waits, progress)

abbrev pub settle : {A : Type 0} → Reply A → ℕ → List ℕ × Progress A → List ℕ × Progress A
settle (gives a) wait rest = ([], returned a)
settle escapes wait rest = ([], raised)
settle again wait rest = slept (capped 60 (wait + 1)) rest

-- `while True`, with what is slept
unfoldable pub retry : {X A : Type 0} → (X → Reply A) → ℕ → List X → List ℕ × Progress A
retry reply wait [] = ([], waiting)
retry reply wait (x ∷ attempts) =
    let rest = retry reply (capped 60 (wait + 1)) attempts in settle (reply x) wait rest
