-- ===== src/Buffer/Rounding.antt =====
-- The laws of the conversions between seconds and steps.
use native.Mathlib.Nat.{mul-mod_left, mul-div_cancel}
use industrial_ams.Base.{
  subst, inr, inl, ◌-◌, ◌==◌, if◌then◌else◌, ap, Bool-cases, ℕ, suc, ◌+◌, ◌*◌, ◌≤◌, ◌<◌, ◌≡◌,
  Option, none, some, arith,
}
use industrial_ams.Base.Int.{
  +ℤ-ℤ_cancel, -ℤ_parts, ℤ, pos, negsuc, ◌+ℤ◌, ◌-ℤ◌, ◌*ℤ◌, ◌≤ℤ◌, int_laws,
}
use industrial_ams.Py.{ok, Value, number, datetime}
use industrial_ams.Event.{Event}
use industrial_ams.Event.Methods.{set_time, get_time}
use industrial_ams.Buffer.{
  Slot, round_half_even, round_div, to_seconds, to_steps, convert_seconds, convert_resolution,
  units,
}

-- The rounded quotient is within half a step of the quotient.
round_half_even_near :
    (n k : ℕ)
    → 0 < k
    → (2 * (round_half_even n k * k) ≤ 2 * n + k) × (2 * n ≤ 2 * (round_half_even n k * k) + k)
unfolding round_half_even
round_half_even_near n k h = grind arith

-- A multiple of the step is rounded to its factor.
round_half_even-mul : (m k : ℕ) → 0 < k → round_half_even (m * k) k ≡ m
unfolding round_half_even
round_half_even-mul m k h = ground (arith, mul-div_cancel m h, mul-mod_left m k)

to_seconds-negsuc : (n k : ℕ) → 0 < k → to_seconds k (negsuc n) ≡ negsuc (suc n * k - 1)
unfolding ◌*ℤ◌
to_seconds-negsuc n k h = grind arith

mul-pred-suc : (n k : ℕ) → 0 < k → suc n * k - 1 + 1 ≡ suc n * k
mul-pred-suc n k h = grind arith

zero_minus_suc : (n : ℕ) → pos 0 -ℤ pos (suc n) ≡ negsuc n
unfolding ◌-ℤ◌
zero_minus_suc n = ground arith

pub round_div-to_seconds : (v : ℤ) (k : ℕ) → 0 < k → round_div (to_seconds k v) k ≡ v
unfolding round_div
round_div-to_seconds (pos n) k h = unfold ◌*ℤ◌ in ground (arith, round_half_even-mul n k h)
round_div-to_seconds (negsuc n) k h =
    rw (to_seconds-negsuc n k h)
      (rw (mul-pred-suc n k h) (rw (round_half_even-mul (suc n) k h) (zero_minus_suc n)))

-- Two times are within half a step of each other.
abbrev pub Near : ℕ → ℤ → ℤ → Type 0
Near k a b = (a +ℤ a ≤ℤ b +ℤ b +ℤ pos k) × (b +ℤ b ≤ℤ a +ℤ a +ℤ pos k)

round_div-Near : (k : ℕ) (v : ℤ) → 0 < k → Near k (to_seconds k (round_div v k)) v
unfolding round_div
round_div-Near k (pos v) h = omega (int_laws, round_half_even_near v k h)
round_div-Near k (negsuc v) h =
    let r = round_half_even (v + 1) k in
    let minus = -ℤ_parts (pos 0) (pos r) in
    omega (int_laws, round_half_even_near (v + 1) k h, ap (λ (t : ℕ). t * k) minus)

-- A time that is converted to steps is, converted back, within half a step of what it was.
pub to_seconds-to_steps : (k : ℕ) (v n : ℤ) → to_steps k v ≡ ok n → Near k (to_seconds k n) v
unfolding to_steps
to_seconds-to_steps k v n h = elim (Bool-cases (k == 0)) [
  | inl zero_k ↦ absurd (ground arith)
  | inr other_k ↦
      subst (λ m. Near k (to_seconds k m) v) (ground arith) (round_div-Near k v (ground arith))
]

module _ (k : ℕ) (positive : 0 < k) (slot : Slot) (n : ℤ) (e : Event) where
  -- For a positive resolution, a whole number of steps that the event class stores as a start or finish
  -- is what it reads there, in an event in numbers and, relative to any datetime, in a dated event.
  pub get_time-set_time :
      (now : ℤ)
      → let at : Option Value = if e.use_datetime then some (datetime now) else none in
        let (r, e') = set_time (units k) slot (number n) at e in
        (r ≡ ok tt) × (get_time (units k) slot at e' ≡ ok (some (number n)))
  unfolding set_time get_time convert_seconds convert_resolution to_steps
  get_time-set_time now =
      ground (arith, round_div-to_seconds n k positive, +ℤ-ℤ_cancel now (to_seconds k n))
