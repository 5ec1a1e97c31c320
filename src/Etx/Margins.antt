-- ===== src/Etx/Margins.antt =====
-- Times of an ETX that keep a margin, and the checks and the widening of single bounds.
use industrial_ams.Base.{◌≡◌, refl, Bool, true, false, Option, none, some, arith}
use industrial_ams.Base.Int.{◌<ℤ◌, ℤ, pos, ◌+ℤ◌, ◌-ℤ◌, ◌≤ℤ◌, int_laws}
use industrial_ams.Py.{Error, Result, ok, err, ◌>>=◌, raise_if, Value, number, datetime}
use industrial_ams.Etx.{
  value_error, time_default, or_default, has_kind, both_less, margin_violated, widened_high,
  widened_low,
}

-- Two times of one kind, where both are set: the second is later by at least the given seconds.
abbrev pub Apart : ℤ → Option Value → Option Value → Type 0
Apart room (some (number a)) (some (number b)) = a +ℤ room ≤ℤ b
Apart room (some (datetime a)) (some (datetime b)) = a +ℤ room ≤ℤ b
Apart room (some _) (some _) = ⊥
Apart room _ _ = Unit

-- The arithmetic of widening, one lemma for each outcome of its test.
moves_high : (v t m : ℤ) → (v -ℤ t) <ℤ m → (t +ℤ m ≤ℤ t +ℤ m) × (v +ℤ pos 0 ≤ℤ t +ℤ m)
moves_high v t m h = omega int_laws

keeps_high : (v t m : ℤ) → m ≤ℤ (v -ℤ t) → (t +ℤ m ≤ℤ v) × (v +ℤ pos 0 ≤ℤ v)
keeps_high v t m h = omega int_laws

moves_low :
    (v t m : ℤ) → (t -ℤ v) <ℤ m → (t +ℤ (pos 0 -ℤ m) +ℤ m ≤ℤ t) × (t +ℤ (pos 0 -ℤ m) +ℤ pos 0 ≤ℤ v)
moves_low v t m h = omega int_laws

keeps_low : (v t m : ℤ) → m ≤ℤ (t -ℤ v) → (v +ℤ m ≤ℤ t) × (v +ℤ pos 0 ≤ℤ v)
keeps_low v t m h = omega int_laws

pub Apart-trans :
    (a : Option Value) (v : Value) (c : Option Value)
    → Apart (pos 0) a (some v)
    → Apart (pos 0) (some v) c
    → Apart (pos 0) a c
unfolding ◌+ℤ◌
Apart-trans none v c h k = tt
Apart-trans (some w) v none h k = ground arith
Apart-trans (some w) v (some u) h k = ground arith

-- A `do` block of checks that returns has passed each check.
pub raise_if-ok : (m : Result Bool) (x : Error) → (m >>= λ b. raise_if b x) ≡ ok tt → m ≡ ok false
raise_if-ok (ok true) x h = cc
raise_if-ok (ok false) x h = refl
raise_if-ok (err y) x h = cc

pub raise_if-false : (b : Bool) (u : Unit) → raise_if b value_error ≡ ok u → b ≡ false
raise_if-false true u h = cc
raise_if-false false u h = refl

module _ (dated : Bool) where
  pub both_less-Apart :
      (high low : Option Value)
      → has_kind dated high ≡ true
      → has_kind dated low ≡ true
      → both_less high low ≡ ok false
      → Apart (pos 0) low high
  unfolding both_less ◌+ℤ◌
  both_less-Apart none none p q h = tt
  both_less-Apart none (some v) p q h = ground arith
  both_less-Apart (some v) none p q h = tt
  both_less-Apart (some v) (some w) p q h = ground arith

  pub margin_violated-Apart :
      (room : ℤ) (high low : Option Value)
      → margin_violated dated room high low ≡ ok false
      → Apart room low high
  unfolding margin_violated ◌+ℤ◌ ◌-ℤ◌
  margin_violated-Apart room none none h = tt
  margin_violated-Apart room none (some v) h = ground arith
  margin_violated-Apart room (some v) none h = tt
  margin_violated-Apart room (some v) (some w) h = ground arith

  -- Widening keeps a bound that has its margin, and else puts it at the margin, farther out.
  pub widened_high-moves :
      (margin : ℤ) (v t : Value) (high' : Option Value)
      → has_kind dated (some v) ≡ true
      → has_kind dated (some t) ≡ true
      → widened_high dated margin (some v) (some t) ≡ ok high'
      → Apart margin (some t) high' × Apart (pos 0) (some v) high' × (has_kind dated high' ≡ true)
  unfolding widened_high
  widened_high-moves margin (number v) (number t) high' p q h =
      ground (arith, moves_high v t margin, keeps_high v t margin)
  widened_high-moves margin (datetime v) (datetime t) high' p q h =
      ground (arith, moves_high v t margin, keeps_high v t margin)
  widened_high-moves margin v t high' p q h = ground arith

  pub widened_low-moves :
      (margin : ℤ) (v t : Value) (low' : Option Value)
      → has_kind dated (some v) ≡ true
      → has_kind dated (some t) ≡ true
      → widened_low dated margin (some v) (some t) ≡ ok low'
      → Apart margin low' (some t) × Apart (pos 0) low' (some v) × (has_kind dated low' ≡ true)
  unfolding widened_low
  widened_low-moves margin (number v) (number t) low' p q h =
      ground (arith, moves_low v t margin, keeps_low v t margin)
  widened_low-moves margin (datetime v) (datetime t) low' p q h =
      ground (arith, moves_low v t margin, keeps_low v t margin)
  widened_low-moves margin v t low' p q h = ground arith

  pub widened_high-Apart :
      (margin : ℤ) (high low time high' : Option Value)
      → has_kind dated high ≡ true
      → has_kind dated time ≡ true
      → Apart (pos 0) low high
      → widened_high dated margin high time ≡ ok high'
      → Apart margin time high' × Apart (pos 0) low high' × (has_kind dated high' ≡ true)
  unfolding widened_high
  widened_high-Apart margin none low time high' p q s h = ground arith
  widened_high-Apart margin (some v) low none high' p q s h = ground arith
  widened_high-Apart margin (some v) low (some t) high' p q s h =
      let (room, out, kind) = widened_high-moves margin v t high' p q h in
      (room, Apart-trans low v high' s out, kind)

  pub widened_low-Apart :
      (margin : ℤ) (low high time low' : Option Value)
      → has_kind dated low ≡ true
      → has_kind dated time ≡ true
      → Apart (pos 0) low high
      → widened_low dated margin low time ≡ ok low'
      → Apart margin low' time × Apart (pos 0) low' high × (has_kind dated low' ≡ true)
  unfolding widened_low
  widened_low-Apart margin none high time low' p q s h = ground arith
  widened_low-Apart margin (some v) high none low' p q s h = ground arith
  widened_low-Apart margin (some v) high (some t) low' p q s h =
      let (room, out, kind) = widened_low-moves margin v t low' p q h in
      (room, Apart-trans low' v high out s, kind)

  pub time_default-has_kind :
      (bound default time bound' : Option Value) (s : ℤ)
      → has_kind dated bound ≡ true
      → has_kind dated default ≡ true
      → has_kind dated time ≡ true
      → time_default dated (or_default bound default) time s ≡ ok bound'
      → has_kind dated bound' ≡ true
  unfolding time_default
  time_default-has_kind bound default time bound' s p q r h = ground arith
