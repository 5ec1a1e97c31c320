-- ===== src/Etx/Validity.antt =====
-- What the constructor of an ETX establishes, and what its setters keep.
use industrial_ams.Base.{inr, subst, ap, ◌∙◌, inl, ◌≡◌, true, Option, none, some, arith}
use industrial_ams.Base.Int.{pos, ◌+ℤ◌, ◌-ℤ◌, ◌≤ℤ◌}
use industrial_ams.Py.{Result-cases, Result, ok, err, raise_if, Value, >>=-eq-ok}
use industrial_ams.Etx.{
  with_kind, check_inputs, constructed, value_error, Etx, has_kind, both_less, margin_violated,
  widened_high, widened_low, margins, check_order, widen_high, widen_low, set_defaults, validate,
  init,
}
use industrial_ams.Etx.Methods.{set_constraints}
use industrial_ams.Etx.Margins.{
  raise_if-false, both_less-Apart, widened_low-Apart, margin_violated-Apart, widened_high-Apart,
  time_default-has_kind, raise_if-ok, Apart,
}

-- Every time has the kind of the object.
pub record IsTyped (e : Etx) : Type 0 where
  pub time : has_kind e.use_datetime e.time ≡ true
  pub constraint_high : has_kind e.use_datetime e.constraint_high ≡ true
  pub constraint_low : has_kind e.use_datetime e.constraint_low ≡ true
  pub time_high : has_kind e.use_datetime e.time_high ≡ true
  pub time_low : has_kind e.use_datetime e.time_low ≡ true

pub record IsValid (e : Etx) : Type 0 where
  pub typed : IsTyped e
  pub margin_low : pos 0 ≤ℤ e.margin_low
  pub margin_high : pos 0 ≤ℤ e.margin_high
  pub constraints : Apart (margins e) e.constraint_low e.constraint_high
  pub above : Apart e.margin_high e.time e.time_high
  pub below : Apart e.margin_low e.time_low e.time
  pub soft : Apart (pos 0) e.time_low e.time_high

check_order-Apart :
    (e : Etx)
    → IsTyped e
    → check_order e ≡ ok tt
    → Apart (margins e) e.constraint_low e.constraint_high × Apart (pos 0) e.time_low e.time_high
unfolding check_order
check_order-Apart e t h =
    let (hard, hard_less, rest) = >>=-eq-ok (both_less e.constraint_high e.constraint_low) _ h in
    let (u, _, rest) = >>=-eq-ok (raise_if hard value_error) _ rest in
    let (soft, soft_less, rest) = >>=-eq-ok (both_less e.time_high e.time_low) _ rest in
    let (w, in_order, rest) = >>=-eq-ok (raise_if soft value_error) _ rest in
    let tight =
      raise_if-ok (margin_violated e.use_datetime (margins e) e.constraint_high e.constraint_low)
        value_error rest in
    (
      margin_violated-Apart e.use_datetime (margins e) e.constraint_high e.constraint_low tight,
      both_less-Apart e.use_datetime e.time_high e.time_low t.time_high t.time_low
          (soft_less ∙ ap ok (raise_if-false soft w in_order)),
    )

-- What the arguments of `validate` need for its result to be valid.
record IsReady (e : Etx) : Type 0 where
  typed : IsTyped e
  margin_low : pos 0 ≤ℤ e.margin_low
  margin_high : pos 0 ≤ℤ e.margin_high

module _ (e : Etx) (ready : IsReady e) (ordered : check_order e ≡ ok tt) where
  widen-IsValid :
      (high low : Option Value)
      → widened_high e.use_datetime e.margin_high e.time_high e.time ≡ ok high
      → widened_low e.use_datetime e.margin_low e.time_low e.time ≡ ok low
      → IsValid (record e { time_high = high; time_low = low })
  widen-IsValid high low eh el =
      let (hard, soft) = check_order-Apart e ready.typed ordered in
      let (above, soft, kind_high) =
        widened_high-Apart e.use_datetime e.margin_high e.time_high e.time_low e.time high
          ready.typed.time_high ready.typed.time soft eh in
      let (below, soft, kind_low) =
        widened_low-Apart e.use_datetime e.margin_low e.time_low high e.time low
          ready.typed.time_low ready.typed.time soft el in
      record {
        typed = record {
          time = ready.typed.time;
          constraint_high = ready.typed.constraint_high;
          constraint_low = ready.typed.constraint_low;
          time_high = kind_high;
          time_low = kind_low;
        };
        margin_low = ready.margin_low;
        margin_high = ready.margin_high;
        constraints = hard;
        above = above;
        below = below;
        soft = soft;
      }

  ordered-IsValid : (e' : Etx) → validate e ≡ (ok tt, e') → IsValid e'
  unfolding validate widen_high widen_low
  ordered-IsValid e' h =
      elim (Result-cases (widened_high e.use_datetime e.margin_high e.time_high e.time)) [
        | inl (high, eh) ↦
            elim (Result-cases (widened_low e.use_datetime e.margin_low e.time_low e.time)) [
              | inl (low, el) ↦ subst IsValid (ground arith) (widen-IsValid high low eh el)
              | inr (x, el) ↦ ground arith
            ]
        | inr (x, eh) ↦ ground arith
      ]

validate-IsValid : (e e' : Etx) → IsReady e → validate e ≡ (ok tt, e') → IsValid e'
unfolding validate
validate-IsValid e e' ready h = elim (Result-cases (check_order e)) [
  | inl (u, ordered) ↦ ordered-IsValid e ready ordered e' h
  | inr (x, raised) ↦ ground arith
]

check_inputs-IsReady : (e : Etx) (u : Unit) → check_inputs e ≡ ok u → IsReady e
unfolding check_inputs
check_inputs-IsReady e u h = ground arith

-- The arguments that the constructor has checked are ready.
set_defaults-IsReady : (e e' : Etx) → IsReady e → set_defaults e ≡ ok e' → IsReady e'
unfolding set_defaults
set_defaults-IsReady e e' r h = ground (
  arith,
  time_default-has_kind e.use_datetime e.time_high e.constraint_high e.time e'.time_high
      e.margin_high,
  time_default-has_kind e.use_datetime e.time_low e.constraint_low e.time e'.time_low
      (pos 0 -ℤ e.margin_low),
)

constructed-eq : (r : Result (Unit {0}) × Etx) (e : Etx) → constructed r ≡ ok e → r ≡ (ok tt, e)
constructed-eq (ok u, e') e h = cc
constructed-eq (err x, e') e h = cc

-- An ETX that the constructor returns is valid: its times are of one kind, its margins are not
-- negative, its constraints are in order and leave room for both margins, its soft range is in order
-- and keeps the margins on both sides of the time.
pub init-IsValid : (args e : Etx) → init args ≡ ok e → IsValid e
unfolding init
init-IsValid args e h =
    let (u, checked, rest) = >>=-eq-ok (check_inputs (with_kind args)) _ h in
    let (e', set, rest) = >>=-eq-ok (set_defaults (with_kind args)) _ rest in
    validate-IsValid e' e
      (set_defaults-IsReady (with_kind args) e' (check_inputs-IsReady (with_kind args) u checked)
        set)
      (constructed-eq (validate e') e rest)

-- When `set_constraints` returns, the constraints that it stores are of one kind and leave room for
-- both margins, where both are given; nothing else of the object changes.
pub set_constraints-Apart :
    (lower upper now : Option Value) (e e' : Etx)
    → set_constraints lower upper now e ≡ (ok tt, e')
    → Apart (margins e) e'.constraint_low e'.constraint_high
      × (e' ≡ record e { constraint_low = e'.constraint_low; constraint_high = e'.constraint_high })
unfolding set_constraints ◌+ℤ◌ ◌-ℤ◌
set_constraints-Apart none upper now e e' h = ground arith
set_constraints-Apart (some l) none now e e' h = ground arith
set_constraints-Apart (some l) (some u) none e e' h = ground arith
set_constraints-Apart (some l) (some u) (some n) e e' h = ground arith
