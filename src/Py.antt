-- ===== src/Py.antt =====
-- The parts of Python that the scheduler uses: exceptions, methods that change an object and may
-- raise, and the dynamic values that stand for times. A number is an `int`; a datetime is the whole
-- seconds since a fixed moment; `other` is an object of any other type, which supports none of the
-- operations on times.
pub mod Calls
pub mod Text
pub mod Dict
pub mod Filtered
use industrial_ams.Base.{◌≡◌, refl, ◌⊎◌, inl, inr, Bool, true, false, Option, none, some}
use industrial_ams.Base.Int.{ℤ, ◌+ℤ◌, ◌-ℤ◌, ltb_ℤ, eqb_ℤ}

-- The status codes of gRPC with which a call is aborted
pub data StatusCode : Type 0 where
  invalid_argument missing unauthenticated permission_denied : StatusCode

pub data Error : Type 0 where
  value_error type_error attribute_error assertion_error not_implemented : Error
  key_error zero_division can_not_schedule : Error
  index_error not_found image_not_found invalid_agent_name : Error
  aborted : StatusCode → Error

-- A value, or the exception that was raised on the way to it
pub data Result {ℓ} (A : Type ℓ) : Type ℓ where
  err : Error → Result A
  ok : A → Result A

-- `if test: raise error`
abbrev pub raise_if : Bool → Error → Result (Unit {0})
raise_if true x = err x
raise_if false x = ok tt

infixl 5 ◌>>=◌ ◌>>◌
abbrev pub ◌>>=◌ {κ ℓ} : {B : Type κ} {A : Type ℓ} → Result A → (A → Result B) → Result B
err x >>= next = err x
ok v >>= next = next v

-- A statement whose value is `None`
abbrev pub ◌>>◌ {κ} : {B : Type κ} → Result (Unit {0}) → Result B → Result B
first >> rest = first >>= λ done. rest

-- A block that returns took its first step.
pub >>=-eq-ok {κ ℓ} :
    {B : Type κ} {A : Type ℓ} (first : Result A) (next : A → Result B) {w : B}
    → (first >>= next) ≡ ok w
    → (v : A) × (first ≡ ok v) × (next v ≡ ok w)
>>=-eq-ok (err x) next h = cc
>>=-eq-ok (ok v) next h = (v, refl, h)

-- To split on a result and keep the equation.
pub Result-cases {ℓ} :
    {A : Type ℓ} (r : Result A) → ((a : A) × (r ≡ ok a)) ⊎ ((x : Error) × (r ≡ err x))
Result-cases (ok a) = inl (a, refl)
Result-cases (err x) = inr (x, refl)

-- A method call: what was written before a raise stays written.
abbrev pub Method {ℓ κ} : Type ℓ → Type κ → Type (ℓ ⊔ κ)
Method S A = S → Result A × S

-- One statement after another: a raise ends the block.
abbrev pub resume {ℓ κ} :
    {S : Type ℓ} {A : Type κ} → Result (Unit {0}) × S → Method S A → Result A × S
resume (ok u, s) rest = rest s
resume (err x, s) rest = (err x, s)

abbrev pub in_turn {ℓ κ} : {S : Type ℓ} {A : Type κ} → Method S (Unit {0}) → Method S A → Method S A
in_turn first rest s = resume (first s) rest

pub data Value : Type 0 where
  number : ℤ → Value
  datetime : ℤ → Value
  other : Value

abbrev pub is_datetime : Value → Bool
is_datetime (datetime t) = true
is_datetime v = false

abbrev pub is_number : Value → Bool
is_number (number n) = true
is_number v = false

-- `a < b`
unfoldable pub less : Value → Value → Result Bool
less (number a) (number b) = ok (ltb_ℤ a b)
less (datetime a) (datetime b) = ok (ltb_ℤ a b)
less _ _ = err type_error

-- `a < b` where a side may be `None`
unfoldable pub less_opt : Option Value → Option Value → Result Bool
unfolding less
less_opt (some a) (some b) = less a b
less_opt _ _ = err type_error

-- `a == b`, which never raises; an object of another type is equal to no time.
abbrev pub equal : Value → Value → Bool
equal (number a) (number b) = eqb_ℤ a b
equal (datetime a) (datetime b) = eqb_ℤ a b
equal _ _ = false

abbrev pub equal_opt : Option Value → Option Value → Bool
equal_opt none none = true
equal_opt (some a) (some b) = equal a b
equal_opt _ _ = false

-- `(a - b).total_seconds()`: the difference of two numbers is a number, which has no such method.
abbrev pub seconds_between : Value → Value → Result ℤ
seconds_between (datetime a) (datetime b) = ok (a -ℤ b)
seconds_between (number a) (number b) = err attribute_error
seconds_between _ _ = err type_error

-- `a - b` where a number is wanted: the difference of two datetimes compares with no number.
abbrev pub number_between : Value → Value → Result ℤ
number_between (number a) (number b) = ok (a -ℤ b)
number_between _ _ = err type_error

-- `a + timedelta(seconds=s)`
abbrev pub shift : Value → ℤ → Result Value
shift (datetime a) s = ok (datetime (a +ℤ s))
shift _ s = err type_error

-- `a + timedelta(seconds=b)`
abbrev pub shift_by : Value → Value → Result Value
shift_by a (number s) = shift a s
shift_by a _ = err type_error

-- `a + s`
abbrev pub add_number : Value → ℤ → Result Value
add_number (number a) s = ok (number (a +ℤ s))
add_number _ s = err type_error
