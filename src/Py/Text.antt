-- ===== src/Py/Text.antt =====
-- The operations on `str` that the runtime uses.
use Prim.Native.Char.{code}
use Prim.Native.String.{String}
use text.Mathlib.Text.{◌==◌ as str_eq}
use industrial_ams.Base.{ℕ, zero, suc, Bool, true, false, Option, none, some, ◌==◌, if◌then◌else◌}

-- `s == t`
abbrev pub same_text : String → String → Bool
same_text s t = str_eq s t

-- `bool(s)`
abbrev pub is_written : String → Bool
is_written String.[] = false
is_written (String.◌∷◌ c s) = true

-- `s[0:n]`
unfoldable pub slice_to : ℕ → String → String
slice_to zero s = ""
slice_to n String.[] = ""
slice_to (suc n) (String.◌∷◌ c s) = String.◌∷◌ c (slice_to n s)

-- `s[n:]`
unfoldable pub slice_from : ℕ → String → String
slice_from zero s = s
slice_from n String.[] = ""
slice_from (suc n) (String.◌∷◌ c s) = slice_from n s

-- What follows the prefix
unfoldable pub strip_prefix : String → String → Option String
strip_prefix String.[] s = some s
strip_prefix (String.◌∷◌ c p) String.[] = none
strip_prefix (String.◌∷◌ c p) (String.◌∷◌ d s) = if code c == code d then strip_prefix p s else none

-- What comes before the first such character: `s.split(c)[0]`
unfoldable pub before_first : ℕ → String → String
before_first n String.[] = ""
before_first n (String.◌∷◌ c s) = if code c == n then "" else String.◌∷◌ c (before_first n s)

-- `s.rsplit(c, 1)`, where it has two parts
unfoldable pub split_last : ℕ → String → Option (String × String)
split_last n String.[] = none
split_last n (String.◌∷◌ c s) = elim (split_last n s) [
  | some (a, b) ↦ some (String.◌∷◌ c a, b)
  | none ↦ if code c == n then some ("", s) else none
]
