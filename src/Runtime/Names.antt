-- ===== src/Runtime/Names.antt =====
-- `get_valid_agent_name`, `get_image_version` and the variables of a service, in iams/runtime.py. The
-- first four characters of the namespace are plain text for a regular expression.
use Prim.Native.Char.{code}
use Prim.Native.String.{◌++◌}
use industrial_ams.Base.{
  ℕ, String, Bool, false, ◌&&◌, ◌||◌, Option, none, some, List, [], ◌∷◌, leb, ◌==◌, if◌then◌else◌,
}
use industrial_ams.Py.{Result, ok, err, invalid_agent_name}
use industrial_ams.Py.Text.{slice_to, strip_prefix, before_first, split_last}
use industrial_ams.Runtime.{Service}

unfoldable pub is_letter : ℕ → Bool
is_letter c = (leb b'a' c && leb c b'z') || (leb b'A' c && leb c b'Z')

unfoldable pub is_alnum : ℕ → Bool
unfolding is_letter
is_alnum c = is_letter c || (leb b'0' c && leb c b'9')

unfoldable pub is_inner : ℕ → Bool
unfolding is_alnum
is_inner c = is_alnum c || c == b'-'

-- `[a-zA-Z0-9-]*[a-zA-Z0-9]`
unfoldable pub is_rest : String → Bool
unfolding is_inner
is_rest String.[] = false
is_rest (String.◌∷◌ c String.[]) = is_alnum (code c)
is_rest (String.◌∷◌ c (String.◌∷◌ d s)) = is_inner (code c) && is_rest (String.◌∷◌ d s)

-- `[a-zA-Z][a-zA-Z0-9-]+[a-zA-Z0-9]`
unfoldable pub is_body : String → Bool
unfolding is_rest
is_body String.[] = false
is_body (String.◌∷◌ c String.[]) = false
is_body (String.◌∷◌ c (String.◌∷◌ d s)) = is_letter (code c) && is_inner (code d) && is_rest s

-- `$` also matches before a newline at the end.
unfoldable pub chop : String → String
chop String.[] = ""
chop (String.◌∷◌ c String.[]) = if code c == 10 then "" else String.◌∷◌ c ""
chop (String.◌∷◌ c (String.◌∷◌ d s)) = String.◌∷◌ c (chop (String.◌∷◌ d s))

-- `self.iams_namespace[0:4] + '_'`
abbrev pub prefix_of : String → String
prefix_of iams_namespace = slice_to 4 iams_namespace ++ "_"

abbrev pub or_whole : Option String → String → String
or_whole (some rest) name = rest
or_whole none name = name

abbrev pub body_of : String → String → String
body_of iams_namespace name =
    or_whole (strip_prefix (prefix_of iams_namespace) (chop name)) (chop name)

unfoldable pub get_valid_agent_name : String → String → Result String
unfolding is_body chop strip_prefix
get_valid_agent_name iams_namespace name =
    let body = body_of iams_namespace name in
    if is_body body then ok (prefix_of iams_namespace ++ body) else err invalid_agent_name

-- `get_image_version`; `none` where the list that it returns has one part
unfoldable pub get_image_version : Service → Option (String × String)
unfolding before_first split_last
get_image_version service = split_last b':' (before_first b'@' service.image)

pub data Variable : Type 0 where
  address port : Variable

-- `(.*)$`
until_end : String → Option String
until_end String.[] = some ""
until_end (String.◌∷◌ c String.[]) = if code c == 10 then some "" else some (String.◌∷◌ c "")
until_end (String.◌∷◌ c (String.◌∷◌ d s)) = elim (until_end (String.◌∷◌ d s)) [
  | some v ↦ (if code c == 10 then none else some (String.◌∷◌ c v))
  | none ↦ none
]

value_of : Variable → Option String → Option (Variable × String)
unfolding until_end
value_of v none = none
value_of v (some s) = elim (until_end s) [ some t ↦ some (v, t) | none ↦ none ]

-- `RE_ENV.match(env).groups()`
unfoldable pub match_env : String → Option (Variable × String)
unfolding value_of strip_prefix
match_env env = elim (value_of address (strip_prefix "IAMS_ADDRESS=" env)) [
  | some found ↦ some found
  | none ↦ value_of port (strip_prefix "IAMS_PORT=" env)
]

abbrev note_variable :
    Option (Variable × String) → Option String × Option String → Option String × Option String
note_variable none found = found
note_variable (some (address, v)) found = (some v, found.1)
note_variable (some (port, v)) found = (found.0, some v)

-- The loop over the variables, with `address` and `port` as they stand before it
unfoldable pub read_env :
    List String → Option String × Option String → Option String × Option String
unfolding match_env
read_env [] found = found
read_env (env ∷ rest) found = read_env rest (note_variable (match_env env) found)
