-- ===== src/Aio/Channels.antt =====
-- The gRPC channels of `class GRPCCoroutine` in iams/aio/grpc.py. A channel object is a number, under
-- which the pool holds its attributes, since a coroutine keeps the object after it has left the dict.
-- Between two awaits the code runs undisturbed: `begin` and `connect` are the parts of `_channel` before
-- and after the await that closes an old instance.
pub mod Users
pub mod Joining
pub mod Opening
pub mod Leaving
pub mod Entering
pub mod Releasing
pub mod Upgrading
pub mod Counts
mod Tests
use industrial_ams.Base.{
  ℕ, ◌+◌, String, Bool, true, false, not, ◌&&◌, ◌||◌, Option, none, some, is_some, List, [], ◌∷◌,
  ◌==◌, if◌then◌else◌,
}
use Prim.Native.String.{◌++◌ as ◌+++◌}
use industrial_ams.Base.Int.{ℤ, pos, ◌+ℤ◌, ◌-ℤ◌, ltb_ℤ}
use industrial_ams.Py.{Result, ok, err, key_error, attribute_error, Method}
use industrial_ams.Py.Text.{same_text, is_written}
use industrial_ams.Py.Dict.{Dict, lookup, put, remove_key}

-- `Channel`; an instance is the number of a gRPC channel, a stub that of the channel it was made for.
-- `peristent` is the attribute that `_channel` sets.
pub record Channel (V : Type 0) : Type 0 where
  pub key : String
  pub persistent : Bool
  pub peristent : Bool
  pub options : Dict V
  pub stubs : Dict (Option ℕ)
  pub instance' : Option ℕ
  pub connections : ℤ

-- The attribute `channels`, the objects, and how many objects and gRPC channels were made
pub record Pool (V : Type 0) : Type 0 where
  pub channels : Dict ℕ
  pub object : ℕ → Channel V
  pub objects : ℕ
  pub instances : ℕ
  pub closed : List ℕ

-- `f"{server!s}:{port!s}"`, of `hostname or self.manager`
abbrev server_of : Option String → String → String
server_of none manager = manager
server_of (some hostname) manager = if is_written hostname then hostname else manager

unfoldable pub channel_key : Option String → String → String → String
channel_key hostname manager port = server_of hostname manager +++ (":" +++ port)

abbrev pub store : {V : Type 0} → ℕ → Channel V → Pool V → Pool V
store o c pool = record pool { object = λ n. if n == o then c else pool.object n }

abbrev pub new_channel : {V : Type 0} → String → Bool → Channel V
new_channel key persistent = record {
  key = key;
  persistent = persistent;
  peristent = false;
  options = [];
  stubs = [];
  instance' = none;
  connections = pos 0;
}

-- `self.channels[key]`, or a new object
abbrev pub found_or_new : {V : Type 0} → String → Bool → Option ℕ → Pool V → ℕ × Pool V
found_or_new key persistent (some o) pool = (o, pool)
found_or_new key persistent none pool = (
  pool.objects,
  record pool {
    channels = put key pool.objects pool.channels;
    object = λ n. if n == pool.objects then new_channel key persistent else pool.object n;
    objects = pool.objects + 1;
  },
)

-- `if persistent and not channel.persistent`
abbrev pub ask_persistent : {V : Type 0} → Bool → Channel V → Bool × Channel V
ask_persistent persistent c =
    if persistent && not c.persistent then (true, record c { peristent = true }) else (false, c)

module _ {V : Type 0} (same : V → V → Bool) where
  -- `channel.options.get(key, None) != value`
  abbrev differs : Option V → V → Bool
  differs none v = true
  differs (some w) v = not (same w v)

  -- The loop over the options
  unfoldable pub set_options : Dict V → Bool × Dict V → Bool × Dict V
  unfolding lookup put
  set_options [] r = r
  set_options ((k, v) ∷ options) (recreate, old) =
      set_options options
        (if differs (lookup k old) v then (true, put k v old) else (recreate, old))

  abbrev pub requested : Option (Dict V) → Bool × Channel V → Bool × Channel V
  requested none r = r
  requested (some options) (recreate, c) =
      let (changed, merged) = set_options options (recreate, c.options) in
      (changed, record c { options = merged })

  -- `_channel` up to the await: the object, and whether its instance is to be closed
  unfoldable pub begin : String → Bool → Option (Dict V) → Pool V → (ℕ × Bool) × Pool V
  unfolding set_options lookup put
  begin key persistent options pool =
      let (o, pool') = found_or_new key persistent (lookup key pool.channels) pool in
      let (recreate, c) = requested options (ask_persistent persistent (pool'.object o)) in
      ((o, recreate && is_some c.instance'), store o c pool')

abbrev pub closing : Option ℕ → List ℕ → List ℕ
closing none closed = closed
closing (some i) closed = i ∷ closed

-- `await channel.instance.close()` and `channel.instance = None`
unfoldable pub close_instance : {V : Type 0} → ℕ → Pool V → Pool V
close_instance o pool =
    let c = pool.object o in
    record (store o (record c { instance' = none }) pool) {
      closed = closing c.instance' pool.closed;
    }

-- `if channel.instance is None`, and `connections += 1` of `channel`
abbrev pub connected : {V : Type 0} → ℕ → Option ℕ → Pool V → Pool V
connected o (some i) pool =
    let c = pool.object o in store o (record c { connections = c.connections +ℤ pos 1 }) pool
connected o none pool =
    let c = pool.object o in
    record (store o
      (record c { instance' = some pool.instances; connections = c.connections +ℤ pos 1 }) pool) {
        instances = pool.instances + 1;
      }

unfoldable pub connect : {V : Type 0} → ℕ → Pool V → Pool V
connect o pool = connected o (pool.object o).instance' pool

-- `_channel` and the count of `channel`, for a user during whose wait for the old instance to close
-- nobody comes or goes
module _ {V : Type 0} (same : V → V → Bool) where
  abbrev pub renewed : (ℕ × Bool) × Pool V → ℕ × Pool V
  renewed ((o, old), pool) = (o, connect o (if old then close_instance o pool else pool))

  abbrev pub enter : String → Bool → Option (Dict V) → Pool V → ℕ × Pool V
  enter key persistent options pool = renewed (begin same key persistent options pool)

-- `await channel.instance.close()`, once the channel has left the dict
abbrev pub close_removed : {V : Type 0} → Option ℕ → Pool V → Result (Unit {0}) × Pool V
close_removed none pool = (err attribute_error, pool)
close_removed (some i) pool = (ok tt, record pool { closed = i ∷ pool.closed })

-- `del self.channels[channel.key]`, and the closing
abbrev pub released : {V : Type 0} → Option ℕ → Channel V → Pool V → Result (Unit {0}) × Pool V
released none c pool = (err key_error, pool)
released (some other) c pool =
    close_removed c.instance' (record pool { channels = remove_key c.key pool.channels })

-- The end of `channel`, after a body that did not raise; a body that raises skips it.
unfoldable pub leave : {V : Type 0} → ℕ → Method (Pool V) (Unit {0})
unfolding lookup remove_key
leave o pool =
    let c = pool.object o in
    let left = record c { connections = c.connections -ℤ pos 1 } in
    let pool' = store o left pool in
    if not c.persistent && not (ltb_ℤ (pos 0) left.connections)
    then released (lookup c.key pool.channels) c pool'
    else (ok tt, pool')

-- `get_stub`: a stub that was made before is found, whatever became of its gRPC channel.
abbrev found_stub : {V : Type 0} → String → Option (Option ℕ) → Channel V → Option ℕ × Channel V
found_stub name (some stub) c = (stub, c)
found_stub name none c = (c.instance', record c { stubs = put name c.instance' c.stubs })

unfoldable pub get_stub : {V : Type 0} → String → Channel V → Option ℕ × Channel V
unfolding lookup
get_stub name c = found_stub name (lookup name c.stubs) c
