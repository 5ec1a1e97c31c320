-- ===== src/Aio/Channels/Tests.antt =====
-- Runs of the channels of iams/aio/grpc.py, and the theorems at concrete pools
use industrial_ams.Base.{ℕ, ◌==◌, ◌≤◌, arith, Bool, true, false, [], ◌∷◌, none, some, ◌≡◌, refl}
use industrial_ams.Py.{ok, err, key_error}
use industrial_ams.Py.Dict.{lookup, put, remove_key}
use industrial_ams.Base.Int.{◌+ℤ◌, ◌-ℤ◌}
use industrial_ams.Aio.Channels.{
  remove_key, ◌-ℤ◌, ◌+ℤ◌, set_options, put, enter, leave, new_channel, channel_key, begin, connect,
  close_instance, get_stub,
}
use industrial_ams.Aio.Channels.Users.{System, IsCounted}
use industrial_ams.Aio.Channels.Counts.{
  Step, IsReached, IsFresh, entered, reached-IsCounted, reached-leave,
}
use industrial_ams.Aio.Channels.Upgrading.{persistent_enter}

abbrev same : ℕ → ℕ → Bool
same a b = a == b

abbrev fresh : System ℕ
fresh = record {
  pool = record {
    channels = [];
    object = λ n. new_channel "" false;
    objects = 0;
    instances = 0;
    closed = [];
  };
  inside = λ n. 0;
  lost = λ n. 0;
}

fresh-IsFresh : IsFresh fresh
unfolding lookup
fresh-IsFresh = (λ k. refl, λ o. refl)

-- Two users enter the channel of "tcp_a", the second with an option: the gRPC channel is made anew.
abbrev one : System ℕ
one = entered same "a:443" false none fresh

abbrev both : System ℕ
both = entered same "a:443" false (some (("time", 3) ∷ [])) one

both-IsReached : IsReached same both
unfolding begin set_options lookup put connect
both-IsReached =
    IsReached.step one both
      (IsReached.step fresh one (IsReached.start fresh fresh-IsFresh)
        (Step.enters "a:443" false none fresh refl))
      (Step.reopens "a:443" false (some (("time", 3) ∷ [])) one refl)

reached-IsCounted_example : IsCounted both
reached-IsCounted_example = reached-IsCounted same both both-IsReached

one-IsReached : IsReached same one
unfolding begin lookup put
one-IsReached =
    IsReached.step fresh one (IsReached.start fresh fresh-IsFresh)
      (Step.enters "a:443" false none fresh refl)

inside_both : 1 ≤ both.inside 0
unfolding begin connect close_instance lookup
inside_both = omega arith

reached-leave_example :
    let (result, pool) = leave 0 both.pool in
    (result ≡ ok tt) × ((lookup "a:443" pool.channels ≡ some 0) × (pool.closed ≡ 0 ∷ []))
unfolding begin connect close_instance set_options put lookup ◌+ℤ◌
reached-leave_example = reached-leave same both 0 both-IsReached inside_both

persistent_enter_example :
    let pool = (enter same "a:443" true none one.pool).1 in
    (pool.closed ≡ 0 ∷ [])
    × (((pool.object 0).instance' ≡ some 1) × ((pool.object 0).persistent ≡ false))
unfolding begin connect lookup
persistent_enter_example = persistent_enter same "a:443" none one.pool 0 0 refl refl refl

-- The second user to leave takes the channel out, and its gRPC channel, the second, is closed.
second_leave : (leave 0 (leave 0 both.pool).1).1.closed ≡ 1 ∷ (0 ∷ [])
unfolding begin connect close_instance set_options put lookup ◌+ℤ◌ ◌-ℤ◌ leave remove_key
second_leave = refl

-- A user asks for an option, and while the old gRPC channel is closed the only user leaves: the channel
-- is taken out of the dict, the one who asked still enters it, and raises KeyError on leaving.
overtaken :
    let ((o, old), asked) = begin same "a:443" false (some (("time", 3) ∷ [])) one.pool in
    let (left, meanwhile) = leave 0 asked in
    let entered = connect o (close_instance o meanwhile) in
    (o ≡ 0) × (old ≡ true) × (left ≡ ok tt) × ((leave o entered).0 ≡ err key_error)
unfolding begin connect close_instance set_options put lookup ◌+ℤ◌ ◌-ℤ◌ leave remove_key
overtaken = (refl, refl, refl, refl)

-- A stub that was made for the first gRPC channel is found although that channel is closed.
old_stub :
    let with_stub = (get_stub "Agent" (one.pool.object 0)).1 in
    (get_stub "Agent" (record with_stub { instance' = some 1 })).0 ≡ some 0
unfolding begin connect lookup get_stub put
old_stub = refl

channel_keys :
    (channel_key none "localhost" "443" ≡ "localhost:443")
    × (channel_key (some "tcp_a") "localhost" "443" ≡ "tcp_a:443")
unfolding channel_key
channel_keys = (refl, refl)
