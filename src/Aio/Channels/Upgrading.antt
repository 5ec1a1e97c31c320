-- ===== src/Aio/Channels/Upgrading.antt =====
-- Asking persistently for a channel of iams/aio/grpc.py that was made without.
use industrial_ams.Base.{
  ◌&&◌, is_some, if◌then◌else◌, ◌==◌, ℕ, String, Bool, true, false, [], ◌∷◌, Option, none, some,
  ◌≡◌, refl, ap, ◌∙◌, arith,
}
use industrial_ams.Py.Dict.{Dict, lookup, put}
use industrial_ams.Aio.Channels.{
  Channel, Pool, store, ask_persistent, renewed, connected, closing, enter, begin, connect,
  close_instance, set_options, requested, differs,
}
use industrial_ams.Aio.Channels.Entering.{enter-Joins}

module _ {V : Type 0} (same : V → V → Bool) where
  still_true :
      (b : Bool) (new old : Dict V)
      → (if◌then◌else◌ {A = Bool × Dict V} b (true, new) (true, old)).0 ≡ true
  still_true true new old = refl
  still_true false new old = refl

  set_options-true :
      (options : Dict V) (r : Bool × Dict V) → r.0 ≡ true → (set_options same options r).0 ≡ true
  unfolding set_options
  set_options-true [] r e = e
  set_options-true ((k, v) ∷ options) (recreate, old) e =
      set_options-true options
        (if differs same (lookup k old) v then (true, put k v old) else (recreate, old))
        (rw e (still_true (differs same (lookup k old) v) (put k v old) old))

  requested-true :
      (options : Option (Dict V)) (c : Channel V)
      → ((requested same options (true, c)).0 ≡ true)
        × ((requested same options (true, c)).1.instance' ≡ c.instance')
  requested-true none c = (refl, refl)
  requested-true (some options) c = (set_options-true options (true, c.options) refl, refl)

  connected_new :
      (o : ℕ) (q : Pool V) (i : Option ℕ)
      → i ≡ none
      → ((connected o i q).closed ≡ q.closed)
        × (((connected o i q).object o).instance' ≡ some q.instances)
  connected_new o q i e =
      let same_one : (o == o) ≡ true = ground arith in rw e (refl, rw same_one refl)

  renewed_closed :
      (o : ℕ) (c : Channel V) (q : Pool V) (i : ℕ)
      → c.instance' ≡ some i
      → let pool = (renewed same ((o, true), store o c q)).1 in
        (pool.closed ≡ i ∷ q.closed) × ((pool.object o).instance' ≡ some q.instances)
  unfolding connect close_instance
  renewed_closed o c q i e =
      let same_one : (o == o) ≡ true = ground arith in
      let here : (store o c q).object o ≡ c = rw same_one refl in
      let q' : Pool V = close_instance o (store o c q) in
      let made = connected_new o q' (q'.object o).instance' (rw same_one refl) in
      (made.0 ∙ ap (λ x. closing x q.closed) (ap (λ x. x.instance') here ∙ e), made.1)

  abbrev entered_as : ℕ → Pool V → Bool × Channel V → ℕ × Pool V
  entered_as o p (recreate, c) = renewed same ((o, recreate && is_some c.instance'), store o c p)

  -- A persistent entry into a channel that was made without, and that has a gRPC channel, closes that
  -- one, opens a new one, and leaves the channel as it was: not persistent.
  pub persistent_enter :
      (key : String) (options : Option (Dict V)) (p : Pool V) (o i : ℕ)
      → lookup key p.channels ≡ some o
      → (p.object o).persistent ≡ false
      → (p.object o).instance' ≡ some i
      → let pool = (enter same key true options p).1 in
        (pool.closed ≡ i ∷ p.closed)
        × (((pool.object o).instance' ≡ some p.instances) × ((pool.object o).persistent ≡ false))
  unfolding begin
  persistent_enter key options p o i there single opened =
      let j = enter-Joins same key true options p o there in
      let r = requested-true options (record (p.object o) { peristent = true }) in
      let asks : ask_persistent true (p.object o)
          ≡ (true, record (p.object o) { peristent = true }) =
        rw single refl in
      let (recreate, c) = requested same options (true, record (p.object o) { peristent = true }) in
      let closes = renewed_closed o c p i (r.1 ∙ opened) in
      let begun : enter same key true options p
          ≡ entered_as o p (requested same options (ask_persistent true (p.object o))) =
        rw there refl in
      let flag : recreate && is_some c.instance' ≡ true = rw (r.0, r.1 ∙ opened) refl in
      let done : enter same key true options p ≡ renewed same ((o, true), store o c p) =
        begun
        ∙ (ap (λ a. entered_as o p (requested same options a)) asks
            ∙ ap (λ b. renewed same ((o, b), store o c p)) flag) in
      (
        ap (λ q. q.1.closed) done ∙ closes.0,
        (ap (λ q. (q.1.object o).instance') done ∙ closes.1, j.persistent ∙ single),
      )
