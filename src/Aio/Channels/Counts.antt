-- ===== src/Aio/Channels/Counts.antt =====
-- The users of the channels of iams/aio/grpc.py come and go in any order: what the pool then counts.
use package.text.Mathlib.TextPositions.{eq_refl}
use industrial_ams.Base.{
  if◌then◌else◌, ◌||◌, ltb, ◌==◌, inr, inl, ◌∙◌, sym, arith, subst, ℕ, ◌+◌, ◌≤◌, String, Bool, true,
  false, Option, none, some, ◌≡◌, refl,
}
use industrial_ams.Py.{ok}
use industrial_ams.Py.Dict.{lookup-remove_key, remove_key, Dict, lookup}
use industrial_ams.Aio.Channels.{begin, closing, enter, leave}
use industrial_ams.Aio.Channels.Users.{
  drop_this, kept-IsListed, bump, drop, System, uses, IsCounted,
}
use industrial_ams.Aio.Channels.Joining.{join-IsCounted}
use industrial_ams.Aio.Channels.Opening.{open-IsCounted}
use industrial_ams.Aio.Channels.Leaving.{stay-IsCounted, gone-IsCounted}
use industrial_ams.Aio.Channels.Releasing.{one_less, without, one_less-Leaves, left-Leaves}
use industrial_ams.Aio.Channels.Entering.{enter_found, enter-Joins, enter-Opens}

-- Nobody has asked for a channel yet.
abbrev pub IsFresh : {V : Type 0} → System V → Type 0
IsFresh s = ((k : String) → lookup k s.pool.channels ≡ none) × ((o : ℕ) → uses s o ≡ 0)

abbrev pub left : {V : Type 0} → ℕ → System V → System V
left o s = record s { pool = (leave o s.pool).1; inside = drop o s.inside }

-- The body raises: the code behind it is not run.
abbrev pub raised : {V : Type 0} → ℕ → System V → System V
raised o s = record s { inside = drop o s.inside; lost = bump o s.lost }

module _ {V : Type 0} (same : V → V → Bool) where
  abbrev pub entered : String → Bool → Option (Dict V) → System V → System V
  entered key persistent options s =
      let (o, pool) = enter same key persistent options s.pool in
      record s { pool = pool; inside = bump o s.inside }

  -- Whether an entry has to wait for the old gRPC channel to close
  abbrev pub is_waiting : String → Bool → Option (Dict V) → System V → Bool
  is_waiting key persistent options s = (begin same key persistent options s.pool).0.1

  -- A user enters a channel, leaves it after the body, or drops out of it as the body raises. Each of
  -- these runs without another user in between, but for an entry that closes an old gRPC channel: it
  -- awaits the end of that, and `reopens` is such an entry during whose wait nobody comes or goes.
  pub data Step : System V → System V → Type 0 where
    enters :
        (key : String) (persistent : Bool) (options : Option (Dict V)) (s : System V)
        → is_waiting key persistent options s ≡ false
        → Step s (entered key persistent options s)
    reopens :
        (key : String) (persistent : Bool) (options : Option (Dict V)) (s : System V)
        → is_waiting key persistent options s ≡ true
        → Step s (entered key persistent options s)
    leaves : (o : ℕ) (s : System V) → 1 ≤ s.inside o → Step s (left o s)
    raises : (o : ℕ) (s : System V) → 1 ≤ s.inside o → Step s (raised o s)

  pub data IsReached : System V → Type 0 where
    start : (s : System V) → IsFresh s → IsReached s
    step : (s s' : System V) → IsReached s → Step s s' → IsReached s'

  entered-IsCounted :
      (key : String) (persistent : Bool) (options : Option (Dict V)) (s : System V) (at : Option ℕ)
      → lookup key s.pool.channels ≡ at
      → IsCounted s
      → IsCounted (entered key persistent options s)
  entered-IsCounted key persistent options s none e h =
      subst
        (λ o. IsCounted (record s {
          pool = (enter same key persistent options s.pool).1;
          inside = bump o s.inside;
        }))
        (sym (enter_found same key persistent options s.pool none e))
        (open-IsCounted s.pool (enter same key persistent options s.pool).1 s.inside s.lost key
          (enter-Opens same key persistent options s.pool e) e h)
  entered-IsCounted key persistent options s (some o) e h =
      subst
        (λ o. IsCounted (record s {
          pool = (enter same key persistent options s.pool).1;
          inside = bump o s.inside;
        }))
        (sym (enter_found same key persistent options s.pool (some o) e))
        (join-IsCounted s.pool (enter same key persistent options s.pool).1 s.inside s.lost o
          (enter-Joins same key persistent options s.pool o e) key e h)

fresh-IsCounted : {V : Type 0} (s : System V) → IsFresh s → IsCounted s
fresh-IsCounted s h = record {
  listed = λ k o at. cc (at, h.0 k);
  used = λ o busy. absurd (omega (arith, busy, h.1 o));
}

raised-uses :
    (inside lost : ℕ → ℕ) (o n : ℕ)
    → 1 ≤ inside o
    → drop o inside n + bump o lost n ≡ inside n + lost n
raised-uses inside lost o n h = ground arith

raised-IsCounted :
    {V : Type 0} (o : ℕ) (s : System V) → 1 ≤ s.inside o → IsCounted s → IsCounted (raised o s)
raised-IsCounted o s here h = record {
  listed = λ k n at.
      kept-IsListed s (raised o s) k n refl (raised-uses s.inside s.lost o n here) (omega arith)
        (h.listed k n at);
  used = λ n busy. h.used n (subst (λ m. 1 ≤ m) (raised-uses s.inside s.lost o n here) busy);
}

left-IsCounted :
    {V : Type 0} (o : ℕ) (s : System V) → 1 ≤ s.inside o → IsCounted s → IsCounted (left o s)
left-IsCounted o s here h = elim (left-Leaves o s here h) [
  | inl (used, e) ↦
      subst (λ r. IsCounted (record s { pool = r.1; inside = drop o s.inside })) (sym e)
        (stay-IsCounted s.pool (one_less o s.pool) s.inside s.lost o
          (one_less-Leaves o s.pool s.pool.channels s.pool.closed) here refl
          (λ single. omega (arith, used single, drop_this s.inside s.lost o here)) h)
  | inr (single, (one, e)) ↦
      subst (λ r. IsCounted (record s { pool = r.1; inside = drop o s.inside })) (sym e)
        (gone-IsCounted s.pool (without o s.pool (s.pool.object o).instance') s.inside s.lost o
          (one_less-Leaves o s.pool (remove_key (s.pool.object o).key s.pool.channels)
            (closing (s.pool.object o).instance' s.pool.closed))
          here refl (omega (arith, one, drop_this s.inside s.lost o here)) h)
]

kept_used :
    (persistent : Bool) (n : ℕ) → (persistent ≡ false → 2 ≤ n) → persistent || ltb 1 n ≡ true
kept_used true n used = refl
kept_used false n used = let many : 2 ≤ n = used refl in ground (arith, many)

module _ {V : Type 0} (same : V → V → Bool) where
  step-IsCounted : (s s' : System V) → Step same s s' → IsCounted s → IsCounted s'
  step-IsCounted _ _ (enters key persistent options s _) h =
      entered-IsCounted same key persistent options s (lookup key s.pool.channels) refl h
  step-IsCounted _ _ (reopens key persistent options s _) h =
      entered-IsCounted same key persistent options s (lookup key s.pool.channels) refl h
  step-IsCounted _ _ (leaves o s here) h = left-IsCounted o s here h
  step-IsCounted _ _ (raises o s here) h = raised-IsCounted o s here h

  -- However users come, go and raise, but for the time in which an entry waits for an old gRPC channel to
  -- close, when none may, the dict holds every channel in use; and a channel that it holds is used or
  -- persistent, has a gRPC channel, and its count is the number of users inside or lost.
  pub reached-IsCounted : (s : System V) → IsReached same s → IsCounted s
  reached-IsCounted _ (start s fresh) = fresh-IsCounted s fresh
  reached-IsCounted _ (step s' s before next) =
      step-IsCounted s' s next (reached-IsCounted s' before)

  -- However users came and went, if none did while an entry waited for an old gRPC channel to close, a
  -- user who is inside leaves without an exception. The channel stays in the dict if it is persistent or
  -- another user is inside or was lost; else it is taken out, and its gRPC channel closed.
  pub reached-leave :
      (s : System V) (o : ℕ)
      → IsReached same s
      → 1 ≤ s.inside o
      → let c = s.pool.object o in
        let kept = c.persistent || ltb 1 (uses s o) in
        let (result, pool) = leave o s.pool in
        (result ≡ ok tt)
        × ((lookup c.key pool.channels ≡ (if kept then some o else none))
            × (pool.closed ≡ (if kept then s.pool.closed else closing c.instance' s.pool.closed)))
  reached-leave s o reached here =
      let h = reached-IsCounted s reached in
      let same_one : (o == o) ≡ true = ground arith in
      elim (left-Leaves o s here h) [
        | inl (used, e) ↦
            let kept : (s.pool.object o).persistent || ltb 1 (uses s o) ≡ true =
              kept_used (s.pool.object o).persistent (uses s o) used in
            rw (e, kept) (refl, (h.used o (omega (arith, here)), refl))
        | inr (single, (one, e)) ↦
            let gone : (s.pool.object o).persistent || ltb 1 (uses s o) ≡ false =
              rw (single, one) refl in
            rw (e, gone)
              (
                refl,
                (
                  lookup-remove_key (s.pool.object o).key (s.pool.object o).key s.pool.channels
                      ∙ rw (eq_refl (s.pool.object o).key) refl,
                  refl,
                ),
              )
      ]
