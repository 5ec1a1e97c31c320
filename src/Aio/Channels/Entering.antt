-- ===== src/Aio/Channels/Entering.antt =====
-- What entering a channel of iams/aio/grpc.py does to the pool.
use industrial_ams.Base.{
  ℕ, String, Bool, true, false, not, ◌&&◌, ◌==◌, inl, inr, Option, none, some, is_some, ◌≡◌, refl,
  ap, ◌∙◌, arith, Bool-cases,
}
use industrial_ams.Base.Int.{pos, ◌+ℤ◌}
use industrial_ams.Py.Dict.{Dict, lookup}
use industrial_ams.Aio.Channels.{
  new_channel, closing, Channel, Pool, store, found_or_new, ask_persistent, requested, begin,
  connect, connected, renewed, enter, close_instance,
}
use industrial_ams.Aio.Channels.Joining.{Joins}
use industrial_ams.Aio.Channels.Opening.{Opens}

module _ {V : Type 0} (same : V → V → Bool) where
  -- What asking for options leaves of a channel
  record Keeps (c c' : Channel V) : Type 0 where
    pub key : c'.key ≡ c.key
    pub persistent : c'.persistent ≡ c.persistent
    pub connections : c'.connections ≡ c.connections

  requested-Keeps :
      (options : Option (Dict V)) (r : Bool × Channel V) → Keeps r.1 (requested same options r).1
  requested-Keeps none r = record { key = refl; persistent = refl; connections = refl }
  requested-Keeps (some options) r = record { key = refl; persistent = refl; connections = refl }

  asked-Keeps : (b : Bool) (c : Channel V) → Keeps c (ask_persistent b c).1
  asked-Keeps b c = elim (Bool-cases (b && not c.persistent)) [
    | inl asks ↦ record {
      key = rw asks refl;
      persistent = rw asks refl;
      connections = rw asks refl;
    }
    | inr quiet ↦ record {
      key = rw quiet refl;
      persistent = rw quiet refl;
      connections = rw quiet refl;
    }
  ]

  same_one : (o : ℕ) → (o == o) ≡ true
  same_one o = ground arith

  -- The pool after the count, from the pool that holds the channel as it was asked for
  record Finishes (q : Pool V) (o : ℕ) (c : Channel V) (p' : Pool V) : Type 0 where
    pub channels : p'.channels ≡ q.channels
    pub objects : p'.objects ≡ q.objects
    pub others : (n : ℕ) → (n == o) ≡ false → p'.object n ≡ q.object n
    pub key : (p'.object o).key ≡ c.key
    pub persistent : (p'.object o).persistent ≡ c.persistent
    pub connections : (p'.object o).connections ≡ c.connections +ℤ pos 1
    pub open_instance : is_some (p'.object o).instance' ≡ true

  connected-Finishes :
      (o : ℕ) (q : Pool V) (i : Option ℕ)
      → (q.object o).instance' ≡ i
      → Finishes q o (q.object o) (connected o i q)
  connected-Finishes o q (some i) e = record {
    channels = refl;
    objects = refl;
    others = λ n d. rw d refl;
    key = rw (same_one o) refl;
    persistent = rw (same_one o) refl;
    connections = rw (same_one o) refl;
    open_instance = rw (same_one o) (rw e refl);
  }
  connected-Finishes o q none e = record {
    channels = refl;
    objects = refl;
    others = λ n d. rw d refl;
    key = rw (same_one o) refl;
    persistent = rw (same_one o) refl;
    connections = rw (same_one o) refl;
    open_instance = rw (same_one o) refl;
  }

  stored-Finishes :
      (o : ℕ) (c : Channel V) (q : Pool V) (i : Option ℕ)
      → c.instance' ≡ i
      → Finishes q o c (connected o i (store o c q))
  stored-Finishes o c q i e =
      let at_o : (store o c q).object o ≡ c = rw (same_one o) refl in
      let f = connected-Finishes o (store o c q) i (ap (λ x. x.instance') at_o ∙ e) in
      record {
        channels = f.channels;
        objects = f.objects;
        others = λ n d. f.others n d ∙ rw d refl;
        key = f.key ∙ ap (λ x. x.key) at_o;
        persistent = f.persistent ∙ ap (λ x. x.persistent) at_o;
        connections = f.connections ∙ ap (λ x. x.connections +ℤ pos 1) at_o;
        open_instance = f.open_instance;
      }

  renewed-Finishes :
      (o : ℕ) (b : Bool) (c : Channel V) (q : Pool V)
      → Finishes q o c (renewed same ((o, b), store o c q)).1
  unfolding connect close_instance
  renewed-Finishes o true c q =
      let here : (store o c q).object o ≡ c = rw (same_one o) refl in
      let closed_one : Channel V = record ((store o c q).object o) { instance' = none } in
      let q' : Pool V = record (store o c q) {
        closed = closing ((store o c q).object o).instance' (store o c q).closed;
      } in
      let f =
        stored-Finishes o closed_one q' ((store o closed_one q').object o).instance'
          (rw (same_one o) refl) in
      record {
        channels = f.channels;
        objects = f.objects;
        others = λ n d. f.others n d ∙ rw d refl;
        key = f.key ∙ ap (λ x. x.key) here;
        persistent = f.persistent ∙ ap (λ x. x.persistent) here;
        connections = f.connections ∙ ap (λ x. x.connections +ℤ pos 1) here;
        open_instance = f.open_instance;
      }
  renewed-Finishes o false c q =
      stored-Finishes o c q ((store o c q).object o).instance' (rw (same_one o) refl)

  abbrev asked : Bool → Option (Dict V) → Channel V → Bool × Channel V
  asked persistent options c = requested same options (ask_persistent persistent c)

  -- Asking for options leaves key, persistence and count.
  requested-asked-Keeps :
      (persistent : Bool) (options : Option (Dict V)) (c : Channel V)
      → Keeps c (asked persistent options c).1
  requested-asked-Keeps persistent options c =
      let a = asked-Keeps persistent c in
      let r = requested-Keeps options (ask_persistent persistent c) in
      record {
        key = r.key ∙ a.key;
        persistent = r.persistent ∙ a.persistent;
        connections = r.connections ∙ a.connections;
      }

  -- The entry, from the object that it finds or makes
  enter-Finishes :
      (key : String) (persistent : Bool) (options : Option (Dict V)) (p : Pool V) (at : Option ℕ)
      → lookup key p.channels ≡ at
      → let (o, q) = found_or_new key persistent at p in
        Finishes q o
          (asked persistent options (q.object o)).1
          (enter same key persistent options p).1
  unfolding begin
  enter-Finishes key persistent options p at h =
      let (o, q) = found_or_new key persistent at p in
      let (recreate, c) = asked persistent options (q.object o) in
      rw h (renewed-Finishes o (recreate && is_some c.instance') c q)

  -- The object that is entered
  pub enter_found :
      (key : String) (persistent : Bool) (options : Option (Dict V)) (p : Pool V) (at : Option ℕ)
      → lookup key p.channels ≡ at
      → (enter same key persistent options p).0 ≡ (found_or_new key persistent at p).0
  unfolding begin
  enter_found key persistent options p at h = rw h refl

  pub enter-Joins :
      (key : String) (persistent : Bool) (options : Option (Dict V)) (p : Pool V) (o : ℕ)
      → lookup key p.channels ≡ some o
      → Joins p (enter same key persistent options p).1 o
  enter-Joins key persistent options p o h =
      let f = enter-Finishes key persistent options p (some o) h in
      let k = requested-asked-Keeps persistent options (p.object o) in
      record {
        channels = f.channels;
        objects = f.objects;
        others = f.others;
        key = f.key ∙ k.key;
        persistent = f.persistent ∙ k.persistent;
        connections = f.connections ∙ ap (λ n. n +ℤ pos 1) k.connections;
        open_instance = f.open_instance;
      }

  pub enter-Opens :
      (key : String) (persistent : Bool) (options : Option (Dict V)) (p : Pool V)
      → lookup key p.channels ≡ none
      → Opens p (enter same key persistent options p).1 key
  unfolding ◌+ℤ◌
  enter-Opens key persistent options p h =
      let f = enter-Finishes key persistent options p none h in
      let q : Pool V = (found_or_new key persistent none p).1 in
      let made : q.object p.objects ≡ new_channel key persistent = rw (same_one p.objects) refl in
      let k = requested-asked-Keeps persistent options (q.object p.objects) in
      record {
        channels = f.channels;
        objects = f.objects;
        others = λ n d. f.others n d ∙ rw d refl;
        key = f.key ∙ (k.key ∙ ap (λ c. c.key) made);
        connections =
            f.connections ∙ ap (λ n. n +ℤ pos 1) (k.connections ∙ ap (λ c. c.connections) made);
        open_instance = f.open_instance;
      }
