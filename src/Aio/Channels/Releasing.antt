-- ===== src/Aio/Channels/Releasing.antt =====
-- What a user of a channel of iams/aio/grpc.py finds as it leaves.
use industrial_ams.Base.{
  ◌==◌, ==_iff, List, Option-cases, Option-cases, inr, Bool-cases, inl, ◌⊎◌, ◌∙◌, ap, ◌&&◌, not,
  sym, arith, ℕ, ◌-◌, ◌≤◌, Bool, true, false, Option, some, ◌≡◌, refl,
}
use industrial_ams.Base.Int.{ℤ, pos, ◌-ℤ◌, ltb_ℤ}
use industrial_ams.Py.{ok}
use industrial_ams.Py.Dict.{remove_key, Dict, lookup}
use industrial_ams.Aio.Channels.{closing, store, Channel, Pool, leave}
use industrial_ams.Aio.Channels.Users.{pos_pred, System, uses, IsListed, IsCounted}
use industrial_ams.Aio.Channels.Leaving.{Leaves}

abbrev to_release : Bool → ℤ → Bool
to_release persistent count = not persistent && not (ltb_ℤ (pos 0) (count -ℤ pos 1))

used_stays :
    (persistent : Bool) (count : ℤ) (n : ℕ)
    → count ≡ pos n
    → (persistent ≡ false → 2 ≤ n)
    → to_release persistent count ≡ false
used_stays true count n e used = refl
used_stays false count n e used =
    let busy : 2 ≤ n = used refl in
    let rest : count -ℤ pos 1 ≡ pos (n - 1) =
      ap (λ c. c -ℤ pos 1) e ∙ pos_pred n (omega (arith, busy)) in
    let more : ltb_ℤ (pos 0) (pos (n - 1)) ≡ true = ground (arith, busy) in rw rest (rw more refl)

unused_goes :
    (persistent : Bool) (count : ℤ)
    → count ≡ pos 1
    → persistent ≡ false
    → to_release persistent count ≡ true
unfolding ◌-ℤ◌
unused_goes persistent count e single = rw e (rw single refl)

-- The two ways in which a user leaves
module _ {V : Type 0} (o : ℕ) (p : Pool V) where
  abbrev pub one_less : Pool V
  one_less = store o (record (p.object o) { connections = (p.object o).connections -ℤ pos 1 }) p

  abbrev pub without : Option ℕ → Pool V
  without i = record one_less {
    channels = remove_key (p.object o).key p.channels;
    closed = closing i p.closed;
  }

  leave_used :
      (n : ℕ)
      → (p.object o).connections ≡ pos n
      → ((p.object o).persistent ≡ false → 2 ≤ n)
      → leave o p ≡ (ok tt, one_less)
  unfolding leave
  leave_used n e used =
      rw (used_stays (p.object o).persistent (p.object o).connections n e used) refl

  leave_unused :
      (i : ℕ)
      → (p.object o).connections ≡ pos 1
      → (p.object o).persistent ≡ false
      → (p.object o).instance' ≡ some i
      → lookup (p.object o).key p.channels ≡ some o
      → leave o p ≡ (ok tt, without (some i))
  unfolding leave
  leave_unused i e single at there =
      rw (unused_goes (p.object o).persistent (p.object o).connections e single)
        (rw there (rw at refl))

pub one_less-Leaves :
    {V : Type 0} (o : ℕ) (p : Pool V) (channels : Dict ℕ) (closed : List ℕ)
    → Leaves p (record (one_less o p) { channels = channels; closed = closed }) o
one_less-Leaves o p channels closed =
    let same_one : (o == o) ≡ true = ground arith in
    record {
      objects = refl;
      others = λ n d. rw d refl;
      key = rw same_one refl;
      persistent = rw same_one refl;
      connections = rw same_one refl;
      same_instance = rw same_one refl;
    }

-- Others use the channel, or it is persistent, or the last user leaves.
last_or_not :
    (persistent : Bool) (n : ℕ)
    → 1 ≤ n
    → (persistent ≡ false → 2 ≤ n) ⊎ ((persistent ≡ false) × (n ≡ 1))
last_or_not true n h = inl (λ e. cc e)
last_or_not false n h = elim (Bool-cases (n == 1)) [
  | inl one ↦ inr (refl, (==_iff n 1).0 one)
  | inr more ↦ inl (λ e. ground (arith, h, more))
]

module _ {V : Type 0} (o : ℕ) (s : System V) (here : 1 ≤ s.inside o) (h : IsCounted s) where
  abbrev c : Channel V
  c = s.pool.object o

  listed : IsListed s c.key o
  listed = h.listed c.key o (h.used o (omega (arith, here)))

  -- What the user finds: leaving does not raise.
  pub left-Leaves :
      ((c.persistent ≡ false → 2 ≤ uses s o) × (leave o s.pool ≡ (ok tt, one_less o s.pool)))
      ⊎ ((c.persistent ≡ false)
          × ((uses s o ≡ 1) × (leave o s.pool ≡ (ok tt, without o s.pool c.instance'))))
  left-Leaves = elim (last_or_not c.persistent (uses s o) (omega (arith, here))) [
    | inl used ↦ inl (used, leave_used o s.pool (uses s o) listed.connections used)
    | inr (single, one) ↦ elim (Option-cases c.instance') [
      | inl missing ↦ cc (missing, listed.open_instance)
      | inr (i, at) ↦ inr (
        single,
        (
          one,
          leave_unused o s.pool i (listed.connections ∙ ap pos one) single at
                (h.used o (omega (arith, here)))
              ∙ ap (λ i. (ok tt, without o s.pool i)) (sym at),
        ),
      )
    ]
  ]
