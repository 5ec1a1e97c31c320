-- ===== src/Aio/Channels/Joining.antt =====
-- An entry into a channel that is in the dict of iams/aio/grpc.py keeps the counts.
use industrial_ams.Base.{
  ℕ, ◌≤◌, ◌≡◌, sym, ap, ◌∙◌, subst, inl, inr, String, true, false, some, is_some, ◌==◌, ==_iff,
  Bool-cases, arith,
}
use industrial_ams.Base.Int.{pos, ◌+ℤ◌}
use industrial_ams.Py.Dict.{lookup}
use industrial_ams.Aio.Channels.{Pool}
use industrial_ams.Aio.Channels.Users.{
  bump, System, uses, IsListed, IsCounted, pos_suc, join-uses, join_this, kept-IsListed,
}

module _ {V : Type 0} where
  -- What an entry into a channel of the dict does to the pool
  pub record Joins (p p' : Pool V) (o : ℕ) : Type 0 where
    pub channels : p'.channels ≡ p.channels
    pub objects : p'.objects ≡ p.objects
    pub others : (n : ℕ) → (n == o) ≡ false → p'.object n ≡ p.object n
    pub key : (p'.object o).key ≡ (p.object o).key
    pub persistent : (p'.object o).persistent ≡ (p.object o).persistent
    pub connections : (p'.object o).connections ≡ (p.object o).connections +ℤ pos 1
    pub open_instance : is_some (p'.object o).instance' ≡ true

  module _ (p p' : Pool V) (inside lost : ℕ → ℕ) (o : ℕ) (j : Joins p p' o) where
    abbrev pub old : System V
    old = record { pool = p; inside = inside; lost = lost }

    abbrev pub new : System V
    new = record { pool = p'; inside = bump o inside; lost = lost }

    joined-IsListed : (k : String) → IsListed old k o → IsListed new k o
    joined-IsListed k h = record {
      key = j.key ∙ h.key;
      made = omega (arith, h.made, j.objects);
      connections =
          j.connections
          ∙ (ap (λ c. c +ℤ pos 1) h.connections
              ∙ (pos_suc (uses old o) ∙ ap pos (sym (join_this inside lost o))));
      open_instance = j.open_instance;
      in_use = λ e. omega (arith, join_this inside lost o);
    }

    other-IsListed : (k : String) (n : ℕ) → (n == o) ≡ false → IsListed old k n → IsListed new k n
    other-IsListed k n e h =
        kept-IsListed old new k n (j.others n e) (join-uses inside lost o n e)
          (omega (arith, j.objects)) h

    join-listed : (k : String) (n : ℕ) → IsListed old k n → IsListed new k n
    join-listed k n h = elim (Bool-cases (n == o)) [
      | inl same ↦
          let e = (==_iff n o).0 same in
          subst (IsListed new k) (sym e) (joined-IsListed k (subst (IsListed old k) e h))
      | inr other ↦ other-IsListed k n other h
    ]

    pub join-IsCounted : (k : String) → lookup k p.channels ≡ some o → IsCounted old → IsCounted new
    join-IsCounted k there h = record {
      listed = λ k' n at. join-listed k' n (h.listed k' n (ap (lookup k') (sym j.channels) ∙ at));
      used = λ n busy. elim (Bool-cases (n == o)) [
        | inl same ↦
            let e = (==_iff n o).0 same in
            subst (λ n. lookup (p'.object n).key p'.channels ≡ some n) (sym e)
              (ap (λ x. lookup x p'.channels) (j.key ∙ (h.listed k o there).key)
                ∙ (ap (lookup k) j.channels ∙ there))
        | inr other ↦
            ap (λ c. lookup c.key p'.channels) (j.others n other)
            ∙ (ap (lookup (p.object n).key) j.channels
                ∙ h.used n (subst (λ m. 1 ≤ m) (join-uses inside lost o n other) busy))
      ];
    }
