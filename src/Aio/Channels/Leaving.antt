-- ===== src/Aio/Channels/Leaving.antt =====
-- Leaving a channel of iams/aio/grpc.py keeps the counts.
use package.text.Mathlib.TextEquality.{eq_iff}
use mathlib.Core.Option.{some-injective}
use industrial_ams.Base.{
  ℕ, ◌+◌, ◌≤◌, ◌≡◌, sym, ap, ◌∙◌, subst, inl, inr, String, true, false, none, some, is_some, ◌==◌,
  ==_iff, if◌then◌else◌, Bool-cases, arith,
}
use industrial_ams.Base.Int.{pos, ◌-ℤ◌}
use industrial_ams.Py.Text.{same_text}
use industrial_ams.Py.Dict.{lookup, remove_key, lookup-remove_key}
use industrial_ams.Aio.Channels.{Pool}
use industrial_ams.Aio.Channels.Users.{
  drop, System, uses, IsListed, IsCounted, pos_pred, drop-uses, drop_this, kept-IsListed,
}

module _ {V : Type 0} where
  -- What leaving does to the pool: the channel stays in the dict, or is taken out of it
  pub record Leaves (p p' : Pool V) (o : ℕ) : Type 0 where
    pub objects : p'.objects ≡ p.objects
    pub others : (n : ℕ) → (n == o) ≡ false → p'.object n ≡ p.object n
    pub key : (p'.object o).key ≡ (p.object o).key
    pub persistent : (p'.object o).persistent ≡ (p.object o).persistent
    pub connections : (p'.object o).connections ≡ (p.object o).connections -ℤ pos 1
    pub same_instance : (p'.object o).instance' ≡ (p.object o).instance'

  module _ (p p' : Pool V) (inside lost : ℕ → ℕ) (o : ℕ) (j : Leaves p p' o)
      (in_body : 1 ≤ inside o) where
    abbrev pub before_leaving : System V
    before_leaving = record { pool = p; inside = inside; lost = lost }

    abbrev pub after_leaving : System V
    after_leaving = record { pool = p'; inside = drop o inside; lost = lost }

    there : IsCounted before_leaving → lookup (p.object o).key p.channels ≡ some o
    there h = h.used o (omega (arith, in_body))

    left-IsListed :
        (k : String)
        → ((p.object o).persistent ≡ false → 1 ≤ drop o inside o + lost o)
        → IsListed before_leaving k o
        → IsListed after_leaving k o
    left-IsListed k rest h = record {
      key = j.key ∙ h.key;
      made = omega (arith, h.made, j.objects);
      connections =
          j.connections
          ∙ (ap (λ c. c -ℤ pos 1) h.connections
              ∙ (pos_pred (uses before_leaving o) (omega (arith, in_body))
                  ∙ ap pos (sym (drop_this inside lost o in_body))));
      open_instance = ap is_some j.same_instance ∙ h.open_instance;
      in_use = λ e. rest (sym j.persistent ∙ e);
    }

    other-left :
        (k : String) (n : ℕ)
        → (n == o) ≡ false
        → IsListed before_leaving k n
        → IsListed after_leaving k n
    other-left k n e h =
        kept-IsListed before_leaving after_leaving k n (j.others n e) (drop-uses inside lost o n e)
          (omega (arith, j.objects)) h

    -- The channel stays: it is persistent, or it is still used.
    pub stay-IsCounted :
        p'.channels ≡ p.channels
        → ((p.object o).persistent ≡ false → 1 ≤ drop o inside o + lost o)
        → IsCounted before_leaving
        → IsCounted after_leaving
    stay-IsCounted same rest h = record {
      listed = λ k n at.
          let was = h.listed k n (ap (lookup k) (sym same) ∙ at) in
          elim (Bool-cases (n == o)) [
            | inl this ↦
                let e = (==_iff n o).0 this in
                subst (IsListed after_leaving k) (sym e)
                  (left-IsListed k rest (subst (IsListed before_leaving k) e was))
            | inr other ↦ other-left k n other was
          ];
      used = λ n busy. elim (Bool-cases (n == o)) [
        | inl this ↦
            subst (λ n. lookup (p'.object n).key p'.channels ≡ some n) (sym ((==_iff n o).0 this))
              (ap (λ x. lookup x p'.channels) j.key ∙ (ap (lookup (p.object o).key) same ∙ there h))
        | inr other ↦
            ap (λ c. lookup c.key p'.channels) (j.others n other)
            ∙ (ap (lookup (p.object n).key) same
                ∙ h.used n (subst (λ m. 1 ≤ m) (drop-uses inside lost o n other) busy))
      ];
    }

    taken_out :
        (k : String) (n : ℕ)
        → p'.channels ≡ remove_key (p.object o).key p.channels
        → lookup k p'.channels ≡ some n
        → (same_text (p.object o).key k ≡ false) × (lookup k p.channels ≡ some n)
    taken_out k n taken at =
        let found : (if same_text (p.object o).key k then none else lookup k p.channels) ≡ some n =
          sym (ap (lookup k) taken ∙ lookup-remove_key (p.object o).key k p.channels) ∙ at in
        ground (arith, found)

    gone-listed :
        (k : String) (n : ℕ)
        → p'.channels ≡ remove_key (p.object o).key p.channels
        → IsCounted before_leaving
        → lookup k p'.channels ≡ some n
        → IsListed after_leaving k n
    gone-listed k n taken h at =
        let (differ, found) = taken_out k n taken at in
        let was : IsListed before_leaving k n = h.listed k n found in
        elim (Bool-cases (n == o)) [
          | inl this ↦
              let e : n ≡ o = (==_iff n o).0 this in
              let same : same_text (p.object o).key k ≡ true =
                (eq_iff (p.object o).key k).1 (sym (ap (λ m. (p.object m).key) e) ∙ was.key) in
              cc (differ, same)
          | inr other ↦ other-left k n other was
        ]

    gone-differs :
        (n : ℕ)
        → IsCounted before_leaving
        → (n == o) ≡ false
        → lookup (p.object n).key p.channels ≡ some n
        → same_text (p.object o).key (p.object n).key ≡ false
    gone-differs n h other found = elim (Bool-cases (same_text (p.object o).key (p.object n).key)) [
      | inl same ↦
          let e : (p.object o).key ≡ (p.object n).key =
            (eq_iff (p.object o).key (p.object n).key).0 same in
          let both : some n ≡ some o =
            sym found ∙ (ap (λ x. lookup x p.channels) (sym e) ∙ there h) in
          cc (other, (==_iff n o).1 (some-injective n o both))
      | inr differ ↦ differ
    ]

    gone-used :
        (n : ℕ)
        → p'.channels ≡ remove_key (p.object o).key p.channels
        → IsCounted before_leaving
        → (n == o) ≡ false
        → 1 ≤ inside n + lost n
        → lookup (p'.object n).key p'.channels ≡ some n
    gone-used n taken h other busy =
        let found = h.used n busy in
        ap (λ c. lookup c.key p'.channels) (j.others n other)
        ∙ (ap (lookup (p.object n).key) taken
            ∙ (lookup-remove_key (p.object o).key (p.object n).key p.channels
                ∙ rw (gone-differs n h other found) found))

    -- The channel is taken out: nobody else uses it.
    pub gone-IsCounted :
        p'.channels ≡ remove_key (p.object o).key p.channels
        → drop o inside o + lost o ≡ 0
        → IsCounted before_leaving
        → IsCounted after_leaving
    gone-IsCounted taken unused h = record {
      listed = λ k n at. gone-listed k n taken h at;
      used = λ n busy. elim (Bool-cases (n == o)) [
        | inl this ↦
            let busy_o : 1 ≤ drop o inside o + lost o =
              subst (λ m. 1 ≤ drop o inside m + lost m) ((==_iff n o).0 this) busy in
            absurd (omega (arith, busy_o, unused))
        | inr other ↦
            gone-used n taken h other (subst (λ m. 1 ≤ m) (drop-uses inside lost o n other) busy)
      ];
    }
