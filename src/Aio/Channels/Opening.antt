-- ===== src/Aio/Channels/Opening.antt =====
-- An entry that makes a channel in iams/aio/grpc.py keeps the counts.
use package.text.Mathlib.TextEquality.{eq_iff}
use package.text.Mathlib.TextPositions.{eq_refl}
use mathlib.Core.Option.{some-injective}
use industrial_ams.Base.{
  ℕ, ◌+◌, ◌≤◌, ◌≡◌, refl, sym, ap, ◌∙◌, subst, inl, inr, String, true, false, none, some, is_some,
  ◌==◌, ==_iff, Bool-cases, arith,
}
use industrial_ams.Base.Int.{pos}
use industrial_ams.Py.Text.{same_text}
use industrial_ams.Py.Dict.{lookup, put, lookup-put}
use industrial_ams.Aio.Channels.{Pool}
use industrial_ams.Aio.Channels.Users.{
  bump, System, IsListed, IsCounted, join-uses, join_this, less-differs, zero_or_more,
  kept-IsListed,
}

module _ {V : Type 0} where
  -- What an entry into a new channel does to the pool
  pub record Opens (p p' : Pool V) (k : String) : Type 0 where
    pub channels : p'.channels ≡ put k p.objects p.channels
    pub objects : p'.objects ≡ p.objects + 1
    pub others : (n : ℕ) → (n == p.objects) ≡ false → p'.object n ≡ p.object n
    pub key : (p'.object p.objects).key ≡ k
    pub connections : (p'.object p.objects).connections ≡ pos 1
    pub open_instance : is_some (p'.object p.objects).instance' ≡ true

  module _ (p p' : Pool V) (inside lost : ℕ → ℕ) (k : String) (j : Opens p p' k)
      (missing : lookup k p.channels ≡ none) where
    abbrev pub before_opening : System V
    before_opening = record { pool = p; inside = inside; lost = lost }

    abbrev pub after_opening : System V
    after_opening = record { pool = p'; inside = bump p.objects inside; lost = lost }

    fresh-uses : IsCounted before_opening → inside p.objects + lost p.objects ≡ 0
    fresh-uses h = elim (zero_or_more (inside p.objects + lost p.objects)) [
      | inl none_yet ↦ none_yet
      | inr busy ↦ absurd (
          omega (arith, (h.listed (p.object p.objects).key p.objects (h.used p.objects busy)).made))
    ]

    opened-IsListed : IsCounted before_opening → IsListed after_opening k p.objects
    opened-IsListed h =
        let total : bump p.objects inside p.objects + lost p.objects ≡ 1 =
          omega (arith, join_this inside lost p.objects, fresh-uses h) in
        record {
          key = j.key;
          made = omega (arith, j.objects);
          connections = j.connections ∙ ap pos (sym total);
          open_instance = j.open_instance;
          in_use = λ e. omega (arith, total);
        }

    open-listed :
        IsCounted before_opening
        → (k' : String) (n : ℕ) → lookup k' p'.channels ≡ some n
        → IsListed after_opening k' n
    open-listed h k' n at = elim (Bool-cases (same_text k k')) [
      | inl same ↦
          let e = (eq_iff k k').0 same in
          let found : some p.objects ≡ some n =
            sym (ap (lookup k') j.channels ∙ (lookup-put k k' p.objects p.channels ∙ rw same refl))
            ∙ at in
          subst (λ x. IsListed after_opening x n) e
            (subst (IsListed after_opening k) (some-injective p.objects n found)
              (opened-IsListed h))
      | inr other ↦
          let found : lookup k' p.channels ≡ some n =
            sym (ap (lookup k') j.channels ∙ (lookup-put k k' p.objects p.channels ∙ rw other refl))
            ∙ at in
          let was : IsListed before_opening k' n = h.listed k' n found in
          let old_one : (n == p.objects) ≡ false = less-differs n p.objects was.made in
          kept-IsListed before_opening after_opening k' n (j.others n old_one)
            (join-uses inside lost p.objects n old_one) (omega (arith, j.objects)) was
    ]

    used-differs :
        (n : ℕ)
        → IsCounted before_opening
        → 1 ≤ inside n + lost n
        → same_text k (p.object n).key ≡ false
    used-differs n h busy = elim (Bool-cases (same_text k (p.object n).key)) [
      | inl same ↦ cc (
          sym missing
          ∙ (ap (λ x. lookup x p.channels) ((eq_iff k (p.object n).key).0 same) ∙ h.used n busy))
      | inr other ↦ other
    ]

    opened-used : (n : ℕ) → n ≡ p.objects → lookup (p'.object n).key p'.channels ≡ some n
    opened-used n e =
        subst (λ n. lookup (p'.object n).key p'.channels ≡ some n) (sym e)
          (ap (λ x. lookup x p'.channels) j.key
            ∙ (ap (lookup k) j.channels
                ∙ (lookup-put k k p.objects p.channels ∙ rw (eq_refl k) refl)))

    pub open-IsCounted : IsCounted before_opening → IsCounted after_opening
    open-IsCounted h = record {
      listed = open-listed h;
      used = λ n busy. elim (Bool-cases (n == p.objects)) [
        | inl same ↦ opened-used n ((==_iff n p.objects).0 same)
        | inr other ↦
            let was_busy = subst (λ m. 1 ≤ m) (join-uses inside lost p.objects n other) busy in
            ap (λ c. lookup c.key p'.channels) (j.others n other)
            ∙ (ap (lookup (p.object n).key) j.channels
                ∙ (lookup-put k (p.object n).key p.objects p.channels
                    ∙ rw (used-differs n h was_busy) (h.used n was_busy)))
      ];
    }
