-- ===== src/Scheduler/Selection.antt =====
-- Events with distinct uids, selections from them, and what `remove` does there.
use industrial_ams.Base.{
  subst, ℕ, ◌≡◌, refl, sym, ap, Bool, true, false, not, ◌&&◌, ◌||◌, List, [], ◌∷◌, All, Bool-cases,
  inl, inr, arith, ==_iff, ◌==◌, if◌then◌else◌,
}
use industrial_ams.Event.{Event}
use industrial_ams.Scheduler.{remove}

-- The events that pass a test, in order
abbrev pub select : (Event → Bool) → List Event → List Event
select p [] = []
select p (e ∷ es) = if p e then e ∷ select p es else select p es

-- An event with the given uid is listed.
abbrev pub listed : ℕ → List Event → Bool
listed u [] = false
listed u (e ∷ es) = (e.uid == u) || listed u es

-- No two events have one uid.
abbrev pub Distinct : List Event → Type 0
Distinct [] = Unit
Distinct (e ∷ es) = (listed e.uid es ≡ false) × Distinct es

pub listed-select :
    (u : ℕ) (p : Event → Bool) (es : List Event)
    → listed u es ≡ false
    → listed u (select p es) ≡ false
listed-select u p [] h = refl
listed-select u p (e ∷ es) h = ground (arith, listed-select u p es)

pub Distinct-select : (p : Event → Bool) (es : List Event) → Distinct es → Distinct (select p es)
Distinct-select p [] h = tt
Distinct-select p (e ∷ es) h =
    ground (arith, listed-select e.uid p es h.0, Distinct-select p es h.1)

pub select-select :
    (p q : Event → Bool) (es : List Event) → select p (select q es) ≡ select (λ e. q e && p e) es
select-select p q [] = refl
select-select p q (e ∷ es) = ground (arith, select-select p q es)

pub select-cong :
    (p q : Event → Bool) (es : List Event) → All (λ e. p e ≡ q e) es → select p es ≡ select q es
select-cong p q [] h = refl
select-cong p q (e ∷ es) h = ground (arith, select-cong p q es h.1, h.0)

pub select_all : (es : List Event) → select (λ e. true) es ≡ es
select_all [] = refl
select_all (e ∷ es) = ap (λ (k : List Event). e ∷ k) (select_all es)

select-unlisted :
    (u : ℕ) (es : List Event) → listed u es ≡ false → select (λ e. not (e.uid == u)) es ≡ es
select-unlisted u [] h = refl
select-unlisted u (e ∷ es) h = ground (arith, select-unlisted u es)

-- Where uids are distinct, `remove` takes out exactly the event with the uid.
pub remove-select :
    (u : ℕ) (es : List Event) → Distinct es → remove u es ≡ select (λ e. not (e.uid == u)) es
unfolding remove
remove-select u [] h = refl
remove-select u (e ∷ es) h =
    ground (arith, remove-select u es h.1, select-unlisted u es, ==_iff e.uid u)

module _ (q : Event → Bool) where
  pub select_passes :
      (x : Event) (es : List Event) → q x ≡ true → select q (x ∷ es) ≡ x ∷ select q es
  select_passes x es h = rw h

  pub select_fails : (x : Event) (es : List Event) → q x ≡ false → select q (x ∷ es) ≡ select q es
  select_fails x es h = rw h

  listed-skip :
      (x : Event) (es ds : List Event)
      → All (λ e. listed e.uid ds ≡ q e) es
      → listed x.uid es ≡ false
      → All (λ e. ((x.uid == e.uid) || listed e.uid ds) ≡ q e) es
  listed-skip x [] ds h k = tt
  listed-skip x (e ∷ es) ds h k = (ground (arith, h.0), listed-skip x es ds h.1 (ground arith))

  -- Where uids are distinct, an event is listed in a selection exactly if it passes the test.
  pub listed-in_select :
      (es : List Event) → Distinct es → All (λ e. listed e.uid (select q es) ≡ q e) es
  listed-in_select [] h = tt
  listed-in_select (x ∷ es) h = elim (Bool-cases (q x)) [
    | inl passes ↦
        subst (λ ds. All (λ e. listed e.uid ds ≡ q e) (x ∷ es)) (sym (select_passes x es passes))
          (rw passes (ground arith), listed-skip x es (select q es) (listed-in_select es h.1) h.0)
    | inr fails ↦
        subst (λ ds. All (λ e. listed e.uid ds ≡ q e) (x ∷ es)) (sym (select_fails x es fails))
          (rw fails (listed-select x.uid q es h.0), listed-in_select es h.1)
  ]
