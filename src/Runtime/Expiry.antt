-- ===== src/Runtime/Expiry.antt =====
-- Which agents `get_expired` of iams/runtime.py lists.
use package.text.Mathlib.TextEquality.{eq_iff}
use industrial_ams.Base.{
  String, ◌≡◌, refl, sym, ap, ◌∙◌, ◌⊎◌, inl, inr, ◌↔◌, Bool, true, false, ◌||◌, List, [], ◌∷◌,
  if◌then◌else◌, arith,
}
use industrial_ams.Base.{Option, some, none, subst}
use industrial_ams.Base.Int.{ℤ, pos, ◌≤ℤ◌}
use industrial_ams.Py.Dict.{Dict, lookup}
use industrial_ams.Runtime.Secrets.{is_late, late_at, is_certificate, agent_text}
use industrial_ams.Py.{Result, Error, ok, err, Result-cases}
use industrial_ams.Py.Text.{same_text}
use industrial_ams.Py.Dict.{add_key}
use industrial_ams.Runtime.{World, Runtime, Secret, stack_label}
use industrial_ams.Runtime.Agents.{label_is}
use industrial_ams.Runtime.Secrets.{is_expired, agent_of, collect_expired, get_expired}

-- `k in keys`
abbrev pub has : String → List String → Bool
has k [] = false
has k (j ∷ js) = same_text j k || has k js

has-add_key : (k j : String) (js : List String) → has k (add_key j js) ≡ (same_text j k || has k js)
unfolding add_key
has-add_key k j [] = refl
has-add_key k j (i ∷ js) = ground (arith, eq_iff i j, eq_iff i k, eq_iff j k, has-add_key k j js)

either : (a b : Bool) → ((a || b) ≡ true) ↔ ((a ≡ true) ⊎ (b ≡ true))
either a b = ground arith

guarded_ok :
    (b : Bool) (r : Result Bool)
    → ((if b then r else ok false) ≡ ok true) ↔ ((b ≡ true) × (r ≡ ok true))
guarded_ok true r = (λ h. (refl, h), λ h. h.1)
guarded_ok false r = (λ h. cc h, λ h. cc (h.0))

module _ (W : World) (self : Runtime W) (s : W.State) where
  -- A secret of this agent counts as expired, as the code tests it.
  abbrev Expires : String → Secret → Type 0
  Expires k x = (is_expired W self s x.labels ≡ ok true) × (agent_of W self x.labels ≡ k)

  -- One of the secrets does.
  abbrev SomeExpires : String → List Secret → Type 0
  SomeExpires k [] = ⊥
  SomeExpires k (x ∷ xs) = Expires k x ⊎ SomeExpires k xs

  -- One round of the loop, by what holds of the rounds that follow
  round-has :
      (x : Secret) (xs : List Secret) (keys listed : List String) (k : String) (b : Bool)
      → is_expired W self s x.labels ≡ ok b
      → (has k listed ≡ true) ↔ (
          (has k (if b then add_key (agent_of W self x.labels) keys else keys) ≡ true)
          ⊎ SomeExpires k xs)
      → (has k listed ≡ true) ↔ ((has k keys ≡ true) ⊎ SomeExpires k (x ∷ xs))
  round-has x xs keys listed k true e rest =
      let agent = agent_of W self x.labels in
      let added = has-add_key k agent keys in
      let (split, join) = either (same_text agent k) (has k keys) in
      (
        λ p. elim (rest.0 p) [
          | inl q ↦ (elim (split (sym added ∙ q)) [
            | inl same ↦ inr (inl (e, (eq_iff agent k).0 same))
            | inr old ↦ inl old
          ])
          | inr r ↦ inr (inr r)
        ],
        λ o. elim o [
          | inl old ↦ rest.1 (inl (added ∙ join (inr old)))
          | inr (inl (_, same)) ↦ rest.1 (inl (added ∙ join (inl ((eq_iff agent k).1 same))))
          | inr (inr r) ↦ rest.1 (inr r)
        ],
      )
  round-has x xs keys listed k false e rest = (
    λ p. elim (rest.0 p) [ inl old ↦ inl old | inr r ↦ inr (inr r) ],
    λ o. elim o [
      | inl old ↦ rest.1 (inl old)
      | inr (inl (due, _)) ↦ cc (due, e)
      | inr (inr r) ↦ rest.1 (inr r)
    ],
  )

  collect_expired-ok :
      (x : Secret) (xs : List Secret) (keys : List String) (b : Bool)
      → is_expired W self s x.labels ≡ ok b
      → collect_expired W self s (x ∷ xs) keys
        ≡ collect_expired W self s xs (if b then add_key (agent_of W self x.labels) keys else keys)
  unfolding collect_expired
  collect_expired-ok x xs keys b e = rw (e, collect_expired) refl

  collect_expired-err :
      (x : Secret) (xs : List Secret) (keys : List String) (y : Error)
      → is_expired W self s x.labels ≡ err y
      → collect_expired W self s (x ∷ xs) keys ≡ err y
  unfolding collect_expired
  collect_expired-err x xs keys y e = rw (e, collect_expired) refl

  collect_expired-has :
      (secrets : List Secret) (keys listed : List String) (k : String)
      → collect_expired W self s secrets keys ≡ ok listed
      → (has k listed ≡ true) ↔ ((has k keys ≡ true) ⊎ SomeExpires k secrets)
  unfolding collect_expired
  collect_expired-has [] keys listed k h = (
    λ p. inl (ap (has k) (ground arith) ∙ p),
    λ o. elim o [ inl p ↦ ap (has k) (ground arith) ∙ p | inr never ↦ absurd never ],
  )
  collect_expired-has (x ∷ xs) keys listed k h =
      elim (Result-cases (is_expired W self s x.labels)) [
        | inl (b, e) ↦ round-has x xs keys listed k b e (
            collect_expired-has xs (if b then add_key (agent_of W self x.labels) keys else keys)
              listed k (sym (collect_expired-ok x xs keys b e) ∙ h))
        | inr (y, raised) ↦ cc (sym (collect_expired-err x xs keys y raised) ∙ h)
      ]

  -- A number of days that is 2 or less; or a date that cannot be read
  abbrev pub IsNear : Option ℤ → Type 0
  IsNear none = Unit
  IsNear (some days) = days ≤ℤ pos 2

  -- The agent of the label; "None" where there is no such label
  abbrev pub IsOwner : String → Option String → Type 0
  IsOwner k none = "None" ≡ k
  IsOwner k (some agent) = agent ≡ k

  -- Labels of a certificate or of its key, whose date is near, and of this agent
  abbrev pub IsDue : String → Option (Dict String) → Type 0
  IsDue k none = ⊥
  IsDue k (some labels) =
      ((lookup "iams.secret" labels ≡ some "peer.crt")
        ⊎ (lookup "iams.secret" labels ≡ some "peer.key"))
      × ((date : String) × (lookup "iams.certificate.expire" labels ≡ some date)
          × IsNear (W.days_left s date))
      × IsOwner k (lookup "iams.agent" labels)

  -- One of the secrets has such labels.
  abbrev pub SomeDue : String → List Secret → Type 0
  SomeDue k [] = ⊥
  SomeDue k (x ∷ xs) = IsDue k x.labels ⊎ SomeDue k xs

  is_late-IsNear : (days : Option ℤ) → (is_late W self days ≡ true) ↔ IsNear days
  is_late-IsNear none = (λ h. tt, λ h. refl)
  is_late-IsNear (some days) = (λ h. ground (arith, h), λ h. ground (arith, h))

  late_at-IsNear :
      (date : Option String)
      → (late_at W self s date ≡ ok true)
        ↔ ((text : String) × (date ≡ some text) × IsNear (W.days_left s text))
  unfolding late_at
  late_at-IsNear none = (λ h. cc h, λ (text, e, near). cc e)
  late_at-IsNear (some text) =
      let (split, join) = is_late-IsNear (W.days_left s text) in
      (
        λ h. (text, refl, split (cc h)),
        λ (other, e, near). ap ok (join (subst (λ t. IsNear (W.days_left s t)) (cc e) near)),
      )

  is_certificate_iff :
      (filename : Option String)
      → (is_certificate W self filename ≡ true)
        ↔ ((filename ≡ some "peer.crt") ⊎ (filename ≡ some "peer.key"))
  unfolding is_certificate
  is_certificate_iff none = (λ h. cc h, λ o. elim o [ inl e ↦ cc e | inr e ↦ cc e ])
  is_certificate_iff (some filename) =
      let crt = eq_iff filename "peer.crt" in
      let key = eq_iff filename "peer.key" in
      let (split, join) = either (same_text filename "peer.crt") (same_text filename "peer.key") in
      (
        λ h. elim (split h) [ inl e ↦ inl (ap some (crt.0 e)) | inr e ↦ inr (ap some (key.0 e)) ],
        λ o. elim o [ inl e ↦ join (inl (crt.1 (cc e))) | inr e ↦ join (inr (key.1 (cc e))) ],
      )

  IsOwner-iff :
      (k : String) (agent : Option String) → (agent_text W self agent ≡ k) ↔ IsOwner k agent
  IsOwner-iff k none = (λ h. h, λ h. h)
  IsOwner-iff k (some agent) = (λ h. h, λ h. h)

  is_expired_iff :
      (labels : Dict String)
      → (is_expired W self s (some labels) ≡ ok true) ↔ (
          (is_certificate W self (lookup "iams.secret" labels) ≡ true)
          × (late_at W self s (lookup "iams.certificate.expire" labels) ≡ ok true))
  unfolding is_expired
  is_expired_iff labels = guarded_ok _ _

  expires_iff :
      (k : String) (labels : Option (Dict String))
      → ((is_expired W self s labels ≡ ok true) × (agent_of W self labels ≡ k)) ↔ IsDue k labels
  unfolding is_expired
  expires_iff k none = (λ h. cc (h.0), λ h. absurd h)
  expires_iff k (some labels) =
      let kind = is_certificate_iff (lookup "iams.secret" labels) in
      let late = late_at-IsNear (lookup "iams.certificate.expire" labels) in
      let owner = IsOwner-iff k (lookup "iams.agent" labels) in
      let (split, join) = is_expired_iff labels in
      (
        λ h. let (is, date) = split h.0 in (kind.0 is, late.0 date, owner.0 h.1),
        λ (is, date, agent). (join (kind.1 is, late.1 date), owner.1 agent),
      )

  Expires-IsDue : (k : String) (x : Secret) → Expires k x ↔ IsDue k x.labels
  Expires-IsDue k x = expires_iff k x.labels

  SomeExpires-SomeDue : (k : String) (xs : List Secret) → SomeExpires k xs ↔ SomeDue k xs
  SomeExpires-SomeDue k [] = (λ h. h, λ h. h)
  SomeExpires-SomeDue k (x ∷ xs) =
      let one = Expires-IsDue k x in
      let others = SomeExpires-SomeDue k xs in
      (
        λ o. elim o [ inl e ↦ inl (one.0 e) | inr r ↦ inr (others.0 r) ],
        λ o. elim o [ inl e ↦ inl (one.1 e) | inr r ↦ inr (others.1 r) ],
      )

  -- `get_expired` lists an agent if and only if one of the stack's secrets is a certificate or its key,
  -- belongs to the agent (one without the label to "None"), has a date, and 2 whole days or fewer are left
  -- until then, or the date cannot be read.
  pub get_expired-has :
      (secrets : List Secret) (listed : List String) (k : String)
      → W.secrets_list s (label_is stack_label self.namespace ∷ []) ≡ ok secrets
      → get_expired W self s ≡ ok listed
      → (has k listed ≡ true) ↔ SomeDue k secrets
  unfolding get_expired
  get_expired-has secrets listed k h eq =
      let (split, join) = collect_expired-has secrets [] listed k (ground (arith, h)) in
      let due = SomeExpires-SomeDue k secrets in
      (λ p. elim (split p) [ inl never ↦ cc never | inr r ↦ due.0 r ], λ r. join (inr (due.1 r)))
