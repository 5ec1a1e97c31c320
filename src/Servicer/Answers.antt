-- ===== src/Servicer/Answers.antt =====
-- How the calls of the servicers in iams/servicer.py end.
use industrial_ams.Base.{
  String, ◌≡◌, refl, Bool, true, false, inl, inr, ◌⊎◌, Option, none, some, List, [], ◌∷◌,
  Bool-cases,
}
use industrial_ams.Py.{
  Error, Result, err, Method, aborted, unauthenticated, attribute_error, value_error,
  invalid_agent_name, Result-cases,
}
use package.text.Mathlib.TextEquality.{eq_iff}
use industrial_ams.Py.Filtered.{Filtered}
use industrial_ams.Py.Text.{same_text}
use industrial_ams.Runtime.{World, Runtime, Request, Service}
use industrial_ams.Runtime.Names.{get_valid_agent_name}
use industrial_ams.Runtime.Update.{
  Found, absent, present, Current, merged, merge, replan, plan, find_agent, checked,
}
use industrial_ams.Runtime.Apply.{update_agent}
use industrial_ams.Servicer.{
  same_text, agent_data, called_name, get_agent_name, update, upgrade, destroy, sleep, wake,
  wrapped, credentials_call, peers, is_local, Context,
}

replan_unset :
    (service : Service) (request : Request) (scale : _) (create changed : Bool)
    → checked request ≡ err value_error
    → replan service request scale create changed ≡ err value_error
unfolding replan
replan_unset service request scale true true h = refl
replan_unset service request scale true false h = rw h
replan_unset service request scale false changed h = rw h

-- An upgrade names no image.
merge_unset :
    (name : String) (current : Current)
    → checked (merge (agent_data name) current).0 ≡ err value_error
unfolding merge merged checked
merge_unset name current = refl

plan_upgrade :
    (name : String) (found : Found) → plan (agent_data name) false true found ≡ err value_error
unfolding plan
plan_upgrade name absent = refl
plan_upgrade name (present service current) =
    replan_unset service (merge (agent_data name) current).0 current.scale false true
      (merge_unset name current)

module _ (W : World) (self : Runtime W) where
  -- No agent can be upgraded: the call `upgrade` raises for every name, because its request has the empty
  -- text for an image; it has asked the docker daemon to change nothing.
  pub upgrade-raises :
      (name : String) (s : W.State) → (x : Error) × (upgrade W self name s ≡ (err x, s))
  unfolding upgrade update_agent
  upgrade-raises name s = elim (Result-cases (find_agent W self (agent_data name) s)) [
    | inl (found, looked) ↦ (value_error, rw (looked, plan_upgrade name found) refl)
    | inr (x, raised) ↦ (x, rw raised refl)
  ]

  called_name_invalid :
      (name : String)
      → get_valid_agent_name self.iams_namespace name ≡ err invalid_agent_name
      → called_name W self name ≡ err attribute_error
  unfolding called_name get_agent_name
  called_name_invalid name h = rw h refl

  -- A call with a name that is not valid raises AttributeError, where the code means to abort it with
  -- INVALID_ARGUMENT: `update`, `destroy`, `sleep` and `wake` pass the function of the decorator for the
  -- context. No agent is touched.
  pub calls_invalid_name :
      (request : Request) (s : W.State)
      → get_valid_agent_name self.iams_namespace request.name ≡ err invalid_agent_name
      → (update W self request s ≡ (err attribute_error, s))
        × (destroy W self request.name s ≡ (err attribute_error, s))
        × (sleep W self request.name s ≡ (err attribute_error, s))
        × (wake W self request.name s ≡ (err attribute_error, s))
  unfolding update destroy sleep wake
  calls_invalid_name request s h =
      let refused = called_name_invalid request.name h in
      (rw refused refl, rw refused refl, rw refused refl, rw refused refl)

-- An identity that is no local address
abbrev pub IsRemote : String → Type 0
IsRemote x = (¬ x ≡ "127.0.0.1") × (¬ x ≡ "localhost")

remote : (x : String) → ((is_local x ≡ false) × IsRemote x) ⊎ ((is_local x ≡ true) × (¬ IsRemote x))
unfolding is_local
remote x = elim (Bool-cases (same_text x "127.0.0.1")) [
  | inl home ↦ inr (rw home refl, λ h. h.0 ((eq_iff x "127.0.0.1").0 home))
  | inr away ↦ elim (Bool-cases (same_text x "localhost")) [
    | inl home ↦ inr (rw (away, home) refl, λ h. h.1 ((eq_iff x "localhost").0 home))
    | inr other ↦ inl (
      rw (away, other) refl,
      (λ e. cc (away, (eq_iff x "127.0.0.1").1 e), λ e. cc (other, (eq_iff x "localhost").1 e)),
    )
  ]
]

peers-Filtered : (xs : List String) → Filtered IsRemote xs (peers xs)
unfolding peers
peers-Filtered [] = refl
peers-Filtered (x ∷ xs) = elim (remote x) [
  | inl (kept, p) ↦ rw kept (inl (peers xs, p, refl, peers-Filtered xs))
  | inr (dropped, p) ↦ rw dropped (inr (p, peers-Filtered xs))
]

module _ {κ ℓ} {S : Type κ} {A : Type ℓ} (handler : Context → Method S A) (s : S) where
  -- The call is that of the handler, with a context that has this set.
  abbrev pub IsCalled : List String → Result A × S → Type (κ ⊔ ℓ)
  IsCalled set r = (c : Context) × (c.credentials ≡ some set) × (r ≡ handler c s)

  -- What is to become of a call, by the set of the context and the identities of the peer
  abbrev pub IsAnswered :
      Bool → Option (List String) → Option (List String) → Result A × S → Type (κ ⊔ ℓ)
  IsAnswered optional (some set) identities r = IsCalled set r
  IsAnswered optional none (some xs) r =
      (set : List String) × Filtered IsRemote xs set × IsCalled set r
  IsAnswered true none none r = IsCalled [] r
  IsAnswered false none none r = r ≡ (err (aborted unauthenticated), s)

  credentials_call-IsAnswered :
      (optional : Bool) (set identities : Option (List String))
      → IsAnswered optional set identities (credentials_call optional handler set identities s)
  unfolding credentials_call
  credentials_call-IsAnswered optional (some set) identities =
      (record { credentials = some set; peer_identities = identities }, refl, refl)
  credentials_call-IsAnswered optional none (some xs) = (
    peers xs,
    peers-Filtered xs,
    (record { credentials = some (peers xs); peer_identities = some xs }, refl, refl),
  )
  credentials_call-IsAnswered true none none =
      (record { credentials = some []; peer_identities = none }, refl, refl)
  credentials_call-IsAnswered false none none = refl

  -- Under the decorator `credentials` a handler is called with the set of credentials that its context
  -- has already; where it has none, with those identities of the peer that are no local address; where
  -- the peer has no identities either, with the empty set if credentials are optional, and else the call
  -- is aborted as UNAUTHENTICATED with the state unchanged.
  pub wrapped-credentials :
      (optional : Bool) (context : Context)
      → IsAnswered optional context.credentials context.peer_identities
          (wrapped optional handler context s)
  wrapped-credentials optional context =
      credentials_call-IsAnswered optional context.credentials context.peer_identities
