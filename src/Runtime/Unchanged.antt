-- ===== src/Runtime/Unchanged.antt =====
-- When `update_agent` of iams/runtime.py does nothing.
use package.text.Mathlib.TextEquality.{eq_iff}
use industrial_ams.Base.{
  ℕ, String, ◌≡◌, refl, sym, ap, ◌∙◌, ◌⊎◌, inl, inr, ◌↔◌, Bool, true, false, not, ◌||◌, ◌&&◌,
  Option, none, some, arith, ==_iff,
}
use industrial_ams.Py.{raise_if, Result, ok, err, value_error}
use industrial_ams.Py.Text.{is_written, same_text}
use industrial_ams.Py.Calls.{lift, for_each, ask, continue-eq-ok}
use industrial_ams.Runtime.{
  World, Runtime, Request, Service, Field, text, bytes, integer, same_field,
}
use industrial_ams.Runtime.Update.{
  replan, as_int, planned, checked, without_dash, Current, Found, absent, present, merged, merge,
  plan, find_agent, is_set_text, Change, creation, replacement,
}
use industrial_ams.Runtime.Apply.{make_spec, prepare, update_agent, change_if, change_agent}

same_field_iff : (v w : Field) → (same_field v w ≡ true) ↔ (v ≡ w)
same_field_iff (text s) (text t) =
    (λ h. ap text ((eq_iff s t).0 h), λ e. (eq_iff s t).1 (ground arith))
same_field_iff (bytes s) (bytes t) =
    (λ h. ap bytes ((eq_iff s t).0 h), λ e. (eq_iff s t).1 (ground arith))
same_field_iff (integer m) (integer n) =
    (λ h. ap integer ((==_iff m n).0 h), λ e. (==_iff m n).1 (ground arith))
same_field_iff (text s) (bytes t) = (λ h. cc, λ e. cc)
same_field_iff (text s) (integer n) = (λ h. cc, λ e. cc)
same_field_iff (bytes s) (text t) = (λ h. cc, λ e. cc)
same_field_iff (bytes s) (integer n) = (λ h. cc, λ e. cc)
same_field_iff (integer m) (text t) = (λ h. cc, λ e. cc)
same_field_iff (integer m) (bytes t) = (λ h. cc, λ e. cc)

-- A request says nothing of a value, or says what it is.
abbrev pub Agrees {ℓ} : {A : Type ℓ} → Option A → Option A → Type ℓ
Agrees wanted current = (wanted ≡ none) ⊎ (wanted ≡ current)

merged-Agrees {ℓ} :
    {A : Type ℓ} (same : A → A → Bool) (same_iff : (a b : A) → (same a b ≡ true) ↔ (a ≡ b))
    (wanted current : Option A)
    → ((merged same wanted current).1 ≡ false) ↔ Agrees wanted current
unfolding merged
merged-Agrees same same_iff none current = (λ h. inl refl, λ h. refl)
merged-Agrees same same_iff (some v) none = (λ h. cc, λ h. ground arith)
merged-Agrees same same_iff (some v) (some w) =
    (λ h. inr (ap some ((same_iff v w).0 (ground arith))), λ h. ground (arith, same_iff v w))

-- A request that asks for nothing that the service does not have; the service has an image and a version.
pub record IsUnchanged (request : Request) (current : Current) : Type 0 where
  pub image : Agrees request.image (some current.image)
  pub version : Agrees request.version (some current.version)
  pub address : Agrees request.address current.address
  pub port : Agrees request.port current.port
  pub config : Agrees request.config current.config
  pub image_set : is_written current.image ≡ true
  pub version_set : is_written current.version ≡ true

without_dash-differs : (m : Option Field × Bool) → (without_dash m).1 ≡ m.1
without_dash-differs (none, b) = refl
without_dash-differs (some (text s), true) = ground arith
without_dash-differs (some (text s), false) = refl
without_dash-differs (some (bytes s), b) = refl
without_dash-differs (some (integer n), b) = refl

same_text_iff : (a b : String) → (same_text a b ≡ true) ↔ (a ≡ b)
same_text_iff a b = eq_iff a b

merged-set :
    (wanted : Option String) (current : String)
    → Agrees wanted (some current)
    → (merged same_text wanted (some current)).0 ≡ some current
unfolding merged
merged-set none current h = refl
merged-set (some v) current (inl e) = cc
merged-set (some v) current (inr e) = e

both_true : (a b : Bool) → raise_if (not (a && b)) value_error ≡ ok tt → (a ≡ true) × (b ≡ true)
both_true true true h = (refl, refl)
both_true true false h = cc
both_true false b h = cc

-- A plan that is not refused is the wanted one.
pub planned-eq :
    (r : Result (Unit {0})) (change wanted : Option Change)
    → planned r change ≡ ok wanted
    → (r ≡ ok tt) × (change ≡ wanted)
planned-eq (ok u) change wanted h = (refl, ground arith)
planned-eq (err x) change wanted h = cc

module _ (request : Request) (current : Current) where
  merge-differs :
      (merge request current).1 ≡ false
      → Agrees request.image (some current.image)
        × Agrees request.version (some current.version)
        × Agrees request.address current.address
        × Agrees request.port current.port
        × Agrees request.config current.config
  unfolding merge
  merge-differs h =
      let config = without_dash-differs (merged same_field request.config current.config) in
      (
        (merged-Agrees same_text same_text_iff request.image (some current.image)).0 (ground arith),
        (merged-Agrees same_text same_text_iff request.version (some current.version)).0
            (ground arith),
        (merged-Agrees same_text same_text_iff request.address current.address).0 (ground arith),
        (merged-Agrees same_field same_field_iff request.port current.port).0 (ground arith),
        (merged-Agrees same_field same_field_iff request.config current.config).0 (ground arith),
      )

  merge-agrees : IsUnchanged request current → (merge request current).1 ≡ false
  unfolding merge
  merge-agrees u =
      let image =
        (merged-Agrees same_text same_text_iff request.image (some current.image)).1 u.image in
      let version =
        (merged-Agrees same_text same_text_iff request.version (some current.version)).1
          u.version in
      let address =
        (merged-Agrees same_text same_text_iff request.address current.address).1 u.address in
      let port = (merged-Agrees same_field same_field_iff request.port current.port).1 u.port in
      let config =
        without_dash-differs (merged same_field request.config current.config)
        ∙ (merged-Agrees same_field same_field_iff request.config current.config).1 u.config in
      rw (image, version, address, port, config)

  merge-checked : IsUnchanged request current → checked (merge request current).0 ≡ ok tt
  unfolding merge checked
  merge-checked u = rw (
    merged-set request.image current.image u.image,
    merged-set request.version current.version u.version,
    u.image_set,
    u.version_set,
  )

  checked-set :
      (merge request current).1 ≡ false
      → checked (merge request current).0 ≡ ok tt
      → IsUnchanged request current
  unfolding merge checked
  checked-set h c =
      let (image, version, address, port, config) = merge-differs h in
      let image_is = merged-set request.image current.image image in
      let version_is = merged-set request.version current.version version in
      let (has_image, has_version) =
        both_true (is_set_text (merge request current).0.image)
          (is_set_text (merge request current).0.version) c in
      record {
        image = image;
        version = version;
        address = address;
        port = port;
        config = config;
        image_set = sym (ap is_set_text image_is) ∙ has_image;
        version_set = sym (ap is_set_text version_is) ∙ has_version;
      }

replan-none :
    (service : Service) (request : Request) (scale : ℕ) (create changed : Bool)
    → replan service request scale create changed ≡ ok none
    → (create ≡ false) × (changed ≡ false) × (checked request ≡ ok tt)
unfolding replan
replan-none service request scale true true h = cc
replan-none service request scale true false h =
    cc ((planned-eq (checked request) (some (creation request scale)) none h).1)
replan-none service request scale false true h =
    cc ((planned-eq (checked request) (some (replacement service request scale)) none h).1)
replan-none service request scale false false h =
    (refl, refl, (planned-eq (checked request) none none h).0)

both_false : (a b : Bool) → (a || b) ≡ false → (a ≡ false) × (b ≡ false)
both_false true b h = cc
both_false false b h = (refl, h)

-- The plan to do nothing
plan-none :
    (request : Request) (create forced : Bool) (found : Found)
    → plan request create forced found ≡ ok none
    → (create ≡ false)
      × (forced ≡ false)
      × (service : Service) × (current : Current) × (found ≡ present service current)
      × IsUnchanged request current
unfolding plan
plan-none request create true absent h = cc
plan-none request create false absent h =
    cc
      ((planned-eq (checked request) (some (creation request (as_int request.autostart))) none h).1)
plan-none request create forced (present service current) h =
    let (c, u, r) =
      replan-none service (merge request current).0 current.scale create
        (forced || (merge request current).1) h in
    let (f, same) = both_false forced (merge request current).1 u in
    (c, f, service, current, refl, checked-set request current same r)

none-plan :
    (request : Request) (service : Service) (current : Current)
    → IsUnchanged request current
    → plan request false false (present service current) ≡ ok none
unfolding plan replan
none-plan request service current u =
    rw (merge-agrees request current u, merge-checked request current u)

module _ (W : World) (self : Runtime W) where
  change_agent-some :
      (skip : Bool) (change : Change) (s s' : W.State)
      → change_agent W self skip change s ≡ (ok none, s')
      → ⊥
  unfolding change_agent
  change_agent-some skip (creation request scale) s s' h =
      let (parts, t, _, h) = continue-eq-ok (prepare W self request skip s) _ h in
      let (u, t, _, h) =
        continue-eq-ok (W.create_service (make_spec W self request scale parts) t) _ h in
      cc h
  change_agent-some skip (replacement service request scale) s s' h =
      let (parts, t, _, h) = continue-eq-ok (prepare W self request skip s) _ h in
      let (u, t, _, h) =
        continue-eq-ok
          (W.update_service service.id service.version (make_spec W self request scale parts) t) _
          h in
      let (u, t, _, h) = continue-eq-ok (for_each W.remove_secret parts.old_secrets t) _ h in
      let (u, t, _, h) = continue-eq-ok (for_each W.remove_config parts.old_configs t) _ h in cc h

  change_if-none :
      (skip : Bool) (change : Option Change) (s s' : W.State)
      → change_if W self skip change s ≡ (ok none, s')
      → (change ≡ none) × (s' ≡ s)
  unfolding change_if
  change_if-none skip none s s' h = (refl, ground arith)
  change_if-none skip (some change) s s' h = absurd (change_agent-some skip change s s' h)

  -- `update_agent` returns None if and only if it is told neither to create nor to update, the service
  -- is found, and the request asks for nothing that the service does not have, which has an image and
  -- a version; it then has asked the docker daemon to change nothing.
  pub update_agent-none :
      (request : Request) (create forced skip : Bool) (s s' : W.State)
      → (update_agent W self request create forced skip s ≡ (ok none, s')) ↔ (
          (create ≡ false)
          × (forced ≡ false)
          × (s' ≡ s)
          × (service : Service) × (current : Current) × (find_agent W self request s
              ≡ ok (present service current))
          × IsUnchanged request current)
  unfolding update_agent change_if
  update_agent-none request create forced skip s s' = (
    λ h.
        let (found, t, looked, h) = continue-eq-ok (ask (find_agent W self request) s) _ h in
        let (change, t', decided, h) =
          continue-eq-ok (lift (plan request create forced found) t) _ h in
        let (nothing, same) = change_if-none skip change t' s' h in
        let (c, f, service, current, eq, u) =
          plan-none request create forced found (ap (λ p. p.0) decided ∙ ap ok nothing) in
        (
          c,
          f,
          same ∙ (sym (ap (λ p. p.1) decided) ∙ sym (ap (λ p. p.1) looked)),
          service,
          current,
          ap (λ p. p.0) looked ∙ ap ok eq,
          u,
        ),
    λ (c, f, same, service, current, looked, u).
        rw (c, f, same, looked, none-plan request service current u) refl,
  )
