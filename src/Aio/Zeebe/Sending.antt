-- ===== src/Aio/Zeebe/Sending.antt =====
-- The calls of iams/aio/zeebe.py that try again
use text.Mathlib.TextEquality.{eq_iff}
use industrial_ams.Base.{
  Bool-cases, subst, ℕ, String, Option, none, some, is_some, List, ◌∷◌, ◌++◌, length, if◌then◌else◌,
  Option-cases, inl, inr, ◌≡◌, refl, ◌∙◌,
}
use industrial_ams.Py.Text.{same_text}
use industrial_ams.Py.Dict.{Dict, lookup, put, lookup-put}
use industrial_ams.Aio.Retry.Waits.{waits, settled, IsFinal, IsRefused, retry-settled}
use industrial_ams.Base.{zero, suc, ◌+◌, ◌*◌, [], All, ◌⊎◌, ◌≢◌, ltb, arith, sym, ap}
use industrial_ams.Aio.Retry.{again, capped, Progress, returned, raised}
use industrial_ams.Aio.Zeebe.{
  Answer, key, ZeebeError, succeeds, fails, definition_not_found, invalid_json, no_start_event,
  instance_not_found, message_exists, back_pressure, gateway_unavailable, internal_error,
  unknown_status, other_error, Attempt, run_reply, sent_variables, with_variables, start_process,
}

-- The errors after which the start is tried again
abbrev pub IsPutOff : Attempt ℕ → Type 0
IsPutOff x =
    (x ≡ fails back_pressure)
    ⊎ (x ≡ fails gateway_unavailable)
    ⊎ (x ≡ fails internal_error)
    ⊎ (x ≡ fails unknown_status)

-- The errors for which 0 is returned
abbrev pub IsUnstartable : Attempt ℕ → Type 0
IsUnstartable x =
    (x ≡ fails definition_not_found) ⊎ (x ≡ fails invalid_json) ⊎ (x ≡ fails no_start_event)

-- How the start ends with an attempt that is not put off
abbrev pub Ends : Attempt ℕ → Progress Answer → Type 0
Ends x progress =
    ((n : ℕ) × (x ≡ succeeds n) × (progress ≡ returned (key n)))
    ⊎ (IsUnstartable x × (progress ≡ returned (key 0)))
    ⊎ (((n : ℕ) → x ≢ succeeds n) × (¬ IsUnstartable x) × (progress ≡ raised))

-- min(60, n), min(60, n + 1) and so on
abbrev pub seconds : ℕ → ℕ → List ℕ
seconds n zero = []
seconds n (suc m) = (if ltb n 60 then n else 60) ∷ seconds (n + 1) m

waits-seconds : (k n : ℕ) → waits 60 1 k n ≡ seconds (k + 1) n
unfolding waits
waits-seconds k zero = refl
waits-seconds k (suc n) =
    let first : capped 60 (1 * (k + 1)) ≡ (if ltb (k + 1) 60 then k + 1 else 60) = ground arith in
    rw (first, waits-seconds (k + 1) n) refl

put_off-again : (x : Attempt ℕ) → IsPutOff x → run_reply x ≡ again
put_off-again x (inl e) = ap run_reply e
put_off-again x (inr (inl e)) = ap run_reply e
put_off-again x (inr (inr (inl e))) = ap run_reply e
put_off-again x (inr (inr (inr e))) = ap run_reply e

IsPutOff-IsRefused : (xs : List (Attempt ℕ)) → All IsPutOff xs → IsRefused run_reply xs
unfolding IsRefused
IsPutOff-IsRefused [] h = tt
IsPutOff-IsRefused (x ∷ xs) h = (put_off-again x h.0, IsPutOff-IsRefused xs h.1)

not-IsPutOff-IsFinal : (x : Attempt ℕ) → (¬ IsPutOff x) → IsFinal (run_reply x)
not-IsPutOff-IsFinal (succeeds n) h = tt
not-IsPutOff-IsFinal (fails definition_not_found) h = tt
not-IsPutOff-IsFinal (fails invalid_json) h = tt
not-IsPutOff-IsFinal (fails no_start_event) h = tt
not-IsPutOff-IsFinal (fails instance_not_found) h = tt
not-IsPutOff-IsFinal (fails message_exists) h = tt
not-IsPutOff-IsFinal (fails back_pressure) h = absurd (h (inl refl))
not-IsPutOff-IsFinal (fails gateway_unavailable) h = absurd (h (inr (inl refl)))
not-IsPutOff-IsFinal (fails internal_error) h = absurd (h (inr (inr (inl refl))))
not-IsPutOff-IsFinal (fails unknown_status) h = absurd (h (inr (inr (inr refl))))
not-IsPutOff-IsFinal (fails other_error) h = tt

escaped :
    (x : ZeebeError)
    → (x ≢ definition_not_found) × (x ≢ invalid_json) × (x ≢ no_start_event)
    → Ends (fails x) raised
escaped x h = inr (
    inr (
      λ n e. cc e,
      λ o. elim o [ inl e ↦ h.0 (cc e) | inr (inl e) ↦ h.1 (cc e) | inr (inr e) ↦ h.2 (cc e) ],
      refl,
    ))

settled-Ends : (x : Attempt ℕ) → (¬ IsPutOff x) → Ends x (settled (run_reply x))
settled-Ends (succeeds n) h = inl (n, refl, refl)
settled-Ends (fails definition_not_found) h = inr (inl (inl refl, refl))
settled-Ends (fails invalid_json) h = inr (inl (inr (inl refl), refl))
settled-Ends (fails no_start_event) h = inr (inl (inr (inr refl), refl))
settled-Ends (fails instance_not_found) h =
    escaped instance_not_found (λ e. cc e, λ e. cc e, λ e. cc e)
settled-Ends (fails message_exists) h = escaped message_exists (λ e. cc e, λ e. cc e, λ e. cc e)
settled-Ends (fails back_pressure) h = absurd (h (inl refl))
settled-Ends (fails gateway_unavailable) h = absurd (h (inr (inl refl)))
settled-Ends (fails internal_error) h = absurd (h (inr (inr (inl refl))))
settled-Ends (fails unknown_status) h = absurd (h (inr (inr (inr refl))))
settled-Ends (fails other_error) h = escaped other_error (λ e. cc e, λ e. cc e, λ e. cc e)

module _ {V : Type 0} (text : String → V) (null : V) where
  -- A value, or the null that `start_process` writes
  abbrev pub or_null : Option V → V
  or_null none = null
  or_null (some v) = v

  with_variables_lem :
      (k : String) (d : Dict V)
      → lookup k (with_variables text null (is_some (lookup "agent_instance_variables" d)) d) ≡ (
          if same_text "agent_instance_variables" k
          then some (or_null (lookup "agent_instance_variables" d))
          else lookup k d)
  with_variables_lem k d = elim (Option-cases (lookup "agent_instance_variables" d)) [
    | inl missing ↦ rw missing (lookup-put "agent_instance_variables" k null d)
    | inr (v, there) ↦ rw there (elim (Bool-cases (same_text "agent_instance_variables" k)) [
      | inl same ↦
          rw same
            (subst (λ x. lookup x d ≡ some v) ((eq_iff "agent_instance_variables" k).0 same) there)
      | inr other ↦ rw other refl
    ])
  ]

  -- The variables that are sent
  pub sent_variables_lem :
      (k task_type : String) (variables : Dict V)
      → lookup k (sent_variables text null task_type variables) ≡ (
          if same_text "agent_instance_variables" k
          then some (or_null (lookup "agent_instance_variables" variables))
          else (if same_text "task_type" k then some (text task_type) else lookup k variables))
  unfolding sent_variables
  sent_variables_lem k task_type variables =
      let typed : Dict V = put "task_type" (text task_type) variables in
      let agent : lookup "agent_instance_variables" typed
          ≡ lookup "agent_instance_variables" variables =
        lookup-put "task_type" "agent_instance_variables" (text task_type) variables in
      let one : lookup k typed
          ≡ (if same_text "task_type" k then some (text task_type) else lookup k variables) =
        lookup-put "task_type" k (text task_type) variables in
      with_variables_lem k typed ∙ rw (agent, one) refl

  -- The first attempt that the gateway does not put off decides: its key is returned, or 0 where there is
  -- no such process, its variables are no JSON or it has no start event; every other error is raised.
  -- After n attempts that were put off it has slept min(60, 1), …, min(60, n) seconds. What was sent are the
  -- caller's variables with the task type, and with null for the agent's variables where there are none.
  pub start_process-settled :
      (task_type : String) (variables : Dict V) (refused rest : List (Attempt ℕ)) (x : Attempt ℕ)
      (k : String)
      → All IsPutOff refused
      → (¬ IsPutOff x)
      → let (sent, (slept, progress)) =
          start_process text null task_type variables (refused ++ (x ∷ rest)) in
        (slept ≡ seconds 1 (length refused))
        × Ends x progress
        × (lookup k sent ≡ (
            if same_text "agent_instance_variables" k
            then some (or_null (lookup "agent_instance_variables" variables))
            else (if same_text "task_type" k then some (text task_type) else lookup k variables)))
  start_process-settled task_type variables refused rest x k h final =
      let run =
        retry-settled run_reply refused rest x (IsPutOff-IsRefused refused h)
          (not-IsPutOff-IsFinal x final) in
      (
        ap (λ r. r.0) run ∙ waits-seconds 0 (length refused),
        subst (Ends x) (sym (ap (λ r. r.1) run)) (settled-Ends x final),
        sent_variables_lem k task_type variables,
      )
