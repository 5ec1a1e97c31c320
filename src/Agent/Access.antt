-- ===== src/Agent/Access.antt =====
-- Who may call an agent of iams/agent.py
use industrial_ams.Base.{
  subst, inr, ◌∙◌, sym, inl, Option-cases, String, Bool, true, false, Option, List, [], ◌∷◌, ◌≡◌,
  refl, ap, ◌↔◌,
}
use package.text.Mathlib.TextEquality.{eq_iff}
use industrial_ams.Py.Filtered.{Filtered, Filtered-unique}
use industrial_ams.Base.{
  ◌&&◌, sym, subst, ◌∙◌, not, none, some, ◌⊎◌, inl, inr, Bool-cases, Option-cases,
}
use industrial_ams.Py.Text.{same_text, is_written}
use industrial_ams.Agent.{is_ignored, of_peers, identities_of}
use industrial_ams.Py.{Result, ok, err}
use industrial_ams.Agent.{
  of_peers, identities_of, some, is_written, Callback, authenticate, Agent, Context, credentials,
  Served, permitted, identified, serve,
}

-- A peer that is no address of the agent's own host and not empty
abbrev pub IsForeign : String → Type 0
IsForeign peer = (¬ peer ≡ "") × (¬ peer ≡ "127.0.0.1") × (¬ peer ≡ "localhost")

-- The identities of a caller: without a context none, and else the foreign ones of the peers that the
-- context names; a context that names no peers gives no identities, not even an empty list.
abbrev pub Gives : Option Context → List String → Type 0
Gives none identities = identities ≡ []
Gives (some context) identities =
    (peers : List String) × (context.peer_identities ≡ some peers)
    × Filtered IsForeign peers identities

-- The caller gives these identities, and the agent takes them for authentic.
abbrev pub IsAuthentic : Agent → Option Context → List String → Type 0
IsAuthentic agent context identities =
    Gives context identities × (agent authenticate identities ≡ ok true)

foreign :
    (peer : String)
    → ((is_written peer && not (is_ignored peer) ≡ true) × IsForeign peer)
      ⊎ ((is_written peer && not (is_ignored peer) ≡ false) × (¬ IsForeign peer))
foreign String.[] = inr (refl, λ h. h.0 refl)
foreign (String.◌∷◌ c s) =
    let peer = String.◌∷◌ c s in
    elim (Bool-cases (same_text peer "127.0.0.1")) [
      | inl home ↦ inr (rw home refl, λ h. h.1 ((eq_iff peer "127.0.0.1").0 home))
      | inr away ↦ elim (Bool-cases (same_text peer "localhost")) [
        | inl home ↦ inr (rw (away, home) refl, λ h. h.2 ((eq_iff peer "localhost").0 home))
        | inr other ↦ inl (
          rw (away, other) refl,
          (
            λ e. cc (ap is_written e),
            λ e. cc (away, (eq_iff peer "127.0.0.1").1 e),
            λ e. cc (other, (eq_iff peer "localhost").1 e),
          ),
        )
      ]
    ]

identities_of-Filtered : (peers : List String) → Filtered IsForeign peers (identities_of peers)
unfolding identities_of
identities_of-Filtered [] = refl
identities_of-Filtered (peer ∷ peers) = elim (foreign peer) [
  | inl (kept, p) ↦ rw kept (inl (identities_of peers, p, refl, identities_of-Filtered peers))
  | inr (dropped, p) ↦ rw dropped (inr (p, identities_of-Filtered peers))
]

-- The decorator's function finds exactly the identities that the caller gives.
pub credentials-Gives :
    (context : Option Context) (identities : List String)
    → (credentials context false ≡ ok identities) ↔ Gives context identities
credentials-Gives none identities = (λ h. cc h, λ h. cc h)
credentials-Gives (some context) identities = elim (Option-cases context.peer_identities) [
  | inl missing ↦
      (λ h. cc (sym (ap (of_peers false) missing) ∙ h), λ (peers, given, h). cc (missing, given))
  | inr (found, there) ↦ (
    λ h.
        let e : identities_of found ≡ identities = cc (sym (ap (of_peers false) there) ∙ h) in
        (found, there, subst (Filtered IsForeign found) e (identities_of-Filtered found)),
    λ (peers, given, h).
        ap (of_peers false) given
        ∙ ap ok (
            Filtered-unique IsForeign peers (identities_of peers) identities
              (identities_of-Filtered peers) h),
  )
]

module _ (callback : Callback) where
  permitted_last : (r : Result Bool) → (permitted callback r (ok tt, [])).0 ≡ ok tt → r ≡ ok true
  permitted_last (err x) h = cc h
  permitted_last (ok false) h = cc h
  permitted_last (ok true) h = refl

  last_called : (r : Result Bool) → (permitted callback r (ok tt, [])).1 ≡ callback ∷ []
  last_called (err x) = refl
  last_called (ok false) = refl
  last_called (ok true) = refl

-- What a test that lets the call through has found
passed :
    (callback : Callback) (r : Result Bool) (rest : Served)
    → (permitted callback r rest).0 ≡ ok tt
    → (r ≡ ok true) × (rest.0 ≡ ok tt)
passed callback (err x) rest h = cc h
passed callback (ok false) rest h = cc h
passed callback (ok true) rest h = (refl, h)

gone_on :
    (callback next : Callback) (r : Result Bool) (rest : Served)
    → (permitted callback r rest).1 ≡ callback ∷ (next ∷ [])
    → (r ≡ ok true) × (rest.1 ≡ next ∷ [])
gone_on callback next (err x) rest h = cc h
gone_on callback next (ok false) rest h = cc h
gone_on callback next (ok true) rest h = (refl, cc h)

known :
    (r : Result (List String)) (rest : List String → Served)
    → (identified r rest).0 ≡ ok tt
    → (identities : List String) × ((r ≡ ok identities) × ((rest identities).0 ≡ ok tt))
known (err x) rest h = cc h
known (ok identities) rest h = (identities, (refl, h))

known_call :
    (first second : Callback) (r : Result (List String)) (rest : List String → Served)
    → (identified r rest).1 ≡ first ∷ (second ∷ [])
    → (identities : List String) × ((r ≡ ok identities)
        × ((rest identities).1 ≡ first ∷ (second ∷ [])))
known_call first second (err x) rest h = cc h
known_call first second (ok identities) rest h = (identities, (refl, h))

-- A call of `reset`, `update` or `upgrade` succeeds exactly if the caller gives identities that the agent
-- takes for authentic, and its callback agrees.
pub serve_iff :
    (callback : Callback) (agent : Agent) (context : Option Context)
    → ((serve callback agent context).0 ≡ ok tt) ↔ (
        (identities : List String) × (IsAuthentic agent context identities
          × (agent callback identities ≡ ok true)))
unfolding serve
serve_iff callback agent context = (
  λ h.
      let (identities, (found, rest)) = known (credentials context false) _ h in
      let (authentic, last) = passed authenticate (agent authenticate identities) _ rest in
      (
        identities,
        (
          ((credentials-Gives context identities).0 found, authentic),
          permitted_last callback (agent callback identities) last,
        ),
      ),
  λ (identities, ((given, authentic), agrees)).
      rw ((credentials-Gives context identities).1 given, authentic, agrees) refl,
)

-- The callback of `reset`, `update` or `upgrade` is called, after `authenticate`, exactly if the
-- agent takes the caller's identities for authentic: without a context they are none; with one they are
-- the peers that it names, in order, but for empty ones and the addresses of the own host; a context
-- that names no peers gives no identities, and no callback is called.
pub serve-IsAuthentic :
    (callback : Callback) (agent : Agent) (context : Option Context)
    → ((serve callback agent context).1 ≡ authenticate ∷ (callback ∷ []))
      ↔ ((identities : List String) × IsAuthentic agent context identities)
unfolding serve
serve-IsAuthentic callback agent context = (
  λ h.
      let (identities, (found, rest)) =
        known_call authenticate callback (credentials context false) _ h in
      (
        identities,
        (
          (credentials-Gives context identities).0 found,
          (gone_on authenticate callback (agent authenticate identities) _ rest).0,
        ),
      ),
  λ (identities, (given, authentic)).
      rw ((credentials-Gives context identities).1 given, authentic)
        (ap (λ l. authenticate ∷ l) (last_called callback (agent callback identities))),
)
