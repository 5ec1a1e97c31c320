-- ===== src/Runtime/Picked.antt =====
-- `set_config` and `set_secret` find what they look for, and never make it twice.
use industrial_ams.Base.{
  String, ◌≡◌, refl, sym, ap, ◌∙◌, inl, inr, Bool, false, Option, none, some, List, [], ◌∷◌, ◌++◌,
  if◌then◌else◌, append-nil, append_assoc, Bool-cases,
}
use industrial_ams.Py.{Result, ok, err}
use industrial_ams.Py.Text.{same_text}
use industrial_ams.Py.Calls.{give, continue}
use industrial_ams.Runtime.{Dict, World, Runtime, Config}
use industrial_ams.Runtime.Agents.{pick, of_agent}
use industrial_ams.Runtime.Secrets.{set_config, config_or_new, config_name}

module _ {ℓ} {A : Type ℓ} (name : A → String) where
  -- Whether an item has the name, where there is one
  abbrev pub is_named : Option String → A → Bool
  is_named none x = false
  is_named (some w) x = same_text (name x) w

  abbrev pub last_or : Option A → Option A → Option A
  last_or none found = found
  last_or (some x) found = some x

  -- The last item with the name
  abbrev pub last_named : Option String → List A → Option A
  last_named wanted [] = none
  last_named wanted (x ∷ xs) =
      last_or (last_named wanted xs) (if is_named wanted x then some x else none)

  -- The items with other names
  abbrev pub unnamed : Option String → List A → List A
  unnamed wanted [] = []
  unnamed wanted (x ∷ xs) =
      let rest = unnamed wanted xs in if is_named wanted x then rest else x ∷ rest

  last_or-none : (a : Option A) → last_or a none ≡ a
  last_or-none none = refl
  last_or-none (some x) = refl

  last_or_assoc : (a b c : Option A) → last_or (last_or a b) c ≡ last_or a (last_or b c)
  last_or_assoc none b c = refl
  last_or_assoc (some x) b c = refl

  -- `pick` after an item with another name, by the equation for the rest of the list
  pick-other :
      (wanted : Option String) (x : A) (xs : List A) (item : Option A) (others : List A)
      → pick name wanted xs (item, others ++ (x ∷ []))
        ≡ (last_or (last_named wanted xs) item, (others ++ (x ∷ [])) ++ unnamed wanted xs)
      → pick name wanted xs (item, others ++ (x ∷ []))
        ≡ (last_or (last_or (last_named wanted xs) none) item, others ++ (x ∷ unnamed wanted xs))
  pick-other wanted x xs item others h =
      h ∙ rw (last_or_assoc, append_assoc others (x ∷ []) (unnamed wanted xs)) refl

  pick-eq :
      (wanted : Option String) (xs : List A) (item : Option A) (others : List A)
      → pick name wanted xs (item, others)
        ≡ (last_or (last_named wanted xs) item, others ++ unnamed wanted xs)
  unfolding pick
  pick-eq wanted [] item others = ap (λ o. (item, o)) (sym (append-nil others))
  pick-eq none (x ∷ xs) item others =
      pick-other none x xs item others (pick-eq none xs item (others ++ (x ∷ [])))
  pick-eq (some w) (x ∷ xs) item others = elim (Bool-cases (same_text (name x) w)) [
    | inl same ↦ rw same (pick-eq (some w) xs (some x) others ∙ rw last_or_assoc)
    | inr other ↦
        rw other
          (pick-other (some w) x xs item others (pick-eq (some w) xs item (others ++ (x ∷ []))))
  ]

  pub pick-all :
      (wanted : Option String) (xs : List A)
      → pick name wanted xs (none, []) ≡ (last_named wanted xs, unnamed wanted xs)
  pick-all wanted xs =
      pick-eq wanted xs none []
      ∙ ap (λ item. (item, unnamed wanted xs)) (last_or-none (last_named wanted xs))

-- The others go with what was found or made.
abbrev pub with_others {ℓ κ μ} :
    {S : Type ℓ} {A : Type κ} {B : Type μ} → B → Result A × S → Result (A × B) × S
with_others others (ok a, s) = (ok (a, others), s)
with_others others (err x, s) = (err x, s)

continue-with_others {ℓ κ μ} :
    {S : Type ℓ} {A : Type κ} {B : Type μ} (others : B) (r : Result A × S)
    → continue r (λ a. give (a, others)) ≡ with_others others r
continue-with_others others (ok a, s) = refl
continue-with_others others (err x, s) = refl

module _ (W : World) (self : Runtime W) where
  -- The same of `set_config`, which makes no config without data.
  pub set_config-last_named :
      (agent content : String) (s : W.State) (configs : List Config)
      → W.configs_list s none (of_agent W self agent) ≡ ok configs
      → (let wanted = config_name W self agent content in
          set_config W self agent content s
          ≡ with_others (unnamed (λ x. x.name) wanted configs) (
              config_or_new W self agent content wanted
                (last_named (λ x. x.name) wanted configs)
                s))
  unfolding set_config
  set_config-last_named agent content s configs h =
      let wanted = config_name W self agent content in
      rw (h, pick-all (λ x. x.name) wanted configs)
        (continue-with_others (unnamed (λ x. x.name) wanted configs)
          (config_or_new W self agent content wanted (last_named (λ x. x.name) wanted configs) s))
