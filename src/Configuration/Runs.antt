-- ===== src/Configuration/Runs.antt =====
-- The runs that `process_config` of iams/simulation.py makes of a configuration.
use industrial_ams.Base.{
  ℕ, suc, String, ◌≡◌, refl, sym, ap, ◌∙◌, Bool, true, false, ◌||◌, Option, none, some, List, [],
  ◌∷◌, map, length, All, if◌then◌else◌, Option-cases, inl, inr, Bool-cases, subst,
}
use industrial_ams.Py.{Result, ok, err}
use industrial_ams.Py.Calls.{lift, continue-eq-ok}
use industrial_ams.Py.Text.{same_text}
use industrial_ams.Py.Dict.{Dict, lookup, update}
use industrial_ams.Configuration.{
  exists_file, Config, Platform, Run, product, factor, runs_of, items_of, prepare_run, process_runs,
  process_config, kept_runs, template_of, simulation_class, facilitator, shared, or_default,
  is_skipped, without_file,
}
use industrial_ams.Configuration.Product.{
  Chooses, chosen, or_else, lookup-update, length-product, product-Chooses,
}

module _ {V : Type 0} where
  or_else-none : (a b : Option V) → or_else a b ≡ none → (a ≡ none) × (b ≡ none)
  or_else-none none b h = (refl, h)
  or_else-none (some v) b h = cc

  other_key : (b : Bool) (v : V) → (if b then some v else none) ≡ none → b ≡ false
  other_key true v h = cc
  other_key false v h = refl

  -- Two choices for the same keys leave the same keys out.
  chosen-none :
      (k : String) (entries : Dict (List V)) (a b : Dict V)
      → Chooses entries a
      → Chooses entries b
      → chosen k a ≡ none
      → chosen k b ≡ none
  chosen-none k [] [] [] ha hb h = refl
  chosen-none k ((key, values) ∷ entries) ((i, v) ∷ a) ((j, w) ∷ b) ha hb h =
      let (rest, first) = or_else-none (chosen k a) (if same_text i k then some v else none) h in
      let eq = ap (λ x. same_text x k) (hb.0 ∙ sym ha.0) in
      rw (chosen-none k entries a b ha.2 hb.2 rest, eq ∙ other_key (same_text i k) v first)
  chosen-none k [] [] (y ∷ b) ha hb h = absurd hb
  chosen-none k [] (x ∷ a) b ha hb h = absurd ha
  chosen-none k (e ∷ entries) [] b ha hb h = absurd ha
  chosen-none k (e ∷ entries) (x ∷ a) [] ha hb h = absurd hb

  -- The settings are those of the base, but for keys that every run sets.
  abbrev IsShared : Dict (List V) → Dict V → Dict V → Type 0
  IsShared entries base s =
      (items : Dict V) (k : String)
      → Chooses entries items
      → or_else (chosen k items) (lookup k s) ≡ or_else (chosen k items) (lookup k base)

  update-IsShared :
      (entries : Dict (List V)) (base s r : Dict V)
      → Chooses entries r
      → IsShared entries base s
      → IsShared entries base (update s r)
  update-IsShared entries base s r chooses agrees items k h = elim (Option-cases (chosen k items)) [
    | inl out ↦
        rw (lookup-update, chosen-none k entries items r h chooses out, out)
          (subst (λ c. or_else c (lookup k s) ≡ or_else c (lookup k base)) out (agrees items k h))
    | inr (v, set) ↦ rw set
  ]

abbrev value_or : {A : Type 0} → A → Result A → A
value_or default (ok a) = a
value_or default (err x) = default

module _ {V : Type 0} (P : Platform V) where
  prepare_run-eq :
      (count : ℕ) (folder template : String) (r : Dict V) (config : Config V) (s t : Dict V)
      (run : Run P.Class V)
      → prepare_run P count folder template r config s ≡ (ok run, t)
      → (run.run_config ≡ r)
        × (run.settings ≡ update (shared P config.settings s) r)
        × (t ≡ update (shared P config.settings s) r)
  unfolding prepare_run
  prepare_run-eq count folder template r config s t run h =
      let (name, s1, h1, h) = continue-eq-ok (lift (P.format template count r) s) _ h in
      let (seed, s2, h2, h) =
        continue-eq-ok (lift (P.format (or_default name config.seed) count r) s1) _ h in
      let (simcls, s3, h3, h) =
        continue-eq-ok (lift (simulation_class P config.simulation_class) s2) _ h in
      let (u, s4, h4, h) =
        continue-eq-ok (lift (facilitator P config.directory_facilitator) s3) _ h in
      let same =
        sym (ap (λ p. p.1) h4)
        ∙ (sym (ap (λ p. p.1) h3) ∙ (sym (ap (λ p. p.1) h2) ∙ sym (ap (λ p. p.1) h1))) in
      let settled = ap (λ x. update (shared P config.settings x) r) same in
      (
        sym (ap (λ p. (value_or run p.0).run_config) h),
        sym (ap (λ p. (value_or run p.0).settings) h) ∙ settled,
        sym (ap (λ p. p.1) h) ∙ settled,
      )

  -- A run of the configuration: one value for each key of the products, and these over the settings
  -- that the configuration gives
  pub record IsRun (config : Config V) (run : Run P.Class V) : Type 0 where
    pub chooses : Chooses (items_of config.products) run.run_config
    pub settings :
        (k : String)
        → lookup k run.settings
          ≡ or_else (chosen k run.run_config) (lookup k (items_of config.settings))

  shared-IsShared :
      (entries : Dict (List V)) (settings : Option (Dict V)) (s : Dict V)
      → IsShared entries (items_of settings) s
      → IsShared entries (items_of settings) (shared P settings s)
  shared-IsShared entries none s h items k c = refl
  shared-IsShared entries (some base) s h items k c = h items k c

  prepare_run-IsRun :
      (count : ℕ) (folder template : String) (r : Dict V) (config : Config V) (s t : Dict V)
      (run : Run P.Class V)
      → Chooses (items_of config.products) r
      → IsShared (items_of config.products) (items_of config.settings) s
      → prepare_run P count folder template r config s ≡ (ok run, t)
      → IsRun config run × IsShared (items_of config.products) (items_of config.settings) t
  prepare_run-IsRun count folder template r config s t run chooses agrees h =
      let (kept, settings, state) = prepare_run-eq count folder template r config s t run h in
      let base = shared-IsShared (items_of config.products) config.settings s agrees in
      (
        record {
          chooses = subst (Chooses (items_of config.products)) (sym kept) chooses;
          settings = λ k.
              ap (lookup k) settings
              ∙ (lookup-update k r (shared P config.settings s)
                  ∙ (base r k chooses
                      ∙ ap (λ c. or_else (chosen k c) (lookup k (items_of config.settings)))
                          (sym kept)));
        },
        subst (IsShared (items_of config.products) (items_of config.settings)) (sym state) (
            update-IsShared (items_of config.products) (items_of config.settings)
              (shared P config.settings s) r chooses base),
      )

  without_file-IsRun :
      (config : Config V) (dryrun : Bool) (run : Run P.Class V)
      → IsRun config run
      → IsRun config (without_file P dryrun run)
  without_file-IsRun config true run h = record { chooses = h.chooses; settings = h.settings }
  without_file-IsRun config false run h = h

  -- One round of the loop: a run that is not skipped stands first.
  IsRun-round :
      (config : Config V) (dryrun force : Bool) (run : Run P.Class V) (rest : List (Run P.Class V))
      (n : ℕ)
      → IsRun config run
      → All (IsRun config) rest × ((dryrun || force) ≡ true → length rest ≡ n)
      → (let runs =
            if is_skipped P dryrun force run then rest else without_file P dryrun run ∷ rest in
          All (IsRun config) runs × ((dryrun || force) ≡ true → length runs ≡ suc n))
  IsRun-round config true force run rest n h k =
      ((without_file-IsRun config true run h, k.0), λ e. ap suc (k.1 refl))
  IsRun-round config false true run rest n h k = ((h, k.0), λ e. ap suc (k.1 refl))
  IsRun-round config false false run rest n h k = (
    elim (Bool-cases (exists_file P run.file_data)) [
      | inl there ↦ rw there k.0
      | inr fresh ↦ rw fresh (h, k.0)
    ],
    λ e. cc,
  )

  process_runs-IsRun :
      (dryrun force : Bool) (folder template : String) (config : Config V) (count : ℕ)
      (rs : List (Dict V)) (s t : Dict V) (runs : List (Run P.Class V))
      → All (Chooses (items_of config.products)) rs
      → IsShared (items_of config.products) (items_of config.settings) s
      → process_runs P dryrun force folder template config count rs s ≡ (ok runs, t)
      → All (IsRun config) runs × ((dryrun || force) ≡ true → length runs ≡ length rs)
  unfolding process_runs
  process_runs-IsRun dryrun force folder template config count [] s t runs chooses agrees h =
      subst (λ x. All (IsRun config) x × ((dryrun || force) ≡ true → length x ≡ 0))
        (ap (λ p. value_or runs p.0) h) (tt, λ e. refl)
  process_runs-IsRun dryrun force folder template config count (r ∷ rs) s t runs chooses agrees h =
      let (run, s1, prepared, h) =
        continue-eq-ok (prepare_run P (suc count) folder template r config s) _ h in
      let (rest, s2, processed, h) =
        continue-eq-ok (process_runs P dryrun force folder template config (suc count) rs s1) _ h in
      let (is_run, agrees) =
        prepare_run-IsRun (suc count) folder template r config s s1 run chooses.0 agrees prepared in
      let (all, counted) =
        process_runs-IsRun dryrun force folder template config (suc count) rs s1 s2 rest chooses.1
          agrees processed in
      subst (λ x. All (IsRun config) x × ((dryrun || force) ≡ true → length x ≡ suc (length rs)))
        (ap (λ p. value_or runs p.0) h)
        (IsRun-round config dryrun force run rest (length rs) is_run (all, counted))

  -- What `main` keeps of `process_config`, a deep copy of each run made when it is yielded, are runs of
  -- the configuration: each has, for every key of the products, one of the key's values, and its settings
  -- are these over those of the configuration, although the generator updates one dict for all runs. A run
  -- is skipped only without --dry-run and --force: with one of them there are as many runs as there are
  -- combinations of values.
  pub process_config-IsRun :
      (folder project : String) (config : Config V) (dryrun force : Bool)
      (runs : List (Run P.Class V))
      → kept_runs P folder project config dryrun force ≡ ok runs
      → All (IsRun config) runs
        × ((dryrun || force) ≡ true → length runs ≡ runs_of (items_of config.products))
  unfolding kept_runs process_config
  process_config-IsRun folder project config dryrun force runs h =
      let products = items_of config.products in
      let q =
        process_runs P dryrun force folder (template_of P config project (runs_of products)) config
          0 (product (map factor products)) (items_of config.settings) in
      let (all, counted) =
        process_runs-IsRun dryrun force folder (template_of P config project (runs_of products))
          config 0 (product (map factor products)) (items_of config.settings) q.1 runs
          (product-Chooses products) (λ items k c. refl) (ap (λ r. (r, q.1)) h) in
      (all, λ e. counted e ∙ length-product products)
