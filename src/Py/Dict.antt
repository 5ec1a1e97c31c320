-- ===== src/Py/Dict.antt =====
-- A `dict` with texts for keys, as the list of its items.
use text.Mathlib.TextEquality.{eq_iff}
use industrial_ams.Base.{String, ◌≡◌, refl, Option, none, some, List, [], ◌∷◌, if◌then◌else◌, arith}
use industrial_ams.Py.Text.{same_text}

abbrev pub Dict {ℓ} : Type ℓ → Type ℓ
Dict V = List (String × V)

module _ {ℓ} {V : Type ℓ} where
  -- `d.get(k)`
  unfoldable pub lookup : String → Dict V → Option V
  lookup k [] = none
  lookup k ((j, v) ∷ d) = if same_text j k then some v else lookup k d

  -- `d[k] = v`
  unfoldable pub put : String → V → Dict V → Dict V
  put k v [] = (k, v) ∷ []
  put k v ((j, w) ∷ d) = if same_text j k then (j, v) ∷ d else (j, w) ∷ put k v d

  -- `d.update(items)`
  unfoldable pub update : Dict V → Dict V → Dict V
  unfolding put
  update d [] = d
  update d ((k, v) ∷ items) = update (put k v d) items

  pub lookup-put :
      (k j : String) (v : V) (d : Dict V)
      → lookup j (put k v d) ≡ (if same_text k j then some v else lookup j d)
  unfolding lookup put
  lookup-put k j v [] = refl
  lookup-put k j v ((i, w) ∷ d) =
      ground (arith, eq_iff k j, eq_iff i k, eq_iff i j, lookup-put k j v d)

-- `keys.add(k)`, of a set whose items stand in the order in which they were added
unfoldable pub add_key : String → List String → List String
add_key k [] = k ∷ []
add_key k (j ∷ js) = if same_text j k then j ∷ js else j ∷ add_key k js

module _ {ℓ} {V : Type ℓ} where
  -- `del d[k]`
  unfoldable pub remove_key : String → Dict V → Dict V
  remove_key k [] = []
  remove_key k ((j, v) ∷ d) =
      let rest = remove_key k d in if same_text j k then rest else (j, v) ∷ rest

  pub lookup-remove_key :
      (k j : String) (d : Dict V)
      → lookup j (remove_key k d) ≡ (if same_text k j then none else lookup j d)
  unfolding lookup remove_key
  lookup-remove_key k j [] = ground (arith, eq_iff k j)
  lookup-remove_key k j ((i, v) ∷ d) =
      ground (arith, eq_iff k j, eq_iff i k, eq_iff i j, lookup-remove_key k j d)
