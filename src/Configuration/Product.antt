-- ===== src/Configuration/Product.antt =====
-- The product of the values of a configuration in iams/simulation.py, and the settings that its
-- runs share.
use Prim.Native.Nat.mul
use industrial_ams.Base.{
  inr, inl, ◌⊎◌, suc, ◌+◌, ◌*◌, String, ◌≡◌, refl, sym, ap, ◌∙◌, Bool, true, false, Option, none,
  some, List, [], ◌∷◌, ◌++◌, map, length, All, All-append, if◌then◌else◌, arith,
}
use industrial_ams.Py.Text.{same_text}
use industrial_ams.Py.Dict.{Dict, lookup, update, put, lookup-put}
use industrial_ams.Configuration.{product, pairs, prefixed, factor, runs_of}

length-append {ℓ} : {A : Type ℓ} (xs ys : List A) → length (xs ++ ys) ≡ length xs + length ys
length-append [] ys = omega arith
length-append (x ∷ xs) ys = omega (arith, length-append xs ys)

length-prefixed {ℓ} :
    {A : Type ℓ} (x : A) (rest : List (List A)) → length (prefixed x rest) ≡ length rest
length-prefixed x [] = refl
length-prefixed x (r ∷ rest) = ap suc (length-prefixed x rest)

length-pairs {ℓ} :
    {A : Type ℓ} (xs : List A) (rest : List (List A))
    → length (pairs xs rest) ≡ length xs * length rest
length-pairs [] rest = sym (mul.zero (length rest))
length-pairs (x ∷ xs) rest =
    length-append (prefixed x rest) (pairs xs rest)
    ∙ (ap (λ n. n + length (pairs xs rest)) (length-prefixed x rest)
        ∙ (ap (λ n. length rest + n) (length-pairs xs rest)
            ∙ sym (mul.suc (length xs) (length rest))))

length-factor :
    {V : Type 0} (key : String) (values : List V) → length (factor (key, values)) ≡ length values
length-factor key [] = refl
length-factor key (v ∷ values) = ap suc (length-factor key values)

pub length-product :
    {V : Type 0} (products : Dict (List V))
    → length (product (map factor products)) ≡ runs_of products
length-product [] = refl
length-product ((key, values) ∷ products) =
    length-pairs (factor (key, values)) (product (map factor products))
    ∙ (ap (λ n. n * length (product (map factor products))) (length-factor key values)
        ∙ ap (λ n. length values * n) (length-product products))

-- The value is in the list.
abbrev pub Has : {V : Type 0} → V → List V → Type 0
Has v [] = ⊥
Has v (w ∷ ws) = (v ≡ w) ⊎ Has v ws

-- A run's configuration has one value for each key, in order, and it is one of the key's values.
abbrev pub Chooses : {V : Type 0} → Dict (List V) → Dict V → Type 0
Chooses [] [] = Unit
Chooses [] (item ∷ items) = ⊥
Chooses (entry ∷ entries) [] = ⊥
Chooses ((key, values) ∷ entries) ((k, v) ∷ items) =
    (k ≡ key) × Has v values × Chooses entries items

prefixed-Chooses :
    {V : Type 0} (key : String) (v : V) (values : List V) (entries : Dict (List V))
    (rest : List (Dict V))
    → Has v values
    → All (Chooses entries) rest
    → All (Chooses ((key, values) ∷ entries)) (prefixed (key, v) rest)
prefixed-Chooses key v values entries [] h k = tt
prefixed-Chooses key v values entries (r ∷ rest) h k =
    ((refl, h, k.0), prefixed-Chooses key v values entries rest h k.1)

pairs-Chooses :
    {V : Type 0} (key : String) (all values : List V) (entries : Dict (List V))
    (rest : List (Dict V))
    → ((v : V) → Has v values → Has v all)
    → All (Chooses entries) rest
    → All (Chooses ((key, all) ∷ entries)) (pairs (factor (key, values)) rest)
pairs-Chooses key all [] entries rest h k = tt
pairs-Chooses key all (v ∷ values) entries rest h k =
    All-append (Chooses ((key, all) ∷ entries)) (prefixed (key, v) rest)
      (pairs (factor (key, values)) rest)
      (prefixed-Chooses key v all entries rest (h v (inl refl)) k)
      (pairs-Chooses key all values entries rest (λ w has. h w (inr has)) k)

pub product-Chooses :
    {V : Type 0} (products : Dict (List V)) → All (Chooses products) (product (map factor products))
product-Chooses [] = (tt, tt)
product-Chooses ((key, values) ∷ products) =
    pairs-Chooses key values values products (product (map factor products)) (λ v has. has)
      (product-Chooses products)

module _ {V : Type 0} where
  abbrev pub or_else : Option V → Option V → Option V
  or_else none other = other
  or_else (some v) other = some v

  or_else_assoc : (a b c : Option V) → or_else (or_else a b) c ≡ or_else a (or_else b c)
  or_else_assoc none b c = refl
  or_else_assoc (some v) b c = refl

  -- The last value of a key among the items
  abbrev pub chosen : String → Dict V → Option V
  chosen k [] = none
  chosen k ((j, v) ∷ items) = or_else (chosen k items) (if same_text j k then some v else none)

  chosen-if :
      (b : Bool) (v : V) (o : Option V)
      → (if b then some v else o) ≡ or_else (if b then some v else none) o
  chosen-if true v o = refl
  chosen-if false v o = refl

  pub lookup-update :
      (k : String) (items d : Dict V)
      → lookup k (update d items) ≡ or_else (chosen k items) (lookup k d)
  unfolding update
  lookup-update k [] d = refl
  lookup-update k ((j, v) ∷ items) d =
      lookup-update k items (put j v d)
      ∙ (ap (or_else (chosen k items)) (lookup-put j k v d)
          ∙ (ap (or_else (chosen k items)) (chosen-if (same_text j k) v (lookup k d))
              ∙ sym (
                  or_else_assoc (chosen k items) (if same_text j k then some v else none)
                    (lookup k d))))
