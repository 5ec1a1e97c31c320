-- ===== src/Py/Calls.antt =====
-- Blocks of statements that change an object and may raise, for `do`.
use industrial_ams.Base.{◌≡◌, refl, List, [], ◌∷◌}
use industrial_ams.Py.{Result, ok, err, Method}

-- A block goes on after a statement that did not raise.
abbrev pub continue {ℓ κ μ} :
    {S : Type ℓ} {A : Type κ} {B : Type μ} → Result A × S → (A → Method S B) → Result B × S
continue (ok a, s) next = next a s
continue (err x, s) next = (err x, s)

infixl 5 ◌>>=◌ ◌>>◌
abbrev pub ◌>>=◌ {ℓ κ μ} :
    {S : Type ℓ} {A : Type κ} {B : Type μ} → Method S A → (A → Method S B) → Method S B
◌>>=◌ first next s = continue (first s) next

abbrev pub ◌>>◌ {ℓ μ} : {S : Type ℓ} {B : Type μ} → Method S (Unit {0}) → Method S B → Method S B
first >> rest = first >>= λ done. rest

abbrev pub give {ℓ κ} : {S : Type ℓ} {A : Type κ} → A → Method S A
give a s = (ok a, s)

-- A call that changes nothing
abbrev pub ask {ℓ κ} : {S : Type ℓ} {A : Type κ} → (S → Result A) → Method S A
ask read s = (read s, s)

-- A value that was computed or an exception
abbrev pub lift {ℓ κ} : {S : Type ℓ} {A : Type κ} → Result A → Method S A
lift r s = (r, s)

-- The method is called on each item.
unfoldable pub for_each {ℓ κ} :
    {S : Type ℓ} {A : Type κ} → (A → Method S (Unit {0})) → List A → Method S (Unit {0})
for_each call [] = give tt
for_each call (x ∷ xs) = call x >> for_each call xs

-- A block that returns took its first step.
pub continue-eq-ok {ℓ κ μ} :
    {S : Type ℓ} {A : Type κ} {B : Type μ} (r : Result A × S) (next : A → Method S B) {b : B}
    {t : S}
    → continue r next ≡ (ok b, t)
    → (a : A) × (s : S) × (r ≡ (ok a, s)) × (next a s ≡ (ok b, t))
continue-eq-ok (ok a, s) next h = (a, s, refl, h)
continue-eq-ok (err x, s) next h = cc
