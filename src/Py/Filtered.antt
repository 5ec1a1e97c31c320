-- ===== src/Py/Filtered.antt =====
-- What is left of a list in which only some items are kept, as an independent description of the loops
-- and comprehensions with an `if`
use industrial_ams.Base.{ap, ◌∙◌, sym, ◌≡◌, List, [], ◌∷◌, ◌⊎◌, inl, inr}

module _ {A : Type 0} (P : A → Type 0) where
  -- The second list has exactly the items of the first one that are kept, in order.
  abbrev pub Filtered : List A → List A → Type 0
  Filtered [] ys = ys ≡ []
  Filtered (x ∷ xs) ys =
      ((rest : List A) × P x × (ys ≡ x ∷ rest) × Filtered xs rest) ⊎ ((¬ P x) × Filtered xs ys)

  -- There is only one such list.
  pub Filtered-unique : (xs ys zs : List A) → Filtered xs ys → Filtered xs zs → ys ≡ zs
  Filtered-unique [] ys zs h k = h ∙ sym k
  Filtered-unique (x ∷ xs) ys zs (inl (rest, p, e, h)) (inl (rest', q, e', k)) =
      e ∙ (ap (λ r. x ∷ r) (Filtered-unique xs rest rest' h k) ∙ sym e')
  Filtered-unique (x ∷ xs) ys zs (inl (rest, p, e, h)) (inr (never, k)) = absurd (never p)
  Filtered-unique (x ∷ xs) ys zs (inr (never, h)) (inl (rest, p, e, k)) = absurd (never p)
  Filtered-unique (x ∷ xs) ys zs (inr (never, h)) (inr (_, k)) = Filtered-unique xs ys zs h k
