-- ===== src/Aio/Retry/Waits.antt =====
-- The waits of the loops of iams/aio that try again
use industrial_ams.Base.{ℕ, zero, suc, ◌+◌, ◌*◌, List, [], ◌∷◌, ◌++◌, ◌≡◌, refl, arith, length}
use industrial_ams.Aio.Retry.{
  capped, Reply, gives, again, escapes, Progress, waiting, raised, returned, settle, retry,
}

-- The first waits: each is longer than the one before by the same time, up to the most.
unfoldable pub waits : ℕ → ℕ → ℕ → ℕ → List ℕ
waits most by k zero = []
waits most by k (suc n) = capped most (by * (k + 1)) ∷ waits most by (k + 1) n

pub longer_capped :
    (most by k : ℕ) → capped most (capped most (by * k) + by) ≡ capped most (by * (k + 1))
longer_capped most by k = ground arith

-- After an attempt that is not refused
abbrev pub settled : {A : Type 0} → Reply A → Progress A
settled (gives a) = returned a
settled escapes = raised
settled again = waiting

abbrev pub IsFinal : {A : Type 0} → Reply A → Type 0
IsFinal (gives a) = Unit
IsFinal escapes = Unit
IsFinal again = ⊥

-- All attempts are refused.
unfoldable pub IsRefused : {X A : Type 0} → (X → Reply A) → List X → Type 0
IsRefused reply [] = Unit
IsRefused reply (x ∷ xs) = (reply x ≡ again) × IsRefused reply xs

settle_final :
    {A : Type 0} (reply : Reply A) (wait : ℕ) (rest : List ℕ × Progress A)
    → IsFinal reply
    → settle reply wait rest ≡ ([], settled reply)
settle_final (gives a) wait rest h = refl
settle_final escapes wait rest h = refl
settle_final again wait rest h = absurd h

module _ {X A : Type 0} (reply : X → Reply A) where
  retry_from :
      (k : ℕ) (refused rest : List X) (x : X)
      → IsRefused reply refused
      → IsFinal (reply x)
      → retry reply (capped 60 (1 * k)) (refused ++ (x ∷ rest))
        ≡ (waits 60 1 k (length refused), settled (reply x))
  unfolding retry waits IsRefused
  retry_from k [] rest x h final = settle_final (reply x) (capped 60 (1 * k)) _ final
  retry_from k (y ∷ refused) rest x h final =
      let step = longer_capped 60 1 k in
      let later = retry_from (k + 1) refused rest x h.1 final in rw (h.0, step, later) refl

  -- Attempts that are all refused: the loop sleeps after each of them, and waits still.
  retry_refused_from :
      (k : ℕ) (refused : List X)
      → IsRefused reply refused
      → retry reply (capped 60 (1 * k)) refused ≡ (waits 60 1 k (length refused), waiting)
  unfolding retry waits IsRefused
  retry_refused_from k [] h = refl
  retry_refused_from k (y ∷ refused) h =
      let step = longer_capped 60 1 k in
      let later = retry_refused_from (k + 1) refused h.1 in rw (h.0, step, later) refl

  -- After n refused attempts the loop has slept min(60, 1), …, min(60, n) seconds, and the first attempt
  -- that is not refused decides; what would come later does not matter.
  pub retry-settled :
      (refused rest : List X) (x : X)
      → IsRefused reply refused
      → IsFinal (reply x)
      → retry reply 0 (refused ++ (x ∷ rest)) ≡ (waits 60 1 0 (length refused), settled (reply x))
  retry-settled refused rest x h final = retry_from 0 refused rest x h final

  pub retry-waiting :
      (refused : List X)
      → IsRefused reply refused
      → retry reply 0 refused ≡ (waits 60 1 0 (length refused), waiting)
  retry-waiting refused h = retry_refused_from 0 refused h
