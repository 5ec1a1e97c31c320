-- ===== src/Aio/Channels/Users.antt =====
-- The users of the channels of iams/aio/grpc.py: how they come and go, in any order, and what the pool
-- then counts.
use industrial_ams.Base.{
  ◌⊎◌, ℕ, zero, suc, ◌⊎◌, ◌+◌, ◌-◌, ◌≤◌, ◌≡◌, refl, sym, ap, ◌∙◌, subst, inl, inr, String, true,
  false, some, is_some, ◌==◌, if◌then◌else◌, arith,
}
use industrial_ams.Base.Int.{pos, ◌+ℤ◌, ◌-ℤ◌, int_laws}
use industrial_ams.Py.Dict.{lookup}
use industrial_ams.Aio.Channels.{Pool}

abbrev pub bump : ℕ → (ℕ → ℕ) → ℕ → ℕ
bump o f n = if n == o then f n + 1 else f n

abbrev pub drop : ℕ → (ℕ → ℕ) → ℕ → ℕ
drop o f n = if n == o then f n - 1 else f n

-- The pool, how many users are inside the body for each object, and how many have left it by an
-- exception
pub record System (V : Type 0) : Type 0 where
  pub pool : Pool V
  pub inside : ℕ → ℕ
  pub lost : ℕ → ℕ

abbrev pub uses : {V : Type 0} → System V → ℕ → ℕ
uses s o = s.inside o + s.lost o

-- A channel that is in the dict
pub record IsListed {V : Type 0} (s : System V) (k : String) (o : ℕ) : Type 0 where
  pub key : (s.pool.object o).key ≡ k
  pub made : suc o ≤ s.pool.objects
  pub connections : (s.pool.object o).connections ≡ pos (uses s o)
  pub open_instance : is_some (s.pool.object o).instance' ≡ true
  pub in_use : (s.pool.object o).persistent ≡ false → 1 ≤ uses s o

-- The dict holds every channel that is used, and every one that it holds is used or persistent, has a
-- gRPC channel, and counts its users.
pub record IsCounted {V : Type 0} (s : System V) : Type 0 where
  pub listed : (k : String) (o : ℕ) → lookup k s.pool.channels ≡ some o → IsListed s k o
  pub used : (o : ℕ) → 1 ≤ uses s o → lookup (s.pool.object o).key s.pool.channels ≡ some o

pub pos_suc : (n : ℕ) → pos n +ℤ pos 1 ≡ pos (n + 1)
pos_suc n = omega int_laws

pub pos_pred : (n : ℕ) → 1 ≤ n → pos n -ℤ pos 1 ≡ pos (n - 1)
pos_pred n h = omega int_laws

pub join-uses :
    (inside lost : ℕ → ℕ) (o n : ℕ)
    → (n == o) ≡ false
    → bump o inside n + lost n ≡ inside n + lost n
join-uses inside lost o n e = rw e refl

pub join_this : (inside lost : ℕ → ℕ) (o : ℕ) → bump o inside o + lost o ≡ inside o + lost o + 1
join_this inside lost o = ground arith

pub drop-uses :
    (inside lost : ℕ → ℕ) (o n : ℕ)
    → (n == o) ≡ false
    → drop o inside n + lost n ≡ inside n + lost n
drop-uses inside lost o n e = rw e refl

pub drop_this :
    (inside lost : ℕ → ℕ) (o : ℕ) → 1 ≤ inside o → drop o inside o + lost o ≡ inside o + lost o - 1
drop_this inside lost o h = ground arith

pub zero_or_more : (n : ℕ) → (n ≡ 0) ⊎ (1 ≤ n)
zero_or_more zero = inl refl
zero_or_more (suc n) = inr (omega arith)

pub less-differs : (n m : ℕ) → suc n ≤ m → (n == m) ≡ false
less-differs n m h = ground arith

module _ {V : Type 0} where
  -- An object that a step leaves as it is, with the users that it has
  pub kept-IsListed :
      (s s' : System V) (k : String) (o : ℕ)
      → s'.pool.object o ≡ s.pool.object o
      → uses s' o ≡ uses s o
      → s.pool.objects ≤ s'.pool.objects
      → IsListed s k o
      → IsListed s' k o
  kept-IsListed s s' k o same users more h = record {
    key = ap (λ c. c.key) same ∙ h.key;
    made = omega (arith, h.made, more);
    connections = ap (λ c. c.connections) same ∙ (h.connections ∙ ap pos (sym users));
    open_instance = ap (λ c. is_some c.instance') same ∙ h.open_instance;
    in_use = λ e. subst (λ n. 1 ≤ n) (sym users) (h.in_use (sym (ap (λ c. c.persistent) same) ∙ e));
  }
