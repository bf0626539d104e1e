-- ===== src/Durable/Returns.antt =====
-- What a statement's result satisfies when it does not throw, with a rule for each way to go on.
use strav_1_x.Common.{Result, ok, throws, ◌≡◌, sym}
use mathlib.Core.Path.{subst}
use strav_1_x.Durable.Engine.{Engine, Fault, Statement, ◌>>=◌, continue_with, transaction, commit}

-- A result that throws satisfies every postcondition: its transaction is rolled back.
unfoldable pub Returns :
    {W A : Type 0} → (A → Engine W → Type 0) → Result Fault A × Engine W → Type 0
Returns P (ok a, s) = P a s
Returns P (throws e, s) = Unit

module _ {W A : Type 0} (P : A → Engine W → Type 0) where
  pub Returns-ok : {a : A} {s : Engine W} → P a s → Returns P (ok a, s)
  unfolding Returns
  Returns-ok h = h

  pub Returns-throws : (e : Fault) (s : Engine W) → Returns P (throws e, s)
  unfolding Returns
  Returns-throws e s = tt

  pub Returns-eq : {r r' : Result Fault A × Engine W} → r ≡ r' → Returns P r' → Returns P r
  Returns-eq e h = subst (Returns P) (sym e) h

  -- What a transaction returns, its body returns.
  pub transaction-Returns :
      (body : Statement W A) (s : Engine W) → Returns P (body s) → Returns P (transaction body s)
  unfolding transaction Returns
  transaction-Returns body s = go (body s)
    where
      go : (r : Result Fault A × Engine W) → Returns P r → Returns P (commit s r)
      go (ok a, s') h = h
      go (throws e, s') h = tt

module _ {W A B : Type 0} (P : B → Engine W → Type 0) (m : Statement W A) (f : A → Statement W B)
    (s : Engine W) where
  pub bind_ok :
      {a : A} {s' : Engine W} → m s ≡ (ok a, s') → Returns P (f a s') → Returns P (◌>>=◌ m f s)
  unfolding ◌>>=◌
  bind_ok e h = subst (λ r. Returns P (continue_with f r)) (sym e) h

  pub bind_throws : {x : Fault} {s' : Engine W} → m s ≡ (throws x, s') → Returns P (◌>>=◌ m f s)
  unfolding ◌>>=◌ Returns
  bind_throws e = subst (λ r. Returns P (continue_with f r)) (sym e) tt

  pub bind_Returns :
      (Q : A → Engine W → Type 0)
      → Returns Q (m s)
      → ((a : A) (s' : Engine W) → Q a s' → Returns P (f a s'))
      → Returns P (◌>>=◌ m f s)
  unfolding ◌>>=◌ Returns
  bind_Returns Q = go (m s)
    where
      go :
          (r : Result Fault A × Engine W)
          → Returns Q r
          → ((a : A) (s' : Engine W) → Q a s' → Returns P (f a s'))
          → Returns P (continue_with f r)
      go (ok a, s') h k = k a s' h
      go (throws e, s') h k = tt
