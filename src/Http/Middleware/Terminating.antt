-- ===== src/Http/Middleware/Terminating.antt =====
-- About the instances that a chain of packages/http/src/middleware/compose.ts keeps to terminate.
use strav_1_x.Common.{
  ◌+◌, ℕ, zero, suc, Bool, false, ◌&&◌, ◌≡◌, refl, ap, ◌∙◌, List, [], ◌∷◌, ◌++◌, Result, ok, throws,
  ◌==◌, if◌then◌else◌, arith, Bool-cases, inl, inr,
}
use strav_1_x.Http.Middleware.{
  Plan, MiddlewareDef, answers, calls, function, class, Chain, Next, follow, to_fn, dispatch,
  after_make, instantiated, new_chain, compose_middleware,
}

-- How often a place is to be terminated.
abbrev pub times : ℕ → List ℕ → ℕ
times i [] = 0
times i (j ∷ js) = if j == i then suc (times i js) else times i js

times-append : (i j : ℕ) (js : List ℕ) → times i (js ++ j ∷ []) ≡ times i js + times i (j ∷ [])
times-append i j [] = omega arith
times-append i j (k ∷ js) = ground (arith, times-append i j js)

module _ {W : Type 0} (has_hook : ℕ → Bool) where
  -- The instances with a `terminate`, once each.
  abbrev pub IsRecorded : Chain W → Type 0
  IsRecorded s = (i : ℕ) → times i s.terminating ≡ (if s.made i && has_hook i then 1 else 0)

  instantiated-IsRecorded :
      (i : ℕ) (terminates : Bool) (w : W) (s : Chain W)
      → has_hook i ≡ terminates
      → s.made i ≡ false
      → IsRecorded s
      → IsRecorded (instantiated i terminates w s)
  instantiated-IsRecorded i terminates w s e new h j = elim (Bool-cases (j == i)) [
    | inl f ↦
        let same : j ≡ i = ground (arith, f) in
        rw same (ground (arith, new, h i, e, times-append i i s.terminating))
    | inr f ↦ ground (arith, f, h j, times-append j i s.terminating)
  ]

add-suc : (i j : ℕ) → suc i + j ≡ i + suc j
add-suc i j = omega arith

add-zero : (i : ℕ) → i ≡ i + 0
add-zero i = omega arith

zero-add : (i : ℕ) → 0 + i ≡ i
zero-add i = omega arith

module _ {X R W : Type 0} where
  -- Whether the middleware at a place is a class with a `terminate`.
  abbrev pub hook_at : ℕ → List (MiddlewareDef X R W) → Bool
  hook_at i [] = false
  hook_at zero (function f ∷ defs) = false
  hook_at zero (class make handle terminates ∷ defs) = terminates
  hook_at (suc i) (def ∷ defs) = hook_at i defs

  module _ (has_hook : ℕ → Bool) where
    abbrev Keeps : Next X R W → Type 0
    Keeps next = (s : Chain W) → IsRecorded has_hook s → IsRecorded has_hook (next s).1

    follow-Keeps : (p : Plan X R W) (next : Next X R W) → Keeps next → Keeps (follow p next)
    unfolding follow
    follow-Keeps (answers r w) next h s k = k
    follow-Keeps (calls w p) next h s k =
        follow-Keeps (p (next (record s { world = w })).0 (next (record s { world = w })).1.world)
          next h (next (record s { world = w })).1 (h (record s { world = w }) k)

    after_make-Keeps :
        (i : ℕ) (handle : W → Plan X R W) (terminates : Bool) (next : Next X R W) (s : Chain W)
        (o : Result X (Unit {0}) × W)
        → has_hook i ≡ terminates
        → s.made i ≡ false
        → Keeps next
        → IsRecorded has_hook s
        → IsRecorded has_hook (after_make i handle terminates next s o).1
    after_make-Keeps i handle terminates next s (throws e, w) is new h k = k
    after_make-Keeps i handle terminates next s (ok u, w) is new h k =
        follow-Keeps (handle w) next h (instantiated i terminates w s)
          (instantiated-IsRecorded has_hook i terminates w s is new k)

    class-Keeps :
        (i : ℕ) (make : W → Result X (Unit {0}) × W) (handle : W → Plan X R W) (terminates : Bool)
        (next : Next X R W)
        → has_hook i ≡ terminates
        → Keeps next
        → Keeps (to_fn i (class make handle terminates) next)
    unfolding to_fn
    class-Keeps i make handle terminates next is h s k = elim (Bool-cases (s.made i)) [
      | inl m ↦ rw m (follow-Keeps (handle s.world) next h s k)
      | inr m ↦ rw m (after_make-Keeps i handle terminates next s (make s.world) is m h k)
    ]

    dispatch-Keeps :
        (i : ℕ) (defs : List (MiddlewareDef X R W)) (handler : W → Result X R × W)
        → ((j : ℕ) → has_hook (i + j) ≡ hook_at j defs)
        → Keeps (dispatch i defs handler)
    unfolding dispatch to_fn
    dispatch-Keeps i [] handler hooks s k = k
    dispatch-Keeps i (function f ∷ defs) handler hooks s k =
        follow-Keeps (f s.world) (dispatch (suc i) defs handler)
          (dispatch-Keeps (suc i) defs handler (λ j. ap has_hook (add-suc i j) ∙ hooks (suc j))) s k
    dispatch-Keeps i (class make handle terminates ∷ defs) handler hooks s k =
        class-Keeps i make handle terminates (dispatch (suc i) defs handler)
          (ap has_hook (add-zero i) ∙ hooks 0)
          (dispatch-Keeps (suc i) defs handler (λ j. ap has_hook (add-suc i j) ∙ hooks (suc j))) s k

  -- Whatever the middlewares and the handler do, however often they call `next`, and whether the chain
  -- answers or throws: an instance that was made of a class with a `terminate` is kept once to be
  -- terminated, and nothing else is.
  pub compose_middleware-terminating :
      (defs : List (MiddlewareDef X R W)) (handler : W → Result X R × W) (w : W) (i : ℕ)
      → times i (compose_middleware defs handler w).1.terminating
        ≡ (if (compose_middleware defs handler w).1.made i && hook_at i defs then 1 else 0)
  unfolding compose_middleware
  compose_middleware-terminating defs handler w =
      dispatch-Keeps (λ j. hook_at j defs) 0 defs handler
        (λ j. ap (λ k. hook_at k defs) (zero-add j)) (new_chain w) (λ j. refl)
