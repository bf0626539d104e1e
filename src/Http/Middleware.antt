-- ===== src/Http/Middleware.antt =====
-- `composeMiddleware` of packages/http/src/middleware/compose.ts. What a middleware does with `next` is a
-- plan: it may call `next` any number of times, look at what that answered, and answer or throw. `X` are
-- the errors, `R` the responses and `W` is what the middlewares and the handler change.
pub mod Terminating
pub mod Tests
use strav_1_x.Common.{
  ℕ, suc, Bool, true, false, List, [], ◌∷◌, ◌++◌, Result, ok, throws, ◌==◌, if◌then◌else◌,
}

module _ (X R W : Type 0) where
  abbrev pub Outcome : Type 0
  Outcome = Result X R

  -- A middleware that answers, or that calls `next` and goes on with its outcome.
  pub data Plan : Type 0 where
    answers : Outcome → W → Plan
    calls : W → (Outcome → W → Plan) → Plan

  -- `MiddlewareFn`, and a class: how the scope makes an instance, `handle`, and whether it has a
  -- `terminate`.
  pub data MiddlewareDef : Type 0 where
    function : (W → Plan) → MiddlewareDef
    class : (W → Result X (Unit {0}) × W) → (W → Plan) → Bool → MiddlewareDef

-- What the chain keeps: which of its middlewares has an instance, by their places, and the instances to
-- terminate.
pub record Chain (W : Type 0) : Type 0 where
  pub made : ℕ → Bool
  pub terminating : List ℕ
  pub world : W

abbrev pub Next : Type 0 → Type 0 → Type 0 → Type 0
Next X R W = Chain W → Result X R × Chain W

abbrev pub set_made : ℕ → (ℕ → Bool) → ℕ → Bool
set_made i made j = if j == i then true else made j

abbrev pub instantiated : {W : Type 0} → ℕ → Bool → W → Chain W → Chain W
instantiated i terminates w s = record {
  made = set_made i s.made;
  terminating = if terminates then s.terminating ++ i ∷ [] else s.terminating;
  world = w;
}

abbrev pub new_chain : {W : Type 0} → W → Chain W
new_chain w = record { made = λ i. false; terminating = []; world = w }

module _ {X R W : Type 0} where
  unfoldable pub follow : Plan X R W → Next X R W → Chain W → Result X R × Chain W
  follow (answers r w) next s = (r, record s { world = w })
  follow (calls w k) next s =
      let (r, s') = next (record s { world = w }) in follow (k r s'.world) next s'

  abbrev pub after_make :
      ℕ
      → (W → Plan X R W)
      → Bool
      → Next X R W
      → Chain W
      → Result X (Unit {0}) × W
      → Result X R × Chain W
  after_make i handle terminates next s (throws e, w) = (throws e, record s { world = w })
  after_make i handle terminates next s (ok u, w) =
      follow (handle w) next (instantiated i terminates w s)

  -- `toFn`: the instance is made at the first call.
  unfoldable pub to_fn : ℕ → MiddlewareDef X R W → Next X R W → Next X R W
  to_fn i (function f) next s = follow (f s.world) next s
  to_fn i (class make handle terminates) next s =
      if s.made i
      then follow (handle s.world) next s
      else after_make i handle terminates next s (make s.world)

  abbrev pub finish : (W → Result X R × W) → Next X R W
  finish handler s = ((handler s.world).0, record s { world = (handler s.world).1 })

  -- `dispatch(i, ctx)`
  unfoldable pub dispatch : ℕ → List (MiddlewareDef X R W) → (W → Result X R × W) → Next X R W
  dispatch i [] handler s = finish handler s
  dispatch i (def ∷ defs) handler s = to_fn i def (dispatch (suc i) defs handler) s

  -- `invoke` on a new chain, and what is to be terminated then.
  unfoldable pub compose_middleware :
      List (MiddlewareDef X R W) → (W → Result X R × W) → W → Result X R × Chain W
  compose_middleware defs handler w = dispatch 0 defs handler (new_chain w)
