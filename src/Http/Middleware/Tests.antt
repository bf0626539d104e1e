-- ===== src/Http/Middleware/Tests.antt =====
-- Chains that write down what runs.
use strav_1_x.Common.{String, true, false, ◌≡◌, refl, List, [], ◌∷◌, ◌++◌, Result, ok, throws}
use strav_1_x.Http.Middleware.{
  Plan, MiddlewareDef, answers, calls, function, class, follow, to_fn, dispatch, compose_middleware,
}
use strav_1_x.Http.Middleware.Terminating.{times, compose_middleware-terminating}

opened : Unit {0}
unfolding follow to_fn dispatch compose_middleware
opened = tt

-- Writes before and after the rest.
abbrev around : String → List String → Plan String String (List String)
around name w = calls (w ++ name ∷ []) (λ r w'. answers r (w' ++ name ∷ []))

-- Calls `next` again when it threw.
abbrev again : List String → Plan String String (List String)
again w =
    calls w
      (λ r w'. elim r [ ok a ↦ answers (ok a) w' | throws e ↦ calls w' (λ r w''. answers r w'') ])

abbrev made : List String → Result String (Unit {0}) × List String
made w = (ok tt, w ++ "made" ∷ [])

abbrev page : List String → Result String String × List String
page w = (ok "page", w ++ "page" ∷ [])

abbrev broken : List String → Result String String × List String
broken w = (throws "down", w)

abbrev defs : List (MiddlewareDef String String (List String))
defs = function again ∷ class made (around "auth") true ∷ class made (around "log") false ∷ []

onion :
    (compose_middleware (function (around "a") ∷ function (around "b") ∷ []) page []).1.world
    ≡ "a" ∷ "b" ∷ "page" ∷ "b" ∷ "a" ∷ []
unfolding opened
onion = refl

-- An answer without `next`: the rest does not run, and its classes are not made.
stopped :
    (compose_middleware
      (function (λ w. answers (ok "stop") w) ∷ class made (around "auth") true ∷ [])
      page
      []).1.terminating
    ≡ []
unfolding opened
stopped = refl

-- A second call of `next` takes the instance that was made.
made_once : (compose_middleware defs broken []).1.terminating ≡ 1 ∷ []
unfolding opened
made_once = refl

compose_middleware-terminating_example :
    times 1 (compose_middleware defs broken []).1.terminating ≡ 1
unfolding opened
compose_middleware-terminating_example = compose_middleware-terminating defs broken [] 1
