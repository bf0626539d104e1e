-- ===== src/Http/Router.antt =====
-- `Router` of packages/http/src/router/router.ts and `Route` of route.ts: routes are declared, in groups
-- that nest (what is compiled of them is in Router/Compile). A route that was declared is known by its
-- place. A callback is a function on the router that may throw.
pub mod Compile
pub mod Names
pub mod Tests
use strav_1_x.Common.{
  ℕ, zero, suc, String, Bool, true, false, Option, none, some, List, [], ◌∷◌, ◌++◌, length, Result,
  ok, throws, if◌then◌else◌, ◌+++◌,
}
use strav_1_x.Common.Dict.{Dict}
use strav_1_x.Http.Paths.{
  is_empty, starts_with, ends_with, rest_of, front_of, trim_start, trim_end, split,
}
use strav_1_x.Http.Trie.{CompiledRoute, RouteFault, TrieNode}

pub record Route (H : Type 0) : Type 0 where
  pub method : String
  pub pattern : String
  pub handler : H
  pub route_name : Option String
  pub middleware : List String

pub record GroupState : Type 0 where
  pub prefix : String
  pub middleware : List String
  pub name : String

abbrev pub empty_group : GroupState
empty_group = record { prefix = ""; middleware = []; name = "" }

-- `middleware?: string | readonly string[]`
pub data MiddlewareNames : Type 0 where
  no_names : MiddlewareNames
  one_name : String → MiddlewareNames
  names : List String → MiddlewareNames

pub record RouteGroupOptions : Type 0 where
  pub prefix : Option String
  pub middleware : MiddlewareNames
  pub name : Option String

pub data RouterFault : Type 0 where
  conflict : RouteFault → RouterFault
  group_after_compile : RouterFault
  add_after_compile : String → String → RouterFault
  duplicate_name : String → RouterFault

pub record Router (H : Type 0) : Type 0 where
  pub routes : List (Route H × GroupState)
  pub compiled : Option (TrieNode H × Dict (CompiledRoute H))
  pub group_stack : List GroupState

abbrev pub normalize_middleware : MiddlewareNames → List String
normalize_middleware no_names = []
normalize_middleware (one_name s) = if is_empty s then [] else s ∷ []
normalize_middleware (names ss) = ss

abbrev pub normalize_pattern : String → String
normalize_pattern pattern =
    if is_empty pattern then "/" else if starts_with b'/' pattern then pattern else "/" +++ pattern

abbrev pub join_prefix : String → String → String
join_prefix prefix suffix =
    let a = trim_end prefix in
    let b = "/" +++ trim_start (normalize_pattern suffix) in if is_empty a then b else a +++ b

abbrev pub param_name : String → String
param_name seg = if ends_with b'?' seg then front_of (rest_of seg) else rest_of seg

abbrev names_in : List String → List String
names_in [] = []
names_in (seg ∷ segs) =
    let more = names_in segs in
    if starts_with b':' seg
    then (if is_empty (param_name seg) then more else param_name seg ∷ more)
    else if starts_with b'*' seg
    then rest_of seg ∷ more
    else more

unfoldable pub extract_param_names : String → List String
extract_param_names pattern = names_in (split pattern)

abbrev or_empty : Option String → String
or_empty none = ""
or_empty (some s) = s

-- An empty name is none.
abbrev pub full_name : String → Option String → Option String
full_name group none = none
full_name group (some s) = if is_empty s then none else some (group +++ s)

abbrev pub nested : GroupState → RouteGroupOptions → GroupState
nested parent options = record {
  prefix = join_prefix parent.prefix (or_empty options.prefix);
  middleware = parent.middleware ++ normalize_middleware options.middleware;
  name = parent.name +++ or_empty options.name;
}

module _ {H : Type 0} where
  abbrev pub new_router : Router H
  new_router = record { routes = []; compiled = none; group_stack = empty_group ∷ [] }

  -- The stack's top is its first element here.
  abbrev pub current_group : Router H → GroupState
  current_group r = elim r.group_stack [ [] ↦ empty_group | g ∷ gs ↦ g ]

  -- `get`, `post`, … for their methods; the place of the route is answered.
  unfoldable pub add : String → String → H → Router H → Result RouterFault ℕ × Router H
  add method pattern handler r = elim r.compiled [
    | some c ↦ (throws (add_after_compile method pattern), r)
    | none ↦ (
      ok (length r.routes),
      record r {
        routes =
            r.routes
            ++ (
              record {
                method = method;
                pattern = normalize_pattern pattern;
                handler = handler;
                route_name = none;
                middleware = [];
              },
              current_group r,
            )
              ∷ [];
      },
    )
  ]

  -- `any`: the same handler for each method; a router that is compiled throws at the first.
  abbrev add_each : List String → String → H → Router H → Result RouterFault (List ℕ) × Router H
  add_each [] pattern handler r = (ok [], r)
  add_each (m ∷ ms) pattern handler r = elim (add m pattern handler r).0 [
    | throws e ↦ (throws e, (add m pattern handler r).1)
    | ok i ↦
        let (rest, r') = add_each ms pattern handler (add m pattern handler r).1 in
        elim rest [ ok is ↦ (ok (i ∷ is), r') | throws e ↦ (throws e, r') ]
  ]

  abbrev pub add_any : String → H → Router H → Result RouterFault (List ℕ) × Router H
  add_any pattern handler r =
      add_each ("GET" ∷ "POST" ∷ "PUT" ∷ "PATCH" ∷ "DELETE" ∷ "OPTIONS" ∷ "HEAD" ∷ []) pattern
        handler r

  abbrev pub change_at :
      ℕ → (Route H → Route H) → List (Route H × GroupState) → List (Route H × GroupState)
  change_at i f [] = []
  change_at zero f ((route, g) ∷ rs) = (f route, g) ∷ rs
  change_at (suc i) f (r ∷ rs) = r ∷ change_at i f rs

  -- `route.name(value)` and `route.middleware(...names)`
  abbrev pub set_name : ℕ → String → Router H → Router H
  set_name i value r = record r {
    routes = change_at i (λ route. record route { route_name = some value }) r.routes;
  }

  abbrev pub add_middleware : ℕ → List String → Router H → Router H
  add_middleware i more r = record r {
    routes = change_at i (λ route. record route { middleware = route.middleware ++ more }) r.routes;
  }

  abbrev pub pop_group : Router H → Router H
  pop_group r = record r { group_stack = elim r.group_stack [ [] ↦ [] | g ∷ gs ↦ gs ] }

  abbrev popped :
      Result RouterFault (Unit {0}) × Router H → Result RouterFault (Unit {0}) × Router H
  popped (o, r) = (o, pop_group r)

  -- The group is left also when the callback throws.
  unfoldable pub group :
      RouteGroupOptions
      → (Router H → Result RouterFault (Unit {0}) × Router H)
      → Router H
      → Result RouterFault (Unit {0}) × Router H
  group options callback r = elim r.compiled [
    | some c ↦ (throws group_after_compile, r)
    | none ↦
        popped
          (callback (record r { group_stack = nested (current_group r) options ∷ r.group_stack }))
  ]
