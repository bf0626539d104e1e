-- ===== src/Http/Resolver/Tests.antt =====
-- `resolveRoute` at small inputs.
use mathlib.Core.List.{Memᴰ}
use strav_1_x.Common.{
  String, true, false, ◌≡◌, refl, none, some, List, [], ◌∷◌, ok, throws, Result, join,
}
use strav_1_x.Common.Dict
use strav_1_x.Common.Dict.{lookup}
use strav_1_x.Http.Paths.{split, split_path, expand_optional_params, expand}
use strav_1_x.Http.Trie.{insert, insert_at}
use strav_1_x.Http.Trie.Bindings.{binds}
use strav_1_x.Http.Router.{Router, new_router, add, set_name, extract_param_names}
use strav_1_x.Http.Router.Compile.{compile, compile_all, named}
use strav_1_x.Http.Resolver.{
  ResolveFault, ResolveOptions, Params, resolve_segments, resolve_route, unknown_name,
  missing_param, missing_wildcard, no_host,
}
use strav_1_x.Http.Resolver.Binding.{bound, resolve_segments-taken}

abbrev router : Router String
router =
    set_name 1 "file"
      (add "GET" "/files/*path" "file"
        (set_name 0 "user" (add "GET" "/users/:id/:tab?" "user" new_router).1)).1

abbrev relative : ResolveOptions
relative = record { abs = false; host = none; protocol = none }

abbrev url : String → Params → ResolveOptions → Result ResolveFault String
url name params options = (resolve_route (λ s. s) name params options router).0

opened : Unit {0}
unfolding split split_path expand_optional_params insert insert_at lookup Dict.insert join add
    compile compile_all named extract_param_names resolve_segments resolve_route
opened = tt

with_query :
    url "user" (("id", some "7") ∷ ("page", some "2") ∷ ("x", none) ∷ []) relative
    ≡ ok "/users/7?page=2"
unfolding opened
with_query = refl

with_tab : url "user" (("tab", some "posts") ∷ ("id", some "7") ∷ []) relative ≡ ok "/users/7/posts"
unfolding opened
with_tab = refl

without_id : url "user" (("id", some "") ∷ []) relative ≡ throws (missing_param "user" "id")
unfolding opened
without_id = refl

rest_of_path : url "file" (("path", some "a/b") ∷ []) relative ≡ ok "/files/a/b"
unfolding opened
rest_of_path = refl

without_path : url "file" [] relative ≡ throws (missing_wildcard "file" "path")
unfolding opened
without_path = refl

no_route : url "users" [] relative ≡ throws (unknown_name "users")
unfolding opened
no_route = refl

absolute_url :
    url "user" (("id", some "7") ∷ []) (record { abs = true; host = some "a.io"; protocol = none })
    ≡ ok "https://a.io/users/7"
unfolding opened
absolute_url = refl

without_host :
    url "user" (("id", some "7") ∷ []) (record { abs = true; host = some ""; protocol = none })
    ≡ throws (no_host "user")
unfolding opened
without_host = refl

abbrev user_params : Params
user_params = ("id", some "7") ∷ []

resolve_segments-taken_example :
    (p : List String) × Memᴰ p (expand ("users" ∷ ":id" ∷ ":tab?" ∷ []) ([] ∷ []))
    × (binds (λ s. s) p ("users" ∷ "7" ∷ []) []
        ≡ some (bound user_params ("users" ∷ ":id" ∷ ":tab?" ∷ []) []))
unfolding opened
resolve_segments-taken_example =
    resolve_segments-taken (λ s. s) (λ s. s) (λ v. refl) (λ v e. e) "user" user_params
      ("users" ∷ ":id" ∷ ":tab?" ∷ []) ("users" ∷ "7" ∷ []) refl refl
