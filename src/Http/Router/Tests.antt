-- ===== src/Http/Router/Tests.antt =====
-- The router at small inputs.
use strav_1_x.Common.{String, ◌≡◌, refl, some, [], ◌∷◌, ok, throws, Result, join}
use strav_1_x.Common.Dict
use strav_1_x.Common.Dict.{Dict, lookup}
use strav_1_x.Http.Paths.{split, split_path, expand_optional_params}
use strav_1_x.Http.Trie.{
  CompiledRoute, TrieNode, fresh_node, insert, insert_at, walk, match_path, found,
}
use strav_1_x.Http.Trie.Table.{insert_all}
use strav_1_x.Http.Router.{
  Router, RouterFault, new_router, add, group, set_name, add_middleware, extract_param_names,
  duplicate_name, add_after_compile, one_name, join_prefix,
}
use strav_1_x.Http.Router.Compile.{compile, compile_all, list, list_routes, match_route, named}
use strav_1_x.Http.Router.Names.{find_named, compile-list}

opened : Unit {0}
unfolding split split_path expand_optional_params insert insert_at walk match_path lookup
    Dict.insert join add group compile compile_all list match_route named extract_param_names
opened = tt

-- A group of users, with a named route.
abbrev declared : Router String
declared =
    (group (record { prefix = some "/api/"; middleware = one_name "auth"; name = some "api." })
      (λ r. (
        ok tt,
        set_name 0 "user" (add_middleware 0 ("log" ∷ []) (add "GET" "users/:id?" "show" r).1),
      ))
      new_router).1

abbrev shown : CompiledRoute String
shown = record {
  method = "GET";
  pattern = "/api/users/:id?";
  param_names = "id" ∷ [];
  handler = "show";
  middleware = "auth" ∷ "log" ∷ [];
  name = some "api.user";
}

listed : (list declared).0 ≡ ok (shown ∷ [])
unfolding opened
listed = refl

matched :
    (match_route (λ s. ok s) "GET" "/api/users/7" declared).0 ≡ ok (found shown (("id", "7") ∷ []))
unfolding opened
matched = refl

by_name : (named "api.user" declared).0 ≡ ok (some shown)
unfolding opened
by_name = refl

same_name :
    (compile {H = String} (
      set_name 1 "user"
        (set_name 0 "user" (add "GET" "/b" "b" (add "GET" "/a" "a" new_router).1).1))).0
    ≡ throws (duplicate_name "user")
unfolding opened
same_name = refl

too_late :
    (add "GET" "/b" "b" (compile (new_router {H = String})).1).0
    ≡ throws (add_after_compile "GET" "/b")
unfolding opened
too_late = refl

slashes : join_prefix "/api//" "//users" ≡ "/api/users"
slashes = refl

abbrev trie_of :
    Result RouterFault (TrieNode String × Dict (CompiledRoute String)) → TrieNode String
trie_of (ok (trie, index)) = trie
trie_of (throws e) = fresh_node

compile-list_example :
    (insert_all (list_routes declared) fresh_node ≡ ok (trie_of (compile declared).0))
    × ((name : String)
        → lookup name (("api.user", shown) ∷ []) ≡ find_named name (list_routes declared))
unfolding opened
compile-list_example =
    compile-list declared (compile declared).1 (trie_of (compile declared).0)
      (("api.user", shown) ∷ []) refl refl
