-- ===== src/Http/Trie/Tests.antt =====
-- The trie at small inputs.
use strav_1_x.Common.{
  String, true, false, ◌≡◌, refl, none, List, [], ◌∷◌, Result, ok, throws, str_eq, if◌then◌else◌,
  not, join,
}
use strav_1_x.Common.Dict
use strav_1_x.Common.Dict.{Dict, lookup}
use strav_1_x.Http.Paths.{split, split_path, expand_optional_params, is_method}
use strav_1_x.Http.Trie.{
  CompiledRoute, RouteFault, TrieNode, MatchResult, found, not_found, method_not_allowed,
  malformed_uri, duplicate_route, param_conflict, wildcard_not_last, fresh_node, insert, insert_at,
  walk, match_path,
}
use strav_1_x.Http.Trie.Bindings.{binds}
use strav_1_x.Http.Trie.Table.{insert_all}
use strav_1_x.Http.Trie.Precedence.{match_path-static}
use strav_1_x.Http.Trie.Static.{literal_is}
use strav_1_x.Http.Trie.Matching.{is_found, is_not_found, match_path-table, match_path-found}

opened : Unit {0}
unfolding split split_path expand_optional_params insert insert_at walk match_path lookup
    Dict.insert join binds literal_is
opened = tt

abbrev route : String → String → CompiledRoute String
route method pattern = record {
  method = method;
  pattern = pattern;
  param_names = [];
  handler = pattern;
  middleware = [];
  name = none;
}

abbrev decode : String → Result RouteFault String
decode s = if str_eq s "%" then throws malformed_uri else ok s

abbrev routes : List (CompiledRoute String)
routes =
    route "GET" "/users/:id?"
    ∷ route "GET" "/users/me"
    ∷ route "POST" "/users"
    ∷ route "GET" "/files/*path"
    ∷ []

abbrev or_fresh_node : Result RouteFault (TrieNode String) → TrieNode String
or_fresh_node (ok n) = n
or_fresh_node (throws e) = fresh_node

abbrev root : TrieNode String
root = or_fresh_node (insert_all routes fresh_node)

static_first : match_path decode "get" "/users/me/" root ≡ ok (found (route "GET" "/users/me") [])
unfolding opened
static_first = refl

with_param :
    match_path decode "GET" "/users/7" root
    ≡ ok (found (route "GET" "/users/:id?") (("id", "7") ∷ []))
unfolding opened
with_param = refl

without_param : match_path decode "GET" "/users" root ≡ ok (found (route "GET" "/users/:id?") [])
unfolding opened
without_param = refl

rest_of_path :
    match_path decode "GET" "/files/a/b" root
    ≡ ok (found (route "GET" "/files/*path") (("path", "a/b") ∷ []))
unfolding opened
rest_of_path = refl

wrong_method : match_path decode "PUT" "/users" root ≡ ok (method_not_allowed ("GET" ∷ "POST" ∷ []))
unfolding opened
wrong_method = refl

no_path : match_path decode "GET" "/files" root ≡ ok not_found
unfolding opened
no_path = refl

-- A segment that does not decode throws, also where a static route takes the path.
malformed : match_path decode "GET" "/users/%" root ≡ throws malformed_uri
unfolding opened
malformed = refl

twice :
    insert_all (route "GET" "/a/" ∷ route "GET" "a" ∷ []) fresh_node
    ≡ throws (duplicate_route "GET" "/a")
unfolding opened
twice = refl

two_names :
    insert_all (route "GET" "/a/:x" ∷ route "POST" "/a/:y" ∷ []) fresh_node
    ≡ throws (param_conflict "x" "y" "/a/:y")
unfolding opened
two_names = refl

wildcard_inside :
    insert_all (route "GET" "/*rest/a" ∷ []) fresh_node ≡ throws (wildcard_not_last "*rest")
unfolding opened
wildcard_inside = refl

match_path-table_example :
    (a : MatchResult String) × (match_path decode "GET" "/users/7" root ≡ ok a)
    × (is_found a ≡ true)
    × (is_not_found a ≡ false)
unfolding opened
match_path-table_example =
    match_path-table decode (λ s. s) routes root "GET" "/users/7" refl (refl, (refl, tt))

match_path-found_example :
    (is_method "GET" "GET" ≡ true) × (not (str_eq "/users/:id?" "/users/:id?") ≡ false)
unfolding opened
match_path-found_example =
    match_path-found decode (λ s. s) routes root "GET" "/users/7" (route "GET" "/users/:id?")
      (("id", "7") ∷ []) (λ f. not (str_eq f.route.handler "/users/:id?")) refl (refl, (refl, tt))
      refl refl

match_path-static_example :
    match_path decode "get" "/users/me/" root ≡ ok (found (route "GET" "/users/me") [])
unfolding opened
match_path-static_example =
    match_path-static decode (λ s. s) routes root "get" "/users/me/" 2 ("users" ∷ "me" ∷ [])
      (route "GET" "/users/me") refl (refl, (refl, tt)) refl refl refl
