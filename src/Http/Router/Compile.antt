-- ===== src/Http/Router/Compile.antt =====
-- `compile`, `list`, `match` and `named` of packages/http/src/router/router.ts: the declared routes become
-- a trie and an index of names, once.
use strav_1_x.Common.{String, Option, none, some, List, [], ◌∷◌, ◌++◌, map, Result, ok, throws}
use strav_1_x.Common.Dict
use strav_1_x.Common.Dict.{Dict, lookup}
use strav_1_x.Http.Trie.{
  CompiledRoute, RouteFault, TrieNode, MatchResult, fresh_node, insert, match_path,
}
use strav_1_x.Http.Router.{
  Route, GroupState, RouterFault, Router, conflict, duplicate_name, join_prefix,
  extract_param_names, full_name,
}

module _ {H : Type 0} where
  abbrev pub compile_route : Route H × GroupState → CompiledRoute H
  compile_route (route, g) = record {
    method = route.method;
    pattern = join_prefix g.prefix route.pattern;
    param_names = extract_param_names (join_prefix g.prefix route.pattern);
    handler = route.handler;
    middleware = g.middleware ++ route.middleware;
    name = full_name g.name route.route_name;
  }

  abbrev pub index_name :
      Option String
      → CompiledRoute H
      → Dict (CompiledRoute H)
      → Result RouterFault (Dict (CompiledRoute H))
  index_name none c index = ok index
  index_name (some name) c index = elim (lookup name index) [
    | some old ↦ throws (duplicate_name name)
    | none ↦ ok (Dict.insert name c index)
  ]

  abbrev pub insert_route :
      Result RouteFault (TrieNode H)
      → (TrieNode H → Result RouterFault (TrieNode H × Dict (CompiledRoute H)))
      → Result RouterFault (TrieNode H × Dict (CompiledRoute H))
  insert_route (throws e) k = throws (conflict e)
  insert_route (ok trie) k = k trie

  abbrev pub with_index :
      Result RouterFault (Dict (CompiledRoute H))
      → (Dict (CompiledRoute H) → Result RouterFault (TrieNode H × Dict (CompiledRoute H)))
      → Result RouterFault (TrieNode H × Dict (CompiledRoute H))
  with_index (throws e) k = throws e
  with_index (ok index) k = k index

  -- The loop of `compile`.
  unfoldable pub compile_all :
      List (CompiledRoute H)
      → TrieNode H
      → Dict (CompiledRoute H)
      → Result RouterFault (TrieNode H × Dict (CompiledRoute H))
  compile_all [] trie index = ok (trie, index)
  compile_all (c ∷ cs) trie index =
      insert_route (insert c trie)
        (λ trie'. with_index (index_name c.name c index) (λ index'. compile_all cs trie' index'))

  -- The copy of the mapping in `list`.
  abbrev pub listed_route : Route H × GroupState → CompiledRoute H
  listed_route (route, g) = record {
    method = route.method;
    pattern = join_prefix g.prefix route.pattern;
    param_names = extract_param_names (join_prefix g.prefix route.pattern);
    handler = route.handler;
    middleware = g.middleware ++ route.middleware;
    name = full_name g.name route.route_name;
  }

  abbrev pub list_routes : Router H → List (CompiledRoute H)
  list_routes r = map listed_route r.routes

  abbrev keep_compiled :
      Router H
      → Result RouterFault (TrieNode H × Dict (CompiledRoute H))
      → Result RouterFault (TrieNode H × Dict (CompiledRoute H)) × Router H
  keep_compiled r (throws e) = (throws e, r)
  keep_compiled r (ok c) = (ok c, record r { compiled = some c })

  -- The trie and the index are answered too.
  unfoldable pub compile :
      Router H → Result RouterFault (TrieNode H × Dict (CompiledRoute H)) × Router H
  compile r = elim r.compiled [
    | some c ↦ (ok c, r)
    | none ↦ keep_compiled r (compile_all (map compile_route r.routes) fresh_node [])
  ]

  abbrev listed :
      Result RouterFault (TrieNode H × Dict (CompiledRoute H)) × Router H
      → Result RouterFault (List (CompiledRoute H)) × Router H
  listed (throws e, r) = (throws e, r)
  listed (ok c, r) = (ok (list_routes r), r)

  unfoldable pub list : Router H → Result RouterFault (List (CompiledRoute H)) × Router H
  list r = listed (compile r)

  abbrev matched : Result RouteFault (MatchResult H) → Result RouterFault (MatchResult H)
  matched (throws e) = throws (conflict e)
  matched (ok m) = ok m

  abbrev match_in :
      (String → Result RouteFault String)
      → String
      → String
      → Result RouterFault (TrieNode H × Dict (CompiledRoute H)) × Router H
      → Result RouterFault (MatchResult H) × Router H
  match_in decode method path (throws e, r) = (throws e, r)
  match_in decode method path (ok (trie, index), r) =
      (matched (match_path decode method path trie), r)

  unfoldable pub match_route :
      (String → Result RouteFault String)
      → String
      → String
      → Router H
      → Result RouterFault (MatchResult H) × Router H
  match_route decode method path r = match_in decode method path (compile r)

  abbrev named_in :
      String
      → Result RouterFault (TrieNode H × Dict (CompiledRoute H)) × Router H
      → Result RouterFault (Option (CompiledRoute H)) × Router H
  named_in name (throws e, r) = (throws e, r)
  named_in name (ok (trie, index), r) = (ok (lookup name index), r)

  unfoldable pub named :
      String → Router H → Result RouterFault (Option (CompiledRoute H)) × Router H
  named name r = named_in name (compile r)
