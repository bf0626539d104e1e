-- ===== src/Http/Trie/Table.antt =====
-- About a trie of packages/http/src/router/trie.ts that was built from a list of routes: the
-- candidates of its walks.
use strav_1_x.Common.{
  ok-injective, String, Bool, ◌||◌, ◌≡◌, refl, sym, ◌∙◌, List, [], ◌∷◌, ◌++◌, map, any, Result, ok,
  arith, inl, inr,
}
use strav_1_x.Common.Dict.{Dict}
use strav_1_x.Http.Paths.{split_path, expand_optional_params}
use strav_1_x.Http.Trie.{
  CompiledRoute, RouteFault, TrieNode, node, Found, static_child, or_fresh, insert_at,
  insert_expanded, insert_each, insert, and_then, fresh_node,
}
use strav_1_x.Http.Trie.Cases.{and_then-ok, insert_at-cases}
use strav_1_x.Http.Trie.Bindings.{binds, walk_found}
use strav_1_x.Http.Trie.Insertion.{
  any-append, Adds, passes, set_handler-Adds, literal-Adds, param-Adds, wildcard-Adds,
  walk_found-fresh,
}

module _ {H : Type 0} (d : String → String) (p : Found H → Bool) where
  insert_at-Adds :
      (pats : List String) (pattern : String) (route : CompiledRoute H) (n n' : TrieNode H)
      → insert_at pats pattern route n ≡ ok n'
      → Adds d p pats route n n'
  unfolding insert_at
  insert_at-Adds [] pattern route n n' h = set_handler-Adds d p pattern route n n' h
  insert_at-Adds (x ∷ xs) pattern route (node cs q w hs) n' h =
      elim (insert_at-cases x xs pattern route cs q w hs n' h) [
        | inl (t, e, c', hc, hn) ↦ rw (sym hn) (
            literal-Adds d p x xs route cs q w hs c' t e
              (insert_at-Adds xs pattern route (or_fresh (static_child t cs)) c' hc))
        | inr (inl (name, e, c, c', old, hc, hn)) ↦ rw (sym hn) (
            param-Adds d p x xs route cs q w hs c' name c e old
              (insert_at-Adds xs pattern route c c' hc))
        | inr (inr (name, e, c, c', old, last, hc, hn)) ↦
            rw (sym hn) (wildcard-Adds d p x xs route cs q w hs c' name c pattern e last old hc)
      ]

-- The patterns that stand for a route, each with the route.
abbrev pub patterns_of : {H : Type 0} → CompiledRoute H → List (List String × CompiledRoute H)
patterns_of route =
    map (λ pattern. (split_path pattern, route)) (expand_optional_params route.pattern)

abbrev pub table : {H : Type 0} → List (CompiledRoute H) → List (List String × CompiledRoute H)
table [] = []
table (route ∷ routes) = patterns_of route ++ table routes

-- The trie of a list of routes, as `compile` builds it.
abbrev pub insert_all :
    {H : Type 0} → List (CompiledRoute H) → TrieNode H → Result RouteFault (TrieNode H)
insert_all [] root = ok root
insert_all (route ∷ routes) root = and_then (insert route root) (λ n. insert_all routes n)

module _ {H : Type 0} (d : String → String) (p : Found H → Bool) where
  -- The routes of a table that take a path, with the parameters that they bind.
  abbrev pub passes_in : List String → Dict String → List (List String × CompiledRoute H) → Bool
  passes_in segs params t = any (λ e. passes d p e.1 (binds d e.0 segs params)) t

  insert_each-passes :
      (patterns : List String) (route : CompiledRoute H) (n n' : TrieNode H)
      → insert_each patterns route n ≡ ok n'
      → (segs : List String) (params : Dict String)
      → any p (walk_found d segs params n')
        ≡ any p (walk_found d segs params n)
          || passes_in segs params (map (λ pattern. (split_path pattern, route)) patterns)
  insert_each-passes [] route n n' h segs params = rw (sym (ok-injective n n' h)) (ground arith)
  insert_each-passes (x ∷ xs) route n n' h segs params =
      let (m, hm, rest) =
        and_then-ok (insert_expanded x route n) (λ n. insert_each xs route n) n' h in
      ground (
        arith,
        insert_at-Adds d p (split_path x) x route n m hm segs params,
        insert_each-passes xs route m n' rest segs params,
      )

  insert_all-passes :
      (routes : List (CompiledRoute H)) (n n' : TrieNode H)
      → insert_all routes n ≡ ok n'
      → (segs : List String) (params : Dict String)
      → any p (walk_found d segs params n')
        ≡ any p (walk_found d segs params n) || passes_in segs params (table routes)
  unfolding insert
  insert_all-passes [] n n' h segs params = rw (sym (ok-injective n n' h)) (ground arith)
  insert_all-passes (route ∷ routes) n n' h segs params =
      let (m, hm, rest) = and_then-ok (insert route n) (λ n. insert_all routes n) n' h in
      ground (
        arith,
        insert_each-passes (expand_optional_params route.pattern) route n m hm segs params,
        insert_all-passes routes m n' rest segs params,
        any-append (λ e. passes d p e.1 (binds d e.0 segs params)) (patterns_of route)
            (table routes),
      )

  -- The candidates of a path are the routes of the table that take it, with what they bind: a
  -- predicate holds of one of the candidates when it holds of one of those.
  pub walk_found-table :
      (routes : List (CompiledRoute H)) (root : TrieNode H)
      → insert_all routes fresh_node ≡ ok root
      → (segs : List String) → any p (walk_found d segs [] root) ≡ passes_in segs [] (table routes)
  walk_found-table routes root h segs =
      insert_all-passes routes fresh_node root h segs []
      ∙ rw (walk_found-fresh {H = H} d p segs []) refl
