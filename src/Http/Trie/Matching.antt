-- ===== src/Http/Trie/Matching.antt =====
-- About the answers of `match` of packages/http/src/router/trie.ts, by the table of the routes that the
-- trie was built from.
use strav_1_x.Common.{
  Bool-cases, String, Bool, true, false, not, Option-cases, ◌≡◌, refl, sym, ap, ◌∙◌, Option, none,
  some, List, [], ◌∷◌, any, Result, ok, arith, inl, inr,
}
use strav_1_x.Common.Dict.{Dict}
use strav_1_x.Http.Paths.{split_path, is_method}
use strav_1_x.Http.Trie.{
  CompiledRoute, RouteFault, TrieNode, Found, MatchResult, found, not_found, fresh_node, match_path,
  answer, pick,
}
use strav_1_x.Http.Trie.Bindings.{walk_found, Decodes, walk-Decodes}
use strav_1_x.Http.Trie.Table.{insert_all, table, passes_in, walk_found-table}

abbrev is_some : {A : Type 0} → Option A → Bool
is_some none = false
is_some (some a) = true

module _ {H : Type 0} where
  abbrev pub is_found : MatchResult H → Bool
  is_found (found route params) = true
  is_found _ = false

  abbrev pub is_not_found : MatchResult H → Bool
  is_not_found not_found = true
  is_not_found _ = false

  ok-answer :
      (a b : MatchResult H) → ◌≡◌ {A = Result RouteFault (MatchResult H)} (ok a) (ok b) → a ≡ b
  ok-answer a b h = cc

  pick-any :
      (method : String) (fs : List (Found H))
      → is_some (pick method fs) ≡ any (λ f. is_method method f.route.method) fs
  pick-any method [] = refl
  pick-any method (f ∷ fs) = ground (arith, pick-any method fs)

  pick-passes :
      (method : String) (p : Found H → Bool) (fs : List (Found H)) (c : Found H)
      → pick method fs ≡ some c
      → any p fs ≡ false
      → (is_method method c.route.method ≡ true) × (p c ≡ false)
  pick-passes method p [] c h none_passes = absurd cc
  pick-passes method p (f ∷ fs) c h none_passes =
      elim (Bool-cases (is_method method f.route.method)) [
        | inl e ↦
            let same : f ≡ c = ground (arith, h, e) in
            rw (sym same) (e, ground (arith, none_passes))
        | inr e ↦ pick-passes method p fs c (ground (arith, h, e)) (ground (arith, none_passes))
      ]

  answer-passes :
      (method : String) (p : Found H → Bool) (fs : List (Found H)) (route : CompiledRoute H)
      (params : Dict String)
      → answer method fs ≡ found route params
      → any p fs ≡ false
      → (is_method method route.method ≡ true)
        × (p (record { route = route; params = params }) ≡ false)
  answer-passes method p [] route params h none_passes = absurd cc
  answer-passes method p (f ∷ fs) route params h none_passes =
      elim (Option-cases (pick method (f ∷ fs))) [
        | inl e ↦ absurd (ground (arith, h, e))
        | inr (c, e) ↦
            let (r, s) : (c.route ≡ route) × (c.params ≡ params) = ground (arith, h, e) in
            let same : ◌≡◌ {A = Found H} c (record { route = route; params = params }) =
              ground (arith, h, e) in
            let (m, out) = pick-passes method p (f ∷ fs) c e none_passes in
            (rw r at m, rw same at out)
      ]

  answer-any :
      (method : String) (fs : List (Found H))
      → (is_found (answer method fs) ≡ any (λ f. is_method method f.route.method) fs)
        × (is_not_found (answer method fs) ≡ not (any (λ f. true) fs))
  answer-any method [] = (refl, refl)
  answer-any method (f ∷ fs) = elim (Option-cases (pick method (f ∷ fs))) [
    | inl e ↦ (ground (arith, e, pick-any method (f ∷ fs)), ground (arith, e))
    | inr (c, e) ↦ (ground (arith, e, pick-any method (f ∷ fs)), ground (arith, e))
  ]

module _ {H : Type 0} (decode : String → Result RouteFault String) (d : String → String)
    (routes : List (CompiledRoute H)) (root : TrieNode H) (method path : String) where
  pub match_path-answer :
      Decodes decode d (split_path path)
      → match_path decode method path root
        ≡ ok (answer method (walk_found d (split_path path) [] root))
  unfolding match_path
  match_path-answer h = rw (walk-Decodes decode d (split_path path) [] root h) refl

  -- On a trie that was built from a list of routes without a conflict, and a path whose segments
  -- decode, `match` answers: found, when a pattern of a route of the method takes the path; not found,
  -- when no pattern takes it; else that the method is not allowed.
  pub match_path-table :
      insert_all routes fresh_node ≡ ok root
      → Decodes decode d (split_path path)
      → (a : MatchResult H) × (match_path decode method path root ≡ ok a)
        × (is_found a
            ≡ passes_in d
                (λ f. is_method method f.route.method)
                (split_path path)
                []
                (table routes))
        × (is_not_found a ≡ not (passes_in d (λ f. true) (split_path path) [] (table routes)))
  match_path-table h decodes =
      let segs = split_path path in
      let fs = walk_found d segs [] root in
      let (e1, e2) = answer-any method fs in
      (
        answer method fs,
        match_path-answer decodes,
        e1 ∙ walk_found-table d (λ f. is_method method f.route.method) routes root h segs,
        e2 ∙ ap not (walk_found-table d (λ f. true) routes root h segs),
      )

  -- The route that `match` finds there is of the method, and it is, with its parameters, one of the
  -- routes whose patterns take the path, with what they bind: what none of those has, it has not.
  pub match_path-found :
      (route : CompiledRoute H) (params : Dict String) (p : Found H → Bool)
      → insert_all routes fresh_node ≡ ok root
      → Decodes decode d (split_path path)
      → match_path decode method path root ≡ ok (found route params)
      → passes_in d p (split_path path) [] (table routes) ≡ false
      → (is_method method route.method ≡ true)
        × (p (record { route = route; params = params }) ≡ false)
  match_path-found route params p h decodes m none_passes =
      answer-passes method p (walk_found d (split_path path) [] root) route params
        (ok-answer _ _ (sym (match_path-answer decodes) ∙ m))
        (walk_found-table d p routes root h (split_path path) ∙ none_passes)
