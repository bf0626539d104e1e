-- ===== src/Http/Trie/Precedence.antt =====
-- About the order of a walk of packages/http/src/router/trie.ts: static children come first.
use mathlib.Core.Option.{some-injective}
use mathlib.Core.Path.{subst}
use text.Mathlib.TextEquality.{Char-path}
use strav_1_x.Common.{
  ℕ, zero, suc, String, true, ◌≡◌, refl, sym, ap, ◌∙◌, some, List, [], ◌∷◌, ◌++◌, append_assoc,
  append-nil, All, get_elem?, Result, ok, str_eq, eq_iff, arith, inl, inr, Bool-cases, Option-cases,
}
use strav_1_x.Common.Dict.{Dict, lookup}
use strav_1_x.Http.Paths.{split_path, is_method}
use strav_1_x.Http.Trie.{
  CompiledRoute, RouteFault, TrieNode, node, found, static_child, fresh_node, match_path, answer,
  pick, candidates, Found,
}
use strav_1_x.Http.Trie.Bindings.{walk_found, walk_found-node, param_found, wildcard_found, Decodes}
use strav_1_x.Http.Trie.Grows.{IsKeyed, insert_all-Grows}
use strav_1_x.Http.Trie.Static.{literal_is, static_handlers, fresh-handlers}
use strav_1_x.Http.Trie.Table.{insert_all, table}
use strav_1_x.Http.Trie.Matching.{match_path-answer}

-- A method is the upper case of one text.
is_method-same : (s a b : String) → is_method s a ≡ true → is_method s b ≡ true → a ≡ b
is_method-same String.[] String.[] String.[] h k = refl
is_method-same String.[] String.[] (String.◌∷◌ d t) h k = absurd cc
is_method-same String.[] (String.◌∷◌ d t) b h k = absurd cc
is_method-same (String.◌∷◌ c s) String.[] b h k = absurd cc
is_method-same (String.◌∷◌ c s) (String.◌∷◌ d t) String.[] h k = absurd cc
is_method-same (String.◌∷◌ c s) (String.◌∷◌ d t) (String.◌∷◌ e u) h k =
    let same : d ≡ e = Char-path d e (ground (arith, h, k)) in
    let rest : t ≡ u = is_method-same s t u (ground (arith, h)) (ground (arith, k)) in
    cc (same, rest)

module _ {H : Type 0} where
  -- A route that the handlers know under its method is the first of that method among them.
  pick-lookup :
      (method : String) (route : CompiledRoute H) (params : Dict String)
      (hs : Dict (CompiledRoute H)) (rest : List (Found H))
      → IsKeyed hs
      → lookup route.method hs ≡ some route
      → is_method method route.method ≡ true
      → pick method (candidates params hs ++ rest)
        ≡ some (record { route = route; params = params })
  unfolding lookup
  pick-lookup method route params [] rest keyed h is = absurd cc
  pick-lookup method route params ((m, r) ∷ hs) rest (e, keyed) h is =
      elim (Bool-cases (str_eq m route.method)) [
        | inl f ↦ let same : r ≡ route = ground (arith, h, f) in rw (same, is) refl
        | inr f ↦ elim (Bool-cases (is_method method r.method)) [
          | inl g ↦ absurd (
              ground (
                arith,
                f,
                e,
                eq_iff m route.method,
                is_method-same method r.method route.method g is,
              ))
          | inr g ↦ rw g (pick-lookup method route params hs rest keyed (ground (arith, h, f)) is)
        ]
      ]

  -- The candidates of the static children come first.
  walk_found-static :
      (d : String → String) (segs : List String) (params : Dict String) (n : TrieNode H)
      → (rest : List (Found H)) × (walk_found d segs params n
          ≡ candidates params (static_handlers segs n) ++ rest)
  unfolding walk_found
  walk_found-static d [] params (node cs q w hs) = ([], sym (append-nil (candidates params hs)))
  walk_found-static d (s ∷ ss) params (node cs q w hs) = elim (Option-cases (static_child s cs)) [
    | inl e ↦
        let nothing : static_handlers (s ∷ ss) (node cs q w hs) ≡ [] = ground (arith, e) in
        (
          param_found d s ss params q ++ wildcard_found d (s ∷ ss) params w,
          rw (walk_found-node d s ss params cs q w hs, e, nothing) refl,
        )
    | inr (n, e) ↦
        let (rest, h) = walk_found-static d ss params n in
        let others = param_found d s ss params q ++ wildcard_found d (s ∷ ss) params w in
        let same : static_handlers (s ∷ ss) (node cs q w hs) ≡ static_handlers ss n =
          ground (arith, e) in
        (
          rest ++ others,
          rw (walk_found-node d s ss params cs q w hs, e, same, h)
              (append_assoc (candidates params (static_handlers ss n)) rest others),
        )
  ]

answer-pick :
    {H : Type 0} (method : String) (fs : List (Found H)) (route : CompiledRoute H)
    (params : Dict String)
    → pick method fs ≡ some (record { route = route; params = params })
    → answer method fs ≡ found route params
answer-pick method [] route params h = absurd cc
answer-pick method (f ∷ fs) route params h = ground (arith, h)

All-get_elem? :
    {A : Type 0} (P : A → Type 0) (xs : List A) (i : ℕ) (x : A)
    → All P xs
    → get_elem? xs i ≡ some x
    → P x
All-get_elem? P [] i x h e = absurd cc
All-get_elem? P (y ∷ xs) zero x (h, hs) e = subst P (some-injective y x e) h
All-get_elem? P (y ∷ xs) (suc i) x (h, hs) e = All-get_elem? P xs i x hs e

-- On a trie that was built from a list of routes without a conflict, and a path whose segments decode: a
-- route of the method with a pattern that is literally the path is the one that `match` finds, with no
-- parameters, whatever other patterns take the path.
pub match_path-static :
    {H : Type 0} (decode : String → Result RouteFault String) (d : String → String)
    (routes : List (CompiledRoute H)) (root : TrieNode H) (method path : String) (i : ℕ)
    (pats : List String) (route : CompiledRoute H)
    → insert_all routes fresh_node ≡ ok root
    → Decodes decode d (split_path path)
    → get_elem? (table routes) i ≡ some (pats, route)
    → literal_is pats (split_path path) ≡ true
    → is_method method route.method ≡ true
    → match_path decode method path root ≡ ok (found route [])
match_path-static decode d routes root method path i pats route h decodes at is of =
    let segs = split_path path in
    let g = insert_all-Grows segs routes fresh_node root h in
    let known = All-get_elem? _ (table routes) i (pats, route) g.has at is in
    let keyed = g.keyed (rw (fresh-handlers {H = _} segs) tt) in
    let (rest, walked) = walk_found-static d segs [] root in
    let picked = pick-lookup method route [] (static_handlers segs root) rest keyed known of in
    match_path-answer decode d routes root method path decodes
    ∙ ap ok
        (answer-pick method (walk_found d segs [] root) route [] (ap (pick method) walked ∙ picked))
