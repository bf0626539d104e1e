-- ===== src/Http/Router/Names.antt =====
-- About `compile` of packages/http/src/router/router.ts: the trie and the index of names, by the list of
-- the routes.
use strav_1_x.Common.{
  map, String, Bool, true, false, ◌≡◌, refl, sym, ap, ◌∙◌, ok-injective, Option, none, some, List,
  [], ◌∷◌, ok, if◌then◌else◌, str_eq, eq_iff, arith, Option-cases, Result-cases, inl, inr,
}
use strav_1_x.Common.Dict.{Dict, lookup, lookup-insert}
use strav_1_x.Http.Trie.{CompiledRoute, TrieNode, fresh_node, insert}
use strav_1_x.Http.Trie.Table.{insert_all}
use strav_1_x.Http.Router.{Router, Route, GroupState}
use strav_1_x.Http.Router.Compile.{
  compile_all, compile, list_routes, index_name, compile_route, listed_route,
}

abbrev has_name : String → Option String → Bool
has_name name none = false
has_name name (some n) = str_eq n name

module _ {H : Type 0} where
  -- The first route of a name.
  abbrev pub find_named : String → List (CompiledRoute H) → Option (CompiledRoute H)
  find_named name [] = none
  find_named name (c ∷ cs) = if has_name name c.name then some c else find_named name cs

  abbrev or_else : Option (CompiledRoute H) → Option (CompiledRoute H) → Option (CompiledRoute H)
  or_else none o = o
  or_else (some c) o = some c

  or_else-none : (o : Option (CompiledRoute H)) → or_else o none ≡ o
  or_else-none none = refl
  or_else-none (some c) = refl

  or_else_then :
      (o : Option (CompiledRoute H)) (b : Bool) (c : CompiledRoute H) (q : Option (CompiledRoute H))
      → or_else (or_else o (if b then some c else none)) q ≡ or_else o (if b then some c else q)
  or_else_then none true c q = refl
  or_else_then none false c q = refl
  or_else_then (some x) b c q = refl

  index_name-lookup :
      (o : Option String) (c : CompiledRoute H) (index index' : Dict (CompiledRoute H))
      → index_name o c index ≡ ok index'
      → (name : String)
      → lookup name index' ≡ or_else (lookup name index) (if has_name name o then some c else none)
  index_name-lookup none c index index' h name =
      rw (sym (ok-injective index index' h)) (sym (or_else-none (lookup name index)))
  index_name-lookup (some n) c index index' h name = elim (Option-cases (lookup n index)) [
    | inl e ↦ rw (sym (ok-injective _ index' (rw (e, index_name) at h))) (
        ground
          (arith, e, eq_iff n name, lookup-insert n name c index, or_else-none (lookup name index)))
    | inr (old, e) ↦ absurd (ground (arith, h, e))
  ]

  compile_all-ok :
      (cs : List (CompiledRoute H)) (trie trie' : TrieNode H)
      (index index' : Dict (CompiledRoute H))
      → compile_all cs trie index ≡ ok (trie', index')
      → (insert_all cs trie ≡ ok trie')
        × ((name : String) → lookup name index' ≡ or_else (lookup name index) (find_named name cs))
  unfolding compile_all
  compile_all-ok [] trie trie' index index' h =
      let same = ok-injective (trie, index) (trie', index') h in
      (
        ap (λ x. ok x.0) same,
        λ name. rw (sym (ap (λ x. x.1) same)) (sym (or_else-none (lookup name index))),
      )
  compile_all-ok (c ∷ cs) trie trie' index index' h = elim (Result-cases (insert c trie)) [
    | inl (t, e) ↦ elim (Result-cases (index_name c.name c index)) [
      | inl (i, f) ↦
          let (tries, index_of) =
            compile_all-ok cs t trie' i index' (rw (e, f, compile_all) at h) in
          (
            rw e tries,
            λ name.
                rw (index_of name, index_name-lookup c.name c index i f name)
                  (or_else_then (lookup name index) (has_name name c.name) c (find_named name cs)),
          )
      | inr (x, f) ↦ absurd (ground (arith, h, e, f))
    ]
    | inr (x, e) ↦ absurd (ground (arith, h, e))
  ]

  compiled-listed : (rs : List (Route H × GroupState)) → map compile_route rs ≡ map listed_route rs
  compiled-listed [] = refl
  compiled-listed ((route, g) ∷ rs) = ap (λ cs. compile_route (route, g) ∷ cs) (compiled-listed rs)

  -- A router that compiles for the first time: its trie is the one of its list of routes, and a name
  -- has the first route of that list that bears it.
  pub compile-list :
      (r r' : Router H) (trie : TrieNode H) (index : Dict (CompiledRoute H))
      → r.compiled ≡ none
      → compile r ≡ (ok (trie, index), r')
      → (insert_all (list_routes r) fresh_node ≡ ok trie)
        × ((name : String) → lookup name index ≡ find_named name (list_routes r))
  unfolding compile lookup
  compile-list r r' trie index new h =
      let both = compiled-listed r.routes in
      elim (Result-cases (compile_all (map compile_route r.routes) fresh_node [])) [
        | inl (c, e) ↦
            let same : c ≡ (trie, index) =
              ok-injective c (trie, index) (ap (λ x. x.0) (rw (new, e) at h)) in
            rw (sym both) (
              compile_all-ok (map compile_route r.routes) fresh_node trie [] index (e ∙ ap ok same))
        | inr (x, e) ↦ absurd (ground (arith, h, new, e))
      ]
