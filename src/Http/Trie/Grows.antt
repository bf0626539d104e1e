-- ===== src/Http/Trie/Grows.antt =====
-- About the handlers that insertions leave at the end of static children, in
-- packages/http/src/router/trie.ts.
use strav_1_x.Common.{
  String, true, ◌≡◌, refl, sym, some, List, [], ◌∷◌, ◌++◌, map, All, All-append, ok, str_eq, eq_iff,
  arith, inl, inr, Bool-cases, ok-injective,
}
use strav_1_x.Common.Dict
use strav_1_x.Common.Dict.{Dict, lookup, lookup-insert}
use strav_1_x.Http.Paths.{split_path, expand_optional_params}
use strav_1_x.Http.Trie.{CompiledRoute, TrieNode, insert_expanded, insert_each, insert}
use strav_1_x.Http.Trie.Cases.{and_then-ok}
use strav_1_x.Http.Trie.Static.{literal_is, static_handlers, Places, insert_at-Places}
use strav_1_x.Http.Trie.Table.{insert_all, table, patterns_of}

module _ {H : Type 0} where
  abbrev pub IsKeyed : Dict (CompiledRoute H) → Type 0
  IsKeyed hs = All (λ e. e.1.method ≡ e.0) hs

  insert-IsKeyed :
      (route : CompiledRoute H) (hs : Dict (CompiledRoute H))
      → IsKeyed hs
      → IsKeyed (Dict.insert route.method route hs)
  unfolding Dict.insert
  insert-IsKeyed route [] h = (refl, tt)
  insert-IsKeyed route ((m, r) ∷ hs) (e, h) = elim (Bool-cases (str_eq m route.method)) [
    | inl f ↦ rw f (refl, h)
    | inr f ↦ rw f (e, insert-IsKeyed route hs h)
  ]

  module _ (segs : List String) where
    -- What insertions do to the handlers of a path: they keep the routes and they have those of the
    -- entries that are literally the path.
    pub record Grows (n n' : TrieNode H) (t : List (List String × CompiledRoute H)) : Type 0 where
      pub keeps :
          (m : String) (r : CompiledRoute H)
          → lookup m (static_handlers segs n) ≡ some r
          → lookup m (static_handlers segs n') ≡ some r
      pub keyed : IsKeyed (static_handlers segs n) → IsKeyed (static_handlers segs n')
      pub has :
          All
            (λ e.
              literal_is e.0 segs ≡ true → lookup e.1.method (static_handlers segs n') ≡ some e.1)
            t

    Places-Grows :
        (pats : List String) (route : CompiledRoute H) (n n' : TrieNode H)
        → Places segs pats route n n'
        → Grows n n' ((pats, route) ∷ [])
    Places-Grows pats route n n' (inl (is, absent, new)) = record {
      keeps = λ m r h. rw new (
          ground (
            arith,
            h,
            absent,
            eq_iff route.method m,
            lookup-insert route.method m route (static_handlers segs n),
          ));
      keyed = λ h. rw new (insert-IsKeyed route (static_handlers segs n) h);
      has = (
        λ h. rw new (
            ground (
              arith,
              eq_iff route.method route.method,
              lookup-insert route.method route.method route (static_handlers segs n),
            )),
        tt,
      );
    }
    Places-Grows pats route n n' (inr (is, same)) = record {
      keeps = λ m r h. rw same h;
      keyed = λ h. rw same h;
      has = (λ h. absurd cc, tt);
    }

    none-Grows : (n : TrieNode H) → Grows n n []
    none-Grows n = record { keeps = λ m r h. h; keyed = λ h. h; has = tt }

    keeps-has :
        (n n' : TrieNode H) (t : List (List String × CompiledRoute H))
        → ((m : String) (r : CompiledRoute H)
            → lookup m (static_handlers segs n) ≡ some r
            → lookup m (static_handlers segs n') ≡ some r)
        → All
            (λ e.
              literal_is e.0 segs ≡ true → lookup e.1.method (static_handlers segs n) ≡ some e.1)
            t
        → All
            (λ e.
              literal_is e.0 segs ≡ true → lookup e.1.method (static_handlers segs n') ≡ some e.1)
            t
    keeps-has n n' [] keeps h = tt
    keeps-has n n' ((pats, r) ∷ t) keeps (e, h) =
        (λ is. keeps r.method r (e is), keeps-has n n' t keeps h)

    both-Grows :
        {n m n' : TrieNode H} (t u : List (List String × CompiledRoute H))
        → Grows n m t
        → Grows m n' u
        → Grows n n' (t ++ u)
    both-Grows {m} {n'} t u g k = record {
      keeps = λ m r h. k.keeps m r (g.keeps m r h);
      keyed = λ h. k.keyed (g.keyed h);
      has = All-append _ t u (keeps-has m n' t k.keeps g.has) k.has;
    }

    insert_each-Grows :
        (patterns : List String) (route : CompiledRoute H) (n n' : TrieNode H)
        → insert_each patterns route n ≡ ok n'
        → Grows n n' (map (λ pattern. (split_path pattern, route)) patterns)
    insert_each-Grows [] route n n' h = rw (sym (ok-injective n n' h)) (none-Grows n)
    insert_each-Grows (x ∷ xs) route n n' h =
        let (m, hm, rest) =
          and_then-ok (insert_expanded x route n) (λ n. insert_each xs route n) n' h in
        both-Grows ((split_path x, route) ∷ []) (map (λ pattern. (split_path pattern, route)) xs)
          (Places-Grows (split_path x) route n m
            (insert_at-Places (split_path x) x route n m segs hm))
          (insert_each-Grows xs route m n' rest)

    pub insert_all-Grows :
        (routes : List (CompiledRoute H)) (n n' : TrieNode H)
        → insert_all routes n ≡ ok n'
        → Grows n n' (table routes)
    unfolding insert
    insert_all-Grows [] n n' h = rw (sym (ok-injective n n' h)) (none-Grows n)
    insert_all-Grows (route ∷ routes) n n' h =
        let (m, hm, rest) = and_then-ok (insert route n) (λ n. insert_all routes n) n' h in
        both-Grows (patterns_of route) (table routes)
          (insert_each-Grows (expand_optional_params route.pattern) route n m hm)
          (insert_all-Grows routes m n' rest)
