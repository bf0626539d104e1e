-- ===== src/Http/Trie/Static.antt =====
-- About the static routes of packages/http/src/router/trie.ts: those whose patterns have literal
-- segments only.
use strav_1_x.Common.{
  String, Bool, true, false, ◌&&◌, ◌≡◌, ◌⊎◌, refl, sym, Option, none, some, List, [], ◌∷◌, ok,
  str_eq, eq_iff, arith, inl, inr, Bool-cases,
}
use strav_1_x.Common.Dict
use strav_1_x.Common.Dict.{Dict, lookup, lookup-insert}
use strav_1_x.Http.Paths.{literal, param, wildcard, read_segment}
use strav_1_x.Http.Trie.{
  CompiledRoute, TrieNode, Children, Branch, node, static_child, set_child, or_fresh, insert_at,
  fresh_node,
}
use strav_1_x.Http.Trie.Insertion.{static_child-set_child}
use strav_1_x.Http.Trie.Cases.{set_handler-ok, insert_at-cases}

-- A pattern of these literal segments.
unfoldable pub literal_is : List String → List String → Bool
literal_is [] [] = true
literal_is [] (s ∷ ss) = false
literal_is (x ∷ xs) [] = false
literal_is (x ∷ xs) (s ∷ ss) = elim (read_segment x) [
  | literal t ↦ str_eq t s && literal_is xs ss
  | param name ↦ false
  | wildcard name ↦ false
]

module _ {H : Type 0} where
  -- The handlers at the end of the static children of these segments.
  abbrev pub static_handlers : List String → TrieNode H → Dict (CompiledRoute H)
  static_handlers [] (node cs p w hs) = hs
  static_handlers (s ∷ ss) (node cs p w hs) = elim (static_child s cs) [
    | none ↦ []
    | some n ↦ static_handlers ss n
  ]

  pub fresh-handlers : (segs : List String) → static_handlers segs (fresh_node {H = H}) ≡ []
  fresh-handlers [] = refl
  fresh-handlers (s ∷ ss) = refl

  -- What an insertion does to them.
  abbrev pub Places : List String → List String → CompiledRoute H → TrieNode H → TrieNode H → Type 0
  Places segs pats route n n' =
      (literal_is pats segs ≡ true)
        × (lookup route.method (static_handlers segs n) ≡ none)
        × (static_handlers segs n' ≡ Dict.insert route.method route (static_handlers segs n))
      ⊎ (literal_is pats segs ≡ false) × (static_handlers segs n' ≡ static_handlers segs n)

  or_fresh-handlers :
      (ss : List String) (o : Option (TrieNode H))
      → (elim o [ none ↦ [] | some n ↦ static_handlers ss n ]) ≡ static_handlers ss (or_fresh o)
  or_fresh-handlers ss none = sym (fresh-handlers ss)
  or_fresh-handlers ss (some n) = refl

  handlers-node :
      (s : String) (ss : List String) (cs : Children H) (q w : Branch H)
      (hs : Dict (CompiledRoute H))
      → static_handlers (s ∷ ss) (node cs q w hs)
        ≡ static_handlers ss (or_fresh (static_child s cs))
  handlers-node s ss cs q w hs = or_fresh-handlers ss (static_child s cs)

  literal-Places :
      (x : String) (xs : List String) (route : CompiledRoute H) (cs : Children H) (q w : Branch H)
      (hs : Dict (CompiledRoute H)) (c' : TrieNode H) (s : String) (ss : List String) (t : String)
      → read_segment x ≡ literal t
      → Places ss xs route (or_fresh (static_child t cs)) c'
      → Places (s ∷ ss) (x ∷ xs) route (node cs q w hs) (node (set_child t c' cs) q w hs)
  unfolding literal_is
  literal-Places x xs route cs q w hs c' s ss t e places = elim (Bool-cases (str_eq t s)) [
    | inl f ↦
        let same : t ≡ s = ground (arith, f, eq_iff t s) in
        let is : literal_is (x ∷ xs) (s ∷ ss) ≡ literal_is xs ss = ground (arith, e, f) in
        rw
          (
            is,
            handlers-node s ss cs q w hs,
            handlers-node s ss (set_child t c' cs) q w hs,
            static_child-set_child t s c' cs,
            f,
            sym same,
          )
          places
    | inr f ↦ inr (
      ground (arith, e, f),
      rw
          (
            handlers-node s ss cs q w hs,
            handlers-node s ss (set_child t c' cs) q w hs,
            static_child-set_child t s c' cs,
            f,
          )
          refl,
    )
  ]

  pub insert_at-Places :
      (pats : List String) (pattern : String) (route : CompiledRoute H) (n n' : TrieNode H)
      (segs : List String)
      → insert_at pats pattern route n ≡ ok n'
      → Places segs pats route n n'
  unfolding insert_at literal_is
  insert_at-Places [] pattern route (node cs q w hs) n' [] h =
      let (e, new) = set_handler-ok pattern route cs q w hs n' h in rw new (inl (refl, e, refl))
  insert_at-Places [] pattern route (node cs q w hs) n' (s ∷ ss) h =
      let (e, new) = set_handler-ok pattern route cs q w hs n' h in rw new (inr (refl, refl))
  insert_at-Places (x ∷ xs) pattern route (node cs q w hs) n' [] h =
      elim (insert_at-cases x xs pattern route cs q w hs n' h) [
        | inl (t, e, c', hc, hn) ↦ rw (sym hn) (inr (refl, refl))
        | inr (inl (name, e, c, c', old, hc, hn)) ↦ rw (sym hn) (inr (refl, refl))
        | inr (inr (name, e, c, c', old, last, hc, hn)) ↦ rw (sym hn) (inr (refl, refl))
      ]
  insert_at-Places (x ∷ xs) pattern route (node cs q w hs) n' (s ∷ ss) h =
      elim (insert_at-cases x xs pattern route cs q w hs n' h) [
        | inl (t, e, c', hc, hn) ↦ rw (sym hn) (
            literal-Places x xs route cs q w hs c' s ss t e
              (insert_at-Places xs pattern route (or_fresh (static_child t cs)) c' ss hc))
        | inr (inl (name, e, c, c', old, hc, hn)) ↦ rw (sym hn) (inr (ground (arith, e), refl))
        | inr (inr (name, e, c, c', old, last, hc, hn)) ↦
            rw (sym hn) (inr (ground (arith, e), refl))
      ]
