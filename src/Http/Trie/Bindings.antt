-- ===== src/Http/Trie/Bindings.antt =====
-- About the patterns of packages/http/src/router/trie.ts: which paths a pattern takes and what it
-- binds, and the walk of a path whose segments all decode.
use strav_1_x.Common.{
  String, ◌≡◌, refl, sym, ap, Option, none, some, List, [], ◌∷◌, ◌++◌, map, All, Result, ok,
  if◌then◌else◌, str_eq, join, arith, Option-cases, inl, inr,
}
use strav_1_x.Common.Dict
use strav_1_x.Common.Dict.{Dict}
use strav_1_x.Http.Paths.{literal, param, wildcard, read_segment, is_empty}
use strav_1_x.Http.Trie.{
  CompiledRoute, RouteFault, TrieNode, Children, Branch, node, branch, no_branch, Found, candidates,
  handlers_of, static_child, walk, walk_wildcard, decode_all, and_then,
}

module _ (d : String → String) where
  -- The parameters that a pattern binds on a path, from the first segments on.
  unfoldable pub binds : List String → List String → Dict String → Option (Dict String)
  binds [] [] params = some params
  binds [] (s ∷ ss) params = none
  binds (x ∷ xs) [] params = none
  binds (x ∷ xs) (seg ∷ segs) params = elim (read_segment x) [
    | literal s ↦ if str_eq s seg then binds xs segs params else none
    | param name ↦ if is_empty seg then none else binds xs segs (Dict.insert name (d seg) params)
    | wildcard name ↦ elim xs [
      | [] ↦ some (Dict.insert name (join "/" (map d (seg ∷ segs))) params)
      | y ∷ ys ↦ none
    ]
  ]

  module _ {H : Type 0} where
    abbrev pub wildcard_found : List String → Dict String → Branch H → List (Found H)
    wildcard_found segs params no_branch = []
    wildcard_found segs params (branch name n) =
        candidates (Dict.insert name (join "/" (map d segs)) params) (handlers_of n)

    -- The walk, where nothing throws.
    unfoldable pub walk_found : List String → Dict String → TrieNode H → List (Found H)
    walk_found [] params (node cs p w hs) = candidates params hs
    walk_found (seg ∷ segs) params (node cs p w hs) =
        (elim (static_child seg cs) [ none ↦ [] | some n ↦ walk_found segs params n ])
        ++ ((elim p [
          | no_branch ↦ []
          | branch name n ↦
              if is_empty seg then [] else walk_found segs (Dict.insert name (d seg) params) n
        ])
            ++ wildcard_found (seg ∷ segs) params w)

    abbrev pub static_found : List String → Dict String → Option (TrieNode H) → List (Found H)
    static_found segs params none = []
    static_found segs params (some n) = walk_found segs params n

    abbrev pub param_found : String → List String → Dict String → Branch H → List (Found H)
    param_found seg segs params no_branch = []
    param_found seg segs params (branch name n) =
        if is_empty seg then [] else walk_found segs (Dict.insert name (d seg) params) n

    pub walk_found-node :
        (seg : String) (segs : List String) (params : Dict String) (cs : Children H)
        (p w : Branch H) (hs : Dict (CompiledRoute H))
        → walk_found (seg ∷ segs) params (node cs p w hs)
          ≡ static_found segs params (static_child seg cs)
            ++ (param_found seg segs params p ++ wildcard_found (seg ∷ segs) params w)
    unfolding walk_found
    walk_found-node seg segs params cs p w hs = elim (Option-cases (static_child seg cs)) [
      | inl e ↦ ground (arith, e)
      | inr (n, e) ↦ ground (arith, e)
    ]

module _ (decode : String → Result RouteFault String) (d : String → String) where
  abbrev pub Decodes : List String → Type 0
  Decodes segs = All (λ s. decode s ≡ ok (d s)) segs

  decode_all-Decodes :
      (segs : List String) → Decodes segs → decode_all decode segs ≡ ok (map d segs)
  decode_all-Decodes [] h = refl
  decode_all-Decodes (s ∷ ss) (e, h) = rw (e, decode_all-Decodes ss h) refl

  module _ {H : Type 0} where
    abbrev walk_static :
        List String → Dict String → Option (TrieNode H) → Result RouteFault (List (Found H))
    walk_static segs params none = ok []
    walk_static segs params (some n) = walk decode segs params n

    abbrev walk_param :
        String → List String → Dict String → Branch H → Result RouteFault (List (Found H))
    walk_param seg segs params no_branch = ok []
    walk_param seg segs params (branch name n) =
        if is_empty seg
        then ok []
        else and_then (decode seg) (λ v. walk decode segs (Dict.insert name v params) n)

    wildcard-Decodes :
        (segs : List String) (params : Dict String) (w : Branch H)
        → Decodes segs
        → walk_wildcard decode segs params w ≡ ok (wildcard_found d segs params w)
    wildcard-Decodes segs params no_branch h = refl
    wildcard-Decodes segs params (branch name n) h = rw (decode_all-Decodes segs h) refl

    module _ (segs : List String)
        (later : (params : Dict String) (n : TrieNode H)
          → walk decode segs params n ≡ ok (walk_found d segs params n)) where
      static-Decodes :
          (params : Dict String) (o : Option (TrieNode H))
          → walk_static segs params o ≡ ok (static_found d segs params o)
      static-Decodes params none = refl
      static-Decodes params (some n) = later params n

      param-Decodes :
          (seg : String) (params : Dict String) (p : Branch H)
          → decode seg ≡ ok (d seg)
          → walk_param seg segs params p ≡ ok (param_found d seg segs params p)
      param-Decodes seg params no_branch e = refl
      param-Decodes seg params (branch name n) e =
          ground (arith, e, later (Dict.insert name (d seg) params) n)

    pub walk-Decodes :
        (segs : List String) (params : Dict String) (n : TrieNode H)
        → Decodes segs
        → walk decode segs params n ≡ ok (walk_found d segs params n)
    unfolding walk walk_found
    walk-Decodes [] params (node cs p w hs) h = refl
    walk-Decodes (s ∷ ss) params (node cs p w hs) (e, h) =
        let later : (params : Dict String) (n : TrieNode H)
            → walk decode ss params n ≡ ok (walk_found d ss params n) =
          λ params n. walk-Decodes ss params n h in
        rw
          (
            static-Decodes ss later params (static_child s cs),
            param-Decodes ss later s params p e,
            wildcard-Decodes (s ∷ ss) params w (e, h),
          )
          (ap ok (sym (walk_found-node d s ss params cs p w hs)))
