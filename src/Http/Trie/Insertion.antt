-- ===== src/Http/Trie/Insertion.antt =====
-- About insertions into the trie of packages/http/src/router/trie.ts: the candidates that a walk finds
-- after one.
use strav_1_x.Common.{
  ◌⊎◌, String, Bool, false, ◌||◌, ◌≡◌, refl, sym, ap, Option, none, some, List, [], ◌∷◌, ◌++◌, map,
  any, ok, if◌then◌else◌, str_eq, join, arith, Bool-cases, inl, inr, eq_iff,
}
use strav_1_x.Common.Dict
use strav_1_x.Common.Dict.{Dict, lookup}
use strav_1_x.Http.Paths.{literal, param, wildcard, read_segment, is_empty}
use strav_1_x.Http.Trie.{
  no_more, child, CompiledRoute, TrieNode, Children, Branch, node, branch, no_branch, Found,
  candidates, handlers_of, static_child, set_child, or_fresh, set_handler, fresh_node,
}
use strav_1_x.Http.Trie.Cases.{set_handler-ok}
use strav_1_x.Http.Trie.Bindings.{
  binds, walk_found, walk_found-node, static_found, param_found, wildcard_found,
}

pub any-append :
    {A : Type 0} (p : A → Bool) (xs ys : List A) → any p (xs ++ ys) ≡ any p xs || any p ys
any-append p [] ys = refl
any-append p (x ∷ xs) ys = ground (arith, any-append p xs ys)

pub static_child-set_child :
    {H : Type 0} (seg sought : String) (new : TrieNode H) (cs : Children H)
    → static_child sought (set_child seg new cs)
      ≡ (if str_eq seg sought then some new else static_child sought cs)
static_child-set_child seg sought new no_more = refl
static_child-set_child seg sought new (child s n cs) = ground (
  arith,
  eq_iff seg sought,
  eq_iff s seg,
  eq_iff s sought,
  static_child-set_child seg sought new cs,
)

module _ {H : Type 0} (d : String → String) (p : Found H → Bool) where
  -- The candidate of a route that binds parameters.
  abbrev pub passes : CompiledRoute H → Option (Dict String) → Bool
  passes route none = false
  passes route (some params) = p (record { route = route; params = params })

  candidates-insert :
      (route : CompiledRoute H) (params : Dict String) (hs : Dict (CompiledRoute H))
      → lookup route.method hs ≡ none
      → any p (candidates params (Dict.insert route.method route hs))
        ≡ any p (candidates params hs) || passes route (some params)
  unfolding lookup Dict.insert
  candidates-insert route params [] h = ground arith
  candidates-insert route params ((m, r) ∷ hs) h =
      ground (arith, h, candidates-insert route params hs)

  pub walk_found-fresh :
      (segs : List String) (params : Dict String)
      → walk_found d segs params (fresh_node {H = H}) ≡ []
  unfolding walk_found
  walk_found-fresh [] params = refl
  walk_found-fresh (s ∷ ss) params = refl

  -- What an insertion adds to every walk.
  abbrev pub Adds : List String → CompiledRoute H → TrieNode H → TrieNode H → Type 0
  Adds pats route n n' =
      (segs : List String) (params : Dict String)
      → any p (walk_found d segs params n')
        ≡ any p (walk_found d segs params n) || passes route (binds d pats segs params)

  any-node :
      (y : String) (ys : List String) (params : Dict String) (cs : Children H) (q w : Branch H)
      (hs : Dict (CompiledRoute H))
      → any p (walk_found d (y ∷ ys) params (node cs q w hs))
        ≡ any p (static_found d ys params (static_child y cs))
          || (any p (param_found d y ys params q) || any p (wildcard_found d (y ∷ ys) params w))
  any-node y ys params cs q w hs =
      rw
        (
          walk_found-node d y ys params cs q w hs,
          any-append p (static_found d ys params (static_child y cs))
              (param_found d y ys params q ++ wildcard_found d (y ∷ ys) params w),
          any-append p (param_found d y ys params q) (wildcard_found d (y ∷ ys) params w),
        )
        refl

  pub set_handler-Adds :
      (pattern : String) (route : CompiledRoute H) (n n' : TrieNode H)
      → set_handler pattern route n ≡ ok n'
      → Adds [] route n n'
  unfolding walk_found binds
  set_handler-Adds pattern route (node cs q w hs) n' h [] params =
      let (e, new) = set_handler-ok pattern route cs q w hs n' h in
      rw new (candidates-insert route params hs e)
  set_handler-Adds pattern route (node cs q w hs) n' h (s ∷ ss) params =
      let (e, new) = set_handler-ok pattern route cs q w hs n' h in rw new (ground arith)

  handlers-Adds :
      (pattern : String) (route : CompiledRoute H) (n n' : TrieNode H)
      → set_handler pattern route n ≡ ok n'
      → (params : Dict String)
      → any p (candidates params (handlers_of n'))
        ≡ any p (candidates params (handlers_of n)) || passes route (some params)
  handlers-Adds pattern route (node cs q w hs) n' h params =
      let (e, new) = set_handler-ok pattern route cs q w hs n' h in
      rw new (candidates-insert route params hs e)

  fresh-static :
      (segs : List String) (params : Dict String) (o : Option (TrieNode H))
      → any p (static_found d segs params o) ≡ any p (walk_found d segs params (or_fresh o))
  fresh-static segs params none = rw (walk_found-fresh segs params) refl
  fresh-static segs params (some n) = refl

  module _ (x : String) (pats : List String) (route : CompiledRoute H) (cs : Children H)
      (q w : Branch H) (hs : Dict (CompiledRoute H)) (c' : TrieNode H) where
    static-Adds :
        (s y : String) (ys : List String) (params : Dict String)
        → Adds pats route (or_fresh (static_child s cs)) c'
        → any p (static_found d ys params (static_child y (set_child s c' cs)))
          ≡ any p (static_found d ys params (static_child y cs))
            || passes route (if str_eq s y then binds d pats ys params else none)
    static-Adds s y ys params adds = elim (Bool-cases (str_eq s y)) [
      | inl e ↦
          let same : s ≡ y = ground (arith, e, eq_iff s y) in
          rw
            (
              static_child-set_child s y c' cs,
              e,
              sym same,
              fresh-static ys params (static_child s cs),
            )
            (adds ys params)
      | inr e ↦ rw (static_child-set_child s y c' cs, e) (ground arith)
    ]

    pub literal-Adds :
        (s : String)
        → read_segment x ≡ literal s
        → Adds pats route (or_fresh (static_child s cs)) c'
        → Adds (x ∷ pats) route (node cs q w hs) (node (set_child s c' cs) q w hs)
    unfolding walk_found binds
    literal-Adds s e adds [] params = ground (arith)
    literal-Adds s e adds (y ∷ ys) params = ground (
      arith,
      any-node y ys params (set_child s c' cs) q w hs,
      any-node y ys params cs q w hs,
      static-Adds s y ys params adds,
      e,
    )

    branch-Adds :
        (name : String) (c : TrieNode H) (y : String) (ys : List String) (params : Dict String)
        → (q ≡ no_branch) × (c ≡ fresh_node) ⊎ (q ≡ branch name c)
        → Adds pats route c c'
        → any p (param_found d y ys params (branch name c'))
          ≡ any p (param_found d y ys params q)
            || passes route
                (if is_empty y then none else binds d pats ys (Dict.insert name (d y) params))
    branch-Adds name c y ys params (inl (e, f)) adds = rw e (
        ground (
          arith,
          adds ys (Dict.insert name (d y) params),
          ap (λ n. any p (walk_found d ys (Dict.insert name (d y) params) n)) f,
          walk_found-fresh ys (Dict.insert name (d y) params),
        ))
    branch-Adds name c y ys params (inr e) adds =
        rw e (ground (arith, adds ys (Dict.insert name (d y) params)))

    rest-Adds :
        (name : String) (c : TrieNode H) (pattern : String) (segs : List String)
        (params : Dict String)
        → (w ≡ no_branch) × (c ≡ fresh_node) ⊎ (w ≡ branch name c)
        → set_handler pattern route c ≡ ok c'
        → any p (wildcard_found d segs params (branch name c'))
          ≡ any p (wildcard_found d segs params w)
            || passes route (some (Dict.insert name (join "/" (map d segs)) params))
    rest-Adds name c pattern segs params (inl (e, f)) h =
        rw (e, handlers-Adds pattern route c c' h _, f) refl
    rest-Adds name c pattern segs params (inr e) h = rw e (handlers-Adds pattern route c c' h _)

    pub param-Adds :
        (name : String) (c : TrieNode H)
        → read_segment x ≡ param name
        → (q ≡ no_branch) × (c ≡ fresh_node) ⊎ (q ≡ branch name c)
        → Adds pats route c c'
        → Adds (x ∷ pats) route (node cs q w hs) (node cs (branch name c') w hs)
    unfolding walk_found binds
    param-Adds name c e old adds [] params = ground arith
    param-Adds name c e old adds (y ∷ ys) params = ground (
      arith,
      any-node y ys params cs (branch name c') w hs,
      any-node y ys params cs q w hs,
      branch-Adds name c y ys params old adds,
      e,
    )

    pub wildcard-Adds :
        (name : String) (c : TrieNode H) (pattern : String)
        → read_segment x ≡ wildcard name
        → pats ≡ []
        → (w ≡ no_branch) × (c ≡ fresh_node) ⊎ (w ≡ branch name c)
        → set_handler pattern route c ≡ ok c'
        → Adds (x ∷ pats) route (node cs q w hs) (node cs q (branch name c') hs)
    unfolding walk_found binds
    wildcard-Adds name c pattern e last old h [] params = ground arith
    wildcard-Adds name c pattern e last old h (y ∷ ys) params = rw last (
        ground (
          arith,
          any-node y ys params cs q (branch name c') hs,
          any-node y ys params cs q w hs,
          rest-Adds name c pattern (y ∷ ys) params old h,
          e,
        ))
