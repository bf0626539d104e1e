-- ===== src/Http/Trie/Cases.antt =====
-- About one step of `insertExpanded` of packages/http/src/router/trie.ts: what an insertion that did not
-- throw went through.
use strav_1_x.Common.{
  String, ◌≡◌, ◌⊎◌, refl, none, List, [], ◌∷◌, Result, ok, throws, str_eq, eq_iff, arith, inl, inr,
  Bool-cases, Option-cases, ok-injective,
}
use strav_1_x.Common.Dict
use strav_1_x.Common.Dict.{Dict, lookup}
use strav_1_x.Http.Paths.{Segment, literal, param, wildcard, read_segment}
use strav_1_x.Http.Trie.{
  CompiledRoute, RouteFault, TrieNode, Children, Branch, node, branch, no_branch, static_child,
  set_child, or_fresh, enter, insert_at, and_then, fresh_node, check_last, set_handler,
  wildcard_conflict, param_conflict,
}

pub and_then-ok :
    {A B : Type 0} (o : Result RouteFault A) (k : A → Result RouteFault B) (b : B)
    → and_then o k ≡ ok b
    → (a : A) × (o ≡ ok a) × (k a ≡ ok b)
and_then-ok (ok a) k b h = (a, refl, h)
and_then-ok (throws e) k b h = absurd cc

pub enter-ok :
    {H : Type 0} (conflict : String → RouteFault) (name : String) (b : Branch H) (n : TrieNode H)
    → enter conflict name b ≡ ok n
    → (b ≡ no_branch) × (n ≡ fresh_node) ⊎ (b ≡ branch name n)
enter-ok conflict name no_branch n h = inl (refl, cc)
enter-ok conflict name (branch old m) n h = elim (Bool-cases (str_eq old name)) [
  | inl e ↦ inr (ground (arith, h, e, eq_iff old name))
  | inr e ↦ absurd (ground (arith, h, e))
]

pub set_handler-ok :
    {H : Type 0} (pattern : String) (route : CompiledRoute H) (cs : Children H) (q w : Branch H)
    (hs : Dict (CompiledRoute H)) (n' : TrieNode H)
    → set_handler pattern route (node cs q w hs) ≡ ok n'
    → (lookup route.method hs ≡ none) × (n' ≡ node cs q w (Dict.insert route.method route hs))
set_handler-ok pattern route cs q w hs n' h = elim (Option-cases (lookup route.method hs)) [
  | inl e ↦ (e, ground (arith, h, e))
  | inr (old, e) ↦ absurd (ground (arith, h, e))
]

pub Segment-cases :
    (seg : Segment)
    → ((s : String) × (seg ≡ literal s))
      ⊎ ((name : String) × (seg ≡ param name))
      ⊎ ((name : String) × (seg ≡ wildcard name))
Segment-cases (literal s) = inl (s, refl)
Segment-cases (param name) = inr (inl (name, refl))
Segment-cases (wildcard name) = inr (inr (name, refl))

check_last-ok :
    (seg : String) (segs : List String) (u : Unit {0}) → check_last seg segs ≡ ok u → segs ≡ []
check_last-ok seg [] u h = refl
check_last-ok seg (s ∷ ss) u h = absurd cc

module _ {H : Type 0} (x : String) (xs : List String) (pattern : String) (route : CompiledRoute H)
    (cs : Children H) (q w : Branch H) (hs : Dict (CompiledRoute H)) (n' : TrieNode H) where
  -- A branch that was entered.
  abbrev pub Entered : Branch H → String → TrieNode H → Type 0
  Entered b name c = (b ≡ no_branch) × (c ≡ fresh_node) ⊎ (b ≡ branch name c)

  abbrev pub ByLiteral : Type 0
  ByLiteral =
      (t : String) × (read_segment x ≡ literal t)
      × (c' : TrieNode H) × (insert_at xs pattern route (or_fresh (static_child t cs)) ≡ ok c')
      × (node (set_child t c' cs) q w hs ≡ n')

  abbrev pub ByParam : Type 0
  ByParam =
      (name : String) × (read_segment x ≡ param name)
      × (c : TrieNode H) × (c' : TrieNode H) × Entered q name c
      × (insert_at xs pattern route c ≡ ok c')
      × (node cs (branch name c') w hs ≡ n')

  abbrev pub ByWildcard : Type 0
  ByWildcard =
      (name : String) × (read_segment x ≡ wildcard name)
      × (c : TrieNode H) × (c' : TrieNode H) × Entered w name c
      × (xs ≡ [])
      × (set_handler pattern route c ≡ ok c')
      × (node cs q (branch name c') hs ≡ n')

  pub insert_at-cases :
      insert_at (x ∷ xs) pattern route (node cs q w hs) ≡ ok n' → ByLiteral ⊎ ByParam ⊎ ByWildcard
  unfolding insert_at
  insert_at-cases h = elim (Segment-cases (read_segment x)) [
    | inl (t, e) ↦
        let (c', hc, hn) =
          and_then-ok (insert_at xs pattern route (or_fresh (static_child t cs)))
            (λ n'. ok (node (set_child t n' cs) q w hs)) n' (rw (e, insert_at) at h) in
        inl (t, e, c', hc, ok-injective (node (set_child t c' cs) q w hs) n' hn)
    | inr (inl (name, e)) ↦
        let (c, hc, h1) =
          and_then-ok (enter (λ old. param_conflict old name pattern) name q)
            (λ n.
              and_then (insert_at xs pattern route n) (λ n'. ok (node cs (branch name n') w hs)))
            n' (rw (e, insert_at) at h) in
        let (c', hc', hn) =
          and_then-ok (insert_at xs pattern route c) (λ n'. ok (node cs (branch name n') w hs)) n'
            h1 in
        inr (
          inl (
            name,
            e,
            c,
            c',
            enter-ok (λ old. param_conflict old name pattern) name q c hc,
            hc',
            ok-injective (node cs (branch name c') w hs) n' hn,
          ))
    | inr (inr (name, e)) ↦
        let (u, hl, h0) =
          and_then-ok (check_last x xs)
            (λ u. and_then (enter (λ old. wildcard_conflict old name pattern) name w) (λ n.
              and_then (insert_at xs pattern route n) (λ n'. ok (node cs q (branch name n') hs))))
            n' (rw (e, insert_at) at h) in
        let (c, hc, h1) =
          and_then-ok (enter (λ old. wildcard_conflict old name pattern) name w)
            (λ n.
              and_then (insert_at xs pattern route n) (λ n'. ok (node cs q (branch name n') hs)))
            n' h0 in
        let (c', hc', hn) =
          and_then-ok (insert_at xs pattern route c) (λ n'. ok (node cs q (branch name n') hs)) n'
            h1 in
        let last = check_last-ok x xs u hl in
        inr (
          inr (
            name,
            e,
            c,
            c',
            enter-ok (λ old. wildcard_conflict old name pattern) name w c hc,
            last,
            rw last at hc',
            ok-injective (node cs q (branch name c') hs) n' hn,
          ))
  ]
