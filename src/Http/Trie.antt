-- ===== src/Http/Trie.antt =====
-- `RouteTrie` of packages/http/src/router/trie.ts. `decodeURIComponent` is an argument: it answers a
-- text or throws. A trie on which an insertion throws is not used again.
pub mod Bindings
pub mod Cases
pub mod Insertion
pub mod Table
pub mod Matching
pub mod Static
pub mod Grows
pub mod Precedence
pub mod Tests
use strav_1_x.Common.{
  String, Bool, true, false, not, ◌&&◌, Option, none, some, List, [], ◌∷◌, ◌++◌, map, includes,
  Result, ok, throws, if◌then◌else◌, str_eq, join,
}
use strav_1_x.Common.Dict
use strav_1_x.Common.Dict.{Dict, lookup}
use strav_1_x.Http.Paths.{
  split_path, Segment, literal, param, wildcard, read_segment, expand_optional_params, is_method,
  is_empty,
}

-- `CompiledRoute`, with handlers of type `H`.
pub record CompiledRoute (H : Type 0) : Type 0 where
  pub method : String
  pub pattern : String
  pub param_names : List String
  pub handler : H
  pub middleware : List String
  pub name : Option String

pub data RouteFault : Type 0 where
  wildcard_not_last : String → RouteFault
  wildcard_conflict param_conflict : String → String → String → RouteFault
  duplicate_route : String → String → RouteFault
  malformed_uri : RouteFault

module _ (H : Type 0) where
  mutual
    -- `TrieNode`: the static children, the parameter, the wildcard and the handlers.
    pub data TrieNode : Type 0 where
      node : Children → Branch → Branch → Dict (CompiledRoute H) → TrieNode

    pub data Children : Type 0 where
      no_more : Children
      child : String → TrieNode → Children → Children

    pub data Branch : Type 0 where
      no_branch : Branch
      branch : String → TrieNode → Branch

  -- A candidate of a walk.
  pub record Found : Type 0 where
    pub route : CompiledRoute H
    pub params : Dict String

  pub data MatchResult : Type 0 where
    found : CompiledRoute H → Dict String → MatchResult
    method_not_allowed : List String → MatchResult
    not_found : MatchResult

abbrev pub and_then :
    {A B : Type 0} → Result RouteFault A → (A → Result RouteFault B) → Result RouteFault B
and_then (throws e) k = throws e
and_then (ok a) k = k a

abbrev pub check_last : String → List String → Result RouteFault (Unit {0})
check_last seg [] = ok tt
check_last seg (s ∷ ss) = throws (wildcard_not_last seg)

abbrev pub decode_all :
    (String → Result RouteFault String) → List String → Result RouteFault (List String)
decode_all decode [] = ok []
decode_all decode (s ∷ ss) =
    and_then (decode s) (λ d. and_then (decode_all decode ss) (λ ds. ok (d ∷ ds)))

-- `[...new Set(…)]`
abbrev pub unique : List String → List String → List String
unique [] seen = seen
unique (s ∷ ss) seen = unique ss (if includes s seen then seen else seen ++ s ∷ [])

module _ {H : Type 0} where
  abbrev pub fresh_node : TrieNode H
  fresh_node = node no_more no_branch no_branch []

  abbrev pub static_child : String → Children H → Option (TrieNode H)
  static_child seg no_more = none
  static_child seg (child s n cs) = if str_eq s seg then some n else static_child seg cs

  -- `staticChildren.set`; an existing child keeps its place.
  abbrev pub set_child : String → TrieNode H → Children H → Children H
  set_child seg new no_more = child seg new no_more
  set_child seg new (child s n cs) =
      let rest = set_child seg new cs in if str_eq s seg then child s new cs else child s n rest

  abbrev pub or_fresh : Option (TrieNode H) → TrieNode H
  or_fresh none = fresh_node
  or_fresh (some n) = n

  -- The node of a branch, made when there is none; another name is a conflict.
  abbrev pub enter : (String → RouteFault) → String → Branch H → Result RouteFault (TrieNode H)
  enter conflict name no_branch = ok fresh_node
  enter conflict name (branch old n) = if str_eq old name then ok n else throws (conflict old)

  abbrev pub set_handler : String → CompiledRoute H → TrieNode H → Result RouteFault (TrieNode H)
  set_handler pattern route (node cs p w hs) = elim (lookup route.method hs) [
    | some old ↦ throws (duplicate_route route.method pattern)
    | none ↦ ok (node cs p w (Dict.insert route.method route hs))
  ]

  -- The loop of `insertExpanded`, from a node on.
  unfoldable pub insert_at :
      List String → String → CompiledRoute H → TrieNode H → Result RouteFault (TrieNode H)
  insert_at [] pattern route n = set_handler pattern route n
  insert_at (seg ∷ segs) pattern route (node cs p w hs) = elim (read_segment seg) [
    | wildcard name ↦ and_then (check_last seg segs) (λ u.
        and_then (enter (λ old. wildcard_conflict old name pattern) name w) (λ n.
          and_then (insert_at segs pattern route n) (λ n'. ok (node cs p (branch name n') hs))))
    | param name ↦
        and_then (enter (λ old. param_conflict old name pattern) name p) (λ n.
          and_then (insert_at segs pattern route n) (λ n'. ok (node cs (branch name n') w hs)))
    | literal s ↦
        and_then (insert_at segs pattern route (or_fresh (static_child s cs)))
          (λ n'. ok (node (set_child s n' cs) p w hs))
  ]

  abbrev pub insert_expanded :
      String → CompiledRoute H → TrieNode H → Result RouteFault (TrieNode H)
  insert_expanded pattern route root = insert_at (split_path pattern) pattern route root

  abbrev pub insert_each :
      List String → CompiledRoute H → TrieNode H → Result RouteFault (TrieNode H)
  insert_each [] route root = ok root
  insert_each (pattern ∷ ps) route root =
      and_then (insert_expanded pattern route root) (λ n. insert_each ps route n)

  unfoldable pub insert : CompiledRoute H → TrieNode H → Result RouteFault (TrieNode H)
  insert route root = insert_each (expand_optional_params route.pattern) route root

  abbrev pub candidates : Dict String → Dict (CompiledRoute H) → List (Found H)
  candidates params hs = map (λ h. record { route = h.1; params = params }) hs

  abbrev pub handlers_of : TrieNode H → Dict (CompiledRoute H)
  handlers_of (node cs p w hs) = hs

  abbrev pub both :
      Result RouteFault (List (Found H))
      → Result RouteFault (List (Found H))
      → Result RouteFault (List (Found H))
  both (throws e) ys = throws e
  both (ok xs) (throws e) = throws e
  both (ok xs) (ok ys) = ok (xs ++ ys)

  abbrev pub pick : String → List (Found H) → Option (Found H)
  pick method [] = none
  pick method (f ∷ fs) = if is_method method f.route.method then some f else pick method fs

  abbrev pub answer : String → List (Found H) → MatchResult H
  answer method [] = not_found
  answer method (f ∷ fs) = elim (pick method (f ∷ fs)) [
    | some c ↦ found c.route c.params
    | none ↦ method_not_allowed (unique (map (λ c. c.route.method) (f ∷ fs)) [])
  ]

  module _ (decode : String → Result RouteFault String) where
    abbrev pub walk_wildcard :
        List String → Dict String → Branch H → Result RouteFault (List (Found H))
    walk_wildcard segs params no_branch = ok []
    walk_wildcard segs params (branch name n) =
        and_then (decode_all decode segs)
          (λ ds. ok (candidates (Dict.insert name (join "/" ds) params) (handlers_of n)))

    unfoldable pub walk :
        List String → Dict String → TrieNode H → Result RouteFault (List (Found H))
    walk [] params (node cs p w hs) = ok (candidates params hs)
    walk (seg ∷ segs) params (node cs p w hs) =
        both (elim (static_child seg cs) [ none ↦ ok [] | some n ↦ walk segs params n ])
          (both
            (elim p [
              | no_branch ↦ ok []
              | branch name n ↦
                  if is_empty seg
                  then ok []
                  else and_then (decode seg) (λ d. walk segs (Dict.insert name d params) n)
            ])
            (walk_wildcard (seg ∷ segs) params w))

    unfoldable pub match_path : String → String → TrieNode H → Result RouteFault (MatchResult H)
    match_path method path root =
        and_then (walk (split_path path) [] root) (λ fs. ok (answer method fs))
