-- ===== src/Http/Resolver.antt =====
-- `resolveRoute` of packages/http/src/router/route_resolver.ts: the URL of a named route. `encode` is
-- `encodeURIComponent`; the values are texts already, and an undefined or null one is none. The entries of
-- `params` are in the order of `Object.entries`.
pub mod Binding
pub mod Tests
use strav_1_x.Common.{
  String, Bool, true, false, Option, none, some, List, [], ◌∷◌, map, includes, Result, ok, throws,
  if◌then◌else◌, ◌+++◌, join,
}
use strav_1_x.Common.Dict.{Dict, lookup}
use strav_1_x.Http.Paths.{is_empty, starts_with, ends_with, rest_of, split}
use strav_1_x.Http.Trie.{CompiledRoute, TrieNode}
use strav_1_x.Http.Router.{Router, RouterFault, param_name}
use strav_1_x.Http.Router.Compile.{named}

pub data ResolveFault : Type 0 where
  router_fault : RouterFault → ResolveFault
  unknown_name : String → ResolveFault
  missing_param missing_wildcard : String → String → ResolveFault
  no_host : String → ResolveFault

pub record ResolveOptions : Type 0 where
  pub abs : Bool
  pub host : Option String
  pub protocol : Option String

abbrev pub Params : Type 0
Params = Dict (Option String)

-- `params[name]`
abbrev pub value_of : String → Params → Option String
value_of name params = elim (lookup name params) [ none ↦ none | some v ↦ v ]

-- An empty text is no value.
abbrev pub filled : Option String → Option String
filled none = none
filled (some s) = if is_empty s then none else some s

abbrev pub consumed : List String → List String
consumed [] = []
consumed (seg ∷ segs) =
    let more = consumed segs in
    if starts_with b':' seg
    then param_name seg ∷ more
    else if starts_with b'*' seg
    then rest_of seg ∷ more
    else more

abbrev pub pushed :
    Option String → Result ResolveFault (List String) → Result ResolveFault (List String)
pushed o (throws e) = throws e
pushed none (ok out) = ok out
pushed (some s) (ok out) = ok (s ∷ out)

module _ (encode : String → String) where
  abbrev pub param_text : String → String → Option String → Result ResolveFault (Option String)
  param_text name seg (some v) = ok (some (encode v))
  param_text name seg none =
      if ends_with b'?' seg then ok none else throws (missing_param name (param_name seg))

  abbrev pub wildcard_text : String → String → Option String → Result ResolveFault (Option String)
  wildcard_text name seg (some v) = ok (some (join "/" (map encode (split v))))
  wildcard_text name seg none = throws (missing_wildcard name (rest_of seg))

  -- What the loop pushes for a segment.
  abbrev pub segment_text : String → Params → String → Result ResolveFault (Option String)
  segment_text name params seg =
      if starts_with b':' seg
      then param_text name seg (filled (value_of (param_name seg) params))
      else if starts_with b'*' seg
      then wildcard_text name seg (value_of (rest_of seg) params)
      else ok (some seg)

  -- The loop over the segments.
  unfoldable pub resolve_segments :
      String → Params → List String → Result ResolveFault (List String)
  resolve_segments name params [] = ok []
  resolve_segments name params (seg ∷ segs) =
      let rest = resolve_segments name params segs in
      elim (segment_text name params seg) [ throws e ↦ throws e | ok o ↦ pushed o rest ]

  abbrev query_entries : List String → Params → List String
  query_entries used [] = []
  query_entries used ((k, none) ∷ params) = query_entries used params
  query_entries used ((k, some v) ∷ params) =
      let more = query_entries used params in
      if includes k used then more else (encode k +++ "=" +++ encode v) ∷ more

  abbrev with_query : String → List String → String
  with_query path [] = path
  with_query path (e ∷ es) = path +++ "?" +++ join "&" (e ∷ es)

  abbrev rooted : String → String
  rooted path = if starts_with b'/' path then path else "/" +++ path

  abbrev or_https : Option String → String
  or_https none = "https"
  or_https (some p) = p

  abbrev absolute : String → ResolveOptions → String → Result ResolveFault String
  absolute name options path =
      if options.abs
      then (elim (filled options.host) [
        | none ↦ throws (no_host name)
        | some host ↦ ok (or_https options.protocol +++ "://" +++ host +++ path)
      ])
      else ok path

  abbrev resolved :
      String
      → Params
      → ResolveOptions
      → List String
      → Result ResolveFault (List String)
      → Result ResolveFault String
  resolved name params options segs (throws e) = throws e
  resolved name params options segs (ok out) =
      absolute name options
        (with_query (rooted (join "/" out)) (query_entries (consumed segs) params))

  module _ {H : Type 0} where
    abbrev resolve_found :
        String
        → Params
        → ResolveOptions
        → Result RouterFault (Option (CompiledRoute H))
        → Result ResolveFault String
    resolve_found name params options (throws e) = throws (router_fault e)
    resolve_found name params options (ok none) = throws (unknown_name name)
    resolve_found name params options (ok (some c)) =
        resolved name params options (split c.pattern)
          (resolve_segments name params (split c.pattern))

    unfoldable pub resolve_route :
        String → Params → ResolveOptions → Router H → Result ResolveFault String × Router H
    resolve_route name params options r =
        let (found, r') = named name r in (resolve_found name params options found, r')
