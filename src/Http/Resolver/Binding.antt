-- ===== src/Http/Resolver/Binding.antt =====
-- About `resolveRoute` of packages/http/src/router/route_resolver.ts and the patterns of trie.ts: a resolved
-- path leads back to the parameters.
use mathlib.Core.List.{Memᴰ}
use mathlib.Core.List.Memᴰ
use strav_1_x.Common.{
  append_assoc, append-nil, map, String, true, false, not, ◌≡◌, refl, sym, ap, ◌∙◌, ok-injective,
  Option, none, some, List, [], ◌∷◌, ◌++◌, all, Result, ok, throws, if◌then◌else◌, eq_iff, arith,
  Bool-cases, Option-cases, inl, inr,
}
use strav_1_x.Common.Dict
use strav_1_x.Common.Dict.{Dict}
use strav_1_x.Http.Paths.{
  is_empty, starts_with, ends_with, front_of, read_segment, param, literal, is_optional, expand,
}
use strav_1_x.Http.Trie.Bindings.{binds}
use strav_1_x.Http.Router.{param_name}
use strav_1_x.Http.Resolver.{
  Params, ResolveFault, value_of, filled, segment_text, resolve_segments, pushed,
}

module _ (params : Params) where
  -- The expansion of a pattern that has the optional segments with a value.
  abbrev chosen : List String → List String
  chosen [] = []
  chosen (seg ∷ segs) =
      let rest = chosen segs in
      if is_optional seg
      then (elim (filled (value_of (param_name seg) params)) [
        | none ↦ rest
        | some v ↦ front_of seg ∷ rest
      ])
      else seg ∷ rest

  -- The values of the parameters of a pattern.
  abbrev pub bound : List String → Dict String → Dict String
  bound [] known = known
  bound (seg ∷ segs) known =
      let skipped = bound segs known in
      if starts_with b':' seg
      then (elim (filled (value_of (param_name seg) params)) [
        | none ↦ skipped
        | some v ↦ bound segs (Dict.insert (param_name seg) v known)
      ])
      else skipped

read_segment-front_of :
    (seg : String) → is_optional seg ≡ true → read_segment (front_of seg) ≡ param (param_name seg)
read_segment-front_of String.[] h = absurd cc
read_segment-front_of (String.◌∷◌ c String.[]) h = absurd (ground (arith, h))
read_segment-front_of (String.◌∷◌ c (String.◌∷◌ x s)) h = ground (arith, h)

filled-nonempty : (o : Option String) (v : String) → filled o ≡ some v → is_empty v ≡ false
filled-nonempty none v h = absurd cc
filled-nonempty (some s) v h = elim (Bool-cases (is_empty s)) [
  | inl e ↦ absurd (ground (arith, h, e))
  | inr e ↦ ground (arith, h, e)
]

pushed-some :
    (s : String) (o : Result ResolveFault (List String)) (out : List String)
    → pushed (some s) o ≡ ok out
    → (rest : List String) × (o ≡ ok rest) × (out ≡ s ∷ rest)
pushed-some s (throws e) out h = absurd cc
pushed-some s (ok rest) out h = (rest, refl, sym (ok-injective (s ∷ rest) out h))

pushed-none :
    (o : Result ResolveFault (List String)) (out : List String)
    → pushed none o ≡ ok out
    → o ≡ ok out
pushed-none (throws e) out h = absurd cc
pushed-none (ok rest) out h = h

-- It is one of the expansions that the trie holds.
expand-chosen :
    (params : Params) (segs p : List String) (ps : List (List String))
    → Memᴰ p ps
    → Memᴰ (p ++ chosen params segs) (expand segs ps)
expand-chosen params [] p ps m = Memᴰ.cast (append-nil p) m
expand-chosen params (seg ∷ segs) p ps m = elim (Bool-cases (is_optional seg)) [
  | inr e ↦ rw e (
      Memᴰ.cast (sym (append_assoc p (seg ∷ []) (chosen params segs))) (
        expand-chosen params segs (p ++ seg ∷ []) (map (λ p. p ++ seg ∷ []) ps)
          (Memᴰ.map (λ p. p ++ seg ∷ []) m)))
  | inl e ↦
      let f : List String → List String = λ p. p ++ front_of seg ∷ [] in
      elim (Option-cases (filled (value_of (param_name seg) params))) [
        | inl k ↦
            rw (e, k)
              (expand-chosen params segs p (map f ps ++ ps) (Memᴰ.append_right (map f ps) m))
        | inr (v, k) ↦
            rw (e, k)
              (Memᴰ.cast (sym (append_assoc p (front_of seg ∷ []) (chosen params segs))) (
                expand-chosen params segs (f p) (map f ps ++ ps)
                  (Memᴰ.append_left ps (Memᴰ.map f m))))
      ]
]

module _ (d : String → String) (xs segs : List String) (known : Dict String) where
  binds-literal :
      (seg : String)
      → read_segment seg ≡ literal seg
      → binds d (seg ∷ xs) (seg ∷ segs) known ≡ binds d xs segs known
  unfolding binds
  binds-literal seg e = ground (arith, e, eq_iff seg seg)

  binds-param :
      (x name seg : String)
      → read_segment x ≡ param name
      → is_empty seg ≡ false
      → binds d (x ∷ xs) (seg ∷ segs) known ≡ binds d xs segs (Dict.insert name (d seg) known)
  unfolding binds
  binds-param x name seg e n = ground (arith, e, n)

read_segment-colon :
    (seg : String)
    → starts_with b':' seg ≡ true
    → ends_with b'?' seg ≡ false
    → read_segment seg ≡ param (param_name seg)
read_segment-colon String.[] e q = absurd cc
read_segment-colon (String.◌∷◌ c s) e q = ground (arith, e, q)

read_segment-plain :
    (seg : String)
    → starts_with b':' seg ≡ false
    → starts_with b'*' seg ≡ false
    → read_segment seg ≡ literal seg
read_segment-plain seg e q = ground (arith, e, q)

module _ (params : Params) (seg : String) (segs : List String) (v : String)
    (e : starts_with b':' seg ≡ true) (k : filled (value_of (param_name seg) params) ≡ some v) where
  chosen-filled :
      (x : String) × (chosen params (seg ∷ segs) ≡ x ∷ chosen params segs)
      × (read_segment x ≡ param (param_name seg))
  chosen-filled = elim (Bool-cases (ends_with b'?' seg)) [
    | inl q ↦
        let h : is_optional seg ≡ true = ground (arith, e, q) in
        (front_of seg, rw (h, k) refl, read_segment-front_of seg h)
    | inr q ↦
        let h : is_optional seg ≡ false = ground (arith, e, q) in
        (seg, rw h refl, read_segment-colon seg e q)
  ]

  bound-filled :
      (known : Dict String)
      → bound params (seg ∷ segs) known ≡ bound params segs (Dict.insert (param_name seg) v known)
  bound-filled known = rw (e, k) refl

module _ (encode d : String → String) (decodes : (v : String) → d (encode v) ≡ v)
    (encodes : (v : String) → is_empty v ≡ false → is_empty (encode v) ≡ false) (name : String)
    (params : Params) where
  resolve_segments-cons :
      (seg : String) (segs out : List String) (o : Option String)
      → segment_text encode name params seg ≡ ok o
      → resolve_segments encode name params (seg ∷ segs) ≡ ok out
      → pushed o (resolve_segments encode name params segs) ≡ ok out
  unfolding resolve_segments
  resolve_segments-cons seg segs out o e h = ground (arith, e, h)

  resolve_segments-binds :
      (segs out : List String) (known : Dict String)
      → all (λ s. not (starts_with b'*' s)) segs ≡ true
      → resolve_segments encode name params segs ≡ ok out
      → binds d (chosen params segs) out known ≡ some (bound params segs known)
  unfolding resolve_segments binds
  resolve_segments-binds [] out known w h = rw (sym (ok-injective [] out h)) refl
  resolve_segments-binds (seg ∷ segs) out known w h = elim (Bool-cases (starts_with b':' seg)) [
    | inr e ↦
        let star : starts_with b'*' seg ≡ false = ground (arith, w) in
        let others : all (λ s. not (starts_with b'*' s)) segs ≡ true = ground (arith, w) in
        let (rest, r, o) =
          pushed-some seg (resolve_segments encode name params segs) out
            (resolve_segments-cons seg segs out (some seg) (rw (e, star) refl) h) in
        rw (e, o)
          (binds-literal d (chosen params segs) rest known seg (read_segment-plain seg e star)
            ∙ resolve_segments-binds segs rest known others r)
    | inl e ↦
        let others : all (λ s. not (starts_with b'*' s)) segs ≡ true = ground (arith, w) in
        elim (Option-cases (filled (value_of (param_name seg) params))) [
          | inl k ↦ elim (Bool-cases (ends_with b'?' seg)) [
            | inl q ↦
                rw (e, k, q)
                  (resolve_segments-binds segs out known others (
                    pushed-none (resolve_segments encode name params segs) out
                      (resolve_segments-cons seg segs out none (rw (e, k, q) refl) h)))
            | inr q ↦ absurd (ground (arith, h, e, k, q))
          ]
          | inr (v, k) ↦
              let (rest, r, o) =
                pushed-some (encode v) (resolve_segments encode name params segs) out
                  (resolve_segments-cons seg segs out (some (encode v)) (rw (e, k) refl) h) in
              let (x, c, y) = chosen-filled params seg segs v e k in
              ap (λ cs. binds d cs out known) c
              ∙ ap (λ o. binds d (x ∷ chosen params segs) o known) o
              ∙ binds-param d (chosen params segs) rest known x (param_name seg) (encode v) y
                  (encodes v (filled-nonempty (value_of (param_name seg) params) v k))
              ∙ ap (λ t. binds d (chosen params segs) rest (Dict.insert (param_name seg) t known))
                  (decodes v)
              ∙ resolve_segments-binds segs rest (Dict.insert (param_name seg) v known) others r
              ∙ ap some (sym (bound-filled params seg segs v e k known))
        ]
  ]

  -- The texts that `resolveRoute` makes of a pattern's segments, none of them a wildcard, are taken by one
  -- of the pattern's expansions, which binds the values that its parameters were given and no others, if
  -- decoding undoes the encoding and no value is encoded as the empty text.
  pub resolve_segments-taken :
      (segs out : List String)
      → all (λ s. not (starts_with b'*' s)) segs ≡ true
      → resolve_segments encode name params segs ≡ ok out
      → (p : List String) × Memᴰ p (expand segs ([] ∷ []))
        × (binds d p out [] ≡ some (bound params segs []))
  resolve_segments-taken segs out w h = (
    chosen params segs,
    expand-chosen params segs [] ([] ∷ []) (Memᴰ.head refl),
    resolve_segments-binds segs out [] w h,
  )
