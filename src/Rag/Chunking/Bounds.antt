-- ===== src/Rag/Chunking/Bounds.antt =====
-- About `RecursiveChunker` of packages/rag/src/chunking/recursive_chunker.ts: how long its chunks are.
use strav_1_x.Common.{
  leb→le, ℕ, zero, suc, ◌+◌, ◌-◌, ◌≤◌, ◌<◌, false, ◌≡◌, List, [], ◌∷◌, ◌++◌, ok, length, drop,
  length-take, All, All-append, ltb, leb, if◌then◌else◌, arith, Bool-cases, inl, inr,
}
use strav_1_x.Rag.Chunking.{
  Text, Chunk, hard_cut, pushed, merge_part, merge_parts, split_recursive, raw_spans, overlapped,
  build_chunks, chunk_recursive, split_by, no_text, or_at, index_of,
}

not-lt : (m n : ℕ) → ltb n m ≡ false → m ≤ n
not-lt m n e = ground (arith, e)

module _ (chunk_size : ℕ) where
  abbrev Fits : Text → Type 0
  Fits piece = length piece ≤ chunk_size

  hard_cut-Fits : (fuel : ℕ) (text : Text) → All Fits (hard_cut chunk_size fuel text)
  unfolding hard_cut
  hard_cut-Fits zero text = tt
  hard_cut-Fits (suc fuel) [] = tt
  hard_cut-Fits (suc fuel) (c ∷ cs) =
      (length-take chunk_size (c ∷ cs), hard_cut-Fits fuel (drop chunk_size (c ∷ cs)))

  pushed-Fits :
      (merged : List Text) (current : Text)
      → All Fits merged
      → Fits current
      → All Fits (pushed merged current)
  pushed-Fits merged [] h k = h
  pushed-Fits merged (c ∷ cs) h k = All-append Fits merged ((c ∷ cs) ∷ []) h (k, tt)

  abbrev Fit : List Text × Text → Type 0
  Fit state = All Fits state.0 × Fits state.1

  module _ (separator : Text) (deeper : Text → List Text)
      (deep : (t : Text) → All Fits (deeper t)) where
    merge_part-Fit :
        (part : Text) (state : List Text × Text)
        → Fit state
        → Fit (merge_part chunk_size separator deeper part state)
    merge_part-Fit part state (h, k) =
        let candidate = if no_text state.1 then part else state.1 ++ separator ++ part in
        elim (Bool-cases (leb (length candidate) chunk_size)) [
          | inl e ↦ rw e (h, leb→le (length candidate) chunk_size e)
          | inr e ↦ elim (Bool-cases (ltb chunk_size (length part))) [
            | inl f ↦
                rw (e, f)
                  (
                    All-append Fits (pushed state.0 state.1) (deeper part)
                        (pushed-Fits state.0 state.1 h k) (deep part),
                    omega arith,
                  )
            | inr f ↦ rw (e, f) (pushed-Fits state.0 state.1 h k, not-lt (length part) chunk_size f)
          ]
        ]

    merge_parts-Fits :
        (parts : List Text) (state : List Text × Text)
        → Fit state
        → All Fits (merge_parts chunk_size separator deeper parts state)
    unfolding merge_parts
    merge_parts-Fits [] state (h, k) = pushed-Fits state.0 state.1 h k
    merge_parts-Fits (part ∷ parts) state h =
        merge_parts-Fits parts (merge_part chunk_size separator deeper part state)
          (merge_part-Fit part state h)

  split_recursive-Fits :
      (separators : List Text) (text : Text) → All Fits (split_recursive chunk_size separators text)
  unfolding split_recursive
  split_recursive-Fits [] text = elim (Bool-cases (leb (length text) chunk_size)) [
    | inl e ↦ rw e (leb→le (length text) chunk_size e, tt)
    | inr e ↦ rw e (hard_cut-Fits (length text) text)
  ]
  split_recursive-Fits (separator ∷ more) text = elim (Bool-cases (leb (length text) chunk_size)) [
    | inl e ↦ rw e (leb→le (length text) chunk_size e, tt)
    | inr e ↦ elim (Bool-cases (no_text separator)) [
      | inl f ↦ rw (e, f) (hard_cut-Fits (length text) text)
      | inr f ↦
          rw (e, f)
            (merge_parts-Fits separator (λ part. split_recursive chunk_size more part)
              (λ part. split_recursive-Fits more part) (split_by separator 0 text) ([], [])
              (tt, omega arith))
    ]
  ]

  -- A chunk of these sizes.
  abbrev pub IsShort : ℕ → Chunk → Type 0
  IsShort overlap c =
      (length c.content ≤ chunk_size + overlap)
      × (c.end_offset - c.start_offset ≤ chunk_size + overlap)

  build_chunks-IsShort :
      (overlap : ℕ) (content : Text) (pieces : List Text) (cursor index : ℕ)
      → All Fits pieces
      → All (IsShort overlap) (build_chunks overlap content (raw_spans content pieces cursor) index)
  build_chunks-IsShort overlap content [] cursor index h = tt
  build_chunks-IsShort overlap content (piece ∷ pieces) cursor index (h, hs) =
      let start = or_at cursor (index_of piece cursor (drop cursor content)) in
      let back : start ≤ overlapped overlap index start + overlap = ground arith in
      (
        (
          omega (
            arith,
            length-take (start + length piece - overlapped overlap index start)
                (drop (overlapped overlap index start) content),
            back,
            h,
          ),
          omega (arith, back, h),
        ),
        build_chunks-IsShort overlap content pieces (start + length piece) (suc index) hs,
      )

-- For sizes that the constructor accepts, any separators and any content: no chunk, and no span of its
-- offsets, is longer than the chunk size and the overlap together.
pub chunk_recursive-bounds :
    (chunk_size overlap : ℕ) (separators : List Text) (content : Text)
    → overlap < chunk_size
    → (cs : List Chunk) × (chunk_recursive chunk_size overlap separators content ≡ ok cs)
      × All (IsShort chunk_size overlap) cs
unfolding chunk_recursive
chunk_recursive-bounds chunk_size overlap separators [] small = ([], ground (arith, small), tt)
chunk_recursive-bounds chunk_size overlap separators (c ∷ cs) small = (
  build_chunks overlap (c ∷ cs)
      (raw_spans (c ∷ cs) (split_recursive chunk_size separators (c ∷ cs)) 0) 0,
  ground (arith, small),
  build_chunks-IsShort chunk_size overlap (c ∷ cs) (split_recursive chunk_size separators (c ∷ cs))
      0 0 (split_recursive-Fits chunk_size separators (c ∷ cs)),
)
