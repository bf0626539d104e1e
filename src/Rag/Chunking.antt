-- ===== src/Rag/Chunking.antt =====
-- packages/rag/src/chunking: `FixedSizeChunker` of fixed_size_chunker.ts and `RecursiveChunker` of
-- recursive_chunker.ts. A text is the list of its code units, so offsets and lengths are those of
-- JavaScript's strings.
pub mod Fixed
pub mod Bounds
pub mod Tests
use strav_1_x.Common.{
  ℕ, zero, suc, ◌+◌, ◌-◌, min, Bool, true, false, ◌&&◌, Option, none, some, List, [], ◌∷◌, ◌++◌,
  Result, ok, throws, length, take, drop, ltb, leb, ◌==◌, if◌then◌else◌,
}

abbrev pub Text : Type 0
Text = List ℕ

pub record Chunk : Type 0 where
  pub content : Text
  pub index : ℕ
  pub start_offset : ℕ
  pub end_offset : ℕ

pub data ChunkerFault : Type 0 where
  size_not_positive overlap_out_of_range : ChunkerFault

-- `content.slice(start, end)`
abbrev pub slice : ℕ → ℕ → Text → Text
slice start end content = take (end - start) (drop start content)

-- The tests of both constructors; a negative overlap is not a number here.
abbrev pub check_sizes : ℕ → ℕ → Result ChunkerFault (Unit {0})
check_sizes chunk_size overlap =
    if chunk_size == 0
    then throws size_not_positive
    else if leb chunk_size overlap
    then throws overlap_out_of_range
    else ok tt

module _ (chunk_size step : ℕ) (content : Text) where
  -- The loop of `FixedSizeChunker.chunk`. A step is not 0, so the content's length is fuel enough.
  unfoldable pub windows : ℕ → ℕ → ℕ → List Chunk
  windows zero start index = []
  windows (suc fuel) start index =
      let rest = windows fuel (start + step) (suc index) in
      let end = min (start + chunk_size) (length content) in
      if ltb start (length content)
      then record {
        content = slice start end content;
        index = index;
        start_offset = start;
        end_offset = end;
      }
        ∷ (if end == length content then [] else rest)
      else []

unfoldable pub chunk_fixed : ℕ → ℕ → Text → Result ChunkerFault (List Chunk)
chunk_fixed chunk_size overlap content = elim (check_sizes chunk_size overlap) [
  | throws e ↦ throws e
  | ok u ↦ ok (windows chunk_size (chunk_size - overlap) content (length content) 0 0)
]

abbrev pub no_text : Text → Bool
no_text [] = true
no_text (c ∷ cs) = false

abbrev pub begins : Text → Text → Bool
begins [] text = true
begins (p ∷ ps) [] = false
begins (p ∷ ps) (c ∷ cs) = (p == c) && begins ps cs

abbrev onto_first : ℕ → List Text → List Text
onto_first c [] = (c ∷ []) ∷ []
onto_first c (t ∷ ts) = (c ∷ t) ∷ ts

-- `text.split(separator)` for a separator that is not empty; `skip` units of it are still to pass.
unfoldable pub split_by : Text → ℕ → Text → List Text
split_by separator skip [] = [] ∷ []
split_by separator (suc skip) (c ∷ cs) = split_by separator skip cs
split_by separator zero (c ∷ cs) =
    let after = split_by separator (length separator - 1) cs in
    let rest = split_by separator 0 cs in
    if begins separator (c ∷ cs) then [] ∷ after else onto_first c rest

-- The first place from `position` on where the piece stands, in the text that is left there.
abbrev pub index_of : Text → ℕ → Text → Option ℕ
index_of piece position [] = if no_text piece then some position else none
index_of piece position (c ∷ cs) =
    let later = index_of piece (suc position) cs in
    if begins piece (c ∷ cs) then some position else later

abbrev pub pushed : List Text → Text → List Text
pushed merged current = if no_text current then merged else merged ++ current ∷ []

module _ (chunk_size : ℕ) where
  -- The text's length is fuel enough, since a size is not 0.
  unfoldable pub hard_cut : ℕ → Text → List Text
  hard_cut zero text = []
  hard_cut (suc fuel) [] = []
  hard_cut (suc fuel) (c ∷ cs) = take chunk_size (c ∷ cs) ∷ hard_cut fuel (drop chunk_size (c ∷ cs))

  -- A round of the loop of `splitRecursive`, on the merged pieces and the current one.
  abbrev pub merge_part : Text → (Text → List Text) → Text → List Text × Text → List Text × Text
  merge_part separator deeper part (merged, current) =
      let candidate = if no_text current then part else current ++ separator ++ part in
      if leb (length candidate) chunk_size
      then (merged, candidate)
      else if ltb chunk_size (length part)
      then (pushed merged current ++ deeper part, [])
      else (pushed merged current, part)

  unfoldable pub merge_parts : Text → (Text → List Text) → List Text → List Text × Text → List Text
  merge_parts separator deeper [] state = pushed state.0 state.1
  merge_parts separator deeper (part ∷ parts) state =
      merge_parts separator deeper parts (merge_part separator deeper part state)

  unfoldable pub split_recursive : List Text → Text → List Text
  split_recursive [] text =
      if leb (length text) chunk_size then text ∷ [] else hard_cut (length text) text
  split_recursive (separator ∷ more) text =
      if leb (length text) chunk_size
      then text ∷ []
      else if no_text separator
      then hard_cut (length text) text
      else merge_parts separator (λ part. split_recursive more part) (split_by separator 0 text)
          ([], [])

-- A piece that is not found is taken to stand at the cursor.
abbrev pub or_at : ℕ → Option ℕ → ℕ
or_at cursor none = cursor
or_at cursor (some start) = start

abbrev pub raw_spans : Text → List Text → ℕ → List (ℕ × ℕ)
raw_spans content [] cursor = []
raw_spans content (piece ∷ pieces) cursor =
    let start = or_at cursor (index_of piece cursor (drop cursor content)) in
    (start, start + length piece) ∷ raw_spans content pieces (start + length piece)

abbrev pub overlapped : ℕ → ℕ → ℕ → ℕ
overlapped overlap index start =
    if overlap == 0 then start else if index == 0 then start else start - overlap

abbrev pub build_chunks : ℕ → Text → List (ℕ × ℕ) → ℕ → List Chunk
build_chunks overlap content [] index = []
build_chunks overlap content ((start, end) ∷ spans) index =
    record {
      content = slice (overlapped overlap index start) end content;
      index = index;
      start_offset = overlapped overlap index start;
      end_offset = end;
    }
    ∷ build_chunks overlap content spans (suc index)

unfoldable pub chunk_recursive : ℕ → ℕ → List Text → Text → Result ChunkerFault (List Chunk)
chunk_recursive chunk_size overlap separators content = elim (check_sizes chunk_size overlap) [
  | throws e ↦ throws e
  | ok u ↦ ok (
      if no_text content
      then []
      else build_chunks overlap content
          (raw_spans content (split_recursive chunk_size separators content) 0) 0)
]
