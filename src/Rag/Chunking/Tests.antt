-- ===== src/Rag/Chunking/Tests.antt =====
-- The chunkers at small inputs; a text is written by the letters' codes.
use strav_1_x.Common.{◌≡◌, refl, arith, List, [], ◌∷◌, ok, throws, All, map, Result}
use strav_1_x.Rag.Chunking.{
  Text, Chunk, ChunkerFault, windows, chunk_fixed, hard_cut, merge_parts, split_recursive, split_by,
  chunk_recursive, overlap_out_of_range,
}
use strav_1_x.Rag.Chunking.Fixed.{rejoin, chunk_fixed-rejoin}
use strav_1_x.Rag.Chunking.Bounds.{IsShort, chunk_recursive-bounds}

opened : Unit {0}
unfolding windows chunk_fixed hard_cut merge_parts split_recursive split_by chunk_recursive
opened = tt

abbrev contents : Result ChunkerFault (List Chunk) → List Text
contents (ok cs) = map (λ c. c.content) cs
contents (throws e) = []

fixed :
    contents (chunk_fixed 3 1 (1 ∷ 2 ∷ 3 ∷ 4 ∷ 5 ∷ 6 ∷ []))
    ≡ (1 ∷ 2 ∷ 3 ∷ []) ∷ (3 ∷ 4 ∷ 5 ∷ []) ∷ (5 ∷ 6 ∷ []) ∷ []
unfolding opened
fixed = refl

-- Words of 2 and 3 letters, and one that is cut.
abbrev words : Text
words = 1 ∷ 1 ∷ 32 ∷ 2 ∷ 2 ∷ 2 ∷ 32 ∷ 3 ∷ 3 ∷ 3 ∷ 3 ∷ 3 ∷ 3 ∷ 3 ∷ []

by_words :
    contents (chunk_recursive 6 0 ((32 ∷ []) ∷ []) words)
    ≡ (1 ∷ 1 ∷ 32 ∷ 2 ∷ 2 ∷ 2 ∷ []) ∷ (3 ∷ 3 ∷ 3 ∷ 3 ∷ 3 ∷ 3 ∷ []) ∷ (3 ∷ []) ∷ []
unfolding opened
by_words = refl

with_overlap :
    contents (chunk_recursive 6 2 ((32 ∷ []) ∷ []) words)
    ≡ (1 ∷ 1 ∷ 32 ∷ 2 ∷ 2 ∷ 2 ∷ []) ∷ (2 ∷ 32 ∷ 3 ∷ 3 ∷ 3 ∷ 3 ∷ 3 ∷ 3 ∷ []) ∷ (3 ∷ 3 ∷ 3 ∷ []) ∷ []
unfolding opened
with_overlap = refl

too_wide : chunk_fixed 3 3 words ≡ throws overlap_out_of_range
unfolding opened
too_wide = refl

chunk_fixed-rejoin_example :
    (cs : List Chunk) × (chunk_fixed 3 1 words ≡ ok cs) × (rejoin 1 cs ≡ words)
chunk_fixed-rejoin_example = chunk_fixed-rejoin 3 1 words (omega arith)

chunk_recursive-bounds_example :
    (cs : List Chunk) × (chunk_recursive 6 2 ((32 ∷ []) ∷ []) words ≡ ok cs) × All (IsShort 6 2) cs
chunk_recursive-bounds_example = chunk_recursive-bounds 6 2 ((32 ∷ []) ∷ []) words (omega arith)
