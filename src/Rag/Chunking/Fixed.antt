-- ===== src/Rag/Chunking/Fixed.antt =====
-- About `FixedSizeChunker` of packages/rag/src/chunking/fixed_size_chunker.ts: putting its chunks together.
use strav_1_x.Common.{
  ℕ, zero, suc, ◌+◌, ◌-◌, ◌≤◌, ◌<◌, min, true, false, ◌≡◌, refl, sym, ◌∙◌, List, [], ◌∷◌, ◌++◌,
  append-nil, ok, length, drop, take-append-drop, drop-drop, take-all, length-drop, drop-nil, ltb,
  leb, ◌==◌, arith, Bool-cases, inl, inr,
}
use strav_1_x.Rag.Chunking.{Text, Chunk, slice, windows, chunk_fixed}

-- The contents, each after the first without the characters that it shares with the one before.
abbrev pub rejoin : ℕ → List Chunk → Text
rejoin overlap [] = []
rejoin overlap (c ∷ cs) = c.content ++ drop overlap (rejoin overlap cs)

module _ (chunk_size overlap : ℕ) (content : Text) (small : overlap < chunk_size) where
  windows-rejoin :
      (fuel start index : ℕ)
      → start < length content
      → length content ≤ start + fuel
      → rejoin overlap (windows chunk_size (chunk_size - overlap) content fuel start index)
        ≡ drop start content
  unfolding windows
  windows-rejoin zero start index lt le = absurd (omega (arith, lt, le))
  windows-rejoin (suc fuel) start index lt le =
      elim (Bool-cases (leb (length content) (start + chunk_size))) [
        | inl e ↦
            let inside : ltb start (length content) ≡ true = ground (arith, lt) in
            let end : min (start + chunk_size) (length content) ≡ length content =
              ground (arith, e) in
            let last : (length content == length content) ≡ true = ground arith in
            rw (inside, end, last, drop-nil {A = ℕ} overlap)
              (append-nil (slice start (length content) content)
                ∙ take-all (length content - start) (drop start content)
                    (omega (arith, length-drop start content)))
        | inr e ↦
            let inside : ltb start (length content) ≡ true = ground (arith, lt) in
            let end : min (start + chunk_size) (length content) ≡ start + chunk_size =
              ground (arith, e) in
            let more : (start + chunk_size == length content) ≡ false = ground (arith, e) in
            let width : start + chunk_size - start ≡ chunk_size = omega arith in
            let next : start + (chunk_size - overlap) + overlap ≡ start + chunk_size =
              omega (arith, small) in
            rw
              (
                inside,
                end,
                more,
                width,
                windows-rejoin fuel (start + (chunk_size - overlap)) (suc index)
                    (ground (arith, e, small)) (omega (arith, le, small)),
                drop-drop overlap (start + (chunk_size - overlap)) content,
                next,
                sym (drop-drop chunk_size start content),
              )
              (take-append-drop chunk_size (drop start content))
      ]

-- For sizes that the constructor accepts, the chunks of any content, each after the first without the
-- characters that it shares with the one before, are the content.
pub chunk_fixed-rejoin :
    (chunk_size overlap : ℕ) (content : Text)
    → overlap < chunk_size
    → (cs : List Chunk) × (chunk_fixed chunk_size overlap content ≡ ok cs)
      × (rejoin overlap cs ≡ content)
unfolding chunk_fixed windows
chunk_fixed-rejoin chunk_size overlap [] small = ([], ground (arith, small), refl)
chunk_fixed-rejoin chunk_size overlap (x ∷ xs) small = (
  windows chunk_size (chunk_size - overlap) (x ∷ xs) (length (x ∷ xs)) 0 0,
  ground (arith, small),
  windows-rejoin chunk_size overlap (x ∷ xs) small (length (x ∷ xs)) 0 0 (omega arith)
      (omega arith),
)
