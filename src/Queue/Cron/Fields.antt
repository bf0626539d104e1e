-- ===== src/Queue/Cron/Fields.antt =====
-- About `parseField` of packages/queue/src/cron.ts: the numbers that a field accepts.
use mathlib.Core.Path.{subst}
use native.Mathlib.Nat.{zero-mod}
use strav_1_x.Common.{
  ℕ, zero, suc, ◌≤◌, ◌<◌, ◌≡◌, refl, Bool, true, false, ◌||◌, Option, none, some, List, [], ◌∷◌,
  arith, Result, ok, throws, ◌==◌, any, le→leb, ◌-◌, Result-cases, Bool-cases, inl, inr, sym, ◌∙◌,
}
use strav_1_x.Queue.Cron.{
  Fault, FieldSpec, has, cut, split, Range, positive_step, read_step, read_base, check_bounds,
  with_step, read_segment, read_whole, add_range, parse_segments, parse_field,
}
use strav_1_x.Queue.Cron.Ranges.{in_range, has-add_range}

-- A range within the bounds of the field, with a step that moves.
record IsWithin (spec : FieldSpec) (r : Range) : Type 0 where
  above : spec.min ≤ r.start
  below : r.last ≤ spec.max
  ordered : r.start ≤ r.last
  moves : 0 < r.step

positive_step-lt : (o : Option ℕ) (n : ℕ) → positive_step o ≡ ok n → 0 < n
positive_step-lt none n h = absurd cc
positive_step-lt (some zero) n h = absurd cc
positive_step-lt (some (suc k)) n h = ground (arith, h)

read_step-lt : (o : Option (List ℕ)) (n : ℕ) → read_step o ≡ ok n → 0 < n
read_step-lt none n h = ground (arith, h)
read_step-lt (some text) n h = positive_step-lt (read_whole text) n h

check_bounds-IsWithin :
    (spec : FieldSpec) (step : ℕ) (ends : ℕ × ℕ) (r : Range)
    → 0 < step
    → check_bounds spec step ends ≡ ok r
    → IsWithin spec r
check_bounds-IsWithin spec step (start, last) r pos h = record {
  above = ground (arith, h);
  below = ground (arith, h);
  ordered = ground (arith, h);
  moves = ground (arith, h, pos);
}

with_step-IsWithin :
    (spec : FieldSpec) (base : List ℕ) (o : Result Fault ℕ) (r : Range)
    → ((n : ℕ) → o ≡ ok n → 0 < n)
    → with_step spec base o ≡ ok r
    → IsWithin spec r
with_step-IsWithin spec base (throws e) r pos = λ h. absurd cc
with_step-IsWithin spec base (ok step) r pos = elim (Result-cases (read_base spec base)) [
  | inl (ends, e) ↦ rw (e, with_step) (check_bounds-IsWithin spec step ends r (pos step refl))
  | inr (f, e) ↦ rw (e, with_step) (λ h. absurd cc)
]

read_segment-IsWithin :
    (spec : FieldSpec) (segment : List ℕ) (r : Range)
    → read_segment spec segment ≡ ok r
    → IsWithin spec r
unfolding read_segment
read_segment-IsWithin spec segment r h =
    with_step-IsWithin spec (cut b'/' segment).0 (read_step (cut b'/' segment).1) r
      (read_step-lt (cut b'/' segment).1) h

-- The numbers that a segment stands for.
abbrev pub denotes : Result Fault Range → ℕ → Bool
denotes (ok r) v = in_range r v
denotes (throws e) v = false

has-parse_segments :
    (spec : FieldSpec) (ss : List (List ℕ)) (out out' : List ℕ) (v : ℕ)
    → parse_segments spec ss out ≡ ok out'
    → has v out' ≡ any (λ s. denotes (read_segment spec s) v) ss || has v out
unfolding parse_segments
has-parse_segments spec [] out out' v = λ h. ground (arith, h)
has-parse_segments spec (s ∷ ss) out out' v = elim (Result-cases (read_segment spec s)) [
  | inr (f, e) ↦ rw (e, parse_segments) (λ h. absurd cc)
  | inl (r, e) ↦
      rw (e, parse_segments)
        (λ h. ground (
          arith,
          has-parse_segments spec ss (add_range r out) out' v h,
          has-add_range v r out (read_segment-IsWithin spec s r e).moves,
        ))
]

-- A field that parses accepts exactly the numbers that one of its segments stands for: the steps
-- from the start of a range, up to its end.
pub has-parse_field :
    (spec : FieldSpec) (part out : List ℕ) (v : ℕ)
    → parse_field spec part ≡ ok out
    → has v out ≡ any (λ s. denotes (read_segment spec s) v) (split b',' part)
unfolding parse_field
has-parse_field spec [] out v h = absurd cc
has-parse_field spec (c ∷ cs) out v h =
    ground (arith, has-parse_segments spec (split b',' (c ∷ cs)) [] out v h)

denotes-within :
    (spec : FieldSpec) (s : List ℕ) (v : ℕ)
    → denotes (read_segment spec s) v ≡ true
    → (spec.min ≤ v) × (v ≤ spec.max)
denotes-within spec s v = elim (Result-cases (read_segment spec s)) [
  | inl (r, e) ↦
      let w = read_segment-IsWithin spec s r e in
      rw e (λ h. (ground (arith, h, w.above), ground (arith, h, w.below)))
  | inr (f, e) ↦ rw e (λ h. absurd cc)
]

any-within :
    (spec : FieldSpec) (ss : List (List ℕ)) (v : ℕ)
    → any (λ s. denotes (read_segment spec s) v) ss ≡ true
    → (spec.min ≤ v) × (v ≤ spec.max)
any-within spec [] v h = absurd cc
any-within spec (s ∷ ss) v h = elim (Bool-cases (denotes (read_segment spec s) v)) [
  | inl e ↦ denotes-within spec s v e
  | inr e ↦ any-within spec ss v (ground (arith, h, e))
]

-- A field accepts no number out of its bounds.
pub parse_field-bounds :
    (spec : FieldSpec) (part out : List ℕ) (v : ℕ)
    → parse_field spec part ≡ ok out
    → has v out ≡ true
    → (spec.min ≤ v) × (v ≤ spec.max)
parse_field-bounds spec part out v h accepted =
    any-within spec (split b',' part) v (sym (has-parse_field spec part out v h) ∙ accepted)

split_cons : (c : ℕ) (xs : List ℕ) → (p : List ℕ) × (ps : List (List ℕ)) × (split c xs ≡ p ∷ ps)
unfolding split
split_cons c [] = ([], [], refl)
split_cons c (x ∷ xs) = elim (Bool-cases (x == c)) [
  | inl e ↦ ([], split c xs, ground (arith, e))
  | inr e ↦ let (p, ps, eq) = split_cons c xs in (x ∷ p, ps, ground (arith, e, eq))
]

same-sub : (n : ℕ) → n - n ≡ 0
same-sub n = omega arith

in_range-start : (spec : FieldSpec) (r : Range) → IsWithin spec r → in_range r r.start ≡ true
in_range-start spec r w =
    ground (arith, w.ordered, zero-mod r.step, le→leb r.start r.last w.ordered, same-sub r.start)

first_accepts :
    (spec : FieldSpec) (s : List ℕ) (ss : List (List ℕ)) (out : List ℕ)
    → parse_segments spec (s ∷ ss) [] ≡ ok out
    → (v : ℕ) × (denotes (read_segment spec s) v ≡ true)
unfolding parse_segments
first_accepts spec s ss out = elim (Result-cases (read_segment spec s)) [
  | inl (r, e) ↦ λ h. (r.start, rw e (in_range-start spec r (read_segment-IsWithin spec s r e)))
  | inr (f, e) ↦ rw (e, parse_segments) (λ h. absurd cc)
]

-- A field that parses accepts some number.
pub parse_field-accepts :
    (spec : FieldSpec) (part out : List ℕ)
    → parse_field spec part ≡ ok out
    → (v : ℕ) × (has v out ≡ true)
unfolding parse_field
parse_field-accepts spec [] out h = absurd cc
parse_field-accepts spec (c ∷ cs) out h =
    let (p, ps, eq) = split_cons b',' (c ∷ cs) in
    let (v, yes_v) =
      first_accepts spec p ps out (subst (λ k. parse_segments spec k [] ≡ ok out) eq h) in
    (v, has-parse_field spec (c ∷ cs) out v h ∙ ground (arith, eq, yes_v))
