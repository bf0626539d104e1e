-- ===== src/Queue/Cron/Ranges.antt =====
-- About the loop of a segment of packages/queue/src/cron.ts.
use native.Mathlib.Nat.{mod-eq-sub-mod, mod-eq_of_lt}
use strav_1_x.Common.{
  ℕ, zero, suc, ◌+◌, ◌-◌, ◌%◌, ◌<◌, ◌≡◌, refl, Bool, ◌&&◌, ◌||◌, List, [], ◌∷◌, ◌++◌, arith, leb,
  ◌==◌, Bool-cases, inl, inr, leb→le,
}
use strav_1_x.Queue.Cron.{has, add_to, Range, add_values, add_range}

has-append : (v : ℕ) (xs ys : List ℕ) → has v (xs ++ ys) ≡ has v xs || has v ys
has-append v [] ys = refl
has-append v (x ∷ xs) ys = ground (arith, has-append v xs ys)

has-add_to : (v w : ℕ) (out : List ℕ) → has v (add_to w out) ≡ (w == v) || has v out
has-add_to v w out = ground (arith, has-append v out (w ∷ []))

-- `v` is one of `start`, `start + step`, …, up to `last`.
abbrev pub in_range : Range → ℕ → Bool
in_range r v = leb r.start v && (leb v r.last && ((v - r.start) % r.step == 0))

-- A range of a positive step is its start and the range from the next step.
sub-sub : (v start step : ℕ) → (v - start) - step ≡ v - (start + step)
sub-sub v start step = omega arith

in_range-step :
    (v start step : ℕ)
    → 0 < step
    → leb start v && ((v - start) % step == 0)
      ≡ (start == v) || (leb (start + step) v && ((v - (start + step)) % step == 0))
in_range-step v start step pos = elim (Bool-cases (leb (start + step) v)) [
  | inl beyond ↦ ground (
    arith,
    beyond,
    pos,
    mod-eq-sub-mod {n = v - start} {m = step} (omega (arith, leb→le (start + step) v beyond)),
    sub-sub v start step,
  )
  | inr short ↦ elim (Bool-cases (leb start v)) [
    | inl from ↦ ground (
      arith,
      short,
      from,
      pos,
      mod-eq_of_lt {n = v - start} {m = step} (ground (arith, short, pos)),
    )
    | inr before ↦ ground (arith, short, before, pos)
  ]
]

has-add_values :
    (fuel v start last step : ℕ) (out : List ℕ)
    → last < start + fuel
    → 0 < step
    → has v (add_values fuel start last step out)
      ≡ (leb start v && (leb v last && ((v - start) % step == 0))) || has v out
unfolding add_values
has-add_values zero v start last step out enough pos = ground (arith, enough)
has-add_values (suc fuel) v start last step out enough pos = ground (
  arith,
  enough,
  pos,
  in_range-step v start step pos,
  has-add_values fuel v (start + step) last step (add_to start out) (omega (arith, enough, pos))
      pos,
  has-add_to v start out,
)

-- A segment's loop adds the numbers of its range and keeps the others.
pub has-add_range :
    (v : ℕ) (r : Range) (out : List ℕ)
    → 0 < r.step
    → has v (add_range r out) ≡ in_range r v || has v out
has-add_range v r out pos = has-add_values _ v r.start r.last r.step out (omega arith) pos
