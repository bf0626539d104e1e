-- ===== src/Queue/Worker/Backoff.antt =====
-- About `exponentialBackoff` of packages/queue/src/worker.ts: how far the jitter goes.
use strav_1_x.Common.{ℕ, ◌+◌, ◌*◌, ◌/◌, ◌^◌, ◌≤◌, ◌<◌, min, arith, Bool-cases, leb, inl, inr}
use native.Mathlib.Nat.{mul-le-mul_left, pow-le-pow_right, lt-mul-div-succ, mul-div-le}
use strav_1_x.Queue.Worker.{exponential_backoff}

module _ (n k base : ℕ) (lt : k < n) where
  abbrev jittered : ℕ
  jittered = (2 * (base * (3 * n + 2 * k)) + 4 * n) / (8 * n)

  jittered-above : 3 * base ≤ 4 * jittered + 2
  jittered-above = elim (Bool-cases (leb (3 * base) (4 * jittered + 2))) [
    | inl e ↦ ground (arith, e)
    | inr e ↦
        let short : 4 * jittered + 3 ≤ 3 * base = ground (arith, e) in
        absurd (
          grind (
            arith,
            lt,
            mul-le-mul_left n short,
            lt-mul-div-succ (2 * (base * (3 * n + 2 * k)) + 4 * n) {b = 8 * n} (omega (arith, lt)),
          ))
  ]

  jittered-below : 4 * jittered ≤ 5 * base + 2
  jittered-below = elim (Bool-cases (leb (4 * jittered) (5 * base + 2))) [
    | inl e ↦ ground (arith, e)
    | inr e ↦
        let long : 5 * base + 3 ≤ 4 * jittered = ground (arith, e) in
        let less : k ≤ n = omega (arith, lt) in
        absurd (
          grind (
            arith,
            lt,
            mul-le-mul_left n long,
            mul-le-mul_left base less,
            mul-div-le (2 * (base * (3 * n + 2 * k)) + 4 * n) (8 * n),
          ))
  ]

-- For a random number k / n below 1, the delay of an attempt is within a quarter of its base, which is
-- at most 300, up to rounding, and at least a second: never more than 375 seconds.
pub exponential_backoff-bounds :
    (n k attempt : ℕ)
    → k < n
    → (3 * min 300 (2 ^ attempt) ≤ 4 * exponential_backoff n k attempt + 2)
      × (4 * exponential_backoff n k attempt ≤ 5 * min 300 (2 ^ attempt) + 2)
      × (1 ≤ exponential_backoff n k attempt)
      × (exponential_backoff n k attempt ≤ 375)
unfolding exponential_backoff
exponential_backoff-bounds n k attempt lt =
    let base = min 300 (2 ^ attempt) in
    let big : 1 ≤ 2 ^ attempt =
      pow-le-pow_right {n = 2} (omega arith) {i = 0} {j = attempt} (omega arith) in
    let above = jittered-above n k base lt in
    let below = jittered-below n k base lt in
    (omega (arith, above), omega (arith, below, big), omega arith, omega (arith, below))
