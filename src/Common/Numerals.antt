-- ===== src/Common/Numerals.antt =====
-- Decimal numerals as lists of code points.
use Prim.Native.Nat.{ℕ, zero, suc, ◌+◌, ◌-◌, ◌*◌, ◌/◌, ◌%◌, ◌<◌}
use mathlib.Core.Path.{◌≡◌, refl, ap, ◌∙◌}
use mathlib.Core.Logic.{inl, inr}
use mathlib.Core.Bool.{Bool, false, ◌&&◌}
use mathlib.Core.List.{List, [], ◌∷◌, ◌++◌, append_assoc}
use native.Mathlib.Omega.{arith}
use strav_1_x.Common.Tests.{leb, ltb, ltb→lt, Bool-cases, if◌then◌else◌}

abbrev pub is_digit : ℕ → Bool
is_digit c = leb b'0' c && leb c b'9'

-- `\d*`, and the number that it spells after the digits that were read: `n` is theirs.
unfoldable pub read_digits : ℕ → List ℕ → ℕ × List ℕ
read_digits n [] = (n, [])
read_digits n (c ∷ cs) =
    let rest = read_digits (n * 10 + (c - b'0')) cs in if is_digit c then rest else (n, c ∷ cs)

-- The decimal digits of a number, as long as the fuel lasts.
unfoldable pub digits_from : ℕ → ℕ → List ℕ
digits_from zero n = []
digits_from (suc fuel) n =
    let more = digits_from fuel (n / 10) in
    if ltb n 10 then (b'0' + n) ∷ [] else more ++ (b'0' + n % 10) ∷ []

-- `String(n)`
abbrev pub digits : ℕ → List ℕ
digits n = digits_from (suc n) n

-- No digit stands here.
abbrev pub IsStop : List ℕ → Type 0
IsStop [] = Unit
IsStop (c ∷ cs) = is_digit c ≡ false

pub read_stop : (n : ℕ) (cs : List ℕ) → IsStop cs → read_digits n cs ≡ (n, cs)
unfolding read_digits
read_stop n [] h = refl
read_stop n (c ∷ cs) h = ground (arith, h)

read_one :
    (m d : ℕ) (cs : List ℕ) → d < 10 → read_digits m ((b'0' + d) ∷ cs) ≡ read_digits (m * 10 + d) cs
unfolding read_digits
read_one m d cs h = ground (arith, h)

-- With 0 read so far, the digits of a number are read as the number.
pub read_digits-digits :
    (fuel n : ℕ) (cs : List ℕ)
    → n < fuel
    → read_digits 0 (digits_from fuel n ++ cs) ≡ read_digits n cs
unfolding digits_from
read_digits-digits zero n cs h = absurd (omega arith)
read_digits-digits (suc fuel) n cs h = elim (Bool-cases (ltb n 10)) [
  | inl small ↦
      rw small (read_one 0 n cs (ltb→lt n 10 small) ∙ ap (λ k. read_digits k cs) (omega arith))
  | inr big ↦
      rw
        (
          big,
          append_assoc (digits_from fuel (n / 10)) ((b'0' + n % 10) ∷ []) cs,
          read_digits-digits fuel (n / 10) ((b'0' + n % 10) ∷ cs) (ground (arith, big, h)),
          read_one (n / 10) (n % 10) cs (omega arith),
        )
        (ap (λ k. read_digits k cs) (omega arith))
]
