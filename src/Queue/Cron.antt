-- ===== src/Queue/Cron.antt =====
-- packages/queue/src/cron.ts: cron expressions of five fields. Texts are lists of code points, a set of
-- numbers is the list of its elements. The texts of the errors are left out.
pub mod Ranges
pub mod Fields
pub mod Matches
pub mod Cadences
pub mod Tests
use strav_1_x.Common.{
  ℕ, zero, suc, ◌+◌, ◌-◌, Bool, true, false, ◌&&◌, ◌||◌, Option, none, some, List, [], ◌∷◌, ◌++◌,
  Result, ok, throws, leb, ltb, ◌==◌, if◌then◌else◌, length,
}
use strav_1_x.Common.Numerals.{read_digits, digits}

pub data Fault : Type 0 where
  wrong_field_count empty_field bad_step bad_range bad_value out_of_range start_after_end : Fault

-- A field of `FIELDS`, without its name.
pub record FieldSpec : Type 0 where
  pub min : ℕ
  pub max : ℕ

abbrev pub minute : FieldSpec
minute = record { min = 0; max = 59 }

abbrev pub hour : FieldSpec
hour = record { min = 0; max = 23 }

abbrev pub day_of_month : FieldSpec
day_of_month = record { min = 1; max = 31 }

abbrev pub month : FieldSpec
month = record { min = 1; max = 12 }

abbrev pub day_of_week : FieldSpec
day_of_week = record { min = 0; max = 6 }

abbrev pub has : ℕ → List ℕ → Bool
has v [] = false
has v (x ∷ xs) = (x == v) || has v xs

-- `set.add(v)`
abbrev pub add_to : ℕ → List ℕ → List ℕ
add_to v out = if has v out then out else out ++ v ∷ []

abbrev pub same : List ℕ → List ℕ → Bool
same [] [] = true
same (x ∷ xs) (y ∷ ys) = (x == y) && same xs ys
same _ _ = false

-- `Number.parseInt` of a text that `String` gives back: a numeral without leading zeros. (A sign
-- never gets here.)
unfoldable pub read_whole : List ℕ → Option ℕ
read_whole cs = let n = (read_digits 0 cs).0 in if same (digits n) cs then some n else none

-- A text before and after the first `c`, when there is one: `indexOf` and two slices.
unfoldable pub cut : ℕ → List ℕ → List ℕ × Option (List ℕ)
cut c [] = ([], none)
cut c (x ∷ xs) =
    let (before, after) = cut c xs in if x == c then ([], some xs) else (x ∷ before, after)

abbrev first_part : List ℕ → List (List ℕ) → List (List ℕ)
first_part x [] = x ∷ []
first_part x (p ∷ ps) = (x ++ p) ∷ ps

-- `text.split(c)`
unfoldable pub split : ℕ → List ℕ → List (List ℕ)
split c [] = [] ∷ []
split c (x ∷ xs) = let ps = split c xs in if x == c then [] ∷ ps else first_part (x ∷ []) ps

-- `start`, `end` and `step` of a segment.
pub record Range : Type 0 where
  pub start : ℕ
  pub last : ℕ
  pub step : ℕ

-- `step` is one that is positive.
abbrev pub positive_step : Option ℕ → Result Fault ℕ
positive_step (some (suc n)) = ok (suc n)
positive_step _ = throws bad_step

abbrev pub read_step : Option (List ℕ) → Result Fault ℕ
read_step none = ok 1
read_step (some text) = positive_step (read_whole text)

abbrev pub both : Option ℕ → Option ℕ → Result Fault (ℕ × ℕ)
both (some a) (some b) = ok (a, b)
both _ _ = throws bad_range

-- The first two parts of a split at `-`; further ones are not looked at.
abbrev pub read_ends : List (List ℕ) → Result Fault (ℕ × ℕ)
read_ends (a ∷ b ∷ more) = both (read_whole a) (read_whole b)
read_ends _ = throws bad_range

abbrev pub one_value : Option ℕ → Result Fault (ℕ × ℕ)
one_value none = throws bad_value
one_value (some n) = ok (n, n)

abbrev pub read_base : FieldSpec → List ℕ → Result Fault (ℕ × ℕ)
read_base spec base =
    if same base (b'*' ∷ [])
    then ok (spec.min, spec.max)
    else if has b'-' base
    then read_ends (split b'-' base)
    else one_value (read_whole base)

abbrev pub check_bounds : FieldSpec → ℕ → ℕ × ℕ → Result Fault Range
check_bounds spec step (start, last) =
    if ltb start spec.min || ltb spec.max last
    then throws out_of_range
    else if ltb last start
    then throws start_after_end
    else ok (record { start = start; last = last; step = step })

abbrev pub with_step : FieldSpec → List ℕ → Result Fault ℕ → Result Fault Range
with_step spec base (throws e) = throws e
with_step spec base (ok step) = elim (read_base spec base) [
  | throws e ↦ throws e
  | ok ends ↦ check_bounds spec step ends
]

-- `parseSegment` up to its loop.
unfoldable pub read_segment : FieldSpec → List ℕ → Result Fault Range
read_segment spec segment =
    let (base, step) = cut b'/' segment in with_step spec base (read_step step)

-- `for (let v = start; v <= end; v += step) into.add(v)`, on fuel.
unfoldable pub add_values : ℕ → ℕ → ℕ → ℕ → List ℕ → List ℕ
add_values zero v last step out = out
add_values (suc fuel) v last step out =
    let rest = add_values fuel (v + step) last step (add_to v out) in
    if leb v last then rest else out

-- The loop runs at most once for each number from `start` to `last`.
abbrev pub add_range : Range → List ℕ → List ℕ
add_range r out = add_values (suc r.last - r.start) r.start r.last r.step out

abbrev pub parse_segment : FieldSpec → List ℕ → List ℕ → Result Fault (List ℕ)
parse_segment spec segment out = elim (read_segment spec segment) [
  | throws e ↦ throws e
  | ok r ↦ ok (add_range r out)
]

-- The loop over the segments.
unfoldable pub parse_segments : FieldSpec → List (List ℕ) → List ℕ → Result Fault (List ℕ)
parse_segments spec [] out = ok out
parse_segments spec (s ∷ ss) out = elim (parse_segment spec s out) [
  | throws e ↦ throws e
  | ok more ↦ parse_segments spec ss more
]

unfoldable pub parse_field : FieldSpec → List ℕ → Result Fault (List ℕ)
parse_field spec [] = throws empty_field
parse_field spec (c ∷ cs) = parse_segments spec (split b',' (c ∷ cs)) []

abbrev pub is_space : ℕ → Bool
is_space c = (c == 32) || (leb 9 c && leb c 13)

-- The runs of characters that are no space, in `trim().split(/\s+/)`: of the rest of the text, and
-- whether the character before it belongs to the first of them.
unfoldable pub words : List ℕ → List (List ℕ) × Bool
words [] = ([], false)
words (c ∷ cs) =
    let (ws, joins) = words cs in
    if is_space c
    then (ws, false)
    else if joins
    then (first_part (c ∷ []) ws, true)
    else ((c ∷ []) ∷ ws, true)

-- The accepted numbers of each field.
pub record CronExpression : Type 0 where
  pub minutes : List ℕ
  pub hours : List ℕ
  pub days_of_month : List ℕ
  pub months : List ℕ
  pub days_of_week : List ℕ

-- The UTC components of a date; months are from 0.
pub record DateUtc : Type 0 where
  pub minutes : ℕ
  pub hours : ℕ
  pub date : ℕ
  pub month_index : ℕ
  pub day : ℕ

infixl 5 ◌>>=◌
abbrev pub ◌>>=◌ : {A B : Type 0} → Result Fault A → (A → Result Fault B) → Result Fault B
◌>>=◌ (ok a) f = f a
◌>>=◌ (throws e) f = throws e

unfoldable pub parse_fields : List (List ℕ) → Result Fault CronExpression
parse_fields (a ∷ b ∷ c ∷ d ∷ e ∷ []) = do
  minutes ← parse_field minute a
  hours ← parse_field hour b
  days_of_month ← parse_field day_of_month c
  months ← parse_field month d
  days_of_week ← parse_field day_of_week e
  ok (record {
    minutes = minutes;
    hours = hours;
    days_of_month = days_of_month;
    months = months;
    days_of_week = days_of_week;
  })
parse_fields _ = throws wrong_field_count

-- The constructor.
unfoldable pub cron : List ℕ → Result Fault CronExpression
cron expression = parse_fields (words expression).0

unfoldable pub matches : CronExpression → DateUtc → Bool
matches e d =
    has d.minutes e.minutes
    && (has d.hours e.hours
        && (has d.date e.days_of_month
            && (has (suc d.month_index) e.months && has d.day e.days_of_week)))
