-- ===== src/Queue/Cron/Cadences.antt =====
-- The constructors for common cadences of packages/queue/src/cron.ts.
use strav_1_x.Common.{
  ℕ, zero, suc, ◌+◌, ◌-◌, ◌*◌, ◌<◌, ◌/◌, ◌%◌, ◌≡◌, true, ◌&&◌, ◌||◌, List, [], ◌∷◌, ◌++◌, Option,
  none, some, Result, ok, throws, leb, ltb, if◌then◌else◌, arith,
}
use strav_1_x.Common.Numerals.{digits, is_digit}
use strav_1_x.Queue.Cron.{CronExpression, Fault, cron}

-- What a constructor throws: its own error, or that of the expression.
pub data CadenceFault : Type 0 where
  not_positive bad_time time_out_of_range : CadenceFault
  expression_fault : Fault → CadenceFault

abbrev pub expression : List ℕ → Result CadenceFault CronExpression
expression text = elim (cron text) [ ok e ↦ ok e | throws f ↦ throws (expression_fault f) ]

-- `" * * * *"`
abbrev pub any_hour : List ℕ
any_hour = 32 ∷ b'*' ∷ 32 ∷ b'*' ∷ 32 ∷ b'*' ∷ 32 ∷ b'*' ∷ []

unfoldable pub every_minute : Result CadenceFault CronExpression
every_minute = expression (b'*' ∷ any_hour)

-- A number of minutes that is no positive integer is given as 0.
unfoldable pub every_minutes : ℕ → Result CadenceFault CronExpression
every_minutes zero = throws not_positive
every_minutes (suc n) = expression (b'*' ∷ b'/' ∷ digits (suc n) ++ any_hour)

unfoldable pub hourly : Result CadenceFault CronExpression
hourly = expression (b'0' ∷ any_hour)

-- `${minute} ${hour} * * *`
abbrev pub at_time : ℕ → ℕ → List ℕ
at_time minute hour = digits minute ++ 32 ∷ digits hour ++ 32 ∷ b'*' ∷ 32 ∷ b'*' ∷ 32 ∷ b'*' ∷ []

unfoldable pub daily : Result CadenceFault CronExpression
daily = expression (at_time 0 0)

abbrev pub in_day : ℕ → ℕ → Result CadenceFault CronExpression
in_day hour minute =
    if ltb 23 hour || ltb 59 minute
    then throws time_out_of_range
    else expression (at_time minute hour)

abbrev pub two_digits : ℕ → ℕ → ℕ
two_digits a b = (a - b'0') * 10 + (b - b'0')

-- `/^(\d{1,2}):(\d{2})$/`: the hour and the minute.
unfoldable pub match_time : List ℕ → Option (ℕ × ℕ)
match_time (a ∷ c ∷ x ∷ y ∷ []) =
    if is_digit a && (leb c b':' && leb b':' c) && (is_digit x && is_digit y)
    then some (a - b'0', two_digits x y)
    else none
match_time (a ∷ b ∷ c ∷ x ∷ y ∷ []) =
    if is_digit a && (is_digit b && (leb c b':' && leb b':' c)) && (is_digit x && is_digit y)
    then some (two_digits a b, two_digits x y)
    else none
match_time _ = none

unfoldable pub daily_at : List ℕ → Result CadenceFault CronExpression
daily_at time = elim (match_time time) [
  | none ↦ throws bad_time
  | some (hour, minute) ↦ in_day hour minute
]

-- A number below 100 in two digits.
abbrev pub in_two : ℕ → List ℕ
in_two n = (b'0' + n / 10) ∷ (b'0' + n % 10) ∷ []

is_digit-plus : (d : ℕ) → d < 10 → is_digit (b'0' + d) ≡ true
is_digit-plus d h = ground (arith, h)

two_digits-in_two : (n : ℕ) → two_digits (b'0' + n / 10) (b'0' + n % 10) ≡ n
two_digits-in_two n = omega arith

match_time-in_two :
    (hour minute : ℕ)
    → hour < 100
    → minute < 100
    → match_time (in_two hour ++ b':' ∷ in_two minute) ≡ some (hour, minute)
unfolding match_time
match_time-in_two hour minute h m = ground (
  arith,
  is_digit-plus (hour / 10) (omega (arith, h)),
  is_digit-plus (hour % 10) (omega arith),
  is_digit-plus (minute / 10) (omega (arith, m)),
  is_digit-plus (minute % 10) (omega arith),
  two_digits-in_two hour,
  two_digits-in_two minute,
)

-- A time of the day, written with two digits each, gives the expression of its minute and its hour;
-- later hours and minutes of two digits are refused.
daily_at-in_two :
    (hour minute : ℕ)
    → hour < 100
    → minute < 100
    → daily_at (in_two hour ++ b':' ∷ in_two minute) ≡ (
        if ltb hour 24 && ltb minute 60
        then expression (at_time minute hour)
        else throws time_out_of_range)
unfolding daily_at
daily_at-in_two hour minute h m = ground (arith, match_time-in_two hour minute h m)
