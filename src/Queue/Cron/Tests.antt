-- ===== src/Queue/Cron/Tests.antt =====
-- Cron expressions at small inputs.
use Prim.Native.Char.{code}
use strav_1_x.Common.{ℕ, String, ◌≡◌, ◌≤◌, refl, true, List, [], ◌∷◌, ok, throws}
use strav_1_x.Common.Numerals.{read_digits, digits_from}
use strav_1_x.Queue.Cron.{
  has, cut, split, add_values, read_segment, read_whole, parse_segments, parse_field, parse_fields,
  cron, words, matches, DateUtc, CronExpression, minute, hour, out_of_range,
}
use strav_1_x.Queue.Cron.Fields.{has-parse_field, parse_field-bounds}
use strav_1_x.Queue.Cron.Cadences.{every_minutes, daily_at, match_time}
use strav_1_x.Queue.Cron.Matches.{matches-cron, accepts_date}

unfoldable text_of : String → List ℕ
text_of String.[] = []
text_of (String.◌∷◌ c s) = code c ∷ text_of s

opened : Unit {0}
unfolding text_of cut split add_values read_segment read_whole parse_segments parse_field
    parse_fields cron words matches read_digits digits_from
opened = tt

quarters : parse_field minute (text_of "*/15,3") ≡ ok (0 ∷ 15 ∷ 30 ∷ 45 ∷ 3 ∷ [])
unfolding opened
quarters = refl

no_sixty : parse_field minute (text_of "60") ≡ throws out_of_range
unfolding opened
no_sixty = refl

-- The third part of a range is not looked at.
three_parts : parse_field hour (text_of "1-3-9") ≡ ok (1 ∷ 2 ∷ 3 ∷ [])
unfolding opened
three_parts = refl

has-parse_field_example : has 30 (0 ∷ 15 ∷ 30 ∷ 45 ∷ 3 ∷ []) ≡ true
unfolding opened
has-parse_field_example =
    has-parse_field minute (text_of "*/15,3") (0 ∷ 15 ∷ 30 ∷ 45 ∷ 3 ∷ []) 30 refl

parse_field-bounds_example : (0 ≤ 3) × (3 ≤ 59)
unfolding opened
parse_field-bounds_example =
    parse_field-bounds minute (text_of "*/15,3") (0 ∷ 15 ∷ 30 ∷ 45 ∷ 3 ∷ []) 3 refl refl

abbrev weekday_morning : CronExpression
weekday_morning = record {
  minutes = 30 ∷ [];
  hours = 9 ∷ [];
  days_of_month = 1 ∷ 2 ∷ [];
  months = 6 ∷ [];
  days_of_week = 1 ∷ 2 ∷ 3 ∷ 4 ∷ 5 ∷ [];
}

abbrev first_of_june : DateUtc
first_of_june = record { minutes = 30; hours = 9; date = 1; month_index = 5; day = 1 }

matches-cron_example : true ≡ accepts_date (words (text_of " 30 9  1,2 6 1-5")).0 first_of_june
unfolding opened
matches-cron_example = matches-cron (text_of " 30 9  1,2 6 1-5") weekday_morning first_of_june refl

abbrev star_hours : CronExpression
star_hours = record {
  minutes = [];
  hours =
      0 ∷ 1 ∷ 2 ∷ 3 ∷ 4 ∷ 5 ∷ 6 ∷ 7 ∷ 8 ∷ 9 ∷ 10 ∷ 11 ∷ 12 ∷ 13 ∷ 14 ∷ 15 ∷ 16 ∷ 17 ∷ 18 ∷ 19 ∷ 20
      ∷ 21 ∷ 22 ∷ 23 ∷ [];
  days_of_month =
      1 ∷ 2 ∷ 3 ∷ 4 ∷ 5 ∷ 6 ∷ 7 ∷ 8 ∷ 9 ∷ 10 ∷ 11 ∷ 12 ∷ 13 ∷ 14 ∷ 15 ∷ 16 ∷ 17 ∷ 18 ∷ 19 ∷ 20 ∷ 21
      ∷ 22 ∷ 23 ∷ 24 ∷ 25 ∷ 26 ∷ 27 ∷ 28 ∷ 29 ∷ 30 ∷ 31 ∷ [];
  months = 1 ∷ 2 ∷ 3 ∷ 4 ∷ 5 ∷ 6 ∷ 7 ∷ 8 ∷ 9 ∷ 10 ∷ 11 ∷ 12 ∷ [];
  days_of_week = 0 ∷ 1 ∷ 2 ∷ 3 ∷ 4 ∷ 5 ∷ 6 ∷ [];
}

every_twenty : every_minutes 20 ≡ ok (record star_hours { minutes = 0 ∷ 20 ∷ 40 ∷ [] })
unfolding opened every_minutes
every_twenty = refl

half_past_two :
    daily_at (text_of "14:30") ≡ ok (record star_hours { minutes = 30 ∷ []; hours = 14 ∷ [] })
unfolding opened daily_at match_time
half_past_two = refl
