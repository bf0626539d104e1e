-- ===== src/Queue/Cron/Matches.antt =====
-- About `matches` of packages/queue/src/cron.ts.
use strav_1_x.Common.{
  ℕ, suc, ◌≡◌, refl, Bool, false, ◌&&◌, List, [], ◌∷◌, arith, Result, ok, throws, any,
}
use strav_1_x.Queue.Cron.{
  Fault, FieldSpec, split, read_segment, parse_field, parse_fields, cron, matches, CronExpression,
  DateUtc, words, minute, hour, day_of_month, month, day_of_week, ◌>>=◌,
}
use strav_1_x.Queue.Cron.Fields.{denotes, has-parse_field}

-- One of the segments of a field stands for the number.
abbrev pub accepts : FieldSpec → List ℕ → ℕ → Bool
accepts spec part v = any (λ s. denotes (read_segment spec s) v) (split b',' part)

abbrev pub accepts_date : List (List ℕ) → DateUtc → Bool
accepts_date (a ∷ b ∷ c ∷ d ∷ e ∷ []) date =
    accepts minute a date.minutes
    && (accepts hour b date.hours
        && (accepts day_of_month c date.date
            && (accepts month d (suc date.month_index) && accepts day_of_week e date.day)))
accepts_date _ date = false

bind_inverse :
    {A B : Type 0} (o : Result Fault A) (f : A → Result Fault B) (b : B)
    → (o >>= f) ≡ ok b
    → (a : A) × (o ≡ ok a) × (f a ≡ ok b)
bind_inverse (ok a) f b h = (a, refl, h)
bind_inverse (throws e) f b h = absurd cc

matches-parse_fields :
    (ps : List (List ℕ)) (x : CronExpression) (date : DateUtc)
    → parse_fields ps ≡ ok x
    → matches x date ≡ accepts_date ps date
unfolding parse_fields matches
matches-parse_fields (a ∷ b ∷ c ∷ d ∷ e ∷ []) x date h =
    let (ms, p, h1) = bind_inverse (parse_field minute a) _ x h in
    let (hs, q, h2) = bind_inverse (parse_field hour b) _ x h1 in
    let (ds, r, h3) = bind_inverse (parse_field day_of_month c) _ x h2 in
    let (ns, s, h4) = bind_inverse (parse_field month d) _ x h3 in
    let (ws, t, h5) = bind_inverse (parse_field day_of_week e) _ x h4 in
    ground (
      arith,
      h5,
      has-parse_field minute a ms date.minutes p,
      has-parse_field hour b hs date.hours q,
      has-parse_field day_of_month c ds date.date r,
      has-parse_field month d ns (suc date.month_index) s,
      has-parse_field day_of_week e ws date.day t,
    )
matches-parse_fields [] x date h = absurd cc
matches-parse_fields (a ∷ []) x date h = absurd cc
matches-parse_fields (a ∷ b ∷ []) x date h = absurd cc
matches-parse_fields (a ∷ b ∷ c ∷ []) x date h = absurd cc
matches-parse_fields (a ∷ b ∷ c ∷ d ∷ []) x date h = absurd cc
matches-parse_fields (a ∷ b ∷ c ∷ d ∷ e ∷ f ∷ more) x date h = absurd cc

-- An expression that parses matches a date if and only if each of its five fields has a segment
-- that stands for the date's minute, hour, day, month from 1, and day of the week.
pub matches-cron :
    (expression : List ℕ) (x : CronExpression) (date : DateUtc)
    → cron expression ≡ ok x
    → matches x date ≡ accepts_date (words expression).0 date
unfolding cron
matches-cron expression x date h = matches-parse_fields (words expression).0 x date h
