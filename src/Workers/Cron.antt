-- ===== src/Workers/Cron.antt =====
-- The next time of a run (`get_next_cron_time` and `parse_cron_next` of src/workers/scheduler.rs).
-- A point in time is a number of seconds, with no account of leap seconds; the fraction of the
-- current second is dropped, as the candidates have none. A date of chrono is taken to have a next
-- day. `unwrap` on an hour that does not exist is the outcome `panicked`.
pub mod Future
use ingest_pipeline.Prelude.{
  ℕ, ◌+◌, ◌-◌, ◌*◌, ◌/◌, ◌%◌, ◌&&◌, Option, none, some, List, [], ◌∷◌, ltb, ◌==◌, if◌then◌else◌,
  any,
}
use ingest_pipeline.Prelude.Text.{Text, text, text_eq, split_at, strip_prefix, parse_u32}
use ingest_pipeline.Extract.Title.{split_whitespace}

pub data Outcome : Type 0 where
  at : ℕ → Outcome
  no_time panicked : Outcome

abbrev pub day_seconds : ℕ
day_seconds = 86400

abbrev pub start_of_day : ℕ → ℕ
start_of_day now = now - now % day_seconds

abbrev pub hour_of : ℕ → ℕ
hour_of now = now % day_seconds / 3600

abbrev pub minute_of : ℕ → ℕ
minute_of now = now % 3600 / 60

-- `date.and_hms_opt(hour, minute, 0)`.
unfoldable pub and_hms : ℕ → ℕ → ℕ → Option ℕ
and_hms day hour minute =
    if ltb hour 24 && ltb minute 60 then some (day + hour * 3600 + minute * 60) else none

abbrev or_no_time : Option ℕ → Outcome
or_no_time none = no_time
or_no_time (some t) = at t

abbrev or_panic : Option ℕ → Outcome
or_panic none = panicked
or_panic (some t) = at t

-- The first of the hours, today, that is still to come; an hour that does not exist panics.
unfoldable pub first_hour : ℕ → List ℕ → Outcome
unfolding and_hms
first_hour now [] = no_time
first_hour now (hour ∷ hours) =
    let later = first_hour now hours in
    elim (and_hms (start_of_day now) hour 0) [
      | none ↦ panicked
      | some candidate ↦ if ltb now candidate then at candidate else later
    ]

-- `or else` on the outcome of the search: only `no_time` goes on.
abbrev otherwise : Outcome → Outcome → Outcome
otherwise (at t) next = at t
otherwise no_time next = next
otherwise panicked next = panicked

abbrev tomorrow : ℕ → ℕ
tomorrow now = start_of_day now + day_seconds

abbrev pub default_cron_hours : List ℕ
default_cron_hours = 2 ∷ 6 ∷ 14 ∷ 20 ∷ []

unfoldable pub next_default : ℕ → Outcome
unfolding first_hour
next_default now =
    otherwise (first_hour now default_cron_hours) (or_panic (and_hms (tomorrow now) 2 0))

-- `*/N * * * *`.
unfoldable pub next_minutes : ℕ → ℕ → Outcome
unfolding and_hms
next_minutes now minutes =
    let next_minute = (minute_of now / minutes + 1) * minutes in
    let next_hour = (hour_of now + 1) % 24 in
    if minutes == 0
    then no_time
    else if ltb next_minute 60
    then or_no_time (and_hms (start_of_day now) (hour_of now) next_minute)
    else or_no_time (
        and_hms (if next_hour == 0 then tomorrow now else start_of_day now) next_hour
          (next_minute % 60))

-- `0 H1,H2,… * * *`, with the hours that parse.
unfoldable pub next_hours : ℕ → List ℕ → Outcome
unfolding first_hour
next_hours now [] = no_time
next_hours now (first ∷ rest) =
    otherwise (first_hour now (first ∷ rest)) (or_no_time (and_hms (tomorrow now) first 0))

abbrev numbers_of : List Text → List ℕ
numbers_of [] = []
numbers_of (part ∷ parts) =
    let rest = numbers_of parts in elim (parse_u32 10 part) [ none ↦ rest | some n ↦ n ∷ rest ]

abbrev or_minutes : ℕ → Option ℕ → Outcome
or_minutes now none = no_time
or_minutes now (some minutes) = next_minutes now minutes

-- `trim_start_matches("*/")`.
unfoldable pub trim_stars : Text → Text
trim_stars (c ∷ d ∷ s) =
    let rest = trim_stars s in if c == b'*' && d == b'/' then rest else c ∷ d ∷ s
trim_stars s = s

unfoldable pub by_parts : ℕ → Text → Text → Outcome
unfolding next_minutes next_hours trim_stars split_at strip_prefix parse_u32 text_eq
by_parts now minute hour = elim (strip_prefix (text "*/") minute) [
  | some digits ↦ or_minutes now (parse_u32 10 (trim_stars minute))
  | none ↦
      if text_eq minute (text "0") && any (λ c. c == b',') hour
      then next_hours now (numbers_of (split_at (λ c. c == b',') hour))
      else no_time
]

abbrev of_parts : ℕ → List Text → Outcome
of_parts now (minute ∷ hour ∷ day ∷ month ∷ weekday ∷ []) = by_parts now minute hour
of_parts now _ = no_time

unfoldable pub parse_cron_next : ℕ → Text → Outcome
unfolding by_parts split_whitespace
parse_cron_next now expr = of_parts now (split_whitespace expr)

-- RUN_SCHEDULE, if it is set and gives a time, and else the default hours.
unfoldable pub get_next_cron_time : ℕ → Option Text → Outcome
unfolding parse_cron_next next_default
get_next_cron_time now none = next_default now
get_next_cron_time now (some expr) = otherwise (parse_cron_next now expr) (next_default now)
