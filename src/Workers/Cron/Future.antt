-- ===== src/Workers/Cron/Future.antt =====
-- The next time of a run against the times that a schedule names (src/workers/scheduler.rs).
use ingest_pipeline.Prelude.{
  inr, ==_iff, sym, subst, inl, Bool-cases, true, ◌==◌, ◌*◌, ◌-◌, any, ◌+◌, All, [], ◌/◌, ◌∷◌, List,
  ℕ, ◌%◌, ◌≤◌, ◌<◌, ◌≡◌, arith, ◌⊎◌,
}
use ingest_pipeline.Workers.Cron.{
  minute_of, next_hours, next_minutes, Outcome, at, no_time, panicked, next_default,
}

-- The outcome is the first time after `now` that satisfies a predicate.
abbrev pub IsNext : (ℕ → Type 0) → ℕ → Outcome → Type 0
IsNext P now (at t) = (now < t) × P t × ((u : ℕ) → now < u → P u → t ≤ u)
IsNext P now no_time = ⊥
IsNext P now panicked = ⊥

-- 2, 6, 14 and 20 o'clock.
abbrev pub IsDefaultTime : ℕ → Type 0
IsDefaultTime t =
    (t % 86400 ≡ 7200) ⊎ (t % 86400 ≡ 21600) ⊎ (t % 86400 ≡ 50400) ⊎ (t % 86400 ≡ 72000)

-- Without RUN_SCHEDULE the next run is at the first of 2, 6, 14 and 20 o'clock after now.
pub next_default-IsNext : (now : ℕ) → IsNext IsDefaultTime now (next_default now)
unfolding next_default
next_default-IsNext now = ground arith

-- The numbers of minutes that divide an hour.
abbrev pub divisors : List ℕ
divisors = 1 ∷ 2 ∷ 3 ∷ 4 ∷ 5 ∷ 6 ∷ 10 ∷ 12 ∷ 15 ∷ 20 ∷ 30 ∷ 60 ∷ []

-- Where `*/N` fires: at the start of a minute of the hour that N divides.
abbrev pub IsMinuteTime : ℕ → ℕ → Type 0
IsMinuteTime n t = (t % 60 ≡ 0) × (t % 3600 / 60 % n ≡ 0)

divisors-IsNext : (now : ℕ) → All (λ n. IsNext (IsMinuteTime n) now (next_minutes now n)) divisors
unfolding next_minutes
divisors-IsNext now = (
  ground arith,
  (
    ground arith,
    (
      ground arith,
      (
        ground arith,
        (
          ground arith,
          (
            ground arith,
            (
              ground arith,
              (ground arith, (ground arith, (ground arith, (ground arith, (ground arith, tt))))),
            ),
          ),
        ),
      ),
    ),
  ),
)

All-any : (P : ℕ → Type 0) (n : ℕ) (ds : List ℕ) → All P ds → any (λ d. n == d) ds ≡ true → P n
All-any P n [] all h = cc
All-any P n (d ∷ ds) all h = elim (Bool-cases (n == d)) [
  | inl e ↦ subst P (sym ((==_iff n d).0 e)) all.0
  | inr e ↦ All-any P n ds all.1 (rw e at h)
]

-- For a number of minutes that divides an hour, `*/N` gives the first minute after now that N
-- divides.
pub next_minutes-IsNext :
    (now n : ℕ)
    → any (λ d. n == d) divisors ≡ true
    → IsNext (IsMinuteTime n) now (next_minutes now n)
next_minutes-IsNext now n h =
    All-any (λ d. IsNext (IsMinuteTime d) now (next_minutes now d)) n divisors (divisors-IsNext now)
      h

-- A time in the future, at most two hours ahead.
abbrev pub IsSoon : ℕ → Outcome → Type 0
IsSoon now (at t) = (now < t) × (t ≤ now + 7200)
IsSoon now no_time = ⊥
IsSoon now panicked = ⊥

multiple_above : (m n : ℕ) → 0 < n → (m < (m / n + 1) * n) × ((m / n + 1) * n ≤ m + n)
multiple_above m n h = grind arith

-- For any number of minutes but 0 the next time lies in the future, at most two hours ahead.
pub next_minutes-IsSoon : (now n : ℕ) → 0 < n → IsSoon now (next_minutes now n)
unfolding next_minutes
next_minutes-IsSoon now n h = ground (arith, multiple_above (minute_of now) n h)

-- A time behind the start of the next hour.
abbrev pub IsAfterHour : ℕ → Outcome → Type 0
IsAfterHour now (at t) = now - now % 3600 + 3600 < t
IsAfterHour now no_time = ⊥
IsAfterHour now panicked = ⊥

-- Where the next multiple of N lies between 60 and 120 minutes, the time is later than the start of
-- the next hour, although that is a time at which `*/N` fires.
pub next_minutes_late :
    (now n : ℕ)
    → 60 < (minute_of now / n + 1) * n
    → (minute_of now / n + 1) * n < 120
    → IsAfterHour now (next_minutes now n) × IsMinuteTime n (now - now % 3600 + 3600)
unfolding next_minutes
next_minutes_late now n h k = ground arith

-- An hour of 24 or more at the head of a list of hours ends the scheduler with a panic.
pub next_hours_panics :
    (now hour : ℕ) (hours : List ℕ) → 24 ≤ hour → next_hours now (hour ∷ hours) ≡ panicked
unfolding next_hours
next_hours_panics now hour hours h = ground arith
