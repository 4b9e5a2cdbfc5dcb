-- ===== src/Workers/Loop.antt =====
-- The loop of the scheduler (`run_scheduler` of src/workers/scheduler.rs) over a number of rounds. The
-- sleep changes nothing; what a round waits for is part of the result.
pub mod Regular
use ingest_pipeline.Prelude.{
  ℕ, zero, suc, ◌+◌, ◌-◌, ◌*◌, ◌/◌, ◌≤◌, ◌<◌, ◌≡◌, refl, sym, ap, subst, ◌∙◌, ◌⊎◌, inl, inr, Bool,
  true, false, not, ◌&&◌, ◌||◌, Option, none, some, List, [], ◌∷◌, ◌++◌, map, append_assoc,
  append-nil, arith, length, take, select, find, any, All, update_where, ltb, leb, ◌==◌,
  if◌then◌else◌, Bool-cases, Option-cases, unwrap_or, if-elim, All-implies, All-select,
}
use ingest_pipeline.Prelude.Text.{Text, text}
use ingest_pipeline.Store.{pure, M, clock, clock_again, attempt, ◌>>=◌, ◌>>◌}
use ingest_pipeline.Workers.Cron.{at, no_time, panicked, get_next_cron_time, Outcome}
use ingest_pipeline.Workers.Scheduler.{handle_scheduled_run}

-- The whole seconds from now, in microseconds, to the next time, in seconds; none if it has passed.
unfoldable pub wait_secs : ℕ → ℕ → ℕ
wait_secs next now = (next * 1000000 - now) / 1000000

-- What is left of a round once the next time is known: the sleep, the scheduled run, whose error is
-- only logged, and the other rounds. A panic of the search for the next time ends the task.
unfoldable pub round : ℕ → Outcome → M (List ℕ) → M (List ℕ)
round now (at next) rest = do
  outcome ← attempt handle_scheduled_run
  waits ← rest
  pure (wait_secs next now ∷ waits)
round now no_time rest = pure []
round now panicked rest = pure []

-- The seconds that each round waits.
unfoldable pub run_scheduler : Option Text → ℕ → M (List ℕ)
run_scheduler schedule zero = pure []
run_scheduler schedule (suc rounds) = do
  now ← clock
  later ← clock_again
  round later (get_next_cron_time (now / 1000000) schedule) (run_scheduler schedule rounds)
