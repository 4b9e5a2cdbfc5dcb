-- ===== src/Workers/Loop/Regular.antt =====
-- The rounds of the scheduler (src/workers/scheduler.rs).
use ingest_pipeline.Prelude.{
  ℕ, zero, suc, ◌+◌, ◌/◌, ◌≤◌, ◌≡◌, refl, ap, Option, none, List, arith, length, All,
}
use ingest_pipeline.Prelude.Text.{Text}
use ingest_pipeline.Store.{M, Env, World, Result, ok, err, run_keeps, then_run_rule}
use ingest_pipeline.Workers.Cron.{Outcome, at, no_time, panicked, next_default, get_next_cron_time}
use ingest_pipeline.Workers.Loop.{round, wait_secs, run_scheduler}
use ingest_pipeline.Workers.Scheduler.{handle_scheduled_run}
use ingest_pipeline.Workers.Scheduler.Single.{HasOneRun, handle_scheduled_run-HasOneRun}

-- The waits of a number of rounds, each of at most eight hours.
abbrev pub AreShort : ℕ → Result (List ℕ) → Type 0
AreShort rounds (ok waits) = (length waits ≡ rounds) × All (λ n. n ≤ 28800) waits
AreShort rounds (err e) = ⊥

module _ (env : Env) where
  round-HasOneRun :
      (now : ℕ) (next : Outcome) (rest : M (List ℕ)) (w : World)
      → ((v : World) → HasOneRun v → HasOneRun (rest env v).1)
      → HasOneRun w
      → HasOneRun (round now next rest env w).1
  unfolding round
  round-HasOneRun now (at next) rest w keeps h =
      run_keeps HasOneRun (rest env (handle_scheduled_run env w).1) _
        (keeps _ (handle_scheduled_run-HasOneRun env w h)) (λ waits v k. k)
  round-HasOneRun now no_time rest w keeps h = h
  round-HasOneRun now panicked rest w keeps h = h

  -- At most one run is in progress after any number of rounds of the scheduler, if this was so before
  -- them, however the schedule is set and whichever statements fail.
  pub run_scheduler-HasOneRun :
      (schedule : Option Text) (rounds : ℕ) (w : World)
      → HasOneRun w
      → HasOneRun (run_scheduler schedule rounds env w).1
  unfolding run_scheduler
  run_scheduler-HasOneRun schedule zero w h = h
  run_scheduler-HasOneRun schedule (suc rounds) w h =
      let now = env.now w.statements in
      round-HasOneRun (now + env.lag w.statements) (get_next_cron_time (now / 1000000) schedule)
        (run_scheduler schedule rounds) w (λ v k. run_scheduler-HasOneRun schedule rounds v k) h

  -- A wait of at most eight hours.
  abbrev IsShort : ℕ → Outcome → Type 0
  IsShort later (at t) = wait_secs t later ≤ 28800
  IsShort later no_time = ⊥
  IsShort later panicked = ⊥

  default-IsShort : (now lag : ℕ) → IsShort (now + lag) (next_default (now / 1000000))
  unfolding next_default wait_secs
  default-IsShort now lag = ground arith

  round-AreShort :
      (n now : ℕ) (next : Outcome) (rest : M (List ℕ)) (w : World)
      → IsShort now next
      → ((v : World) → AreShort n (rest env v).0)
      → AreShort (suc n) (round now next rest env w).0
  unfolding round
  round-AreShort n now (at next) rest w short others =
      let v = (handle_scheduled_run env w).1 in
      then_run_rule (AreShort n) (AreShort (suc n)) (rest env v) _ (others v) (λ e k. k)
        (λ waits v' k. (ap suc k.0, (short, k.1)))
  round-AreShort n now no_time rest w short others = absurd short
  round-AreShort n now panicked rest w short others = absurd short

  -- Without RUN_SCHEDULE the scheduler goes through any number of rounds, whatever fails in them, and
  -- none of them waits for more than eight hours. (The clock is not set back between the two readings
  -- of a round.)
  pub run_scheduler-AreShort :
      (rounds : ℕ) (w : World) → AreShort rounds (run_scheduler none rounds env w).0
  unfolding run_scheduler get_next_cron_time
  run_scheduler-AreShort zero w = (refl, tt)
  run_scheduler-AreShort (suc rounds) w =
      let now = env.now w.statements in
      let lag = env.lag w.statements in
      round-AreShort rounds (now + lag) (next_default (now / 1000000)) (run_scheduler none rounds) w
        (default-IsShort now lag) (λ v. run_scheduler-AreShort rounds v)
