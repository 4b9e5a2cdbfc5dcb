-- ===== src/Witnesses/Jobs.antt =====
-- The theorems on the order of the jobs and on what a poll leaves, for the jobs of the samples.
use ingest_pipeline.Prelude.{true, ◌≡◌, refl, none, [], ◌++◌, map, arith, select, All}
use ingest_pipeline.Prelude.Text.{text}
use ingest_pipeline.Queue.Fleet.{Fleet, claim_of, then_moves, picks, stays}
use ingest_pipeline.Queue.Fleet.Owned.{IsOwned, Moves-IsOwned}
use ingest_pipeline.Queue.Jobs.{has_id, pick_rows}
use ingest_pipeline.Queue.Jobs.Rows.{is_settled}
use ingest_pipeline.Queue.Worker.{poll}
use ingest_pipeline.Samples.{env, world}
use ingest_pipeline.Workers.Handlers.{start_worker}
use ingest_pipeline.Workers.Handlers.Settled.{poll_settles}

poll_settles_example :
    All
      (λ j. is_settled j ≡ true)
      (select
        (λ j. has_id j.id (pick_rows (env.now 0) (env.held 0) (text "a") 10 world.jobs).0)
        (poll (start_worker (text "a") none) env world).1.jobs)
poll_settles_example =
    poll_settles env (λ n. refl) (text "a") none world (λ n jobs. (refl, λ id. refl))
      ((omega arith, omega arith), ((omega arith, omega arith), ((omega arith, omega arith), tt)))

-- Two workers that have picked nothing yet, and the table after a pick of each of them.
abbrev idle : Fleet
idle = record { jobs = world.jobs; claims = [] }

abbrev one_busy : Fleet
one_busy = record {
  jobs = (pick_rows 5 (env.held 0) (text "a") 2 world.jobs).1;
  claims = map (claim_of (text "a")) (pick_rows 5 (env.held 0) (text "a") 2 world.jobs).0;
}

abbrev both_busy : Fleet
both_busy = record {
  jobs = (pick_rows 6 (env.held 0) (text "b") 2 one_busy.jobs).1;
  claims =
      one_busy.claims
      ++ map (claim_of (text "b")) (pick_rows 6 (env.held 0) (text "b") 2 one_busy.jobs).0;
}

Moves-IsOwned_example : IsOwned both_busy
Moves-IsOwned_example =
    Moves-IsOwned
      (then_moves idle one_busy both_busy (picks 5 (env.held 0) (text "a") 2 idle) (
        then_moves one_busy both_busy both_busy (picks 6 (env.held 0) (text "b") 2 one_busy)
          (stays both_busy)))
      (((refl, (refl, tt)), ((refl, tt), (tt, tt))), tt, tt)
