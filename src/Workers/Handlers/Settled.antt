-- ===== src/Workers/Handlers/Settled.antt =====
-- What a poll of the program's worker leaves behind (src/queue/worker.rs, src/workers/mod.rs).
use ingest_pipeline.Prelude.{
  All-select, select, All-implies, sym, subst, update_where, if-elim, ℕ, suc, ◌≡◌, ◌≤◌, Bool, true,
  false, Option, none, some, List, [], ◌∷◌, arith, refl, All, if◌then◌else◌, length, ◌||◌,
}
use ingest_pipeline.Prelude.Int.{ℤ}
use ingest_pipeline.Prelude.Text.{text, text_eq, Text}
use ingest_pipeline.Config.{Config}
use ingest_pipeline.Queue.Jobs.{
  start, selected, fail_rows, has_id, i32_max, new_job, pick_rows, pick_jobs, complete_job,
  fail_job,
}
use ingest_pipeline.Queue.Jobs.Picking.{pick_rows-IsStarted}
use ingest_pipeline.Queue.Jobs.Rows.{
  IsKept, is_settled, complete_rows-IsKept, AreKept, fail_rows-AreKept,
}
use ingest_pipeline.Queue.Worker.{
  Handler, settle, run_handler, process_job, process_all, process_batch, poll, new_worker,
}
use ingest_pipeline.Queue.Worker.Dispatch.{process_job-IsTotal}
use ingest_pipeline.Schema.{Job}
use ingest_pipeline.Store.{run_both, Env, World, Result, ok, err}
use ingest_pipeline.Workers.Handlers.{
  process_article, fetch_feed, handlers, start_worker, handle_ingest_job, handle_content_job,
}
use ingest_pipeline.Workers.Handlers.Rows.{handle_ingest_job-All, handle_content_job-All}

new_job-IsKept :
    (done : List Job) (n : ℕ)
    → n ≤ i32_max
    → (now id : ℕ) (job_type payload : Text) (priority : ℤ)
    → IsKept done n (new_job now id job_type payload priority)
unfolding new_job
new_job-IsKept done n h now id job_type payload priority = ground arith

module _ (env : Env) (works : (n : ℕ) → env.fails n ≡ false) where
  -- The rows after the jobs `done`, with n to follow.
  abbrev Rows : List Job → ℕ → World → Type 0
  Rows done n w = All (IsKept done n) w.jobs

  fail_rows-Rows :
      (x : Job) (done : List Job) (n : ℕ) (error : Text) (w : World) (rows : Option (List Job))
      → fail_rows (env.now w.statements) x.id error w.jobs ≡ rows
      → AreKept done n x rows
      → Rows (x ∷ done) n (settle x.id (err error) env w).1
  unfolding settle fail_job
  fail_rows-Rows x done n error w none e h = absurd h
  fail_rows-Rows x done n error w (some rows) e h = ground (arith, works w.statements)

  settle-Rows :
      (x : Job) (done : List Job) (n : ℕ) (r : Result (Unit {0})) (w : World)
      → Rows done (suc n) w
      → Rows (x ∷ done) n (settle x.id r env w).1
  unfolding settle complete_job
  settle-Rows x done n (ok tt) w h =
      let rows = complete_rows-IsKept done n x (env.now w.statements) w.jobs h in
      ground (arith, works w.statements, rows)
  settle-Rows x done n (err error) w h =
      fail_rows-Rows x done n error w _ refl
        (fail_rows-AreKept done n x (env.now w.statements) error w.jobs h)

  run_handler-Rows :
      (config : Option Config) (x : Job) (done : List Job) (n : ℕ) (w : World)
      → suc n ≤ i32_max
      → Rows done (suc n) w
      → Rows (x ∷ done) n (run_handler (handlers config x.job_type) x env w).1
  unfolding handlers run_handler settle
  run_handler-Rows config x done n w small h =
      let new = new_job-IsKept done (suc n) small in
      let P = λ (o : Option Handler). Rows (x ∷ done) n (run_handler o x env w).1 in
      if-elim P (text_eq x.job_type fetch_feed)
        (λ e.
          settle-Rows x done n (handle_ingest_job x.payload env w).0
            (handle_ingest_job x.payload env w).1
            (handle_ingest_job-All (IsKept done (suc n)) new env x.payload w h))
        (λ e.
          if-elim P (text_eq x.job_type process_article)
            (λ e'.
              settle-Rows x done n (handle_content_job config x.payload env w).0
                (handle_content_job config x.payload env w).1
                (handle_content_job-All (IsKept done (suc n)) new env config x.payload w h))
            (λ e'. settle-Rows x done n (err (text "no_handler")) w h))

  process_job-Rows :
      (worker_id : Text) (config : Option Config) (x : Job) (done : List Job) (n : ℕ) (w : World)
      → suc n ≤ i32_max
      → Rows done (suc n) w
      → Rows (x ∷ done) n (process_job (start_worker worker_id config) x env w).1
  unfolding process_job start_worker new_worker
  process_job-Rows worker_id config x done n w small h = run_handler-Rows config x done n w small h

  -- The jobs of a batch are put before those that were done, one after the other.
  abbrev after : List Job → List Job → List Job
  after [] done = done
  after (x ∷ xs) done = after xs (x ∷ done)

  process_all-Rows :
      (worker_id : Text) (config : Option Config) (xs done : List Job) (w : World)
      → length xs ≤ i32_max
      → Rows done (length xs) w
      → Rows (after xs done) 0 (process_all (start_worker worker_id config) xs env w).1
  unfolding process_all
  process_all-Rows worker_id config [] done w small h = h
  process_all-Rows worker_id config (x ∷ xs) done w small h =
      run_both (λ r. (r.0 ≡ ok tt) × Rows (x ∷ done) (length xs) r.1)
        (λ r. Rows (after xs (x ∷ done)) 0 r.1)
        (process_job (start_worker worker_id config) x env w) _
        (
          process_job-IsTotal (start_worker worker_id config) x env w,
          process_job-Rows worker_id config x done (length xs) w small h,
        )
        (λ e w' k. ground arith)
        (λ done' w' k. process_all-Rows worker_id config xs (x ∷ done) w' (omega arith) k.1)

  has_id-after :
      (id : ℕ) (xs done : List Job) → has_id id (after xs done) ≡ (has_id id xs || has_id id done)
  has_id-after id [] done = refl
  has_id-after id (x ∷ xs) done = ground (arith, has_id-after id xs (x ∷ done))

  pick_jobs_lem :
      (worker_id : Text) (limit : ℕ) (w : World)
      → let (picked, jobs) =
          pick_rows (env.now w.statements) (env.held w.statements) worker_id limit w.jobs in
        pick_jobs worker_id limit env w ≡ (
          ok (env.returned w.statements picked),
          record w { jobs = jobs; statements = suc w.statements },
        )
  unfolding pick_jobs
  pick_jobs_lem worker_id limit w = ground (arith, works w.statements)

  -- Rows whose counters are in range, before a batch of n jobs.
  abbrev pub IsCountable : Job → Type 0
  IsCountable j = (j.max_attempts ≤ 31) × (j.attempts ≤ 31)

  started-IsKept :
      (now n : ℕ) (worker_id : Text) (chosen : List Job) (j : Job)
      → n ≤ 1000
      → IsCountable j
      → IsKept [] n (if has_id j.id chosen then start now worker_id j else j)
  unfolding start
  started-IsKept now n worker_id chosen j small h = ground arith

  pick_rows-Rows :
      (now n : ℕ) (held : ℕ → Bool) (worker_id : Text) (limit : ℕ) (jobs : List Job)
      → n ≤ 1000
      → All IsCountable jobs
      → All (IsKept [] n) (pick_rows now held worker_id limit jobs).1
  unfolding pick_rows
  pick_rows-Rows now n held worker_id limit jobs small h = go jobs h
    where
      chosen : List Job
      chosen = selected now held limit jobs

      go :
          (rows : List Job)
          → All IsCountable rows
          → All (IsKept [] n) (update_where (λ j. has_id j.id chosen) (start now worker_id) rows)
      go [] hs = tt
      go (j ∷ rows) (g, gs) = (started-IsKept now n worker_id chosen j small g, go rows gs)

  -- UPDATE … RETURNING gives each changed row once, in an order of its own.
  abbrev pub IsReordering : Type 0
  IsReordering =
      (n : ℕ) (jobs : List Job)
      → (length (env.returned n jobs) ≡ length jobs)
        × ((id : ℕ) → has_id id (env.returned n jobs) ≡ has_id id jobs)

  settled_id :
      (picked xs : List Job) (j : Job)
      → ((id : ℕ) → has_id id xs ≡ has_id id picked)
      → IsKept (after xs []) 0 j
      → has_id j.id picked ≡ true
      → is_settled j ≡ true
  settled_id picked xs j order k e = ground (arith, order j.id, has_id-after j.id xs [])

  -- A poll of the program's worker settles every job that it picks: each is completed, pending again
  -- with attempts left, or dead with none left. (No statement fails, no row allows more than 31 attempts or has used more,
  -- and the picked rows are returned in some order, each once.)
  pub poll_settles :
      (worker_id : Text) (config : Option Config) (w : World)
      → IsReordering
      → All IsCountable w.jobs
      → let picked =
          (pick_rows (env.now w.statements) (env.held w.statements) worker_id 10 w.jobs).0 in
        All
          (λ j. is_settled j ≡ true)
          (select (λ j. has_id j.id picked) (poll (start_worker worker_id config) env w).1.jobs)
  unfolding poll process_batch start_worker new_worker
  poll_settles worker_id config w order h =
      let n = w.statements in
      let now = env.now n in
      let (picked, jobs) = pick_rows now (env.held n) worker_id 10 w.jobs in
      let xs = env.returned n picked in
      let picked_few = (pick_rows-IsStarted now (env.held n) worker_id 10 w.jobs).0 in
      let few : length xs ≤ 10 = omega (arith, (order n picked).0, picked_few) in
      let w' = record w { jobs = jobs; statements = suc n } in
      let rows =
        process_all-Rows worker_id config xs [] w' (omega arith)
          (pick_rows-Rows now (length xs) (env.held n) worker_id 10 w.jobs (omega arith) h) in
      let polled =
        subst
          (λ r. Rows (after xs []) 0 (process_batch (start_worker worker_id config) r.0 env r.1).1)
          (sym (pick_jobs_lem worker_id 10 w)) rows in
      let left = (poll (start_worker worker_id config) env w).1.jobs in
      All-select (λ j. is_settled j ≡ true) (λ j. has_id j.id picked) left
        (All-implies (IsKept (after xs []) 0) _
          (λ j k e. settled_id picked xs j (order n picked).1 k e) left polled)
