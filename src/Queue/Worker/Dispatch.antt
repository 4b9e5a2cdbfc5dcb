-- ===== src/Queue/Worker/Dispatch.antt =====
-- What the worker does with the jobs that it picks (src/queue/worker.rs).
use mathlib.Core.Path.{fun_ext}
use ingest_pipeline.Prelude.{
  zero, suc, ap, inr, inl, Option-cases, ℕ, ◌≡◌, Bool, true, false, List, [], ◌∷◌, refl,
}
use ingest_pipeline.Queue.Worker.{
  Worker, Wake, process_job, run_handler, settle, process_all, process_batch, poll, run_loop,
}
use ingest_pipeline.Schema.{Job}
use ingest_pipeline.Store.{◌>>◌, then_run, run_both, Env, World, Result, ok, err, M, pure}

-- A computation that never fails.
abbrev pub IsTotal : M (Unit {0}) → Type 0
IsTotal m = (env : Env) (w : World) → (m env w).0 ≡ ok tt

settle-IsTotal : (id : ℕ) (r : Result (Unit {0})) → IsTotal (settle id r)
unfolding settle
settle-IsTotal id (ok done) env w = refl
settle-IsTotal id (err e) env w = refl

pub process_job-IsTotal : (worker : Worker) (job : Job) → IsTotal (process_job worker job)
unfolding process_job run_handler
process_job-IsTotal worker job env w = elim (Option-cases (worker.handlers job.job_type)) [
  | inl p ↦ rw (p, process_job, run_handler) refl
  | inr (handler, p) ↦ rw (p, process_job, run_handler) (settle-IsTotal job.id _ env _)
]

process_all-IsTotal : (worker : Worker) (jobs : List Job) → IsTotal (process_all worker jobs)
unfolding process_all
process_all-IsTotal worker [] env w = refl
process_all-IsTotal worker (job ∷ jobs) env w =
    run_both (λ r. r.0 ≡ ok tt) (λ r. r.0 ≡ ok tt) (process_job worker job env w) _
      (process_job-IsTotal worker job env w) (λ e w' h. h)
      (λ done w' h. process_all-IsTotal worker jobs env w')

process_batch-IsTotal :
    (worker : Worker) (batch : Result (List Job)) → IsTotal (process_batch worker batch)
unfolding process_batch
process_batch-IsTotal worker (ok jobs) env w = process_all-IsTotal worker jobs env w
process_batch-IsTotal worker (err e) env w = refl

poll-IsTotal : (worker : Worker) → IsTotal (poll worker)
unfolding poll
poll-IsTotal worker env w = process_batch-IsTotal worker _ env _

-- On any finite list of wake-ups the loop ends without an error, whatever the handlers and the
-- statements do.
pub run_loop-IsTotal :
    (worker : Worker) (listening : Bool) (events : List Wake)
    → IsTotal (run_loop worker listening events)
unfolding run_loop
run_loop-IsTotal worker listening [] env w = refl
run_loop-IsTotal worker listening (Wake.ctrl_c ∷ events) env w = refl
run_loop-IsTotal worker listening (Wake.timer ∷ events) env w =
    run_both (λ r. r.0 ≡ ok tt) (λ r. r.0 ≡ ok tt) (poll worker env w) _ (poll-IsTotal worker env w)
      (λ e w' h. h) (λ done w' h. run_loop-IsTotal worker listening events env w')
run_loop-IsTotal worker true (Wake.notification received ∷ events) env w =
    run_both (λ r. r.0 ≡ ok tt) (λ r. r.0 ≡ ok tt) (poll worker env w) _ (poll-IsTotal worker env w)
      (λ e w' h. h) (λ done w' h. run_loop-IsTotal worker received events env w')
run_loop-IsTotal worker false (Wake.notification received ∷ events) env w =
    run_loop-IsTotal worker false events env w

-- How often the loop polls before the signal: on each tick of the timer, and on each notification as
-- long as the connection for notifications has not been lost.
abbrev pub polls : Bool → List Wake → ℕ
polls listening [] = 0
polls listening (Wake.ctrl_c ∷ events) = 0
polls listening (Wake.timer ∷ events) = suc (polls listening events)
polls true (Wake.notification received ∷ events) = suc (polls received events)
polls false (Wake.notification received ∷ events) = polls false events

abbrev pub poll_times : Worker → ℕ → M (Unit {0})
poll_times worker zero = pure tt
poll_times worker (suc n) = poll worker >> poll_times worker n

-- The loop is as many polls as the events ask for: nothing is done after the signal, notifications are
-- ignored once the connection is lost, and the timer keeps the worker polling without it.
pub run_loop-polls :
    (worker : Worker) (listening : Bool) (events : List Wake) (env : Env) (w : World)
    → run_loop worker listening events env w ≡ poll_times worker (polls listening events) env w
unfolding run_loop
run_loop-polls worker listening [] env w = refl
run_loop-polls worker listening (Wake.ctrl_c ∷ events) env w = refl
run_loop-polls worker listening (Wake.timer ∷ events) env w =
    ap (λ k. then_run (poll worker env w) k)
      (fun_ext (λ done. fun_ext (λ w'. run_loop-polls worker listening events env w')))
run_loop-polls worker true (Wake.notification received ∷ events) env w =
    ap (λ k. then_run (poll worker env w) k)
      (fun_ext (λ done. fun_ext (λ w'. run_loop-polls worker received events env w')))
run_loop-polls worker false (Wake.notification received ∷ events) env w =
    run_loop-polls worker false events env w
