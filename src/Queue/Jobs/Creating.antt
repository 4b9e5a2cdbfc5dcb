-- ===== src/Queue/Jobs/Creating.antt =====
-- What a loop of `create_job` adds to the table of jobs (src/queue/jobs.rs).
use ingest_pipeline.Prelude.{
  subst, append_assoc, ap, append-nil, sym, length, ◌∙◌, inl, inr, none, some, refl, suc, ◌⊎◌, [],
  ◌∷◌, ◌++◌, arith, ◌≡◌, List,
}
use ingest_pipeline.Prelude.Int.{ℤ}
use ingest_pipeline.Prelude.Text.{text, Text}
use ingest_pipeline.Queue.Jobs.{new_job, insert_job, create_job}
use ingest_pipeline.Schema.{JobStatus, Job}
use ingest_pipeline.Store.{
  statement, checked_statement, HasJobs, decided, committed, then_run, run_both, err, ok, World,
  Result, Env,
}

-- A job as it was asked for: its type, payload and priority, and pending.
abbrev pub IsAsked : Text → Text → ℤ → Job → Type 0
IsAsked job_type payload priority j =
    (j.job_type ≡ job_type)
    × (j.payload ≡ payload)
    × (j.priority ≡ priority)
    × (j.status ≡ JobStatus.pending)

-- One job is added, or none if there is an error.
abbrev pub AddsOne : (Job → Type 0) → List Job → Result Job × World → Type 0
AddsOne P jobs (ok j, w) = (w.jobs ≡ jobs ++ j ∷ []) × P j
AddsOne P jobs (err e, w) = (w.jobs ≡ jobs) ⊎ ((j : Job) × (w.jobs ≡ jobs ++ j ∷ []) × P j)

module _ (P : Job → Type 0) where
  insert-AddsOne :
      (context : Text) (j : Job) (w : World)
      → P j
      → AddsOne P w.jobs (
          committed context w (elim (insert_job j w.jobs) [
            | none ↦ none
            | some jobs ↦ some (j, record w { jobs = jobs })
          ]))
  unfolding insert_job
  insert-AddsOne context j w p = ground arith

  notified-AddsOne :
      (jobs : List Job) (j : Job) (context : Text) (env : Env) (w : World)
      → AddsOne P jobs (ok j, w)
      → AddsOne P jobs (then_run (statement context (λ now v. (tt, v)) env w) (λ done v. (ok j, v)))
  notified-AddsOne jobs j context env w h =
      run_both (λ r. r.1.jobs ≡ w.jobs) (AddsOne P jobs)
        (statement context (λ now v. (tt, v)) env w) (λ done v. (ok j, v))
        (decided (λ r. r.1.jobs ≡ w.jobs) (env.fails w.statements) _ _ refl refl)
        (λ e v k. inr (j, k ∙ h.0, h.1)) (λ done v k. (k ∙ h.0, h.1))

pub create_job-AddsOne :
    (job_type payload : Text) (priority : ℤ) (env : Env) (w : World)
    → AddsOne
        (IsAsked job_type payload priority)
        w.jobs
        (create_job job_type payload priority env w)
unfolding create_job new_job
create_job-AddsOne job_type payload priority env w =
    let P = IsAsked job_type payload priority in
    let Q = AddsOne P w.jobs in
    let j = new_job (env.now w.statements) (env.fresh w.draws) job_type payload priority in
    let drawn = record w { draws = suc w.draws } in
    let sent = record drawn { statements = suc w.statements } in
    run_both Q Q
      (checked_statement (text "create_job: failed to insert job")
        (λ now v.
          let k = new_job now (env.fresh w.draws) job_type payload priority in
          elim (insert_job k v.jobs) [
            | none ↦ none
            | some jobs ↦ some (k, record v { jobs = jobs })
          ])
        env drawn)
      _
      (decided Q (env.fails w.statements) _ _ (inl refl) (
        insert-AddsOne P (text "create_job: failed to insert job") j sent (refl, refl, refl, refl)))
      (λ e w' k. k)
      (λ k w' h. notified-AddsOne P w.jobs k (text "create_job: failed to send NOTIFY") env w' h)

module _ {A : Type 0} (P : A → Job → Type 0) where
  -- Jobs for the first entries of a list, in their order.
  abbrev pub AreFor : List A → List Job → Type 0
  AreFor xs [] = Unit
  AreFor [] (j ∷ rows) = ⊥
  AreFor (x ∷ xs) (j ∷ rows) = P x j × AreFor xs rows

  -- All jobs have been created if there is no error.
  abbrev pub IsComplete : List A → List Job → Result (Unit {0}) → Type 0
  IsComplete xs rows (ok done) = length rows ≡ length xs
  IsComplete xs rows (err e) = Unit

  abbrev pub HasCreated : List A → List Job → Result (Unit {0}) × World → Type 0
  HasCreated xs jobs (r, w) =
      (rows : List Job) × (w.jobs ≡ jobs ++ rows) × AreFor xs rows × IsComplete xs rows r

  -- A loop that creates one job for each entry, and ends with the first error.
  pub create_each :
      (step : A → World → Result Job × World) (loop : List A → World → Result (Unit {0}) × World)
      → ((x : A) (w : World) → AddsOne (P x) w.jobs (step x w))
      → ((w : World) → loop [] w ≡ (ok tt, w))
      → ((x : A) (xs : List A) (w : World)
          → loop (x ∷ xs) w ≡ then_run (step x w) (λ j w'. loop xs w'))
      → (xs : List A) (w : World) → HasCreated xs w.jobs (loop xs w)
  create_each step loop adds nil cons [] w = rw (nil w) ([], sym (append-nil w.jobs), tt, refl)
  create_each step loop adds nil cons (x ∷ xs) w = rw (cons x xs w) (
      run_both (AddsOne (P x) w.jobs) (HasCreated (x ∷ xs) w.jobs) (step x w) (λ j w'. loop xs w')
        (adds x w)
        (λ e w' k. elim k [
          | inl same ↦ ([], same ∙ sym (append-nil w.jobs), tt, tt)
          | inr (j, one, p) ↦ (j ∷ [], one, (p, tt), tt)
        ])
        (λ j w' k. more j (loop xs w') k.1 (
          subst (λ js. HasCreated xs js (loop xs w')) k.0
            (create_each step loop adds nil cons xs w'))))
    where
      complete :
          (j : Job) (rows : List Job) (r : Result (Unit {0}))
          → IsComplete xs rows r
          → IsComplete (x ∷ xs) (j ∷ rows) r
      complete j rows (ok done) h = ap suc h
      complete j rows (err e) h = tt

      more :
          (j : Job) (r : Result (Unit {0}) × World)
          → P x j
          → HasCreated xs (w.jobs ++ j ∷ []) r
          → HasCreated (x ∷ xs) w.jobs r
      more j (r, v) p (rows, same, are, all) =
          (j ∷ rows, same ∙ append_assoc w.jobs (j ∷ []) rows, (p, are), complete j rows r all)

  -- What comes after the creation and leaves the jobs as they are.
  pub kept-HasCreated :
      (xs : List A) (jobs : List Job) (w : World) (r : Result (Unit {0}) × World)
      → HasJobs w.jobs r.1
      → HasCreated xs jobs (ok tt, w)
      → HasCreated xs jobs r
  kept-HasCreated xs jobs w (ok tt, v) e (rows, same, are, all) = (rows, e ∙ same, are, all)
  kept-HasCreated xs jobs w (err e', v) e (rows, same, are, all) = (rows, e ∙ same, are, tt)
