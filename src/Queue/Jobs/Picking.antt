-- ===== src/Queue/Jobs/Picking.antt =====
-- Which jobs `pick_jobs` takes (src/queue/jobs.rs).
use Prim.Native.Nat.{min}
use mathlib.Core.Path.{fun_ext}
use ingest_pipeline.Prelude.{
  ◌||◌, sym, subst, if-elim, ◌==◌, map, if◌then◌else◌, All-tabulate, All-map, ap, length-take, ◌∙◌,
  All-select, length-map, update_where, select, All-take, some, All, length, ◌≤◌, ℕ, ◌≡◌, Bool,
  true, false, List, [], ◌∷◌, arith, refl,
}
use ingest_pipeline.Prelude.Sort.{sort, length-sort, All-sort}
use ingest_pipeline.Prelude.Text.{Text}
use ingest_pipeline.Queue.Jobs.{before, has_id, eligible, start, selected, pick_rows}
use ingest_pipeline.Schema.{Job, JobStatus}

-- A picked row, as `RETURNING *` gives it.
abbrev pub IsStarted : ℕ → Text → Job → Type 0
IsStarted now worker j =
    (j.status ≡ JobStatus.running)
    × (j.locked_by ≡ some worker)
    × (j.locked_at ≡ some now)
    × (j.run_at ≤ now)

pub selected-All :
    (now : ℕ) (held : ℕ → Bool) (limit : ℕ) (P : Job → Type 0) (jobs : List Job)
    → All (λ j. eligible now held j ≡ true → P j) jobs
    → All P (selected now held limit jobs)
unfolding selected
selected-All now held limit P jobs h =
    All-take P limit _ (All-sort before P _ (All-select P (eligible now held) jobs h))

start-IsStarted :
    (now : ℕ) (held : ℕ → Bool) (worker : Text) (j : Job)
    → eligible now held j ≡ true
    → IsStarted now worker (start now worker j)
unfolding start eligible
start-IsStarted now held worker j h = ground arith

-- `pick_jobs` takes as many jobs as there are eligible ones, up to the size of the batch; each was
-- due, and is returned as running, locked by this worker at this time.
pub pick_rows-IsStarted :
    (now : ℕ) (held : ℕ → Bool) (worker : Text) (limit : ℕ) (jobs : List Job)
    → (length (pick_rows now held worker limit jobs).0
        ≡ min limit (length (select (eligible now held) jobs)))
      × All (IsStarted now worker) (pick_rows now held worker limit jobs).0
unfolding pick_rows selected
pick_rows-IsStarted now held worker limit jobs = (
  length-map (selected now held limit jobs) (start now worker)
      ∙ length-take limit (sort before (select (eligible now held) jobs))
      ∙ ap (min limit) (length-sort before (select (eligible now held) jobs)),
  All-map (IsStarted now worker) (start now worker) (selected now held limit jobs) (
      selected-All now held limit (λ j. IsStarted now worker (start now worker j)) jobs
        (All-tabulate _ (start-IsStarted now held worker) jobs)),
)

-- After a pick, a row with the id of a picked job is not eligible again.
started-not_eligible :
    (now : ℕ) (worker : Text) (chosen : List Job) (r : Job) (now' : ℕ) (held' : ℕ → Bool)
    → let r' = if has_id r.id chosen then start now worker r else r in
      eligible now' held' r' ≡ true → has_id r'.id chosen ≡ false
unfolding start eligible
started-not_eligible now worker chosen r now' held' =
    if-elim (λ r'. eligible now' held' r' ≡ true → has_id r'.id chosen ≡ false) (has_id r.id chosen)
      (λ e h. ground arith) (λ e h. e)

update-not_eligible :
    (now : ℕ) (worker : Text) (chosen rows : List Job) (now' : ℕ) (held' : ℕ → Bool)
    → All
        (λ j. eligible now' held' j ≡ true → has_id j.id chosen ≡ false)
        (update_where (λ j. has_id j.id chosen) (start now worker) rows)
update-not_eligible now worker chosen [] now' held' = tt
update-not_eligible now worker chosen (r ∷ rows) now' held' = (
  started-not_eligible now worker chosen r now' held',
  update-not_eligible now worker chosen rows now' held',
)

has_id-map :
    (now : ℕ) (worker : Text) (id : ℕ) (chosen : List Job)
    → has_id id (map (start now worker) chosen) ≡ has_id id chosen
unfolding start
has_id-map now worker id [] = refl
has_id-map now worker id (j ∷ chosen) =
    ap (λ b. (j.id == id) || b) (has_id-map now worker id chosen)

-- Two picks one after the other, by any workers, at any times and with any locks, share no job.
pub pick_rows-disjoint :
    (now now' : ℕ) (held held' : ℕ → Bool) (worker worker' : Text) (limit limit' : ℕ)
    (jobs : List Job)
    → let (first, rows) = pick_rows now held worker limit jobs in
      let (second, _) = pick_rows now' held' worker' limit' rows in
      All (λ j. has_id j.id first ≡ false) second
unfolding pick_rows start
pick_rows-disjoint now now' held held' worker worker' limit limit' jobs =
    let chosen = selected now held limit jobs in
    let rows = update_where (λ j. has_id j.id chosen) (start now worker) jobs in
    All-map (λ j. has_id j.id (map (start now worker) chosen) ≡ false) (start now' worker')
      (selected now' held' limit' rows)
      (subst (λ f. All (λ j. f j.id ≡ false) (selected now' held' limit' rows))
        (sym (fun_ext (λ id. has_id-map now worker id chosen)))
        (selected-All now' held' limit' (λ j. has_id j.id chosen ≡ false) rows
          (update-not_eligible now worker chosen jobs now' held')))
