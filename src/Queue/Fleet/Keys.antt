-- ===== src/Queue/Fleet/Keys.antt =====
-- The primary key of the table of jobs, through the statements on it (src/queue/jobs.rs).
use ingest_pipeline.Prelude.{
  join, Pairwise, try_update_where, ℕ, ◌≡◌, refl, sym, subst, inl, inr, Bool, false, Option, none,
  some, List, [], ◌∷◌, ◌++◌, map, arith, All, update_where, ◌==◌, if◌then◌else◌, Bool-cases,
  All-implies,
}
use ingest_pipeline.Prelude.Pairs.{Pairwise-map, Pairwise-of_map, Pairwise-append}
use ingest_pipeline.Prelude.Text.{Text}
use ingest_pipeline.Queue.Jobs.{has_id, fail_row, fail_rows, insert_job}
use ingest_pipeline.Schema.{Job}

abbrev pub IsApart : ℕ → ℕ → Type 0
IsApart a b = (a == b) ≡ false

-- The primary key: the ids of the rows are distinct.
abbrev pub HasKeys : List Job → Type 0
HasKeys jobs = Pairwise (λ j k. IsApart j.id k.id) jobs

abbrev ids : List Job → List ℕ
ids = map (λ j. j.id)

pub IsApart-sym : (a b : ℕ) → IsApart a b → IsApart b a
IsApart-sym a b h = ground arith

same_ids : (jobs jobs' : List Job) → ids jobs' ≡ ids jobs → HasKeys jobs → HasKeys jobs'
same_ids jobs jobs' e h =
    Pairwise-of_map IsApart (λ j. j.id) jobs'
      (subst (Pairwise IsApart) (sym e) (Pairwise-map IsApart (λ j. j.id) jobs h))

ids-update_where :
    (p : Job → Bool) (f : Job → Job) (jobs : List Job)
    → ((j : Job) → (f j).id ≡ j.id)
    → ids (update_where p f jobs) ≡ ids jobs
ids-update_where p f [] same = refl
ids-update_where p f (j ∷ jobs) same = ground (arith, same j, ids-update_where p f jobs same)

joined :
    (o : Option Job) (r : Option (List Job)) (jobs' : List Job)
    → join o r ≡ some jobs'
    → (j : Job) × (rows : List Job) × (o ≡ some j) × (r ≡ some rows) × (jobs' ≡ j ∷ rows)
joined none r jobs' e = absurd (ground arith)
joined (some j) none jobs' e = absurd (ground arith)
joined (some j) (some rows) jobs' e = (j, rows, refl, refl, ground arith)

ids-try_update_where :
    (p : Job → Bool) (f : Job → Option Job) (jobs jobs' : List Job)
    → ((j j' : Job) → f j ≡ some j' → j'.id ≡ j.id)
    → try_update_where p f jobs ≡ some jobs'
    → ids jobs' ≡ ids jobs
ids-try_update_where p f [] jobs' same e = ground arith
ids-try_update_where p f (j ∷ jobs) jobs' same e =
    let (j', rows, one, rest, all) = joined (if p j then f j else some j) _ jobs' e in
    let updated : j'.id ≡ j.id = ground (arith, same j j') in
    ground (arith, ids-try_update_where p f jobs rows same rest)

pub update-HasKeys :
    (p : Job → Bool) (f : Job → Job) (jobs : List Job)
    → ((j : Job) → (f j).id ≡ j.id)
    → HasKeys jobs
    → HasKeys (update_where p f jobs)
update-HasKeys p f jobs same h = same_ids jobs _ (ids-update_where p f jobs same) h

pub fail_rows-HasKeys :
    (now id : ℕ) (error : Text) (jobs jobs' : List Job)
    → fail_rows now id error jobs ≡ some jobs'
    → HasKeys jobs
    → HasKeys jobs'
unfolding fail_rows fail_row
fail_rows-HasKeys now id error jobs jobs' e h =
    same_ids jobs jobs'
      (ids-try_update_where (λ j. j.id == id) (fail_row now error) jobs jobs'
        (λ j j' k. ground arith) e)
      h

has_id-absent :
    (id : ℕ) (jobs : List Job) → has_id id jobs ≡ false → All (λ j. IsApart j.id id) jobs
has_id-absent id [] h = tt
has_id-absent id (j ∷ jobs) h = (ground arith, has_id-absent id jobs (ground arith))

pub insert_job-HasKeys :
    (j : Job) (jobs jobs' : List Job)
    → insert_job j jobs ≡ some jobs'
    → HasKeys jobs
    → HasKeys jobs'
unfolding insert_job
insert_job-HasKeys j jobs jobs' e h = elim (Bool-cases (has_id j.id jobs)) [
  | inl b ↦ absurd (ground arith)
  | inr b ↦
      let keys : HasKeys (jobs ++ j ∷ []) =
        Pairwise-append (λ j k. IsApart j.id k.id) jobs (j ∷ []) h (tt, tt)
          (All-implies (λ k. IsApart k.id j.id) _ (λ k n. (n, tt)) jobs
            (has_id-absent j.id jobs b)) in
      subst HasKeys (ground arith) keys
]
