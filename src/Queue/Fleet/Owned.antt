-- ===== src/Queue/Fleet/Owned.antt =====
-- That no two workers hold the same job (src/queue/jobs.rs and worker.rs).
use ingest_pipeline.Prelude.{
  Pairwise, All-map, All-both, All-append, ℕ, ◌≡◌, refl, inl, inr, Bool, true, false, not, List, [],
  ◌∷◌, ◌++◌, map, arith, any, All, update_where, ◌==◌, Bool-cases, All-implies,
}
use ingest_pipeline.Prelude.Pairs.{
  All-remove, Pairwise-remove, Pairwise-map, Pairwise-append, Pairwise-take, Pairwise-sort,
  Pairwise-select,
}
use ingest_pipeline.Prelude.Text.{Text}
use ingest_pipeline.Queue.Fleet.{
  picks, completes, fails, loses, creates, cleans, stays, then_moves, Claim, Fleet, Move, Moves,
  claim_of,
}
use ingest_pipeline.Queue.Fleet.Keys.{
  IsApart, HasKeys, IsApart-sym, update-HasKeys, fail_rows-HasKeys, insert_job-HasKeys,
}
use ingest_pipeline.Queue.Jobs.{
  has_id, before, start, selected, eligible, pick_rows, complete_rows, is_old_dead,
}
use ingest_pipeline.Queue.Jobs.Abandoned.{
  picked, completed, failed, created, cleaned, is_stuck, Step-is_stuck,
}
use ingest_pipeline.Queue.Jobs.Order.{All-has_id}
use ingest_pipeline.Queue.Jobs.Picking.{selected-All}
use ingest_pipeline.Schema.{Job, is_running}

abbrev pub Apart : Claim → Claim → Type 0
Apart c d = IsApart c.job_id d.job_id

-- The job of a claim is running in the table.
abbrev pub IsHeld : List Job → Claim → Type 0
IsHeld jobs c = any (is_stuck c.job_id) jobs ≡ true

-- The ids of the table are distinct, no two claims are for the same job, and each is for a job that
-- is running.
abbrev pub IsOwned : Fleet → Type 0
IsOwned f = HasKeys f.jobs × Pairwise Apart f.claims × All (IsHeld f.jobs) f.claims

not_stuck :
    (id : ℕ) (jobs : List Job) → All (λ j. IsApart id j.id) jobs → any (is_stuck id) jobs ≡ false
not_stuck id [] h = refl
not_stuck id (j ∷ jobs) (h, hs) = ground (arith, not_stuck id jobs hs)

-- With distinct ids, the row of a job that is running is its only one.
only_running :
    (id : ℕ) (jobs : List Job)
    → HasKeys jobs
    → any (is_stuck id) jobs ≡ true
    → All (λ j. (j.id == id) ≡ true → is_running j.status ≡ true) jobs
only_running id [] h k = tt
only_running id (j ∷ jobs) (h, hs) k = elim (Bool-cases (is_stuck id j)) [
  | inl s ↦ (
    λ e. ground arith,
    All-implies (λ x. IsApart j.id x.id) _ (λ x n e. absurd (ground arith)) jobs h,
  )
  | inr s ↦
      let rest : any (is_stuck id) jobs ≡ true = ground arith in
      (λ e. absurd (ground (arith, not_stuck j.id jobs h)), only_running id jobs hs rest)
]

module _ (now : ℕ) (held : ℕ → Bool) (worker : Text) (limit : ℕ) (jobs : List Job) where
  abbrev chosen : List Job
  chosen = selected now held limit jobs

  abbrev started : List Job
  started = update_where (λ j. has_id j.id chosen) (start now worker) jobs

  eligible-IsApart :
      (id : ℕ) (j : Job)
      → ((j.id == id) ≡ true → is_running j.status ≡ true)
      → eligible now held j ≡ true
      → IsApart id j.id
  unfolding eligible
  eligible-IsApart id j h e = ground arith

  -- A pick takes no job that is running.
  chosen-IsApart :
      (c : Claim) → HasKeys jobs → IsHeld jobs c → All (λ j. IsApart c.job_id j.id) chosen
  chosen-IsApart c keys h =
      selected-All now held limit (λ j. IsApart c.job_id j.id) jobs
        (All-implies (λ j. (j.id == c.job_id) ≡ true → is_running j.status ≡ true) _
          (λ j k e. eligible-IsApart c.job_id j k e) jobs (only_running c.job_id jobs keys h))

  chosen-Pairwise : HasKeys jobs → Pairwise (λ j k. IsApart j.id k.id) chosen
  unfolding selected
  chosen-Pairwise keys =
      let R = λ (j k : Job). IsApart j.id k.id in
      Pairwise-take R limit _ (
        Pairwise-sort R (λ j k h. IsApart-sym j.id k.id h) before _
          (Pairwise-select R (eligible now held) jobs keys))

  started-stuck :
      (id : ℕ) (rows : List Job)
      → has_id id chosen ≡ true
      → has_id id rows ≡ true
      → any (is_stuck id) (update_where (λ j. has_id j.id chosen) (start now worker) rows) ≡ true
  unfolding start
  started-stuck id [] h k = k
  started-stuck id (j ∷ rows) h k = elim (Bool-cases (j.id == id)) [
    | inl e ↦ ground arith
    | inr e ↦ ground (arith, started-stuck id rows h)
  ]

  started-IsHeld : All (λ j. IsHeld started (claim_of worker j)) chosen
  started-IsHeld =
      let P = λ (j : Job). has_id j.id chosen ≡ true in
      let Q = λ (j : Job). has_id j.id jobs ≡ true in
      let in_table : All Q chosen =
        selected-All now held limit Q jobs (All-implies Q _ (λ j k e. k) jobs (All-has_id jobs)) in
      All-implies (λ j. P j × Q j) _ (λ j h. started-stuck j.id jobs h.0 h.1) chosen
        (All-both P Q chosen (All-has_id chosen) in_table)

  picks-IsOwned :
      (claims : List Claim)
      → IsOwned (record { jobs = jobs; claims = claims })
      → IsOwned (record {
        jobs = (pick_rows now held worker limit jobs).1;
        claims = claims ++ map (claim_of worker) (pick_rows now held worker limit jobs).0;
      })
  unfolding pick_rows start
  picks-IsOwned claims (keys, apart, holds) =
      let run = start now worker in
      let claim = claim_of worker in
      let all_of = λ (P : Claim → Type 0) (h : All (λ j. P (claim j)) chosen).
        All-map P claim (map run chosen) (All-map (λ j. P (claim j)) run chosen h) in
      (
        update-HasKeys (λ j. has_id j.id chosen) run jobs (λ j. refl) keys,
        Pairwise-append Apart claims (map claim (map run chosen)) apart
            (Pairwise-map Apart claim (map run chosen)
              (Pairwise-map (λ j k. IsApart j.id k.id) run chosen (chosen-Pairwise keys)))
            (All-implies (IsHeld jobs) _ (λ c h. all_of (Apart c) (chosen-IsApart c keys h)) claims
              holds),
        All-append (IsHeld started) claims (map claim (map run chosen))
            (All-implies (IsHeld jobs) (IsHeld started)
              (λ c h. Step-is_stuck (picked now held worker limit jobs) h) claims holds)
            (all_of (IsHeld started) started-IsHeld),
      )

-- A claim ends, with a statement that leaves the rows of the other claims running.
ends-IsOwned :
    (jobs jobs' : List Job) (earlier : List Claim) (c : Claim) (later : List Claim)
    → (HasKeys jobs → HasKeys jobs')
    → ((d : Claim) → Apart c d → IsHeld jobs d → IsHeld jobs' d)
    → IsOwned (record { jobs = jobs; claims = earlier ++ c ∷ later })
    → IsOwned (record { jobs = jobs'; claims = earlier ++ later })
ends-IsOwned jobs jobs' earlier c later keeps keep (keys, apart, holds) =
    let (others, rest) =
      Pairwise-remove Apart (λ a b h. IsApart-sym a.job_id b.job_id h) earlier c later apart in
    let (held, left) = All-remove Apart (IsHeld jobs) earlier c later holds in
    (
      keeps keys,
      rest,
      All-implies (λ d. Apart c d × IsHeld jobs d) (IsHeld jobs') (λ d h. keep d h.0 h.1)
          (earlier ++ later) (All-both (Apart c) (IsHeld jobs) (earlier ++ later) others left),
    )

Move-IsOwned : {f g : Fleet} → Move f g → IsOwned f → IsOwned g
unfolding complete_rows is_old_dead
Move-IsOwned (picks now held worker limit f) h =
    picks-IsOwned now held worker limit f.jobs f.claims h
Move-IsOwned (completes now jobs earlier c later) h =
    ends-IsOwned jobs _ earlier c later
      (λ keys. update-HasKeys (λ j. j.id == c.job_id) _ jobs (λ j. refl) keys)
      (λ d apart k. Step-is_stuck (completed now c.job_id jobs apart) k) h
Move-IsOwned (fails now error jobs jobs' earlier c later e) h =
    ends-IsOwned jobs jobs' earlier c later
      (λ keys. fail_rows-HasKeys now c.job_id error jobs jobs' e keys)
      (λ d apart k. Step-is_stuck (failed now c.job_id error jobs jobs' apart e) k) h
Move-IsOwned (loses jobs earlier c later) h =
    ends-IsOwned jobs jobs earlier c later (λ keys. keys) (λ d apart k. k) h
Move-IsOwned (creates j jobs' f e) (keys, apart, holds) = (
  insert_job-HasKeys j f.jobs jobs' e keys,
  apart,
  All-implies (IsHeld f.jobs) (IsHeld jobs') (λ c k. Step-is_stuck (created j f.jobs jobs' e) k)
      f.claims holds,
)
Move-IsOwned (cleans now n f) (keys, apart, holds) = (
  Pairwise-select (λ j k. IsApart j.id k.id) (λ j. not (is_old_dead now n j)) f.jobs keys,
  apart,
  All-implies (IsHeld f.jobs) _ (λ c k. Step-is_stuck (cleaned now n f.jobs) k) f.claims holds,
)

-- In any interleaving of the workers' statements, no job is held by two workers at the same time, and
-- each job that is held is running in the table. (At first the ids of the table are distinct, and so
-- it is with the claims.)
pub Moves-IsOwned : {f g : Fleet} → Moves f g → IsOwned f → IsOwned g
Moves-IsOwned (stays f) h = h
Moves-IsOwned (then_moves f g k m ms) h = Moves-IsOwned ms (Move-IsOwned m h)
