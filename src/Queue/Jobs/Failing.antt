-- ===== src/Queue/Jobs/Failing.antt =====
-- What a failure makes of a job (src/queue/jobs.rs).
use native.Mathlib.Numerals.{unary_clauses}
use ingest_pipeline.Prelude.{
  [], ◌∷◌, List, length, ◌-◌, zero, subst, suc, ◌*◌, ◌+◌, ℕ, ◌≡◌, Option, none, some, arith, refl,
  ◌^◌, ◌<◌, ◌≤◌,
}
use ingest_pipeline.Prelude.Text.{Text}
use ingest_pipeline.Queue.Jobs.{fail_row, i32_max}
use ingest_pipeline.Schema.{Job, JobStatus}

-- The job after its failure, as the retry policy has it: one more attempt, dead at the last one,
-- else pending again and due 2 ^ attempts seconds later.
abbrev pub HasFailed : ℕ → Text → Job → Option Job → Type 0
HasFailed now error j none = ⊥
HasFailed now error j (some k) =
    (k.attempts ≡ j.attempts + 1)
    × (k.last_error ≡ some error)
    × (k.id ≡ j.id)
    × (k.max_attempts ≡ j.max_attempts)
    × (j.max_attempts ≤ k.attempts → k.status ≡ JobStatus.dead)
    × (k.attempts < j.max_attempts
        → (k.status ≡ JobStatus.pending) × (k.run_at ≡ now + 1000000 * 2 ^ j.attempts))

-- 2 ^ a for the attempts that a job can have before its last.
power_suc : (n : ℕ) → 2 ^ suc n ≡ 2 ^ n * 2
power_suc n = simp unary_clauses (refl)

power_le : (a k : ℕ) → 2 ^ a ≤ 2 ^ (a + k)
power_le a zero = ground arith
power_le a (suc k) =
    let e : suc (a + k) ≡ a + suc k = omega arith in
    subst (λ n. 2 ^ a ≤ 2 ^ n) e (omega (arith, power_suc (a + k), power_le a k))

pub power_bound : (a : ℕ) → a ≤ 30 → 2 ^ a ≤ i32_max
power_bound a h =
    let e : a + (30 - a) ≡ 30 = omega arith in
    omega (arith, subst (λ n. 2 ^ a ≤ 2 ^ n) e (power_le a (30 - a)))

-- A failure of a job with at most 31 attempts allowed and not all used is never refused by the
-- database: the attempt is counted and the error kept; the job is dead if that was the last attempt,
-- and is pending again, due 2 ^ attempts seconds later, if not.
pub fail_row-HasFailed :
    (now : ℕ) (error : Text) (j : Job)
    → j.attempts < j.max_attempts
    → j.max_attempts ≤ 31
    → HasFailed now error j (fail_row now error j)
unfolding fail_row
fail_row-HasFailed now error j h m = ground (arith, power_bound j.attempts)

-- Failures one after the other: each at a time and with an error.
abbrev pub fail_times : List (ℕ × Text) → Job → Option Job
fail_times [] j = some j
fail_times (f ∷ rest) j = elim (fail_row f.0 f.1 j) [ none ↦ none | some k ↦ fail_times rest k ]

-- The job after n failures.
abbrev pub IsCounted : ℕ → Job → Option Job → Type 0
IsCounted n j none = ⊥
IsCounted n j (some k) =
    (k.attempts ≡ j.attempts + n)
    × (k.max_attempts ≡ j.max_attempts)
    × (k.attempts < j.max_attempts → k.status ≡ JobStatus.pending)
    × (j.max_attempts ≤ k.attempts → k.status ≡ JobStatus.dead)

dead-IsCounted :
    (now : ℕ) (error : Text) (j : Job) (r : Option Job) → HasFailed now error j r → IsCounted 1 j r
dead-IsCounted now error j none h = h
dead-IsCounted now error j (some k) h = ground arith

shift-IsCounted :
    (n : ℕ) (j k : Job) (r : Option Job)
    → k.attempts ≡ j.attempts + 1
    → k.max_attempts ≡ j.max_attempts
    → IsCounted n k r
    → IsCounted (suc n) j r
shift-IsCounted n j k none a b h = h
shift-IsCounted n j k (some l) a b h = ground arith

next-IsCounted :
    (now : ℕ) (error : Text) (j : Job) (r : Option Job) (n : ℕ) (go : Job → Option Job)
    → HasFailed now error j r
    → j.attempts + 1 < j.max_attempts
    → ((k : Job)
        → k.status ≡ JobStatus.pending
        → k.attempts ≡ j.attempts + 1
        → k.max_attempts ≡ j.max_attempts
        → IsCounted n k (go k))
    → IsCounted (suc n) j (elim r [ none ↦ none | some k ↦ go k ])
next-IsCounted now error j none n go h l rest = h
next-IsCounted now error j (some k) n go h l rest =
    shift-IsCounted n j k (go k) (ground arith) (ground arith)
      (rest k (ground arith) (ground arith) (ground arith))

-- A pending job that fails again and again stays pending until its attempts are used up, and is dead
-- exactly then; the database refuses none of the failures if at most 31 attempts are allowed.
pub fail_times-IsCounted :
    (failures : List (ℕ × Text)) (j : Job)
    → j.status ≡ JobStatus.pending
    → j.attempts < j.max_attempts
    → j.max_attempts ≤ 31
    → j.attempts + length failures ≤ j.max_attempts
    → IsCounted (length failures) j (fail_times failures j)
fail_times-IsCounted [] j p h m l = ground arith
fail_times-IsCounted (f ∷ []) j p h m l =
    ground (arith, dead-IsCounted f.0 f.1 j (fail_row f.0 f.1 j) (fail_row-HasFailed f.0 f.1 j h m))
fail_times-IsCounted (f ∷ g ∷ rest) j p h m l =
    next-IsCounted f.0 f.1 j (fail_row f.0 f.1 j) (length (g ∷ rest)) (fail_times (g ∷ rest))
      (fail_row-HasFailed f.0 f.1 j h m) (omega arith)
      (λ k q a b. fail_times-IsCounted (g ∷ rest) k q (omega arith) (omega arith) (omega arith))
