-- ===== src/Store.antt =====
-- The database, the outside world, and the computations that run against them. A statement is one
-- atomic change of the tables, numbered in the order in which the program sends them; the
-- environment says which statements fail, what `now()` is, which ids are drawn, and what the
-- network answers. The error of a failed statement is the text of its `.context(…)`, which is what
-- `anyhow` displays.
use ingest_pipeline.Prelude.{
  arith, ◌≡◌, refl, if◌then◌else◌, ℕ, suc, ◌+◌, ◌*◌, Bool, true, false, Option, none, some, List,
}
use ingest_pipeline.Prelude.Text.{Text}
use ingest_pipeline.Libs.{Libs}
use ingest_pipeline.Schema.{
  FeedSource, RawArticle, PipelineRun, PipelineStepRun, RejectedArticle, Job,
}

pub data Result (A : Type 0) : Type 0 where
  ok : A → Result A
  err : Text → Result A

-- A request of `reqwest`, and the parts of its answer that the program reads: the URL after
-- redirects, the status, the body or the error of reading it.
pub data Method : Type 0 where
  head get post : Method

pub record Request : Type 0 where
  pub method : Method
  pub target : Text
  pub headers : List (Text × Text)
  pub json : Option Text

pub record Response : Type 0 where
  pub final_url : Text
  pub status : ℕ
  pub status_text : Text  -- as `format!` shows the status
  pub payload : Result Text

pub record Env : Type 0 where
  pub libs : Libs
  pub open libs use *
  pub fails : ℕ → Bool
  pub now : ℕ → ℕ
  pub lag : ℕ → ℕ  -- the time between two readings of the clock with no statement between them
  pub fresh : ℕ → ℕ
  pub send : ℕ → Request → Result Response
  pub held : ℕ → ℕ → Bool  -- is the row of this id locked by another statement
  pub returned : ℕ → List Job → List Job  -- the order in which UPDATE … RETURNING gives its rows

pub record World : Type 0 where
  pub feeds : List FeedSource
  pub articles : List RawArticle
  pub runs : List PipelineRun
  pub steps : List PipelineStepRun
  pub rejections : List RejectedArticle
  pub jobs : List Job
  pub statements : ℕ
  pub draws : ℕ
  pub requests : ℕ

abbrev pub M : Type 0 → Type 0
M A = Env → World → Result A × World

abbrev pub pure : {A : Type 0} → A → M A
pure a env w = (ok a, w)

abbrev pub fail_with : {A : Type 0} → Text → M A
fail_with e env w = (err e, w)

abbrev pub then_run :
    {A B : Type 0} → Result A × World → (A → World → Result B × World) → Result B × World
then_run (ok a, w) k = k a w
then_run (err e, w) k = (err e, w)

-- `m?` followed by the rest.
infixl 5 ◌>>=◌ ◌>>◌
abbrev pub ◌>>=◌ : {A B : Type 0} → M A → (A → M B) → M B
◌>>=◌ m f env w = then_run (m env w) (λ a w'. f a env w')

abbrev pub ◌>>◌ : {A B : Type 0} → M A → M B → M B
m >> k = m >>= λ _. k

-- A result that the caller matches on, in place of `?`.
abbrev pub attempt : {A : Type 0} → M A → M (Result A)
attempt m env w = let (r, w') = m env w in (ok r, w')

-- `m.await.context(…)`: the text of an error is replaced.
abbrev pub relabelled : {A : Type 0} → Text → Result A × World → Result A × World
relabelled e (ok a, w) = (ok a, w)
relabelled e (err inner, w) = (err e, w)

abbrev pub with_context : {A : Type 0} → Text → M A → M A
with_context e m env w = relabelled e (m env w)

-- `let _ = m.await;`.
abbrev pub ignore : {A : Type 0} → M A → M (Unit {0})
ignore m env w = let (r, w') = m env w in (ok tt, w')

abbrev pub ok_or : {A : Type 0} → Text → Option A → M A
ok_or e none = fail_with e
ok_or e (some a) = pure a

abbrev pub committed : {A : Type 0} → Text → World → Option (A × World) → Result A × World
committed context w none = (err context, w)
committed context w (some (a, w')) = (ok a, w')

-- A statement that the database may refuse (`none`): then the tables stay as they are.
abbrev pub checked_statement : {A : Type 0} → Text → (ℕ → World → Option (A × World)) → M A
checked_statement context body env w =
    let w' = record w { statements = suc w.statements } in
    elim (env.fails w.statements) [
      | true ↦ (err context, w')
      | false ↦ committed context w' (body (env.now w.statements) w')
    ]

abbrev pub statement : {A : Type 0} → Text → (ℕ → World → A × World) → M A
statement context body = checked_statement context (λ now w. some (body now w))

-- A statement whose effect and result need one new id.
abbrev pub draw : M ℕ
draw env w = (ok (env.fresh w.draws), record w { draws = suc w.draws })

-- `Utc::now()`, between the statements.
abbrev pub clock : M ℕ
clock env w = (ok (env.now w.statements), w)

-- The next `Utc::now()` after that, with no statement between the two.
abbrev pub clock_again : M ℕ
clock_again env w = (ok (env.now w.statements + env.lag w.statements), w)

abbrev pub request : Request → M Response
request r env w = (env.send w.requests r, record w { requests = suc w.requests })

-- `make_interval(secs => n)` and `make_interval(days => n)`.
abbrev pub seconds : ℕ → ℕ
seconds n = n * 1000000

abbrev pub days : ℕ → ℕ
days n = n * 86400000000

abbrev pub is_ok : {A : Type 0} → Result A → Bool
is_ok (ok a) = true
is_ok (err e) = false

-- A property of the result of both branches is one of the conditional.
pub if_both :
    {A : Type 0} (P : Result A → Type 0) (b : Bool) (m n : M A) (env : Env) (w : World)
    → P (m env w).0
    → P (n env w).0
    → P ((if b then m else n) env w).0
if_both P true m n env w hm hn = hm
if_both P false m n env w hm hn = hn

-- A property of the result of a step and the rest, from those of its parts.
pub then_run_rule :
    {A B : Type 0} (P : Result A → Type 0) (Q : Result B → Type 0) (r : Result A × World)
    (k : A → World → Result B × World)
    → P r.0
    → ((e : Text) → P (err e) → Q (err e))
    → ((a : A) (w : World) → P (ok a) → Q (k a w).0)
    → Q (then_run r k).0
then_run_rule P Q (ok a, w) k p fails goes = goes a w p
then_run_rule P Q (err e, w) k p fails goes = fails e p

-- The same for a property of the result with the tables.
pub run_both :
    {A B : Type 0} (P : Result A × World → Type 0) (Q : Result B × World → Type 0)
    (r : Result A × World) (k : A → World → Result B × World)
    → P r
    → ((e : Text) (w : World) → P (err e, w) → Q (err e, w))
    → ((a : A) (w : World) → P (ok a, w) → Q (k a w))
    → Q (then_run r k)
run_both P Q (ok a, w) k p fails goes = goes a w p
run_both P Q (err e, w) k p fails goes = fails e w p

pub branch_both :
    {A : Type 0} (P : Result A × World → Type 0) (b : Bool) (m n : M A) (env : Env) (w : World)
    → P (m env w)
    → P (n env w)
    → P ((if b then m else n) env w)
branch_both P true m n env w hm hn = hm
branch_both P false m n env w hm hn = hn

-- A property of a statement, from those of its failure and of its effect.
pub decided :
    {A : Type 0} (P : Result A × World → Type 0) (b : Bool) (x y : Result A × World)
    → P x
    → P y
    → P (elim b [ true ↦ x | false ↦ y ])
decided P true x y p q = p
decided P false x y p q = q

-- The same for a property of the tables alone.
pub run_keeps :
    {A B : Type 0} (P : World → Type 0) (r : Result A × World) (k : A → World → Result B × World)
    → P r.1
    → ((a : A) (w : World) → P w → P (k a w).1)
    → P (then_run r k).1
run_keeps P (ok a, w) k p goes = goes a w p
run_keeps P (err e, w) k p goes = p

pub branch_keeps :
    {A : Type 0} (P : World → Type 0) (b : Bool) (m n : M A) (env : Env) (w : World)
    → P (m env w).1
    → P (n env w).1
    → P ((if b then m else n) env w).1
branch_keeps P true m n env w hm hn = hm
branch_keeps P false m n env w hm hn = hn

-- The table of jobs is this one.
abbrev pub HasJobs : List Job → World → Type 0
HasJobs jobs w = w.jobs ≡ jobs

-- The tables of jobs and of runs are these.
abbrev pub HasQueue : List Job → List PipelineRun → World → Type 0
HasQueue jobs runs w = HasJobs jobs w × (w.runs ≡ runs)

-- Steps and the rest may be grouped either way.
pub then_run_assoc :
    {A B C : Type 0} (r : Result A × World) (k : A → World → Result B × World)
    (l : B → World → Result C × World)
    → then_run (then_run r k) l ≡ then_run r (λ a w. then_run (k a w) l)
then_run_assoc (ok a, w) k l = refl
then_run_assoc (err e, w) k l = refl

-- A property of a statement that does not fail, from its effect alone.
pub effected :
    {A : Type 0} (P : Result A × World → Type 0) (b : Bool) (x y : Result A × World)
    → b ≡ false
    → P y
    → P (elim b [ true ↦ x | false ↦ y ])
effected P true x y e p = absurd (ground arith)
effected P false x y e p = p

-- The same for a property of the result of the step and of the whole.
pub run_pair :
    {A B : Type 0} (P : Result A × World → Type 0)
    (Q : Result A × World → Result B × World → Type 0) (r : Result A × World)
    (k : A → World → Result B × World)
    → P r
    → ((e : Text) (w : World) → P (err e, w) → Q (err e, w) (err e, w))
    → ((a : A) (w : World) → P (ok a, w) → Q (ok a, w) (k a w))
    → Q r (then_run r k)
run_pair P Q (ok a, w) k p fails goes = goes a w p
run_pair P Q (err e, w) k p fails goes = fails e w p
