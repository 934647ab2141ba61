-- ===== src/Lifecycle/Retry.antt =====
-- Tasks that fail whenever a worker tries them, and the end of the trying.
use seans.Prelude.{
  ℕ, suc, ◌+◌, ◌-◌, ◌≤◌, ◌≡◌, refl, String, true, false, Option, none, some, List, [], ◌∷◌, length,
  All, All-weaken, All-both, get_or, arith, inl, inr, ◌==◌, ==_self, Option-cases, Bool-cases,
  if◌then◌else◌, is_id,
}
use seans.Table.{find, count_where, update_where}
use seans.Models.{Database, Task, Worker, is_queued}
use seans.Config.{Settings}
use seans.TaskQueue.{claim_task, next_task, assign_task, save_task, claim_row}
use seans.TaskQueue.Claim.{next_task-All, next_task-queued, next_task-none}
use seans.TaskQueue.Drain.{queued_count, none_queued}
use seans.WorkerApi.{worker_fail, failed_task}

-- What is left of the attempts of a queued task, and one more for its way out of the queue.
abbrev weight : Task → ℕ
weight t = if is_queued t.status then suc (t.max_attempts - t.attempts) else 0

abbrev total_weight : List Task → ℕ
total_weight [] = 0
total_weight (t ∷ tasks) = weight t + total_weight tasks

-- How often the tasks in the queue can be tried, at most.
abbrev pub attempts_left : Database → ℕ
attempts_left db = total_weight db.tasks

-- The primary key of the table.
abbrev pub HasUniqueIds : List Task → Type 0
HasUniqueIds [] = Unit
HasUniqueIds (t ∷ tasks) = All (λ u. (u.id == t.id) ≡ false) tasks × HasUniqueIds tasks

-- A claim of the worker, and its report that the claimed task failed.
abbrev fail_claimed : Worker → Option String → Option Task × Database → Database
fail_claimed worker error (none, db) = db
fail_claimed worker error (some t, db) =
    (worker_fail (record { task_id = some t.id; error = error }) worker db).1

unfoldable pub fail_round : Settings → Worker → ℕ → Option String → Database → Database
unfolding claim_task worker_fail
fail_round settings worker now error db =
    fail_claimed worker error (claim_task settings (λ _. false) worker.id now db)

unfoldable pub fail_each : Settings → Worker → List (ℕ × Option String) → Database → Database
unfolding fail_round
fail_each settings worker [] db = db
fail_each settings worker ((now, error) ∷ rounds) db =
    fail_each settings worker rounds (fail_round settings worker now error db)

failed_id : (error : String) (t : Task) → (failed_task error t).id ≡ t.id
unfolding failed_task
failed_id error t = ground arith

lighter :
    (settings : Settings) (worker_id now : ℕ) (error : String) (t : Task)
    → is_queued t.status ≡ true
    → suc (weight (failed_task error (assign_task settings worker_id now t))) ≤ weight t
unfolding failed_task
lighter settings worker_id now error t on = ground arith

untouched :
    (id : ℕ) (x : Task) (tasks : List Task)
    → All (λ u. (u.id == id) ≡ false) tasks
    → update_where (λ u. u.id == id) (λ _. x) tasks ≡ tasks
unfolding update_where
untouched id x [] h = refl
untouched id x (t ∷ tasks) h = ground (arith, untouched id x tasks h.1)

update_twice :
    (id : ℕ) (x y : Task) (tasks : List Task)
    → (x.id == id) ≡ true
    → update_where (λ u. u.id == id) (λ _. y) (update_where (λ u. u.id == id) (λ _. x) tasks)
      ≡ update_where (λ u. u.id == id) (λ _. y) tasks
unfolding update_where
update_twice id x y [] h = refl
update_twice id x y (t ∷ tasks) h = ground (arith, update_twice id x y tasks h)

ids_kept :
    (id n : ℕ) (x : Task) (tasks : List Task)
    → x.id ≡ id
    → All (λ u. (u.id == n) ≡ false) tasks
    → All (λ u. (u.id == n) ≡ false) (update_where (λ u. u.id == id) (λ _. x) tasks)
unfolding update_where
ids_kept id n x [] same h = tt
ids_kept id n x (t ∷ tasks) same h = let rest = ids_kept id n x tasks same h.1 in ground arith

update-HasUniqueIds :
    (id : ℕ) (x : Task) (tasks : List Task)
    → x.id ≡ id
    → HasUniqueIds tasks
    → HasUniqueIds (update_where (λ u. u.id == id) (λ _. x) tasks)
unfolding update_where
update-HasUniqueIds id x [] same h = tt
update-HasUniqueIds id x (t ∷ tasks) same h =
    let rest = update-HasUniqueIds id x tasks same h.1 in
    elim (Bool-cases (t.id == id)) [
      | inl hit ↦
          let eq : x.id ≡ t.id = ground arith in
          rw (hit, eq) (ids_kept id t.id x tasks same h.0, rest)
      | inr miss ↦ rw miss (ids_kept id t.id x tasks same h.0, rest)
    ]

-- A row of the table, replaced by a lighter one.
abbrev Lightens : List Task → Task → Type 0
Lightens tasks t =
    (x : Task)
    → suc (weight x) ≤ weight t
    → suc (total_weight (update_where (λ u. u.id == t.id) (λ _. x) tasks)) ≤ total_weight tasks

all-Lightens : (tasks : List Task) → HasUniqueIds tasks → All (Lightens tasks) tasks
unfolding update_where
all-Lightens [] h = tt
all-Lightens (t ∷ tasks) h = (
  λ x less. rw (==_self t.id, untouched t.id x tasks h.0) (omega (arith, less)),
  All-weaken (λ u. ((u.id == t.id) ≡ false) × Lightens tasks u) (Lightens (t ∷ tasks)) tasks
      (λ u both x less. let later = both.1 x less in let apart = both.0 in ground arith)
      (All-both _ _ tasks h.0 (all-Lightens tasks h.1)),
)

-- The row is found where it was replaced.
abbrev IsFound : List Task → Task → Type 0
IsFound tasks t =
    (x : Task)
    → x.id ≡ t.id
    → find (λ u. is_id (some t.id) u.id) (update_where (λ u. u.id == t.id) (λ _. x) tasks) ≡ some x

all-IsFound : (tasks : List Task) → All (IsFound tasks) tasks
unfolding find update_where
all-IsFound [] = tt
all-IsFound (t ∷ tasks) = (
  λ x same. rw (==_self t.id, same, ==_self t.id) refl,
  All-weaken (IsFound tasks) (IsFound (t ∷ tasks)) tasks
      (λ u found x same. let later = found x same in ground arith) (all-IsFound tasks),
)

weightless :
    (tasks : List Task) → count_where (λ t. is_queued t.status) tasks ≡ 0 → total_weight tasks ≡ 0
unfolding count_where
weightless [] h = refl
weightless (t ∷ tasks) h = ground (arith, weightless tasks)

unweighed :
    (tasks : List Task) → total_weight tasks ≡ 0 → count_where (λ t. is_queued t.status) tasks ≡ 0
unfolding count_where
unweighed [] h = refl
unweighed (t ∷ tasks) h = ground (arith, unweighed tasks)

module _ (settings : Settings) (worker : Worker) (now : ℕ) (error : Option String) where
  -- The claimed task after its failure.
  abbrev tried : Task → Task
  tried t = failed_task (get_or error "Unknown error") (assign_task settings worker.id now t)

  claimed_db : (db : Database) (t : Task) → Database
  claimed_db db t = save_task (assign_task settings worker.id now t) db

  claim_some :
      (db : Database) (t : Task)
      → next_task (λ _. false) db.tasks ≡ some t
      → claim_task settings (λ _. false) worker.id now db
        ≡ (some (assign_task settings worker.id now t), claimed_db db t)
  unfolding claim_task claim_row claimed_db
  claim_some db t e = rw e refl

  fail_found :
      (db : Database) (x : Task)
      → find (λ u. is_id (some x.id) u.id) db.tasks ≡ some x
      → x.worker_id ≡ some worker.id
      → (worker_fail (record { task_id = some x.id; error = error }) worker db).1
        ≡ save_task (failed_task (get_or error "Unknown error") x) db
  unfolding worker_fail
  fail_found db x found own = rw (found, own, ==_self worker.id) refl

  fail_round-tasks :
      (db : Database) (t : Task)
      → next_task (λ _. false) db.tasks ≡ some t
      → (fail_round settings worker now error db).tasks
        ≡ update_where (λ u. u.id == t.id) (λ _. tried t) db.tasks
  unfolding fail_round claimed_db save_task
  fail_round-tasks db t e =
      let x = assign_task settings worker.id now t in
      let found =
        next_task-All (λ _. false) (IsFound db.tasks) db.tasks t (all-IsFound db.tasks) e x refl in
      let failed = fail_found (claimed_db db t) x found refl in
      let same = failed_id (get_or error "Unknown error") x in
      rw (claim_some db t e, failed, same) (update_twice t.id x (tried t) db.tasks (==_self t.id))

  fail_round-none :
      (db : Database)
      → next_task (λ _. false) db.tasks ≡ none
      → fail_round settings worker now error db ≡ db
  unfolding fail_round claim_task
  fail_round-none db e = rw e refl

  round_lightens :
      (db : Database)
      → HasUniqueIds db.tasks
      → (attempts_left (fail_round settings worker now error db) ≤ attempts_left db - 1)
        × HasUniqueIds (fail_round settings worker now error db).tasks
  round_lightens db h = elim (Option-cases (next_task (λ _. false) db.tasks)) [
    | inl e ↦
        let empty =
          weightless db.tasks (
            none_queued settings worker.id now db.tasks (next_task-none (λ _. false) db.tasks e)) in
        rw (fail_round-none db e) (omega (arith, empty), h)
    | inr (t, e) ↦
        let (on, _) = next_task-queued (λ _. false) db.tasks t e in
        let less =
          next_task-All (λ _. false) (Lightens db.tasks) db.tasks t (all-Lightens db.tasks h) e
            (tried t) (lighter settings worker.id now (get_or error "Unknown error") t on) in
        let same =
          failed_id (get_or error "Unknown error") (assign_task settings worker.id now t) in
        rw (fail_round-tasks db t e)
          (omega (arith, less), update-HasUniqueIds t.id (tried t) db.tasks same h)
  ]

-- The trying of tasks that always fail comes to an end: after as many rounds of a claim and a
-- report of failure as the queued tasks have attempts left, and one more for each of them, no task
-- is queued. (No other transaction runs beside them; ids are unique.)
pub retries_end :
    (settings : Settings) (worker : Worker) (rounds : List (ℕ × Option String)) (db : Database)
    → HasUniqueIds db.tasks
    → attempts_left db ≤ length rounds
    → queued_count (fail_each settings worker rounds db) ≡ 0
unfolding fail_each
retries_end settings worker [] db h enough = unweighed db.tasks (omega (arith, enough))
retries_end settings worker ((now, error) ∷ rounds) db h enough =
    let (less, unique) = round_lightens settings worker now error db h in
    retries_end settings worker rounds _ unique (omega (arith, less, enough))
