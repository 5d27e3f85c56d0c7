-- ===== src/Indexing/Dispatcher/Drain.antt =====
-- How long the database worker loop has work, and what it leaves behind
-- (app/infrastructure/tasks/dispatcher.py, `_worker_loop`).
use smart_sre_copilot.Prelude.{
  ℕ, zero, suc, ◌+◌, ◌-◌, ◌≤◌, ◌<◌, String, ◌≡◌, refl, ap, ◌∙◌, Bool, true, false, Option, none,
  some, [], ◌∷◌, str_eq, eq_iff, eq_refl, if◌then◌else◌, All, Bool-cases, inl, inr, arith, any, ltb,
}
use smart_sre_copilot.Indexing.{
  completed, IndexingTask, Table, Processed, is_queued, has_id, update_where, claimable, claimed,
  claim_row, claim_next_queued_task, retried, process_task, oldest, get_task,
}
use smart_sre_copilot.Indexing.Claims.{
  IsUnique, IsOldest, oldest-IsOldest, KeepsId, claim_task_hit, any_stored,
}
use smart_sre_copilot.Indexing.Dispatcher.{Indexer, worker_round, worker_loop, work_on}

-- The rounds that a queued task can take: one for each attempt left, and one when a manual retry
-- has queued it without any.
abbrev rounds_left : IndexingTask → ℕ
rounds_left t =
    if is_queued t.status
    then (if ltb t.attempt_count t.max_retries then t.max_retries - t.attempt_count else 1)
    else 0

-- The rounds that the queued tasks can take together.
unfoldable pub remaining : Table → ℕ
remaining [] = 0
remaining (t ∷ ts) = rounds_left t + remaining ts

abbrev pub IsIdle : Table → Type 0
IsIdle db = any (λ t. is_queued t.status) db ≡ false

-- ---------------------------------------------------------------- ids stay unique

ids-update_where :
    (a : String) (p : IndexingTask → Bool) (f : IndexingTask → IndexingTask)
    → KeepsId f
    → (db : Table) → All (λ u. str_eq u.task_id a ≡ false) db
    → All (λ u. str_eq u.task_id a ≡ false) (update_where p f db)
unfolding update_where
ids-update_where a p f keep [] h = tt
ids-update_where a p f keep (t ∷ ts) h = elim (Bool-cases (p t)) [
  | inl e ↦ rw e (rw (keep t) h.0, ids-update_where a p f keep ts h.1)
  | inr e ↦ rw e (h.0, ids-update_where a p f keep ts h.1)
]

pub IsUnique-update_where :
    (p : IndexingTask → Bool) (f : IndexingTask → IndexingTask)
    → KeepsId f
    → (db : Table) → IsUnique db
    → IsUnique (update_where p f db)
unfolding update_where
IsUnique-update_where p f keep [] u = tt
IsUnique-update_where p f keep (t ∷ ts) u = elim (Bool-cases (p t)) [
  | inl e ↦ rw e (
    rw (keep t) (ids-update_where t.task_id p f keep ts u.0),
    IsUnique-update_where p f keep ts u.1,
  )
  | inr e ↦ rw e (ids-update_where t.task_id p f keep ts u.0, IsUnique-update_where p f keep ts u.1)
]

-- ---------------------------------------------------------------- one round

-- with unique ids, a row of the table with the id of `row` is `row`
only_row :
    (row : IndexingTask) (id : String) (db : Table)
    → IsUnique db
    → get_task id db ≡ some row
    → is_queued row.status ≡ true
    → All (λ u. has_id id u ≡ true → is_queued u.status ≡ true) db
unfolding get_task
only_row row id [] u g q = tt
only_row row id (t ∷ ts) u g q = elim (Bool-cases (str_eq t.task_id id)) [
  | inl e ↦ (λ _. ground arith, vacuous t.task_id id ts ((eq_iff t.task_id id).0 e) u.0)
  | inr e ↦ (λ h. cc, only_row row id ts u.1 (ground arith) q)
]
  where
    vacuous :
        (a b : String) (db : Table)
        → a ≡ b
        → All (λ v. str_eq v.task_id a ≡ false) db
        → All (λ v. has_id b v ≡ true → is_queued v.status ≡ true) db
    vacuous a b [] e h = tt
    vacuous a b (v ∷ vs) e h = (λ k. cc, vacuous a b vs e h.1)

-- a claim of the queued row `t` and `f` behind it use up a round at least
abbrev Shrinks : ℕ → (IndexingTask → IndexingTask) → Type 0
Shrinks now f =
    (t : IndexingTask)
    → is_queued t.status ≡ true
    → rounds_left (f (claimed now t)) + 1 ≤ rounds_left t

module _ (id : String) (now : ℕ) (f : IndexingTask → IndexingTask) where
  remaining-round :
      Shrinks now f
      → (db : Table) → All (λ u. has_id id u ≡ true → is_queued u.status ≡ true) db
      → remaining (update_where (has_id id) f (update_where (claimable id) (claimed now) db))
          + (if any (claimable id) db then 1 else 0)
        ≤ remaining db
  unfolding remaining update_where
  remaining-round shrinks [] o = omega arith
  remaining-round shrinks (t ∷ ts) o =
      let ih = remaining-round shrinks ts o.1 in
      elim (Bool-cases (str_eq t.task_id id)) [
        | inl e ↦ let q = o.0 e in let step = shrinks t q in rw (e, q) (rw e (ground arith))
        | inr e ↦ rw e (rw e (ground arith))
      ]

complete-Shrinks :
    (now : ℕ)
    → Shrinks now (λ t. record t { status = completed; error_message = none; updated_at = now })
complete-Shrinks now t q = ground arith

retried-Shrinks : (now : ℕ) (error : String) → Shrinks now (retried error now)
retried-Shrinks now error t q = ground arith

-- a round: the table after the claim of `row` and the report behind it
abbrev round_on : Indexer → ℕ → IndexingTask → Table → Processed × Table
round_on index now row db =
    process_task (index (claimed now row)) row.task_id now
      (update_where (claimable row.task_id) (claimed now) db)

worker_round-some :
    (index : Indexer) (now : ℕ) (row : IndexingTask) (db : Table)
    → IsUnique db
    → oldest (λ t. is_queued t.status) db ≡ some row
    → worker_round index now db ≡ some (round_on index now row db)
unfolding worker_round claim_next_queued_task
worker_round-some index now row db u e =
    let o = oldest-IsOldest (λ t. is_queued t.status) db row u e in
    let c : claimable row.task_id row ≡ true = rw (eq_refl row.task_id, o.passes) in
    let hit = any_stored (claimable row.task_id) row.task_id row db o.stored c in
    rw (e, claim_row)
      (ap (work_on index now) (claim_task_hit row.task_id now db hit) ∙ rw (o.stored, c))

worker_round-none :
    (index : Indexer) (now : ℕ) (db : Table)
    → oldest (λ t. is_queued t.status) db ≡ none
    → worker_round index now db ≡ none
unfolding worker_round claim_next_queued_task
worker_round-none index now db e = rw (e, claim_row)

oldest-IsIdle : (db : Table) → oldest (λ t. is_queued t.status) db ≡ none → IsIdle db
unfolding oldest
oldest-IsIdle [] e = refl
oldest-IsIdle (t ∷ ts) e = ground (arith, oldest-IsIdle ts)

module _ (now : ℕ) (row : IndexingTask) (db : Table) where
  claim_then :
      (f : IndexingTask → IndexingTask)
      → KeepsId f
      → Shrinks now f
      → IsUnique db
      → IsOldest (λ t. is_queued t.status) db row
      → let db' =
          update_where
            (has_id row.task_id)
            f
            (update_where (claimable row.task_id) (claimed now) db) in
        (remaining db' < remaining db) × IsUnique db'
  claim_then f keep shrinks u o =
      let hit =
        any_stored (claimable row.task_id) row.task_id row db o.stored
          (rw (eq_refl row.task_id, o.passes)) in
      let fewer = rw hit at (
        remaining-round row.task_id now f shrinks db
          (only_row row row.task_id db u o.stored o.passes)) in
      (
        omega arith,
        IsUnique-update_where (has_id row.task_id) f keep _
            (IsUnique-update_where (claimable row.task_id) (claimed now) (λ _. refl) db u),
      )

  process-ends :
      (outcome : Option String)
      → IsUnique db
      → IsOldest (λ t. is_queued t.status) db row
      → (remaining
            (process_task outcome row.task_id now
              (update_where (claimable row.task_id) (claimed now) db)).1
          < remaining db)
        × IsUnique
            (process_task outcome row.task_id now
              (update_where (claimable row.task_id) (claimed now) db)).1
  unfolding process_task
  process-ends none u o = claim_then _ (λ _. refl) (complete-Shrinks now) u o
  process-ends (some error) u o =
      claim_then (retried error now) (λ _. refl) (retried-Shrinks now error) u o

-- The worker loop ends: with unique ids, and with more fuel than the rounds that the queued tasks
-- can take together, it reaches a state in which no task is queued and the worker waits, whatever
-- the indexer does with each attempt.
pub worker_loop_ends :
    (index : Indexer) (clock : ℕ → ℕ) (fuel : ℕ) (db : Table)
    → IsUnique db
    → remaining db < fuel
    → (db' : Table) × (worker_loop index clock fuel db ≡ some db') × IsIdle db'
unfolding worker_loop
worker_loop_ends index clock zero db u less = elim less [ ]
worker_loop_ends index clock (suc fuel) db u less =
    go (oldest (λ t. is_queued t.status) db) refl (worker_loop_ends index clock fuel)
  where
    go :
        (o : Option IndexingTask)
        → oldest (λ t. is_queued t.status) db ≡ o
        → ((d : Table)
            → IsUnique d
            → remaining d < fuel
            → (db' : Table) × (worker_loop index clock fuel d ≡ some db') × IsIdle db')
        → (db' : Table) × (worker_loop index clock (suc fuel) db ≡ some db') × IsIdle db'
    go none e ih =
        (db, rw (worker_round-none index (clock fuel) db e, worker_loop), oldest-IsIdle db e)
    go (some row) e ih =
        let now = clock fuel in
        let o = oldest-IsOldest (λ t. is_queued t.status) db row u e in
        let (fewer, unique) = process-ends now row db (index (claimed now row)) u o in
        rw (worker_round-some index now row db u e, worker_loop)
          (ih (round_on index now row db).1 unique (omega arith))
