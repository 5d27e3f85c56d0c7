-- ===== src/Indexing/Attempts.antt =====
-- The attempts at a task, over the operations of the table
-- (app/platform/persistence/repositories/indexing.py).
use smart_sre_copilot.Prelude.{
  ℕ, ◌≤◌, ◌<◌, String, ◌≡◌, Bool, true, Option, List, [], ◌∷◌, All, Bool-cases, inl, inr, ◌+◌,
  str_eq, if◌then◌else◌,
}
use smart_sre_copilot.Indexing.{
  retry_index_task, IndexingTask, Table, is_queued, is_processing, update_where, claim_task,
  claim_next_queued_task, requeue_stale_processing_tasks, submit_task, process_task,
}

-- Of a table in which the task of an id has been retried by hand `by_hand id` times: a task has
-- been claimed at most once more than its retry limit for each of these, and one that is queued can
-- be claimed once more within that bound.
pub record IsWithin (by_hand : String → ℕ) (t : IndexingTask) : Type 0 where
  pub attempts_bounded : t.attempt_count ≤ t.max_retries + by_hand t.task_id
  pub queued_has_attempt :
      is_queued t.status ≡ true → t.attempt_count < t.max_retries + by_hand t.task_id
  pub processing_is_claimed : is_processing t.status ≡ true → 0 < t.attempt_count

pub update_where-All {κ} :
    (P : IndexingTask → Type κ) (p : IndexingTask → Bool) (f : IndexingTask → IndexingTask)
    → ((t : IndexingTask) → p t ≡ true → P t → P (f t))
    → (db : Table) → All P db
    → All P (update_where p f db)
unfolding update_where
update_where-All P p f step [] a = a
update_where-All P p f step (t ∷ ts) a = elim (Bool-cases (p t)) [
  | inl e ↦ rw e (step t e a.0, update_where-All P p f step ts a.1)
  | inr e ↦ rw e (a.0, update_where-All P p f step ts a.1)
]

-- What happens to the table while tasks are submitted, retried by hand and worked on: a worker may
-- claim, finish or fail any task at any time, also one that was taken from it.
pub data Event : Type 0 where
  submit : (new_id : String) (now max_retries : ℕ) (filename file_path : String) → Event
  claim : (task_id : String) (now : ℕ) → Event
  claim_next : (now : ℕ) → Event
  finish : (outcome : Option String) (task_id : String) (now : ℕ) → Event
  requeue_stale : (timeout now : ℕ) → Event
  retry_by_hand : (task_id : String) (now : ℕ) → Event

pub apply_event : Table → Event → Table
apply_event db (submit new_id now max_retries filename file_path) =
    (submit_task new_id now max_retries filename file_path db).1
apply_event db (claim task_id now) = (claim_task task_id now db).1
apply_event db (claim_next now) = (claim_next_queued_task now db).1
apply_event db (finish outcome task_id now) = (process_task outcome task_id now db).1
apply_event db (requeue_stale timeout now) = (requeue_stale_processing_tasks timeout now db).1
apply_event db (retry_by_hand task_id now) = (retry_index_task task_id now db).1

unfoldable pub run : Table → List Event → Table
unfolding apply_event
run db [] = db
run db (e ∷ es) = run (apply_event db e) es

-- The manual retries of each task, counted on with an event, and with a list of them.
abbrev pub count_event : (String → ℕ) → Event → String → ℕ
count_event by_hand (retry_by_hand task_id now) id =
    if str_eq id task_id then by_hand id + 1 else by_hand id
count_event by_hand _ id = by_hand id

abbrev pub count_retries : (String → ℕ) → List Event → String → ℕ
count_retries by_hand [] = by_hand
count_retries by_hand (e ∷ es) = count_retries (count_event by_hand e) es
