-- ===== src/Indexing.antt =====
-- Background indexing: the task table (app/platform/persistence/repositories/indexing.py), the
-- service that submits and runs tasks (app/application/indexing/service.py), the manual retry of
-- app/api/routes/file.py and, in `Dispatcher`, the worker loops.
-- The table is the list of its rows in insertion order; a clock reading and a fresh id are
-- arguments. Rows are found by the tests that the statements make.
pub mod Dispatcher
pub mod Attempts
pub mod Claims
mod Tests
use smart_sre_copilot.Prelude.{
  ℕ, ◌+◌, ◌≤◌, max, String, Bool, true, false, ◌&&◌, not, Option, none, some, List, [], ◌∷◌, ◌++◌,
  str_eq, if◌then◌else◌, leb, ltb, find?, keep_if, any,
}

pub data Status : Type 0 where
  queued processing completed failed_permanently : Status

pub record IndexingTask : Type 0 where
  pub task_id : String
  pub filename : String
  pub file_path : String
  pub status : Status
  pub attempt_count : ℕ
  pub max_retries : ℕ
  pub error_message : Option String
  pub created_at : ℕ
  pub updated_at : ℕ

abbrev pub Table : Type 0
Table = List IndexingTask

abbrev pub is_queued : Status → Bool
is_queued queued = true
is_queued _ = false

abbrev pub is_processing : Status → Bool
is_processing processing = true
is_processing _ = false

-- `ACTIVE_TASK_STATUSES`
abbrev pub is_active : Status → Bool
is_active queued = true
is_active processing = true
is_active _ = false

-- `UPDATE … SET f WHERE p`, and an assignment to the row that a query found.
unfoldable pub update_where : (IndexingTask → Bool) → (IndexingTask → IndexingTask) → Table → Table
update_where p f [] = []
update_where p f (t ∷ ts) = (if p t then f t else t) ∷ update_where p f ts

abbrev pub has_id : String → IndexingTask → Bool
has_id task_id t = str_eq t.task_id task_id

-- Rows by `created_at`, ascending.
sort_insert : IndexingTask → Table → Table
sort_insert t [] = t ∷ []
sort_insert t (u ∷ us) = if ltb u.created_at t.created_at then u ∷ sort_insert t us else t ∷ u ∷ us

unfoldable pub sort_by_created : Table → Table
unfolding sort_insert
sort_by_created [] = []
sort_by_created (t ∷ ts) = sort_insert t (sort_by_created ts)

-- `ORDER BY created_at ASC LIMIT 1` over the rows that pass the test.
earlier : IndexingTask → Option IndexingTask → IndexingTask
earlier t none = t
earlier t (some u) = if leb t.created_at u.created_at then t else u

unfoldable pub oldest : (IndexingTask → Bool) → Table → Option IndexingTask
unfolding earlier
oldest p [] = none
oldest p (t ∷ ts) = let rest = oldest p ts in if p t then some (earlier t rest) else rest

-- `ORDER BY created_at DESC LIMIT 1`
later : IndexingTask → Option IndexingTask → IndexingTask
later t none = t
later t (some u) = if leb u.created_at t.created_at then t else u

unfoldable pub newest : (IndexingTask → Bool) → Table → Option IndexingTask
unfolding later
newest p [] = none
newest p (t ∷ ts) = let rest = newest p ts in if p t then some (later t rest) else rest

-- ---------------------------------------------------------------- the repository

unfoldable pub create_task : String → ℕ → String → String → ℕ → Table → Table
create_task task_id now filename file_path max_retries db =
    db
    ++ record {
      task_id = task_id;
      filename = filename;
      file_path = file_path;
      status = queued;
      attempt_count = 0;
      max_retries = max_retries;
      error_message = none;
      created_at = now;
      updated_at = now;
    }
      ∷ []

unfoldable pub find_active_task_by_file_path : String → Table → Option IndexingTask
find_active_task_by_file_path file_path =
    newest (λ t. str_eq t.file_path file_path && is_active t.status)

unfoldable pub get_task : String → Table → Option IndexingTask
get_task task_id = find? (has_id task_id)

-- A missing task is no error.
unfoldable pub update_task : String → Status → Option String → ℕ → Table → Table
update_task task_id status error_message now =
    update_where (has_id task_id)
      (λ t. record t { status = status; error_message = error_message; updated_at = now })

abbrev pub claimable : String → IndexingTask → Bool
claimable task_id t = str_eq t.task_id task_id && is_queued t.status

abbrev pub claimed : ℕ → IndexingTask → IndexingTask
claimed now t = record t {
  status = processing;
  updated_at = now;
  error_message = none;
  attempt_count = t.attempt_count + 1;
}

-- The guarded UPDATE, its `rowcount`, and the row read back.
unfoldable pub claim_task : String → ℕ → Table → Option IndexingTask × Table
unfolding get_task
claim_task task_id now db =
    let db' = update_where (claimable task_id) (claimed now) db in
    if any (claimable task_id) db then (get_task task_id db', db') else (none, db)

-- The statuses that a request may name, `ALLOWED_TASK_STATUSES`.
unfoldable pub allowed_status : String → Option Status
allowed_status s =
    if str_eq s "queued"
    then some queued
    else if str_eq s "processing"
    then some processing
    else if str_eq s "completed"
    then some completed
    else if str_eq s "failed_permanently"
    then some failed_permanently
    else none

abbrev pub same_status : Status → Status → Bool
same_status queued queued = true
same_status processing processing = true
same_status completed completed = true
same_status failed_permanently failed_permanently = true
same_status _ _ = false

-- All the statuses, or `none` if one of them is not allowed.
unfoldable pub allowed_statuses : List String → Option (List Status)
allowed_statuses [] = some []
allowed_statuses (s ∷ ss) = elim (allowed_status s) [
  | none ↦ none
  | some status ↦ elim (allowed_statuses ss) [ none ↦ none | some rest ↦ some (status ∷ rest) ]
]

-- `none` is the ValueError on an unsupported status.
unfoldable pub list_tasks_by_status : List String → Table → Option Table
list_tasks_by_status [] db = some []
list_tasks_by_status (s ∷ ss) db = elim (allowed_statuses (s ∷ ss)) [
  | none ↦ none
  | some statuses ↦ some (sort_by_created (keep_if (λ t. any (same_status t.status) statuses) db))
]

claim_row : Option IndexingTask → ℕ → Table → Option IndexingTask × Table
claim_row none now db = (none, db)
claim_row (some row) now db = claim_task row.task_id now db

unfoldable pub claim_next_queued_task : ℕ → Table → Option IndexingTask × Table
unfolding claim_row
claim_next_queued_task now db = claim_row (oldest (λ t. is_queued t.status) db) now db

-- `"failed_permanently" if attempt_count >= max_retries else "queued"`
abbrev pub next_status : IndexingTask → Status
next_status t = if leb t.max_retries t.attempt_count then failed_permanently else queued

abbrev pub retried : String → ℕ → IndexingTask → IndexingTask
retried error_message now t = record t {
  status = next_status t;
  error_message = some error_message;
  updated_at = now;
}

-- The row as it is after the update, or `none` for a missing task.
unfoldable pub mark_retry_or_failed : String → String → ℕ → Table → Option IndexingTask × Table
unfolding get_task
mark_retry_or_failed task_id error_message now db =
    let db' = update_where (has_id task_id) (retried error_message now) db in
    (get_task task_id db', db')

-- `updated_at <= now - timeout_seconds`
abbrev pub is_stale : ℕ → ℕ → IndexingTask → Bool
is_stale timeout now t = is_processing t.status && leb (t.updated_at + timeout) now

abbrev pub timeout_message : Status → String
timeout_message queued = "Task requeued after worker timeout"
timeout_message _ = "Task exceeded retry limit after worker timeout"

abbrev pub requeued : ℕ → IndexingTask → IndexingTask
requeued now t = record t {
  status = next_status t;
  updated_at = now;
  error_message = some (timeout_message (next_status t));
}

unfoldable pub count_where : (IndexingTask → Bool) → Table → ℕ
count_where p [] = 0
count_where p (t ∷ ts) = (if p t then 1 else 0) + count_where p ts

unfoldable pub requeue_stale_processing_tasks : ℕ → ℕ → Table → ℕ × Table
requeue_stale_processing_tasks timeout now db =
    (count_where (is_stale timeout now) db, update_where (is_stale timeout now) (requeued now) db)

-- ---------------------------------------------------------------- the service

submit_new : Option IndexingTask → String → ℕ → ℕ → String → String → Table → String × Table
submit_new (some existing) new_id now max_retries filename file_path db = (existing.task_id, db)
submit_new none new_id now max_retries filename file_path db =
    (new_id, create_task new_id now filename file_path (max max_retries 1) db)

-- `new_id` is the uuid that a creation would draw.
unfoldable pub submit_task : String → ℕ → ℕ → String → String → Table → String × Table
unfolding submit_new create_task
submit_task new_id now max_retries filename file_path db =
    submit_new (find_active_task_by_file_path file_path db) new_id now max_retries filename
      file_path db

-- What `process_task` returns: a status, or "missing".
pub data Processed : Type 0 where
  missing : Processed
  left_at : Status → Processed

left : Option IndexingTask → Processed
left none = missing
left (some t) = left_at t.status

-- `outcome` is what the indexer does with the file: nothing, or an exception whose message is
-- formatted as `error`. A failed clean-up of the local cache is only logged.
unfoldable pub process_task : Option String → String → ℕ → Table → Processed × Table
unfolding left update_task mark_retry_or_failed
process_task none task_id now db = (left_at completed, update_task task_id completed none now db)
process_task (some error) task_id now db =
    let (task, db') = mark_retry_or_failed task_id error now db in (left task, db')

-- ---------------------------------------------------------------- the manual retry

pub data RetryError : Type 0 where
  indexing_task_not_found indexing_task_processing : RetryError

retry_found : Option IndexingTask → String → ℕ → Table → Option RetryError × Table
retry_found none task_id now db = (some indexing_task_not_found, db)
retry_found (some task) task_id now db =
    if is_processing task.status
    then (some indexing_task_processing, db)
    else (none, update_task task_id queued none now db)

-- The task is enqueued again behind this (`Dispatcher.enqueue_indexing_task`).
unfoldable pub retry_index_task : String → ℕ → Table → Option RetryError × Table
unfolding retry_found get_task update_task
retry_index_task task_id now db = retry_found (get_task task_id db) task_id now db
