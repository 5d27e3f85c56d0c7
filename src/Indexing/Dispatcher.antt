-- ===== src/Indexing/Dispatcher.antt =====
-- The worker loops of app/infrastructure/tasks/dispatcher.py. The database loop claims the oldest
-- queued task until there is none; the Redis loop takes payloads from a queue.
pub mod Drain
pub mod Coverage
use smart_sre_copilot.Prelude.{
  ℕ, zero, suc, String, Bool, true, false, ◌&&◌, not, Option, none, some, List, [], ◌∷◌, ◌++◌, map,
  str_eq, if◌then◌else◌,
}
use smart_sre_copilot.Indexing.{
  Status, queued, IndexingTask, Table, Processed, missing, left_at, is_queued, claim_task,
  claim_next_queued_task, process_task, requeue_stale_processing_tasks, list_tasks_by_status,
}

-- What the indexer makes of an attempt at a task: nothing, or the message of its exception.
abbrev pub Indexer : Type 0
Indexer = IndexingTask → Option String

work_on : Indexer → ℕ → Option IndexingTask × Table → Option (Processed × Table)
work_on index now (none, db) = none
work_on index now (some task, db) = some (process_task (index task) task.task_id now db)

-- One round of `_worker_loop`; `none` when there is no task and the worker waits.
unfoldable pub worker_round : Indexer → ℕ → Table → Option (Processed × Table)
unfolding work_on
worker_round index now db = work_on index now (claim_next_queued_task now db)

-- Rounds until the worker waits, on fuel; `none` if the fuel runs out first.
unfoldable pub worker_loop : Indexer → (ℕ → ℕ) → ℕ → Table → Option Table
worker_loop index clock zero db = none
worker_loop index clock (suc fuel) db = elim (worker_round index (clock fuel) db) [
  | none ↦ some db
  | some (result, db') ↦ worker_loop index clock fuel db'
]

-- ---------------------------------------------------------------- the Redis queue

pub record Payload : Type 0 where
  pub task_id : String
  pub file_path : String

pub record Broker : Type 0 where
  pub db : Table
  pub queue : List Payload

-- `enqueue_json` pushes at the right end (RPUSH), and `dequeue_json` pops at the left one (BLPOP).
unfoldable pub enqueue_indexing_task : String → String → Broker → Broker
enqueue_indexing_task task_id file_path b = record b {
  queue = b.queue ++ record { task_id = task_id; file_path = file_path } ∷ [];
}

abbrev is_left_queued : Processed → Bool
is_left_queued missing = false
is_left_queued (left_at status) = is_queued status

finish_payload : Payload → Processed × Table → List Payload → Broker
finish_payload p (result, db) queue = record {
  db = db;
  queue = if is_left_queued result then queue ++ p ∷ [] else queue;
}

run_payload : Indexer → ℕ → Payload → List Payload → Option IndexingTask × Table → Broker
unfolding finish_payload
run_payload index now p queue (none, db) = record { db = db; queue = queue }
run_payload index now p queue (some task, db) =
    finish_payload p (process_task (index task) p.task_id now db) queue

-- One round of `_redis_worker_loop`: an empty queue and an invalid payload are skipped, and so is
-- a task that cannot be claimed.
take_payload : Indexer → ℕ → List Payload → Table → Broker
unfolding run_payload
take_payload index now [] db = record { db = db; queue = [] }
take_payload index now (p ∷ queue) db =
    if str_eq p.task_id ""
    then record { db = db; queue = queue }
    else if str_eq p.file_path ""
    then record { db = db; queue = queue }
    else run_payload index now p queue (claim_task p.task_id now db)

unfoldable pub redis_round : Indexer → ℕ → Broker → Broker
unfolding take_payload
redis_round index now b = take_payload index now b.queue b.db

payload_of : IndexingTask → Payload
payload_of t = record { task_id = t.task_id; file_path = t.file_path }

republish : Option Table → List Payload → List Payload
unfolding payload_of
republish none queue = queue
republish (some tasks) queue = queue ++ map payload_of tasks

-- `_republish_queued_tasks_to_redis`
unfoldable pub republish_queued_tasks : Broker → Broker
unfolding republish
republish_queued_tasks b = record b {
  queue = republish (list_tasks_by_status ("queued" ∷ []) b.db) b.queue;
}

-- The table as `start` leaves it for the worker: tasks of workers that are gone are requeued.
unfoldable pub start : ℕ → ℕ → Broker → Broker
unfolding republish_queued_tasks requeue_stale_processing_tasks
start timeout now b =
    republish_queued_tasks (record b { db = (requeue_stale_processing_tasks timeout now b.db).1 })
