-- ===== src/Indexing/Tests.antt =====
-- Runs of the indexing tables and workers on two tasks.
use smart_sre_copilot.Prelude.{
  ℕ, ◌-◌, String, ◌≡◌, refl, none, some, List, [], ◌∷◌, str_eq, if◌then◌else◌, arith,
}
use smart_sre_copilot.Indexing.{
  Status, queued, completed, failed_permanently, IndexingTask, Table, left_at, is_queued,
  update_where, get_task, claimed, claim_task, claim_next_queued_task, process_task, oldest,
  retry_index_task, requeue_stale_processing_tasks, submit_task, find_active_task_by_file_path,
  newest,
}
use smart_sre_copilot.Indexing.Attempts.{
  Event, submit, claim, claim_next, finish, requeue_stale, retry_by_hand, run,
}
use smart_sre_copilot.Indexing.Claims.{
  IsUnique, IsOldest, map_row, claim_next-IsOldest, failure_ignores_status,
}
use smart_sre_copilot.Indexing.Dispatcher.{Indexer, Broker, worker_loop, redis_round, start}
use smart_sre_copilot.Indexing.Dispatcher.Drain.{remaining, IsIdle, worker_loop_ends}
use smart_sre_copilot.Indexing.Dispatcher.Coverage.{
  IsHealthy, redis_round-IsHealthy, start-IsHealthy,
}

abbrev task : String → Status → ℕ → IndexingTask
task id status attempts = record {
  task_id = id;
  filename = "notes.md";
  file_path = "/up/notes.md";
  status = status;
  attempt_count = attempts;
  max_retries = 2;
  error_message = none;
  created_at = attempts;
  updated_at = 5;
}

abbrev table : Table
table =
    task "a" queued 1
    ∷ task "b" queued 0
    ∷ task "c" completed 1
    ∷ task "d" failed_permanently 2
    ∷ []

table-IsUnique : IsUnique table
table-IsUnique = ground arith

abbrev events : List Event
events =
    submit "t" 1 0 "n.md" "/n.md"
    ∷ claim_next 2
    ∷ finish (some "down") "t" 3
    ∷ requeue_stale 10 20
    ∷ retry_by_hand "t" 21
    ∷ claim "t" 22
    ∷ finish none "t" 23
    ∷ []

-- the task whose limit is one attempt has had two, one of them for the manual retry
two_attempts :
    map_row (λ t. record t { updated_at = 0 }) (get_task "t" (run [] events))
    ≡ some (record {
      task_id = "t";
      filename = "n.md";
      file_path = "/n.md";
      status = completed;
      attempt_count = 2;
      max_retries = 1;
      error_message = none;
      created_at = 1;
      updated_at = 0;
    })
unfolding get_task run process_task update_where claim_task retry_index_task
    requeue_stale_processing_tasks claim_next_queued_task oldest submit_task
    find_active_task_by_file_path newest
two_attempts = refl

oldest_first : (claim_next_queued_task 7 table).0 ≡ some (claimed 7 (task "b" queued 0))
unfolding claim_next_queued_task oldest claim_task update_where get_task
oldest_first = refl

claim_next-IsOldest_example :
    (row : IndexingTask) × IsOldest (λ u. is_queued u.status) table row
    × (claimed 7 (task "b" queued 0) ≡ claimed 7 row)
    × (get_task "b" (claim_next_queued_task 7 table).1 ≡ some (claimed 7 (task "b" queued 0)))
claim_next-IsOldest_example =
    claim_next-IsOldest 7 (claimed 7 (task "b" queued 0)) table table-IsUnique oldest_first

failure_ignores_status_example :
    let (result, db') = process_task (some "late") "c" 9 table in
    (result ≡ left_at queued)
    × (get_task "c" db'
        ≡ some (record {
          task_id = "c";
          filename = "notes.md";
          file_path = "/up/notes.md";
          status = queued;
          attempt_count = 1;
          max_retries = 2;
          error_message = some "late";
          created_at = 1;
          updated_at = 9;
        }))
unfolding get_task
failure_ignores_status_example =
    failure_ignores_status "c" "late" 9 (task "c" completed 1) table refl

-- a task that was retried by hand when its attempts were used up
abbrev retried_table : Table
retried_table = task "e" queued 2 ∷ table

-- the indexer fails on the first attempt at each file
abbrev flaky : Indexer
flaky t = if str_eq t.task_id "b" then some "down" else none

worker_loop_ends_example :
    (db' : Table) × (worker_loop flaky (λ n. 100 - n) 5 retried_table ≡ some db') × IsIdle db'
unfolding remaining
worker_loop_ends_example =
    worker_loop_ends flaky (λ n. 100 - n) 5 retried_table (ground arith) (omega arith)

abbrev broker : Broker
broker = record { db = table; queue = [] }

started-IsHealthy : IsHealthy (start 3 9 broker)
started-IsHealthy = start-IsHealthy 3 9 broker table-IsUnique (ground arith) tt

start-IsHealthy_example : IsHealthy (start 3 9 broker)
start-IsHealthy_example = start-IsHealthy 3 9 broker table-IsUnique (ground arith) tt

redis_round-IsHealthy_example : IsHealthy (redis_round flaky 10 (start 3 9 broker))
redis_round-IsHealthy_example = redis_round-IsHealthy flaky 10 (start 3 9 broker) started-IsHealthy
