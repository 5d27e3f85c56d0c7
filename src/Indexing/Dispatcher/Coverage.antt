-- ===== src/Indexing/Dispatcher/Coverage.antt =====
-- Which queued tasks have a payload in the queue of the Redis worker
-- (app/infrastructure/tasks/dispatcher.py, `_redis_worker_loop` and `start`).
use mathlib.Core.Path.{subst}
use smart_sre_copilot.Prelude.{
  ℕ, String, ◌≡◌, refl, sym, ap, ◌∙◌, Bool, true, false, ◌||◌, Option, none, some, List, [], ◌∷◌,
  ◌++◌, map, str_eq, eq_iff, All, All-append, Bool-cases, inl, inr, arith, any, keep_if, ltb,
}
use smart_sre_copilot.Indexing.{
  completed, queued, IndexingTask, Table, left, is_queued, has_id, update_where, claimable, claimed,
  retried, process_task, get_task, is_stale, requeued, sort_by_created, sort_insert,
  list_tasks_by_status, allowed_statuses, allowed_status, same_status,
}
use smart_sre_copilot.Indexing.Attempts.{update_where-All}
use smart_sre_copilot.Indexing.Claims.{IsUnique, KeepsId, claim_task_hit, claim_task_miss}
use smart_sre_copilot.Indexing.Dispatcher.Drain.{IsUnique-update_where}
use smart_sre_copilot.Indexing.Dispatcher.{
  Indexer, Payload, Broker, redis_round, take_payload, run_payload, finish_payload, is_left_queued,
  start, payload_of,
}

abbrev names : String → Payload → Bool
names id p = str_eq p.task_id id

abbrev IsNamed : IndexingTask → Type 0
IsNamed t = (str_eq t.task_id "" ≡ false) × (str_eq t.file_path "" ≡ false)

abbrev IsUsable : Payload → Type 0
IsUsable p = (str_eq p.task_id "" ≡ false) × (str_eq p.file_path "" ≡ false)

-- Every task that is queued in the table has a payload in the queue.
abbrev pub IsCovered : Broker → Type 0
IsCovered b = (id : String) → any (claimable id) b.db ≡ true → any (names id) b.queue ≡ true

pub record IsHealthy (b : Broker) : Type 0 where
  pub unique : IsUnique b.db
  pub named : All IsNamed b.db
  pub usable : All IsUsable b.queue
  pub covered : IsCovered b

any-append : (p : Payload → Bool) (xs ys : List Payload) → any p (xs ++ ys) ≡ (any p xs || any p ys)
any-append p [] ys = refl
any-append p (x ∷ xs) ys = ground (arith, any-append p xs ys)

-- ---------------------------------------------------------------- what an update makes claimable

claimable_other :
    (id j : String) (p : IndexingTask → Bool) (f : IndexingTask → IndexingTask)
    → str_eq id j ≡ false
    → ((t : IndexingTask) → p t ≡ true → has_id id t ≡ true)
    → KeepsId f
    → (db : Table) → any (claimable j) (update_where p f db) ≡ any (claimable j) db
unfolding update_where
claimable_other id j p f ne sub keep [] = refl
claimable_other id j p f ne sub keep (t ∷ ts) = elim (Bool-cases (p t)) [
  | inl e ↦ rw e (
      ground (arith, keep t, eq_iff t.task_id id, sub t e, claimable_other id j p f ne sub keep ts))
  | inr e ↦ rw e (ap (λ b. claimable j t || b) (claimable_other id j p f ne sub keep ts))
]

completed_not_claimable :
    (id : String) (now : ℕ) (db : Table)
    → any (claimable id) (
        update_where
          (has_id id)
          (λ t. record t { status = completed; error_message = none; updated_at = now })
          db)
      ≡ false
unfolding update_where
completed_not_claimable id now [] = refl
completed_not_claimable id now (t ∷ ts) = ground (arith, completed_not_claimable id now ts)

not_behind :
    (a id : String) (ts : Table)
    → All (λ u. str_eq u.task_id a ≡ false) ts
    → a ≡ id
    → any (claimable id) ts ≡ false
not_behind a id [] h e = refl
not_behind a id (t ∷ ts) h e = ground (arith, not_behind a id ts h.1 e)

-- with unique ids, the row that a query by id finds is the one that can be claimed
claimable_row :
    (id : String) (db : Table)
    → IsUnique db
    → any (claimable id) db ≡ true
    → (t : IndexingTask) × (get_task id db ≡ some t) × (is_queued t.status ≡ true)
unfolding get_task
claimable_row id [] u h = cc
claimable_row id (t ∷ ts) u h = elim (Bool-cases (str_eq t.task_id id)) [
  | inl e ↦
      let behind = not_behind t.task_id id ts u.0 ((eq_iff t.task_id id).0 e) in
      (t, ground arith, ground arith)
  | inr e ↦ let (r, found, q) = claimable_row id ts u.1 (ground arith) in (r, ground arith, q)
]

-- ---------------------------------------------------------------- a report

keeps_other :
    (outcome : Option String) (id j : String) (now : ℕ) (db : Table)
    → str_eq id j ≡ false
    → any (claimable j) (process_task outcome id now db).1 ≡ any (claimable j) db
unfolding process_task
keeps_other none id j now db ne = claimable_other id j (has_id id) _ ne (λ t h. h) (λ t. refl) db
keeps_other (some error) id j now db ne =
    claimable_other id j (has_id id) (retried error now) ne (λ t h. h) (λ t. refl) db

left_queued :
    (t : Option IndexingTask) {r : IndexingTask}
    → t ≡ some r
    → is_queued r.status ≡ true
    → is_left_queued (left t) ≡ true
unfolding left
left_queued none e q = cc
left_queued (some t) e q = ground arith

-- a task that can be claimed after its report has been reported as queued
reported_queued :
    (outcome : Option String) (id : String) (now : ℕ) (db : Table)
    → IsUnique db
    → any (claimable id) (process_task outcome id now db).1 ≡ true
    → is_left_queued (process_task outcome id now db).0 ≡ true
unfolding process_task
reported_queued none id now db u h = cc (h, completed_not_claimable id now db)
reported_queued (some error) id now db u h =
    let db' = update_where (has_id id) (retried error now) db in
    let (r, found, q) =
      claimable_row id db' (IsUnique-update_where (has_id id) (retried error now) (λ _. refl) db u)
        h in
    left_queued (get_task id db') found q

process-IsUnique :
    (outcome : Option String) (id : String) (now : ℕ) (db : Table)
    → IsUnique db
    → IsUnique (process_task outcome id now db).1
unfolding process_task
process-IsUnique none id now db u = IsUnique-update_where (has_id id) _ (λ _. refl) db u
process-IsUnique (some error) id now db u =
    IsUnique-update_where (has_id id) (retried error now) (λ _. refl) db u

process-IsNamed :
    (outcome : Option String) (id : String) (now : ℕ) (db : Table)
    → All IsNamed db
    → All IsNamed (process_task outcome id now db).1
unfolding process_task
process-IsNamed none id now db n = update_where-All IsNamed (has_id id) _ (λ _ _ h. h) db n
process-IsNamed (some error) id now db n = update_where-All IsNamed (has_id id) _ (λ _ _ h. h) db n

-- ---------------------------------------------------------------- a round

-- the payload `p` has been taken, its task claimed and reported on
module _ (outcome : Option String) (now : ℕ) (p : Payload) (queue : List Payload) (db : Table) where
  abbrev claimed_db : Table
  claimed_db = update_where (claimable p.task_id) (claimed now) db

  finish-IsCovered :
      IsUnique db
      → IsCovered (record { db = db; queue = p ∷ queue })
      → IsCovered (finish_payload p (process_task outcome p.task_id now claimed_db) queue)
  unfolding finish_payload
  finish-IsCovered u c id h = elim (Bool-cases (str_eq p.task_id id)) [
    | inl e ↦
        let own =
          subst (λ i. any (claimable i) (process_task outcome p.task_id now claimed_db).1 ≡ true)
            (sym ((eq_iff p.task_id id).0 e)) h in
        let q =
          reported_queued outcome p.task_id now claimed_db
            (IsUnique-update_where (claimable p.task_id) (claimed now) (λ _. refl) db u) own in
        let split = any-append (names id) queue (p ∷ []) in rw q (ground arith)
    | inr e ↦
        let split = any-append (names id) queue (p ∷ []) in
        let before =
          sym (
            claimable_other p.task_id id (claimable p.task_id) (claimed now) e (λ t k. ground arith)
              (λ _. refl) db)
          ∙ sym (keeps_other outcome p.task_id id now claimed_db e)
          ∙ h in
        let waits = c id before in ground arith
  ]

  -- a claim that finds nothing to claim only takes the payload away
  missed-IsCovered :
      any (claimable p.task_id) db ≡ false
      → IsCovered (record { db = db; queue = p ∷ queue })
      → IsCovered (record { db = db; queue = queue })
  missed-IsCovered miss c id h = elim (Bool-cases (str_eq p.task_id id)) [
    | inl e ↦
        let own = subst (λ i. any (claimable i) db ≡ true) (sym ((eq_iff p.task_id id).0 e)) h in cc
    | inr e ↦ let waits = c id h in ground arith
  ]

  finish-IsHealthy :
      IsHealthy (record { db = db; queue = p ∷ queue })
      → IsHealthy (finish_payload p (process_task outcome p.task_id now claimed_db) queue)
  unfolding finish_payload
  finish-IsHealthy h = record {
    unique =
        process-IsUnique outcome p.task_id now claimed_db
          (IsUnique-update_where (claimable p.task_id) (claimed now) (λ _. refl) db h.unique);
    named =
        process-IsNamed outcome p.task_id now claimed_db
          (update_where-All IsNamed (claimable p.task_id) (claimed now) (λ _ _ n. n) db h.named);
    usable = elim (Bool-cases (is_left_queued (process_task outcome p.task_id now claimed_db).0)) [
      | inl e ↦ rw e (All-append IsUsable queue (p ∷ []) h.usable.1 (h.usable.0, tt))
      | inr e ↦ rw e h.usable.1
    ];
    covered = finish-IsCovered h.unique h.covered;
  }

-- A round of the Redis worker loses no task: if every queued task has a payload in the queue, ids
-- are unique and names are not empty, so it is after the round, whatever the indexer does.
pub redis_round-IsHealthy :
    (index : Indexer) (now : ℕ) (b : Broker) → IsHealthy b → IsHealthy (redis_round index now b)
unfolding redis_round
redis_round-IsHealthy index now b h = go b.queue b.db h
  where
    go :
        (queue : List Payload) (db : Table)
        → IsHealthy (record { db = db; queue = queue })
        → IsHealthy (take_payload index now queue db)
    go [] db w = w
    go (p ∷ queue) db w = elim (Bool-cases (any (claimable p.task_id) db)) [
      | inl e ↦
          let (row, found, _) = claimable_row p.task_id db w.unique e in
          rw
            (
              take_payload,
              w.usable.0.0,
              w.usable.0.1,
              claim_task_hit p.task_id now db e,
              found,
              run_payload,
            )
            (finish-IsHealthy (index _) now p queue db w)
      | inr e ↦
          rw
            (
              take_payload,
              w.usable.0.0,
              w.usable.0.1,
              claim_task_miss p.task_id now db e,
              run_payload,
            )
            (record {
              unique = w.unique;
              named = w.named;
              usable = w.usable.1;
              covered = missed-IsCovered none now p queue db e w.covered;
            })
    ]

-- ---------------------------------------------------------------- the start

any-sort_insert :
    (q : IndexingTask → Bool) (t : IndexingTask) (db : Table)
    → any q (sort_insert t db) ≡ (q t || any q db)
unfolding sort_insert
any-sort_insert q t [] = refl
any-sort_insert q t (u ∷ us) = ground (arith, any-sort_insert q t us)

any-sort : (q : IndexingTask → Bool) (db : Table) → any q (sort_by_created db) ≡ any q db
unfolding sort_by_created
any-sort q [] = refl
any-sort q (t ∷ ts) = any-sort_insert q t (sort_by_created ts) ∙ ap (λ b. q t || b) (any-sort q ts)

All-sort_insert {κ} :
    (P : IndexingTask → Type κ) (t : IndexingTask) (db : Table)
    → P t
    → All P db
    → All P (sort_insert t db)
unfolding sort_insert
All-sort_insert P t [] h a = (h, tt)
All-sort_insert P t (u ∷ us) h a = elim (Bool-cases (ltb u.created_at t.created_at)) [
  | inl e ↦ rw e (a.0, All-sort_insert P t us h a.1)
  | inr e ↦ rw e (h, a)
]

abbrev waiting : Table → Table
waiting db = keep_if (λ t. any (same_status t.status) (queued ∷ [])) db

keep_if-All {κ} :
    (P : IndexingTask → Type κ) (p : IndexingTask → Bool) (db : Table)
    → All P db
    → All P (keep_if p db)
keep_if-All P p [] a = tt
keep_if-All P p (t ∷ ts) a = elim (Bool-cases (p t)) [
  | inl e ↦ rw (e, keep_if) (a.0, keep_if-All P p ts a.1)
  | inr e ↦ rw (e, keep_if) (keep_if-All P p ts a.1)
]

All-sort {κ} : (P : IndexingTask → Type κ) (db : Table) → All P db → All P (sort_by_created db)
unfolding sort_by_created
All-sort P [] a = tt
All-sort P (t ∷ ts) a = All-sort_insert P t (sort_by_created ts) a.0 (All-sort P ts a.1)

any-waiting :
    (id : String) (db : Table) → any (claimable id) db ≡ true → any (has_id id) (waiting db) ≡ true
any-waiting id [] h = h
any-waiting id (t ∷ ts) h = ground (arith, any-waiting id ts)

any-map : (id : String) (db : Table) → any (names id) (map payload_of db) ≡ any (has_id id) db
unfolding payload_of
any-map id [] = refl
any-map id (t ∷ ts) = ap (λ b. str_eq t.task_id id || b) (any-map id ts)

All-map : (db : Table) → All IsNamed db → All IsUsable (map payload_of db)
unfolding payload_of
All-map [] a = tt
All-map (t ∷ ts) a = (a.0, All-map ts a.1)

-- The start repairs the queue: from a table with unique ids and no empty ids or paths, and a queue
-- whose payloads all have an id and a path, each task that is queued after the stale ones are
-- requeued has a payload.
pub start-IsHealthy :
    (timeout now : ℕ) (b : Broker)
    → IsUnique b.db
    → All IsNamed b.db
    → All IsUsable b.queue
    → IsHealthy (start timeout now b)
unfolding start list_tasks_by_status allowed_statuses allowed_status
start-IsHealthy timeout now b u n q =
    let db = update_where (is_stale timeout now) (requeued now) b.db in
    let named =
      update_where-All IsNamed (is_stale timeout now) (requeued now) (λ _ _ h. h) b.db n in
    record {
      unique = IsUnique-update_where (is_stale timeout now) (requeued now) (λ _. refl) b.db u;
      named = named;
      usable =
          All-append IsUsable b.queue _ q
            (All-map _ (All-sort IsNamed (waiting db) (keep_if-All IsNamed _ db named)));
      covered = λ id h.
          let found = any-waiting id db h in
          let sorted = any-sort (has_id id) (waiting db) in
          let mapped = any-map id (sort_by_created (waiting db)) in
          let split =
            any-append (names id) b.queue (map payload_of (sort_by_created (waiting db))) in
          ground arith;
    }
