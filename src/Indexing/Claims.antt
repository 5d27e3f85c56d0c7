-- ===== src/Indexing/Claims.antt =====
-- Who gets a task: exclusive claims, the oldest task first, and what the calls of a worker that has
-- lost its task do (app/platform/persistence/repositories/indexing.py).
use mathlib.Core.Path.{subst}
use smart_sre_copilot.Prelude.{
  ℕ, ◌+◌, ◌≤◌, String, ◌≡◌, refl, sym, ap, ◌∙◌, Bool, true, false, Option, none, some, [], ◌∷◌,
  str_eq, eq_iff, eq_refl, if◌then◌else◌, All, Bool-cases, inl, inr, arith, any, leb,
}
use smart_sre_copilot.Indexing.{
  queued, processing, failed_permanently, IndexingTask, Table, left_at, is_queued, is_processing,
  has_id, update_where, claimable, claimed, get_task, claim_task, claim_row, claim_next_queued_task,
  retried, process_task, oldest, earlier, retry_index_task, retry_found, left,
}

-- `task_id` is the primary key.
abbrev pub IsUnique : Table → Type 0
IsUnique [] = Unit
IsUnique (t ∷ ts) = All (λ u. str_eq u.task_id t.task_id ≡ false) ts × IsUnique ts

abbrev pub map_row : (IndexingTask → IndexingTask) → Option IndexingTask → Option IndexingTask
map_row f none = none
map_row f (some t) = some (f t)

abbrev pub KeepsId : (IndexingTask → IndexingTask) → Type 0
KeepsId f = (t : IndexingTask) → (f t).task_id ≡ t.task_id

-- an update shows in the row that a query by id finds
pub get_task-update_where :
    (p : IndexingTask → Bool) (f : IndexingTask → IndexingTask)
    → KeepsId f
    → (id : String) (db : Table)
    → get_task id (update_where p f db) ≡ map_row (λ t. if p t then f t else t) (get_task id db)
unfolding get_task update_where
get_task-update_where p f keep id [] = refl
get_task-update_where p f keep id (t ∷ ts) =
    ground (arith, keep t, get_task-update_where p f keep id ts)

claimable-claimed :
    (id : String) (now : ℕ) (t : IndexingTask) → claimable id (claimed now t) ≡ false
claimable-claimed id now t = ground arith

any-claimed :
    (id : String) (now : ℕ) (db : Table)
    → any (claimable id) (update_where (claimable id) (claimed now) db) ≡ false
unfolding update_where
any-claimed id now [] = refl
any-claimed id now (t ∷ ts) = ground (arith, any-claimed id now ts)

pub claim_task_hit :
    (id : String) (now : ℕ) (db : Table)
    → any (claimable id) db ≡ true
    → claim_task id now db ≡ (
      map_row (λ t. if claimable id t then claimed now t else t) (get_task id db),
      update_where (claimable id) (claimed now) db,
    )
unfolding claim_task
claim_task_hit id now db e = rw e (
    ap (λ o. (o, update_where (claimable id) (claimed now) db))
      (get_task-update_where (claimable id) (claimed now) (λ t. refl) id db))

pub claim_task_miss :
    (id : String) (now : ℕ) (db : Table)
    → any (claimable id) db ≡ false
    → claim_task id now db ≡ (none, db)
unfolding claim_task
claim_task_miss id now db e = rw e

-- Once a task has been claimed it cannot be claimed again, by any worker, until something requeues
-- it: a second claim of it gets nothing and changes nothing.
pub claim_task_again :
    (id : String) (now later : ℕ) (db : Table)
    → claim_task id later (claim_task id now db).1 ≡ (none, (claim_task id now db).1)
claim_task_again id now later db = elim (Bool-cases (any (claimable id) db)) [
  | inl e ↦ rw (claim_task_hit id now db e) (claim_task_miss id later _ (any-claimed id now db))
  | inr e ↦ rw (claim_task_miss id now db e) (claim_task_miss id later db e)
]

get_task-id :
    (id : String) (t : IndexingTask) (db : Table) → get_task id db ≡ some t → t.task_id ≡ id
unfolding get_task
get_task-id id t [] h = cc
get_task-id id t (u ∷ us) h = ground (arith, eq_iff u.task_id id, get_task-id id t us)

-- a row behind `t` has another id than `t`
ids_differ :
    (a id : String) (row : IndexingTask) (ts : Table)
    → All (λ u. str_eq u.task_id a ≡ false) ts
    → get_task id ts ≡ some row
    → str_eq a id ≡ false
unfolding get_task
ids_differ a id row [] h g = cc
ids_differ a id row (u ∷ us) h g =
    ground (arith, eq_iff u.task_id id, eq_iff u.task_id a, eq_iff a id, ids_differ a id row us h.1)

pub record IsOldest (p : IndexingTask → Bool) (db : Table) (row : IndexingTask) : Type 0 where
  pub passes : p row ≡ true
  pub stored : get_task row.task_id db ≡ some row
  pub first : All (λ u. p u ≡ true → row.created_at ≤ u.created_at) db

-- from here on "`n` is no later than any row that passes" is written out
abbrev NoneBefore : (IndexingTask → Bool) → ℕ → Table → Type 0
NoneBefore p n db = All (λ u. p u ≡ true → n ≤ u.created_at) db

none_pass : (p : IndexingTask → Bool) (n : ℕ) (db : Table) → oldest p db ≡ none → NoneBefore p n db
unfolding oldest
none_pass p n [] h = tt
none_pass p n (t ∷ ts) h = elim (Bool-cases (p t)) [
  | inl e ↦ cc (rw e at h)
  | inr e ↦ (λ pt. cc, none_pass p n ts (rw e at h))
]

NoneBefore-le :
    (p : IndexingTask → Bool) (m n : ℕ) (db : Table) → m ≤ n → NoneBefore p n db → NoneBefore p m db
NoneBefore-le p m n [] le a = tt
NoneBefore-le p m n (t ∷ ts) le a =
    (λ pt. let bound = a.0 pt in omega arith, NoneBefore-le p m n ts le a.1)

module _ (p : IndexingTask → Bool) (t : IndexingTask) (ts : Table) where
  IsOldest-here : p t ≡ true → NoneBefore p t.created_at ts → IsOldest p (t ∷ ts) t
  unfolding get_task
  IsOldest-here pt a = record {
    passes = pt;
    stored = ground (arith, eq_refl t.task_id);
    first = (λ _. omega arith, a);
  }

  IsOldest-behind :
      (w : IndexingTask)
      → IsUnique (t ∷ ts)
      → IsOldest p ts w
      → (p t ≡ true → w.created_at ≤ t.created_at)
      → IsOldest p (t ∷ ts) w
  unfolding get_task
  IsOldest-behind w u o le = record {
    passes = o.passes;
    stored = ground (arith, ids_differ t.task_id w.task_id w ts u.0 o.stored, o.stored);
    first = (le, o.first);
  }

some_inj : {t u : IndexingTask} → some t ≡ some u → t ≡ u
some_inj e = cc

-- what `ORDER BY created_at ASC LIMIT 1` returns
pub oldest-IsOldest :
    (p : IndexingTask → Bool) (db : Table) (row : IndexingTask)
    → IsUnique db
    → oldest p db ≡ some row
    → IsOldest p db row
unfolding oldest
oldest-IsOldest p [] row u h = cc
oldest-IsOldest p (t ∷ ts) row u h = elim (Bool-cases (p t)) [
  | inr e ↦ IsOldest-behind p t ts row u (oldest-IsOldest p ts row u.1 (rw e at h)) (λ pt. cc)
  | inl e ↦ go e (oldest p ts) refl (λ w. oldest-IsOldest p ts w u.1) (rw e at h)
]
  where
    go :
        p t ≡ true
        → (o : Option IndexingTask) → oldest p ts ≡ o
        → ((w : IndexingTask) → oldest p ts ≡ some w → IsOldest p ts w)
        → some (earlier t (oldest p ts)) ≡ some row
        → IsOldest p (t ∷ ts) row
    go e none q ih h' =
        subst (IsOldest p (t ∷ ts)) (some_inj (rw (q, earlier) at h'))
          (IsOldest-here p t ts e (none_pass p t.created_at ts q))
    go e (some w) q ih h' = elim (Bool-cases (leb t.created_at w.created_at)) [
      | inl l ↦ subst (IsOldest p (t ∷ ts)) (some_inj (rw (q, earlier, l) at h')) (
          IsOldest-here p t ts e
            (NoneBefore-le p t.created_at w.created_at ts (ground arith) (ih w q).first))
      | inr l ↦
          subst (IsOldest p (t ∷ ts)) (some_inj (rw (q, earlier, l) at h'))
            (IsOldest-behind p t ts w u (ih w q) (λ _. ground arith))
    ]

pub any_stored :
    (p : IndexingTask → Bool) (id : String) (row : IndexingTask) (db : Table)
    → get_task id db ≡ some row
    → p row ≡ true
    → any p db ≡ true
unfolding get_task
any_stored p id row [] g h = cc
any_stored p id row (t ∷ ts) g h = ground (arith, any_stored p id row ts)

-- the claim of a task that is queued
pub claim_queued :
    (now : ℕ) (row : IndexingTask) (db : Table)
    → get_task row.task_id db ≡ some row
    → is_queued row.status ≡ true
    → (claim_task row.task_id now db).0 ≡ some (claimed now row)
claim_queued now row db g q =
    let c : claimable row.task_id row ≡ true = rw (eq_refl row.task_id, q) in
    rw (
      claim_task_hit row.task_id now db (any_stored (claimable row.task_id) row.task_id row db g c),
      g,
      c,
    )

by_own_id :
    (id : String) (t : IndexingTask) (db : Table)
    → get_task id db ≡ some t
    → get_task t.task_id db ≡ some t
by_own_id id t db h = subst (λ i. get_task i db ≡ some t) (sym (get_task-id id t db h)) h

claim_stored :
    (now : ℕ) (id : String) (row : IndexingTask) (db : Table)
    → get_task id db ≡ some row
    → is_queued row.status ≡ true
    → (claim_task id now db).0 ≡ some (claimed now row)
claim_stored now id row db g q =
    subst (λ i. (claim_task i now db).0 ≡ some (claimed now row)) (get_task-id id row db g)
      (claim_queued now row db (by_own_id id row db g) q)

-- a claim returns the row that the table then holds
stored_claim :
    (id : String) (now : ℕ) (t : IndexingTask) (db : Table)
    → (claim_task id now db).0 ≡ some t
    → get_task id (claim_task id now db).1 ≡ some t
unfolding claim_task
stored_claim id now t db h = elim (Bool-cases (any (claimable id) db)) [
  | inl e ↦ rw e (rw e at h)
  | inr e ↦ cc (rw e at h)
]

get_task-claim :
    (id : String) (now : ℕ) (t : IndexingTask) (db : Table)
    → (claim_task id now db).0 ≡ some t
    → get_task t.task_id (claim_task id now db).1 ≡ some t
get_task-claim id now t db h = by_own_id id t _ (stored_claim id now t db h)

-- The task that a worker gets is the oldest of those that are queued; it is now processing with
-- one more attempt, and the table holds it so.
pub claim_next-IsOldest :
    (now : ℕ) (t : IndexingTask) (db : Table)
    → IsUnique db
    → (claim_next_queued_task now db).0 ≡ some t
    → (row : IndexingTask) × IsOldest (λ u. is_queued u.status) db row
      × (t ≡ claimed now row)
      × (get_task t.task_id (claim_next_queued_task now db).1 ≡ some t)
unfolding claim_next_queued_task
claim_next-IsOldest now t db u h = go (oldest (λ v. is_queued v.status) db) refl h
  where
    go :
        (o : Option IndexingTask)
        → oldest (λ v. is_queued v.status) db ≡ o
        → (claim_row o now db).0 ≡ some t
        → (row : IndexingTask) × IsOldest (λ v. is_queued v.status) db row
          × (t ≡ claimed now row)
          × (get_task t.task_id (claim_row (oldest (λ v. is_queued v.status) db) now db).1 ≡ some t)
    go none e g = cc
    go (some row) e g =
        let o = oldest-IsOldest (λ v. is_queued v.status) db row u e in
        (
          row,
          o,
          some_inj (sym g ∙ claim_queued now row db o.stored o.passes),
          rw (e, claim_row) (get_task-claim row.task_id now t db g),
        )

-- the row that an assignment by id leaves
get_task-assign :
    (f : IndexingTask → IndexingTask) (keep : KeepsId f) (id : String) (t : IndexingTask)
    (db : Table)
    → get_task id db ≡ some t
    → get_task id (update_where (has_id id) f db) ≡ some (f t)
get_task-assign f keep id t db g =
    get_task-update_where (has_id id) f keep id db
    ∙ rw g (ap (λ b. some (if b then f t else t)) ((eq_iff t.task_id id).1 (get_task-id id t db g)))

-- A reported failure is taken whatever the status of the task is, also when another worker has
-- completed it or it has failed for good meanwhile: a task that has been claimed up to its retry
-- limit is then failed for good, and any other is queued again, with its attempts as they were.
pub failure_ignores_status :
    (id error : String) (now : ℕ) (t : IndexingTask) (db : Table)
    → get_task id db ≡ some t
    → let (result, db') = process_task (some error) id now db in
      let status = if leb t.max_retries t.attempt_count then failed_permanently else queued in
      (result ≡ left_at status)
      × (get_task id db'
          ≡ some (record {
            task_id = t.task_id;
            filename = t.filename;
            file_path = t.file_path;
            status = status;
            attempt_count = t.attempt_count;
            max_retries = t.max_retries;
            error_message = some error;
            created_at = t.created_at;
            updated_at = now;
          }))
unfolding process_task
failure_ignores_status id error now t db g =
    let stored = get_task-assign (retried error now) (λ _. refl) id t db g in
    (ap left stored, stored)

-- The manual retry of a task that exists and is not being processed queues it, also a completed
-- one, with the attempts it has used; a task that is being processed is left alone.
pub retry_queues :
    (id : String) (now : ℕ) (t : IndexingTask) (db : Table)
    → get_task id db ≡ some t
    → is_processing t.status ≡ false
    → ((retry_index_task id now db).0 ≡ none)
      × (get_task id (retry_index_task id now db).1
          ≡ some (record t { status = queued; error_message = none; updated_at = now }))
unfolding retry_index_task
retry_queues id now t db g p =
    rw (g, retry_found, p) (refl, get_task-assign _ (λ _. refl) id t db g)

-- A task that has failed for good and is retried by hand gets exactly one more attempt: its next
-- failure is final again, since the retry does not reset the attempts.
pub retried_failure_is_final :
    (id error : String) (now : ℕ) (t : IndexingTask) (db : Table)
    → get_task id db ≡ some t
    → t.status ≡ failed_permanently
    → t.max_retries ≤ t.attempt_count
    → let retried_db = (retry_index_task id now db).1 in
      let claim = claim_task id now retried_db in
      (claim.0
        ≡ some (record t {
          status = processing;
          error_message = none;
          updated_at = now;
          attempt_count = t.attempt_count + 1;
        }))
      × ((process_task (some error) id now claim.1).0 ≡ left_at failed_permanently)
retried_failure_is_final id error now t db g f m =
    let db' = (retry_index_task id now db).1 in
    let (_, stored) = retry_queues id now t db g (rw f) in
    let row : IndexingTask = record t { status = queued; error_message = none; updated_at = now } in
    let got = claim_stored now id row db' stored refl in
    let (result, _) =
      failure_ignores_status id error now (claimed now row) (claim_task id now db').1
        (stored_claim id now _ db' got) in
    (got, result ∙ ap left_at (ground arith))
