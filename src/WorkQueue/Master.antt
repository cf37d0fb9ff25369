-- ===== src/WorkQueue/Master.antt =====
-- The state of `struct work_queue` and the moves of tasks between the master and its workers.
-- A task and a worker are shared objects: `task` and `worker` are the memory behind the pointers,
-- and the lists and tables hold pointers. A table is the list of its entries, no key twice; a new
-- entry comes first. The time and the parts that only
-- log or report are left out. The product `total * asynchrony_multiplier` is of doubles:
-- `scaled total` is its `ceil`, and a parameter.
use cyque.Prelude.{
  ℕ, ◌+◌, Bool, true, false, ◌&&◌, ◌||◌, List, [], ◌∷◌, ◌==◌, if◌then◌else◌, is_some, not, Bytes,
}
use cyque.Prelude.Int.{ℤ, pos, ◌+ℤ◌, ◌-ℤ◌, ltb_ℤ, max_ℤ}
use cyque.Tables.Chain.{Chain, find, assign, unlink}
use cyque.Tables.Itable.{uint64_key}
use cyque.WorkQueue.Resources.{Resources}
use cyque.WorkQueue.Task.{Task}

-- a pointer; two pointers are the same object if they are the same number
abbrev pub Pointer : Type 0
Pointer = ℕ

abbrev pub Entries : Type 0
Entries = Chain ℕ Pointer

-- `itable_insert`, `itable_lookup` and `itable_remove` on the entries
unfoldable pub table_insert : ℕ → Pointer → Entries → Entries
table_insert k p m = if is_some (find k m) then assign k p m else (k, p) ∷ m

pub record Worker : Type 0 where
  pub hostname : Bytes
  pub foreman : Bool
  pub resources : Resources
  pub unlabeled_allocated : ℤ
  pub cores_allocated : ℤ
  pub memory_allocated : ℤ
  pub disk_allocated : ℤ
  pub gpus_allocated : ℤ
  pub current_files : List (Bytes × ℤ)
  pub current_tasks : Entries
  pub finished_tasks : ℤ
  pub total_tasks_complete : ℕ
  pub total_task_time : ℕ
  pub total_bytes_transferred : ℕ
  pub total_transfer_time : ℕ

-- `next_taskid` is the static variable of `work_queue_submit`; `lifo` tells whether the task ordering
-- is WORK_QUEUE_TASK_ORDER_LIFO.
pub record Queue : Type 0 where
  pub task : Pointer → Task
  pub worker : Pointer → Worker
  pub ready_list : List Pointer
  pub running_tasks : Entries
  pub finished_tasks : Entries
  pub complete_list : List Pointer
  pub worker_table : List Pointer
  pub worker_task_map : Entries
  pub workers_with_available_results : List Pointer
  pub task_reports : List (ℕ × ℕ)
  pub next_taskid : ℕ
  pub lifo : Bool
  pub total_tasks_submitted : ℕ
  pub total_tasks_complete : ℕ
  pub total_tasks_failed : ℕ
  pub total_tasks_cancelled : ℕ
  pub total_workers_removed : ℕ
  pub total_bytes_sent : ℕ
  pub total_bytes_received : ℕ
  pub total_send_time : ℕ
  pub total_receive_time : ℕ
  pub total_execute_time : ℕ
  pub total_good_execute_time : ℕ
  pub total_good_transfer_time : ℕ
  pub worker_selection_algorithm : ℕ
  pub asynchrony_modifier : ℤ
  pub scaled : ℤ → ℤ

-- a write through a pointer
abbrev pub write : {A : Type 0} → (Pointer → A) → Pointer → A → Pointer → A
write f p a x = if x == p then a else f x

abbrev pub no_tasks : Worker → Bool
no_tasks w = elim w.current_tasks [ [] ↦ true | e ∷ es ↦ false ]

-- `overcommitted_resource_total`
unfoldable pub overcommitted_resource_total : Queue → ℤ → Bool → ℤ
overcommitted_resource_total q total cores_flag =
    if ltb_ℤ (pos 0) total
    then (if cores_flag then q.scaled total +ℤ q.asynchrony_modifier else q.scaled total)
    else pos 0

abbrev pub exceeds : ℤ → ℤ → Bool
exceeds a b = ltb_ℤ b a

-- `check_worker_against_task`
unfoldable pub check_worker_against_task : Queue → Worker → Task → Bool
unfolding overcommitted_resource_total
check_worker_against_task q w t =
    if t.unlabeled
    then (let mixed =
          exceeds w.cores_allocated (pos 0)
          || exceeds w.memory_allocated (pos 0)
          || exceeds w.disk_allocated (pos 0)
          || exceeds w.gpus_allocated (pos 0) in
        let full =
          exceeds (w.unlabeled_allocated +ℤ pos 1)
            (overcommitted_resource_total q w.resources.workers.total true) in
        not mixed && not full)
    else if exceeds w.unlabeled_allocated (pos 0)
    then false
    else if exceeds (w.cores_allocated +ℤ max_ℤ t.cores (pos 0))
        (overcommitted_resource_total q w.resources.cores.total true)
    then false
    else if exceeds (w.memory_allocated +ℤ max_ℤ t.memory (pos 0))
        (overcommitted_resource_total q w.resources.memory.total false)
    then false
    else if exceeds (w.disk_allocated +ℤ max_ℤ t.disk (pos 0)) w.resources.disk.total
    then false
    else if exceeds (w.gpus_allocated +ℤ max_ℤ t.gpus (pos 0))
        (overcommitted_resource_total q w.resources.gpus.total false)
    then false
    else true

-- `w->cores_allocated += …`
unfoldable pub allocate : Task → Worker → Worker
allocate t w =
    if t.unlabeled
    then record w { unlabeled_allocated = w.unlabeled_allocated +ℤ pos 1 }
    else record w {
      cores_allocated = w.cores_allocated +ℤ max_ℤ t.cores (pos 0);
      memory_allocated = w.memory_allocated +ℤ max_ℤ t.memory (pos 0);
      disk_allocated = w.disk_allocated +ℤ max_ℤ t.disk (pos 0);
      gpus_allocated = w.gpus_allocated +ℤ max_ℤ t.gpus (pos 0);
    }

unfoldable pub deallocate : Task → Worker → Worker
deallocate t w =
    if t.unlabeled
    then record w { unlabeled_allocated = w.unlabeled_allocated -ℤ pos 1 }
    else record w {
      cores_allocated = w.cores_allocated -ℤ max_ℤ t.cores (pos 0);
      memory_allocated = w.memory_allocated -ℤ max_ℤ t.memory (pos 0);
      disk_allocated = w.disk_allocated -ℤ max_ℤ t.disk (pos 0);
      gpus_allocated = w.gpus_allocated -ℤ max_ℤ t.gpus (pos 0);
    }

abbrev pub below_zero : ℤ → Bool
below_zero n = ltb_ℤ n (pos 0)

-- "Worker resource accounting error": some count is negative
unfoldable pub accounting_error : Worker → Bool
accounting_error w =
    below_zero w.unlabeled_allocated
    || below_zero w.cores_allocated
    || below_zero w.memory_allocated
    || below_zero w.disk_allocated
    || below_zero w.gpus_allocated

unfoldable pub reset_negative : Worker → Worker
unfolding accounting_error
reset_negative w =
    if accounting_error w
    then record w {
      unlabeled_allocated = max_ℤ w.unlabeled_allocated (pos 0);
      cores_allocated = max_ℤ w.cores_allocated (pos 0);
      memory_allocated = max_ℤ w.memory_allocated (pos 0);
      disk_allocated = max_ℤ w.disk_allocated (pos 0);
      gpus_allocated = max_ℤ w.gpus_allocated (pos 0);
    }
    else w

-- `commit_task_to_worker`, at the time `now`
unfoldable pub commit_task_to_worker : ℕ → Queue → Pointer → Pointer → Queue
unfolding allocate table_insert
commit_task_to_worker now q wp tp =
    let t = q.task tp in
    let w = q.worker wp in
    record q {
      task =
          write q.task tp
            (record t { time_committed = now; total_submissions = t.total_submissions + 1 });
      worker =
          write q.worker wp
            (allocate t (record w { current_tasks = table_insert t.taskid tp w.current_tasks }));
      running_tasks = table_insert t.taskid tp q.running_tasks;
      worker_task_map = table_insert t.taskid wp q.worker_task_map;
    }

-- `reap_task_from_worker`; that the task is run by another worker is only logged
unfoldable pub reap_task_from_worker : Queue → Pointer → Pointer → Queue
unfolding deallocate reset_negative
reap_task_from_worker q wp tp =
    let t = q.task tp in
    let w = q.worker wp in
    record q {
      worker = write q.worker wp (
          reset_negative
            (deallocate t (record w { current_tasks = unlink t.taskid w.current_tasks })));
      running_tasks = unlink t.taskid q.running_tasks;
      worker_task_map = unlink t.taskid q.worker_task_map;
    }
