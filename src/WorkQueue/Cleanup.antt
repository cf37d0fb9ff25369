-- ===== src/WorkQueue/Cleanup.antt =====
-- `cleanup_worker` of work_queue.c: a worker is lost, and its tasks are ready again. The walk over the
-- worker's table of tasks removes the entry it has just been given, which `itable_nextkey` allows
-- (Tables/Itable); it visits the entries in the order of the table. `now p` is the time at which the
-- task at `p` is handled.
pub mod Emptied
use cyque.Prelude.{
  ℕ, ◌+◌, ◌-◌, ◌%◌, ◌^◌, ◌≡◌, ◌≢◌, refl, sym, ap, ◌∙◌, Bool, true, false, some, none, List, [], ◌∷◌,
  arith, ◌==◌, ==_iff, leb, if◌then◌else◌, Bool-cases, inl, inr,
}
use cyque.Prelude.Int.{ℤ, pos, negsuc}
use cyque.Tables.Chain.{find, unlink}
use cyque.Tables.Itable.{uint64_key}
use cyque.WorkQueue.Accounting.{
  Kind, slots, of_cores, of_memory, of_disk, of_gpus, need, needed, allocated, IsAccounted, Alike,
  Alike-IsAccounted,
}
use cyque.WorkQueue.Commit.{AllAccounted, reap_task_from_worker-AllAccounted}
use cyque.WorkQueue.Master.{
  Pointer, Entries, Worker, Queue, write, deallocate, reap_task_from_worker,
}
use cyque.WorkQueue.Task.{Task}

-- what becomes of a task before it is pushed on the ready list; a `timestamp_t` has 64 bits
unfoldable pub reset_task : ℕ → Task → Task
reset_task now t = record t {
  result = 0;
  total_bytes_transferred = 0;
  total_transfer_time = 0;
  cmd_execution_time = 0;
  total_cmd_execution_time =
      if leb t.time_committed t.time_execute_cmd_start
      then (t.total_cmd_execution_time + (2 ^ 64 + now - t.time_execute_cmd_start)) % 2 ^ 64
      else t.total_cmd_execution_time;
  output = none;
  cores = if t.unlabeled then negsuc 0 else t.cores;
  memory = if t.unlabeled then negsuc 0 else t.memory;
  disk = if t.unlabeled then negsuc 0 else t.disk;
  gpus = if t.unlabeled then negsuc 0 else t.gpus;
}

-- the task at `p` reset, at the head of the ready list
unfoldable pub ready_again : (Pointer → ℕ) → Queue → Pointer → Queue
unfolding reset_task
ready_again now q p = record q {
  task = write q.task p (reset_task (now p) (q.task p));
  ready_list = p ∷ q.ready_list;
}

-- the body of the walk over `current_tasks`
unfoldable pub cleanup_task : (Pointer → ℕ) → Queue → Pointer → Pointer → Queue
cleanup_task now q wp p =
    let q' = reap_task_from_worker (ready_again now q p) wp p in
    record q' { finished_tasks = unlink (q'.task p).taskid q'.finished_tasks }

unfoldable pub cleanup_loop : (Pointer → ℕ) → Queue → Pointer → Entries → Queue
cleanup_loop now q wp [] = q
cleanup_loop now q wp (e ∷ es) = cleanup_loop now (cleanup_task now q wp e.1) wp es

unfoldable pub forget_files : Queue → Pointer → Queue
forget_files q wp = record q {
  worker = write q.worker wp (record (q.worker wp) { current_files = [] });
}

-- `itable_clear(w->current_tasks); w->finished_tasks = 0;`
unfoldable pub forget_tasks : Queue → Pointer → Queue
forget_tasks q wp = record q {
  worker = write q.worker wp (record (q.worker wp) { current_tasks = []; finished_tasks = pos 0 });
}

unfoldable pub cleanup_worker : (Pointer → ℕ) → Queue → Pointer → Queue
cleanup_worker now q wp =
    let q' = forget_files q wp in
    forget_tasks (cleanup_loop now q' wp (q'.worker wp).current_tasks) wp
