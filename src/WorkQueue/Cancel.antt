-- ===== src/WorkQueue/Cancel.antt =====
-- `work_queue_cancel_by_taskid` of work_queue.c and what it calls. The message to the worker is left out.
pub mod All
pub mod Sound
use cyque.Prelude.{
  ℕ, ◌+◌, Bool, true, false, Option, none, some, List, [], ◌∷◌, ◌==◌, ltb, if◌then◌else◌, Bytes,
}
use cyque.Tables.Chain.{find, unlink}
use cyque.Tables.Itable.{uint64_key}
use cyque.WorkQueue.Failure.{delete_worker_files, cache_or_preexist, no_flags, without}
use cyque.WorkQueue.Master.{Pointer, Queue, reap_task_from_worker}
use cyque.WorkQueue.Task.{Task, File}

-- `list_find` with `taskid_comparator`
unfoldable pub find_by_taskid : (Pointer → Task) → ℕ → List Pointer → Option Pointer
find_by_taskid task taskid [] = none
find_by_taskid task taskid (p ∷ ps) =
    if (task p).taskid == taskid then some p else find_by_taskid task taskid ps

abbrev pub or_find : Option Pointer → ℕ → List (ℕ × Pointer) → Option Pointer
or_find (some tp) taskid m = some tp
or_find none taskid m = find taskid m

unfoldable pub find_running_task_by_id : Queue → ℕ → Option Pointer
find_running_task_by_id q taskid = or_find (find taskid q.running_tasks) taskid q.finished_tasks

-- the last two searches of `work_queue_cancel_by_taskid`, each with what it found
unfoldable pub cancel_complete : Queue → Option Pointer → Option Pointer × Queue
cancel_complete q none = (none, q)
cancel_complete q (some tp) = (
  some tp,
  record q {
    complete_list = without tp q.complete_list;
    total_tasks_cancelled = q.total_tasks_cancelled + 1;
  },
)

unfoldable pub cancel_ready : Queue → ℕ → Option Pointer → Option Pointer × Queue
cancel_ready q taskid none = cancel_complete q (find_by_taskid q.task taskid q.complete_list)
cancel_ready q taskid (some tp) = (
  some tp,
  record q {
    ready_list = without tp q.ready_list;
    total_tasks_cancelled = q.total_tasks_cancelled + 1;
  },
)

module _ (make_cached_name : File → Bytes) where
  -- the task at `tp` leaves the worker at `wp`
  unfoldable pub abort_task : Queue → Pointer → Pointer → Queue
  abort_task q wp tp =
      let q' =
        delete_worker_files make_cached_name cache_or_preexist q wp (q.task tp).input_files in
      let q'' = delete_worker_files make_cached_name no_flags q' wp (q'.task tp).output_files in
      let reaped = reap_task_from_worker q'' wp tp in
      record reaped { finished_tasks = unlink (reaped.task tp).taskid reaped.finished_tasks }

  -- `cancel_running_task`, at the worker that the map gives
  unfoldable pub cancel_at : Queue → Pointer → Option Pointer → Bool × Queue
  cancel_at q tp none = (false, q)
  cancel_at q tp (some wp) = (true, abort_task q wp tp)

  unfoldable pub cancel_running_task : Queue → Pointer → Bool × Queue
  cancel_running_task q tp = cancel_at q tp (find (q.task tp).taskid q.worker_task_map)

  -- the first search of `work_queue_cancel_by_taskid` with what it found
  unfoldable pub cancel_found : Queue → ℕ → Option Pointer → Option Pointer × Queue
  cancel_found q taskid none = cancel_ready q taskid (find_by_taskid q.task taskid q.ready_list)
  cancel_found q taskid (some tp) =
      let (done, q') = cancel_running_task q tp in
      if done
      then (some tp, record q' { total_tasks_cancelled = q'.total_tasks_cancelled + 1 })
      else (none, q')

  -- the task that was cancelled, if any
  unfoldable pub cancel_by_taskid : Queue → ℕ → Option Pointer × Queue
  cancel_by_taskid q taskid =
      if ltb 0 taskid then cancel_found q taskid (find_running_task_by_id q taskid) else (none, q)
