-- ===== src/WorkQueue/Release.antt =====
-- Workers are sent away: `release_worker`, `shut_down_worker`, `work_queue_shut_down_workers` and
-- `work_queue_reset` of work_queue.c. The message to the worker is left out. `remove_worker` ends
-- with `log_worker_stats`, whose `known_workers` and `available_workers` walk the worker table
-- to its end with the table's one cursor. So the walk around it is over once it has removed a worker.
pub mod Sound
use cyque.Prelude.{ℕ, ◌+◌, Bool, true, false, ◌&&◌, List, [], ◌∷◌, ◌==◌, ltb, if◌then◌else◌}
use cyque.WorkQueue.Failure.{remove_worker}
use cyque.WorkQueue.Master.{Pointer, Queue, no_tasks}

module _ (now : Pointer → ℕ) where
  unfoldable pub release_worker : Queue → Pointer → Queue
  release_worker q wp = remove_worker now q wp

  unfoldable pub shut_down_worker : Queue → Pointer → Queue
  shut_down_worker q wp = remove_worker now q wp

  -- The walk of `work_queue_shut_down_workers`, with `n` and `i`: the first worker without a task goes,
  -- and the cursor is at the end then.
  unfoldable pub shut_down_loop : ℕ → ℕ → List Pointer → Queue → ℕ × Queue
  shut_down_loop n i [] q = (i, q)
  shut_down_loop n i (wp ∷ wps) q =
      let idle = no_tasks (q.worker wp) in
      let rest = shut_down_loop n i wps q in
      if ltb i n then if idle then (i + 1, shut_down_worker q wp) else rest else (i, q)

  unfoldable pub shut_down_workers : ℕ → Queue → ℕ × Queue
  shut_down_workers n q = shut_down_loop n 0 q.worker_table q

  -- the cursor is at the end behind the first worker
  unfoldable pub release_loop : List Pointer → Queue → Queue
  release_loop [] q = q
  release_loop (wp ∷ wps) q = release_worker q wp

  unfoldable pub release_all_workers : Queue → Queue
  release_all_workers q = release_loop q.worker_table q

  -- WORK_QUEUE_RESET_KEEP_TASKS is 1. The memory of the tasks that are deleted is freed.
  unfoldable pub reset : Queue → ℕ → Queue
  reset q flags =
      let q' = release_all_workers q in if flags == 1 then q' else record q' { ready_list = [] }
