-- ===== src/WorkQueue/Wait.antt =====
-- `work_queue_create`, `work_queue_wait` and `work_queue_empty` of work_queue.c. Of a turn of the loop
-- of `work_queue_wait_internal` the taking of a task off the complete list is modelled.
pub mod Sound
use cyque.Prelude.{
  ℕ, ◌+◌, ◌≡◌, Bool, true, false, ◌&&◌, Option, none, some, List, [], ◌∷◌, ◌==◌, if◌then◌else◌,
  length, codes,
}
use cyque.Prelude.Int.{ℤ, pos}
use cyque.WorkQueue.Master.{Pointer, Worker, Queue}
use cyque.WorkQueue.Resources
use cyque.WorkQueue.Task.{Task}

-- `memset(w, 0, sizeof(*w))`, and the name that a worker has until it gives one
unfoldable pub new_worker : Worker
new_worker = record {
  hostname = codes "unknown";
  foreman = false;
  resources = Resources.create;
  unlabeled_allocated = pos 0;
  cores_allocated = pos 0;
  memory_allocated = pos 0;
  disk_allocated = pos 0;
  gpus_allocated = pos 0;
  current_files = [];
  current_tasks = [];
  finished_tasks = pos 0;
  total_tasks_complete = 0;
  total_task_time = 0;
  total_bytes_transferred = 0;
  total_transfer_time = 0;
}

-- `work_queue_create`: the scheduler is `wq_option_scheduler`; no task has a number yet, and a block of
-- memory is a worker once one is written there
unfoldable pub work_queue_create : (Pointer → Task) → ℕ → (ℤ → ℤ) → Queue
unfolding new_worker
work_queue_create task scheduler scaled = record {
  task = task;
  worker = λ p. new_worker;
  ready_list = [];
  running_tasks = [];
  finished_tasks = [];
  complete_list = [];
  worker_table = [];
  worker_task_map = [];
  workers_with_available_results = [];
  task_reports = [];
  next_taskid = 1;
  lifo = false;
  total_tasks_submitted = 0;
  total_tasks_complete = 0;
  total_tasks_failed = 0;
  total_tasks_cancelled = 0;
  total_workers_removed = 0;
  total_bytes_sent = 0;
  total_bytes_received = 0;
  total_send_time = 0;
  total_receive_time = 0;
  total_execute_time = 0;
  total_good_execute_time = 0;
  total_good_transfer_time = 0;
  worker_selection_algorithm = scheduler;
  asynchrony_modifier = pos 0;
  scaled = scaled;
}

-- the task that `work_queue_wait` returns, with `t->result != SUCCESS`, where SUCCESS is 1
unfoldable pub pop_complete : Queue → List Pointer → Option Pointer × Queue
pop_complete q [] = (none, q)
pop_complete q (tp ∷ rest) = (
  some tp,
  record q {
    complete_list = rest;
    total_tasks_failed =
        if (q.task tp).result == 1 then q.total_tasks_failed else q.total_tasks_failed + 1;
  },
)

unfoldable pub empty : Queue → Bool
empty q =
    length q.ready_list + length q.running_tasks + length q.finished_tasks + length q.complete_list
    == 0
