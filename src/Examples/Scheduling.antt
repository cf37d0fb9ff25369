-- ===== src/Examples/Scheduling.antt =====
-- Runs of work_queue.c: a queue with one busy worker.
use cyque.Prelude.{
  ℕ, ◌≡◌, refl, inl, inr, true, false, none, some, [], ◌∷◌, ◌==◌, ◌≢◌, Bool-cases, All, codes,
}
use cyque.Prelude.Int.{ℤ, pos, negsuc, ◌+ℤ◌, ◌≤ℤ◌}
use cyque.Tables.Chain.{find, unlink}
use cyque.Tables.Itable.{uint64_key}
use cyque.WorkQueue.Accounting.{
  Kind, of_cores, slots, of_memory, of_disk, of_gpus, allocated, needed, IsAccounted,
}
use cyque.WorkQueue.Admit.{limit, check_worker_against_task-le}
use cyque.WorkQueue.Aggregate.{aggregate_workers_resources}
use cyque.WorkQueue.Aggregate.Sums
use cyque.WorkQueue.Aggregate.Sums.{aggregate_workers_resources-sums}
use cyque.WorkQueue.Cleanup.{cleanup_worker}
use cyque.WorkQueue.Cleanup.Emptied.{cleanup_worker-AllAccounted}
use cyque.WorkQueue.Commit.{
  AllAccounted, commit_task_to_worker-AllAccounted, reap_task_from_worker-AllAccounted,
}
use cyque.WorkQueue.Master.{
  Pointer, Worker, Queue, write, allocate, deallocate, check_worker_against_task,
  commit_task_to_worker, reap_task_from_worker,
}
use cyque.WorkQueue.Resources.{Resource, Resources, no_resource, cleared}
use cyque.WorkQueue.Schedule.{Request, find_best_worker}
use cyque.WorkQueue.Schedule.Choice.{Chooses, find_best_worker-Chooses}
use cyque.WorkQueue.Task.{Task}

abbrev of_total : ℤ → Resource
of_total n = record no_resource { total = n }

abbrev machine : Resources
machine = record cleared {
  workers = of_total (pos 1);
  cores = of_total (pos 4);
  memory = of_total (pos 1000);
  disk = of_total (pos 1000);
}

-- 2 cores and 100 of memory
abbrev labeled : ℕ → Task
labeled id = record {
  taskid = id;
  unlabeled = false;
  cores = pos 2;
  memory = pos 100;
  disk = negsuc 0;
  gpus = negsuc 0;
  worker_selection_algorithm = 0;
  total_submissions = 0;
  time_committed = 0;
  result = 0;
  output = none;
  total_bytes_transferred = 0;
  total_transfer_time = 0;
  cmd_execution_time = 0;
  time_execute_cmd_start = 0;
  total_cmd_execution_time = 0;
  input_files = [];
  output_files = [];
  return_status = negsuc 0;
  hostname = none;
  total_bytes_received = 0;
  total_bytes_sent = 0;
  time_task_submit = 0;
  time_task_finish = 0;
  time_send_input_start = 0;
  time_send_input_finish = 0;
  time_execute_cmd_finish = 0;
  time_receive_result_start = 0;
  time_receive_result_finish = 0;
  time_receive_output_start = 0;
  time_receive_output_finish = 0;
}

abbrev idle : Worker
idle = record {
  hostname = codes "w1";
  foreman = false;
  resources = machine;
  unlabeled_allocated = pos 0;
  cores_allocated = pos 0;
  memory_allocated = pos 0;
  disk_allocated = pos 0;
  gpus_allocated = pos 0;
  current_files = [];
  current_tasks = [];
  finished_tasks = pos 0;
  total_tasks_complete = 0;
  total_task_time = 0;
  total_bytes_transferred = 0;
  total_transfer_time = 0;
}

-- the worker that runs the task at 1
abbrev busy : Worker
busy = record idle {
  cores_allocated = pos 2;
  memory_allocated = pos 100;
  current_tasks = (1, 1) ∷ [];
}

-- The task at `p` has the number `p`; the worker at 10 is busy.
abbrev queue : Queue
queue = record {
  task = λ p. labeled p;
  worker = λ p. write (λ x. idle) 10 busy p;
  ready_list = 2 ∷ [];
  running_tasks = (1, 1) ∷ [];
  finished_tasks = [];
  complete_list = [];
  worker_table = 10 ∷ 11 ∷ [];
  worker_task_map = (1, 10) ∷ [];
  workers_with_available_results = [];
  task_reports = [];
  next_taskid = 3;
  lifo = false;
  total_tasks_submitted = 2;
  total_tasks_complete = 0;
  total_tasks_failed = 0;
  total_tasks_cancelled = 0;
  total_workers_removed = 0;
  total_bytes_sent = 0;
  total_bytes_received = 0;
  total_send_time = 0;
  total_receive_time = 0;
  total_execute_time = 0;
  total_good_execute_time = 0;
  total_good_transfer_time = 0;
  worker_selection_algorithm = 3;
  asynchrony_modifier = pos 0;
  scaled = λ n. n;
}

idle-IsAccounted : IsAccounted queue.task idle
unfolding needed
idle-IsAccounted = record { sums = by_kind; distinct = tt; named = tt }
  where
    by_kind : (k : Kind) → allocated k idle ≡ pos 0
    by_kind slots = refl
    by_kind of_cores = refl
    by_kind of_memory = refl
    by_kind of_disk = refl
    by_kind of_gpus = refl

busy-IsAccounted : IsAccounted queue.task busy
unfolding needed find
busy-IsAccounted = record { sums = by_kind; distinct = (refl, tt); named = (refl, tt) }
  where
    by_kind : (k : Kind) → allocated k busy ≡ pos (needed k queue.task busy.current_tasks)
    by_kind slots = refl
    by_kind of_cores = refl
    by_kind of_memory = refl
    by_kind of_disk = refl
    by_kind of_gpus = refl

queue-AllAccounted : AllAccounted queue
queue-AllAccounted x = elim (Bool-cases (x == 10)) [
  | inl e ↦ rw e busy-IsAccounted
  | inr e ↦ rw e idle-IsAccounted
]

commit_task_to_worker-AllAccounted_example : AllAccounted (commit_task_to_worker 99 queue 10 2)
commit_task_to_worker-AllAccounted_example =
    commit_task_to_worker-AllAccounted 99 queue 10 2 queue-AllAccounted (unfold find in refl)

reap_task_from_worker-AllAccounted_example :
    AllAccounted (reap_task_from_worker queue 10 1)
    × ((reap_task_from_worker queue 10 1).worker 10
        ≡ deallocate (labeled 1) (record busy { current_tasks = unlink 1 ((1, 1) ∷ []) }))
reap_task_from_worker-AllAccounted_example =
    reap_task_from_worker-AllAccounted queue 10 1 queue-AllAccounted (unfold find in refl)

second_fits : check_worker_against_task queue busy (labeled 2) ≡ true
unfolding check_worker_against_task ◌+ℤ◌ cleared
second_fits = refl

check_worker_against_task-le_example :
    allocated of_cores (allocate (labeled 2) busy) ≤ℤ limit of_cores queue busy
check_worker_against_task-le_example =
    check_worker_against_task-le queue busy (labeled 2) second_fits of_cores refl

abbrev request : Request
request = record { task = labeled 2; make_cached_name = λ f. f.payload }

find_best_worker-Chooses_example :
    Chooses queue request (10 ∷ 11 ∷ []) (find_best_worker 7 queue request)
find_best_worker-Chooses_example = find_best_worker-Chooses queue request 7

first_of_two : find_best_worker 7 queue request ≡ some 10
unfolding find_best_worker check_worker_against_task ◌+ℤ◌ cleared
first_of_two = refl

aggregate_workers_resources-sums_example :
    let total =
      Sums.part Sums.of_cores
        (aggregate_workers_resources (machine ∷ machine ∷ []) (labeled 2 ∷ [])) in
    (total.total ≡ Sums.sum_of (λ r. (Sums.part Sums.of_cores r).total) (machine ∷ machine ∷ []))
    × (total.committed
        ≡ Sums.sum_of (λ r. (Sums.part Sums.of_cores r).committed) (machine ∷ machine ∷ [])
          +ℤ Sums.sum_of (Sums.demand Sums.of_cores) (labeled 2 ∷ []))
    × All (λ r. Sums.Within total (Sums.part Sums.of_cores r)) (machine ∷ machine ∷ [])
aggregate_workers_resources-sums_example =
    aggregate_workers_resources-sums Sums.of_cores (machine ∷ machine ∷ []) (labeled 2 ∷ [])
      (λ e. cc)

cleanup_worker-AllAccounted_example :
    let q' = cleanup_worker (λ p. 1000) queue 10 in
    AllAccounted q'
    × ((q'.worker 10).current_tasks ≡ [])
    × ((k : Kind) → allocated k (q'.worker 10) ≡ pos 0)
    × (q'.ready_list ≡ 1 ∷ 2 ∷ [])
    × ((x : Pointer) → x ≢ 10 → q'.worker x ≡ queue.worker x)
cleanup_worker-AllAccounted_example =
    cleanup_worker-AllAccounted (λ p. 1000) queue 10 queue-AllAccounted
