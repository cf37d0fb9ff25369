-- ===== src/Process.antt =====
-- The task tables of the worker: work_queue_worker.c, for a worker that is not a foreman
-- (`foreman_q` is 0). Here are its state and the start of waiting tasks.
pub mod Collect
pub mod Kill
pub mod Leaks
pub mod Report
pub mod Served
pub mod Tally
pub mod Steps
pub mod Turns
use cyque.Prelude.{
  ℕ, zero, suc, ◌+◌, ◌/◌, Bool, true, false, ◌&&◌, not, Option, none, some, List, [], ◌∷◌, ◌++◌,
  ltb, if◌then◌else◌, length, is_some,
}
use cyque.Prelude.Int.{ℤ, pos, pos_part, ◌+ℤ◌, ltb_ℤ, max_ℤ}
use cyque.Tables.Chain.{Chain, find, unlink, assign}
use cyque.Tables.Itable.{uint64_key}
use cyque.WorkQueue.Resources.{Resource, Resources}
use cyque.WorkQueue.Task.{Task}

-- A `struct task_info` owns its task once the task is started: the pointer to it is nowhere else. The
-- `output_fd` is none where it is -1.
pub record TaskInfo : Type 0 where
  pub taskid : ℕ
  pub pid : ℤ
  pub status : ℕ
  pub execution_start : ℕ
  pub execution_end : ℕ
  pub output_fd : Option ℕ
  pub task : Task

-- an `itable` of task infos
abbrev pub Infos : Type 0
Infos = Chain ℕ TaskInfo

-- `itable_insert`
unfoldable pub info_insert : ℕ → TaskInfo → Infos → Infos
info_insert k ti m = if is_some (find k m) then assign k ti m else (k, ti) ∷ m

pub record Process : Type 0 where
  pub waiting_tasks : List Task
  pub stored_tasks : Infos
  pub active_tasks : Infos
  pub results_to_be_sent : Infos
  pub results_to_be_sent_msg : Bool
  pub cores_allocated : ℤ
  pub memory_allocated : ℤ
  pub disk_allocated : ℤ
  pub gpus_allocated : ℤ
  pub total_task_execution_time : ℕ
  pub total_tasks_executed : ℕ
  pub last_task_received : ℤ
  pub abort_flag : Bool
  pub released_by_master : Bool
  pub local_resources : Resources

unfoldable pub task_info_create : Task → TaskInfo
task_info_create t = record {
  taskid = t.taskid;
  pid = pos 0;
  status = 0;
  execution_start = 0;
  execution_end = 0;
  output_fd = some 0;
  task = t;
}

-- What the system answers when a task is started: `mkstemp` (none for -1), the time, and `fork` in
-- the parent.
pub record Launch : Type 0 where
  pub mkstemp : Option ℕ
  pub timestamp : ℕ
  pub fork : ℤ

-- `task_info_execute`, in the parent
unfoldable pub task_info_execute : Launch → TaskInfo → TaskInfo
task_info_execute l ti =
    let ti' = record ti { output_fd = l.mkstemp } in
    if is_some l.mkstemp then record ti' { execution_start = l.timestamp; pid = l.fork } else ti'

-- `MAX((double)total/(double)workers, least)`, kept as an integer; `workers` is positive, and the
-- quotient of such numbers rounds to the same integer as the double does
unfoldable pub share : ℤ → ℤ → ℕ → ℤ
share total workers least = max_ℤ (pos (pos_part total / pos_part workers)) (pos least)

-- Nothing is specified: the task takes the entire worker.
unfoldable pub takes_all : Task → Bool
takes_all t =
    ltb_ℤ t.cores (pos 0) && ltb_ℤ t.memory (pos 0) && ltb_ℤ t.disk (pos 0) && ltb_ℤ t.gpus (pos 0)

-- the task with what it is charged for: the first `if` of `check_for_resources`, and the one of
-- `start_task`
unfoldable pub charged : Resources → Task → Task
charged r t =
    if takes_all t
    then record t {
      cores = share r.cores.total r.workers.total 1;
      memory = share r.memory.total r.workers.total 0;
      disk = share r.disk.total r.workers.total 0;
      gpus = share r.gpus.total r.workers.total 0;
    }
    else record t {
      cores = max_ℤ t.cores (pos 0);
      memory = max_ℤ t.memory (pos 0);
      disk = max_ℤ t.disk (pos 0);
      gpus = max_ℤ t.gpus (pos 0);
    }

-- not `used > total`
abbrev pub fits : ℤ → ℤ → Bool
fits used total = not (ltb_ℤ total used)

unfoldable pub check_for_resources : Process → Task → Bool
check_for_resources w t =
    let used = charged w.local_resources t in
    fits (w.cores_allocated +ℤ used.cores) w.local_resources.cores.total
    && fits (w.memory_allocated +ℤ used.memory) w.local_resources.memory.total
    && fits (w.disk_allocated +ℤ used.disk) w.local_resources.disk.total
    && fits (w.gpus_allocated +ℤ used.gpus) w.local_resources.gpus.total

-- the end of `start_task`: what the task takes is added, and its info is entered twice
unfoldable pub started : Process → Task → TaskInfo → Process
started w t ti = record w {
  cores_allocated = w.cores_allocated +ℤ t.cores;
  memory_allocated = w.memory_allocated +ℤ t.memory;
  disk_allocated = w.disk_allocated +ℤ t.disk;
  gpus_allocated = w.gpus_allocated +ℤ t.gpus;
  stored_tasks = info_insert t.taskid ti w.stored_tasks;
  active_tasks = info_insert (pos_part ti.pid) ti w.active_tasks;
}

-- `start_task`; a failed `fork` shuts the worker down
unfoldable pub start_task : Launch → Process → Task → Process
unfolding task_info_create task_info_execute started
start_task l w t =
    let ti = task_info_execute l (task_info_create t) in
    let t' = charged w.local_resources t in
    if ltb_ℤ ti.pid (pos 0)
    then record w { abort_flag = true }
    else started w t' (record ti { status = 0; task = t' })

-- whether the loop of `work_for_master` that starts tasks has another turn
abbrev pub starts_more : ℕ → Process → Bool
starts_more visited w =
    ltb visited (length w.waiting_tasks) && ltb_ℤ w.cores_allocated w.local_resources.cores.total

module _ (launch : ℕ → Launch) (measure : ℕ → Resources → Resources) where
  -- One turn of the loop of `work_for_master` that starts tasks, on the list that it pops: `visited`
  -- and the worker behind it. Behind a start the resources are measured again. The loop pops no empty
  -- list.
  unfoldable pub start_or_pass : ℕ → ℕ → Process → List Task → ℕ × Process
  start_or_pass n visited w [] = (visited + 1, w)
  start_or_pass n visited w (t ∷ ts) =
      let popped = record w { waiting_tasks = ts } in
      let w' = start_task (launch n) popped t in
      if check_for_resources popped t
      then (visited, record w' { local_resources = measure n w'.local_resources })
      else (visited + 1, record w { waiting_tasks = ts ++ (t ∷ []) })

  -- the loop; none when it is not over within the turns that the first argument grants
  unfoldable pub start_loop : ℕ → ℕ → Process → Option Process
  start_loop zero visited w = if starts_more visited w then none else some w
  start_loop (suc n) visited w =
      let next = start_or_pass n visited w w.waiting_tasks in
      let rest = start_loop n next.0 next.1 in if starts_more visited w then rest else some w

  -- each turn starts a task or passes over one
  unfoldable pub start_waiting_tasks : Process → Option Process
  start_waiting_tasks w = start_loop (length w.waiting_tasks) 0 w
