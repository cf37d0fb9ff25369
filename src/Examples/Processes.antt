-- ===== src/Examples/Processes.antt =====
-- A worker of work_queue_worker.c gets a task, runs it, and sends its result.
use cyque.Prelude.{
  ℕ, ◌+◌, ◌≡◌, refl, inr, arith, true, false, none, some, List, [], ◌∷◌, ◌++◌, Option, take, drop,
  length, if◌then◌else◌, ◌==◌,
}
use cyque.Prelude.Int.{pos, negsuc, ◌+ℤ◌, ◌-ℤ◌, ◌≤ℤ◌}
use cyque.Tables.Chain.{find, unlink}
use cyque.Tables.Itable.{uint64_key}
use cyque.Process.{
  TaskInfo, Process, Launch, info_insert, task_info_create, task_info_execute, share, takes_all,
  charged, check_for_resources, started, start_task, start_or_pass, start_loop, start_waiting_tasks,
}
use cyque.Process.Collect.{Wait, exited, task_ended, on_wait, walk, handle_from, handle_tasks}
use cyque.Process.Kill.{
  task, send_results, handle_master, do_task, do_kill, signals_itself, kill_all_tasks,
}
use cyque.Process.Leaks.{lost, do_kill-Leaks, start_task-KillsItself}
use cyque.Process.Report.{
  Reply, end, execution_time, no_pid, given_back, result_of, report_task_complete, itable_pop,
  report_turn, report_loop, report_tasks,
}
use cyque.Process.Served.{Amount, of_cores, of_memory, of_disk, of_gpus, taken, wanted, total}
use cyque.Process.Steps.{Run, stay, go, turns, collects, obeys, Run-IsTallied}
use cyque.Process.Tally.{held, held_by, times, waits, IsTallied}
use cyque.Process.Tally.Emptied.{IsEmptied, kill_all_tasks-IsEmptied}
use cyque.Process.Tally.Rounds.{Ends, handle_tasks-Ends}
use cyque.Process.Tally.Sent.{results_of, report_tasks-Sends}
use cyque.Process.Turns.Steady.{Served, start_waiting_tasks-Served}
use cyque.WorkQueue.Resources.{Resource, Resources, no_resource}
use cyque.WorkQueue.Task.{Task, create}

abbrev have : ℕ → Resource
have n = record no_resource { total = pos n; largest = pos n }

abbrev machine : Resources
machine = record {
  tag = negsuc 0;
  workers = have 1;
  disk = have 100;
  cores = have 4;
  memory = have 1000;
  gpus = have 0;
  unlabeled = no_resource;
}

abbrev idle : Process
idle = record {
  waiting_tasks = [];
  stored_tasks = [];
  active_tasks = [];
  results_to_be_sent = [];
  results_to_be_sent_msg = false;
  cores_allocated = pos 0;
  memory_allocated = pos 0;
  disk_allocated = pos 0;
  gpus_allocated = pos 0;
  total_task_execution_time = 0;
  total_tasks_executed = 0;
  last_task_received = negsuc 0;
  abort_flag = false;
  released_by_master = false;
  local_resources = machine;
}

abbrev job : Task
unfolding create
job = record create {
  taskid = 1;
  unlabeled = false;
  cores = pos 2;
  memory = pos 100;
  disk = pos 10;
  gpus = pos 0;
}

abbrev launch : ℕ → Launch
launch n = record { mkstemp = some 3; timestamp = 50; fork = pos (7 + n) }

abbrev measure : ℕ → Resources → Resources
measure n r = r

abbrev size : Option ℕ → ℕ
size fd = 20

abbrev answers : ℕ → TaskInfo → Wait
answers n ti = exited 0

abbrev clock : ℕ → ℕ
clock n = 90

abbrev queued : Process
queued = record idle { waiting_tasks = job ∷ []; last_task_received = pos 1 }

abbrev info : TaskInfo
info = record {
  taskid = 1;
  pid = pos 7;
  status = 0;
  execution_start = 50;
  execution_end = 0;
  output_fd = some 3;
  task = job;
}

abbrev busy : Process
busy = record queued {
  waiting_tasks = [];
  stored_tasks = (1, info) ∷ [];
  active_tasks = (7, info) ∷ [];
  cores_allocated = pos 2;
  memory_allocated = pos 100;
  disk_allocated = pos 10;
}

abbrev ended_info : TaskInfo
ended_info = record info { execution_end = 90 }

abbrev over : Process
over = record busy {
  stored_tasks = [];
  active_tasks = [];
  results_to_be_sent = (1, ended_info) ∷ [];
}

abbrev sent : Process
sent = record over {
  results_to_be_sent = [];
  cores_allocated = pos 0;
  memory_allocated = pos 0;
  disk_allocated = pos 0;
  total_task_execution_time = 40;
  total_tasks_executed = 1;
}

idle-IsTallied : IsTallied idle
unfolding held times waits find
idle-IsTallied = record {
  sums = by_amount;
  once = λ id. omega arith;
  running = tt;
  results = tt;
  distinct = tt;
  distinct_stored = tt;
  stored = λ id ti e. absurd (ground arith);
}
  where
    by_amount :
        (k : Amount)
        → taken k idle ≡ pos (held k idle.active_tasks + held k idle.results_to_be_sent)
    by_amount of_cores = refl
    by_amount of_memory = refl
    by_amount of_disk = refl
    by_amount of_gpus = refl

receives-Run : Run idle queued
unfolding handle_master do_task times waits job
receives-Run =
    go idle idle queued (stay idle)
      (obeys size [] (task (some job) true) true [] idle queued refl refl)

starts-Run : Run idle busy
unfolding start_or_pass start_task started task_info_create task_info_execute charged takes_all
    check_for_resources share ◌+ℤ◌ info_insert find job
starts-Run = go idle queued busy receives-Run (
    turns launch measure 0 0 queued busy
      (record { output = refl; forked = inr (7, refl, omega arith, refl) }) refl)

ends-Run : Run idle over
unfolding handle_tasks handle_from walk on_wait task_ended info_insert unlink find
ends-Run = go idle busy over starts-Run (collects answers clock true busy over refl)

sends-Run : Run idle sent
unfolding handle_master report_tasks report_loop report_turn report_task_complete itable_pop unlink
    given_back no_pid execution_time result_of ◌-ℤ◌ job
sends-Run = go idle over sent ends-Run (
    obeys size [] (send_results (pos 1)) true (Reply.result (pos 0) 20 40 1 ∷ end ∷ []) over sent tt
      refl)

Run-IsTallied_example : IsTallied sent
Run-IsTallied_example = Run-IsTallied sends-Run idle-IsTallied

busy-IsTallied : IsTallied busy
busy-IsTallied = Run-IsTallied starts-Run idle-IsTallied

over-IsTallied : IsTallied over
over-IsTallied = Run-IsTallied ends-Run idle-IsTallied

-- no more is allocated than there is
within : (k : Amount) → taken k queued ≤ℤ total k queued.local_resources
within of_cores = omega arith
within of_memory = omega arith
within of_disk = omega arith
within of_gpus = omega arith

start_waiting_tasks-Served_example :
    (w' : Process) × (start_waiting_tasks launch measure queued ≡ some w') × Served w'
start_waiting_tasks-Served_example =
    start_waiting_tasks-Served launch measure (λ n r. refl) queued within

-- the loop starts the task
start_waiting_tasks_run : start_waiting_tasks launch measure queued ≡ some busy
unfolding start_waiting_tasks start_loop start_or_pass start_task started task_info_create
    task_info_execute charged takes_all check_for_resources share ◌+ℤ◌ info_insert find job
start_waiting_tasks_run = refl

handle_tasks-Ends_example : Ends (handle_tasks answers clock busy) busy
handle_tasks-Ends_example = handle_tasks-Ends answers clock busy busy-IsTallied

kill_all_tasks-IsEmptied_example :
    (w' : Process) × (kill_all_tasks (9 ∷ 7 ∷ []) busy ≡ some w')
    × IsEmptied w'
    × (w'.waiting_tasks ≡ [])
unfolding signals_itself
kill_all_tasks-IsEmptied_example =
    kill_all_tasks-IsEmptied (9 ∷ 7 ∷ []) busy (IsTallied.distinct busy-IsTallied) (refl, tt) refl

report_tasks-Sends_example :
    let r = report_tasks size (pos 1) over in
    let l : List (ℕ × TaskInfo) = (1, ended_info) ∷ [] in
    (r.0 ≡ results_of size (take 1 l) ++ (end ∷ []))
    × ((r.1).results_to_be_sent ≡ drop 1 l)
    × ((r.1).total_tasks_executed ≡ 0 + length (take 1 l))
    × ((r.1).results_to_be_sent_msg ≡ (if length (drop 1 l) == 0 then false else false))
report_tasks-Sends_example = report_tasks-Sends size (pos 1) over

do_kill-Leaks_example :
    let w' = do_kill 1 over in
    (w'.results_to_be_sent ≡ unlink 1 over.results_to_be_sent)
    × (taken of_cores w'
        ≡ pos (
            held of_cores w'.active_tasks
            + held of_cores w'.results_to_be_sent
            + held_by of_cores ended_info))
unfolding find
do_kill-Leaks_example = do_kill-Leaks 1 over ended_info of_cores over-IsTallied refl

start_task-KillsItself_example :
    let l = record (launch 0) { mkstemp = none } in
    let w' = start_task l idle job in
    (taken of_cores w' ≡ taken of_cores idle +ℤ wanted of_cores (charged machine job))
    × (find 0 w'.active_tasks ≡ some (lost l idle job))
    × (signals_itself w'.active_tasks ≡ true)
    × ((pids : List ℕ) → kill_all_tasks pids w' ≡ none)
start_task-KillsItself_example =
    start_task-KillsItself (record (launch 0) { mkstemp = none }) idle job of_cores refl
