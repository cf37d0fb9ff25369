-- ===== src/Process/Report.antt =====
-- Results go to the master: `report_task_complete`, `itable_pop` and `report_tasks` of
-- work_queue_worker.c. The output itself and the resource update are left out.
use cyque.Prelude.{
  ℕ, zero, suc, ◌+◌, ◌-◌, ◌%◌, ◌^◌, Bool, false, Option, none, some, Bytes, List, [], ◌∷◌, ◌++◌,
  if◌then◌else◌, length, ◌==◌,
}
use cyque.Prelude.Int.{ℤ, pos, pos_part, neg_part, ◌-ℤ◌, ltb_ℤ}
use cyque.Tables.Chain.{unlink}
use cyque.Tables.Itable.{uint64_key}
use cyque.Process.{TaskInfo, Infos, Process}
use cyque.WorkQueue.Task.{Task}

-- the messages to the master: `result status length time taskid`, and `end`
pub data Reply : Type 0 where
  result : ℤ → ℕ → ℕ → ℕ → Reply
  end : Reply

-- `ti->execution_end-ti->execution_start`, which are `uint64_t`
unfoldable pub execution_time : TaskInfo → ℕ
execution_time ti = (ti.execution_end + 2 ^ 64 - ti.execution_start) % 2 ^ 64

-- `!ti->pid`
unfoldable pub no_pid : TaskInfo → Bool
no_pid ti = pos_part ti.pid + neg_part ti.pid == 0

unfoldable pub output_length : Option Bytes → ℕ
output_length none = 0
output_length (some text) = length text

-- the resources of a task are free again
unfoldable pub given_back : Task → Process → Process
given_back t w = record w {
  cores_allocated = w.cores_allocated -ℤ t.cores;
  memory_allocated = w.memory_allocated -ℤ t.memory;
  disk_allocated = w.disk_allocated -ℤ t.disk;
  gpus_allocated = w.gpus_allocated -ℤ t.gpus;
}

-- `itable_pop`: the first entry, and the table without it
unfoldable pub itable_pop : Infos → Option (TaskInfo × Infos)
itable_pop [] = none
itable_pop ((key, ti) ∷ m) = some (ti, unlink key ((key, ti) ∷ m))

-- `fstat` of the file that holds the output of a task
module _ (size : Option ℕ → ℕ) where
  unfoldable pub result_of : TaskInfo → Reply
  result_of ti =
      if no_pid ti
      then result ti.task.return_status (output_length ti.task.output) ti.task.cmd_execution_time
          ti.task.taskid
      else result (pos ti.status) (size ti.output_fd) (execution_time ti) ti.taskid

  -- `report_task_complete`: the worker, and what it sends
  unfoldable pub report_task_complete : Process → TaskInfo → Reply × Process
  unfolding given_back
  report_task_complete w ti =
      let spent = if no_pid ti then ti.task.cmd_execution_time else execution_time ti in
      let w' = if no_pid ti then w else given_back ti.task w in
      (
        result_of ti,
        record w' {
          total_task_execution_time = (w.total_task_execution_time + spent) % 2 ^ 64;
          total_tasks_executed = w.total_tasks_executed + 1;
        },
      )

  -- a turn of the loop of `report_tasks`, with the loop behind it
  unfoldable pub report_turn :
      (Process → List Reply × Process) → Process → Option (TaskInfo × Infos) → List Reply × Process
  report_turn loop w none = ([], w)
  report_turn loop w (some (ti, m)) =
      let done = report_task_complete (record w { results_to_be_sent = m }) ti in
      let rest = loop done.1 in (done.0 ∷ rest.0, rest.1)

  -- the loop, which may still report as many tasks as the first argument says
  unfoldable pub report_loop : ℕ → Process → List Reply × Process
  report_loop zero w = ([], w)
  report_loop (suc left) w = report_turn (report_loop left) w (itable_pop w.results_to_be_sent)

  -- `report_tasks` of `results_to_be_sent`: what is sent, and the worker
  unfoldable pub report_tasks : ℤ → Process → List Reply × Process
  report_tasks max_count w =
      let size = length w.results_to_be_sent in
      let (sent, w') =
        report_loop (if ltb_ℤ max_count (pos 0) then size else pos_part max_count) w in
      (
        sent ++ (end ∷ []),
        record w' {
          results_to_be_sent_msg =
              if length w'.results_to_be_sent == 0 then false else w'.results_to_be_sent_msg;
        },
      )
