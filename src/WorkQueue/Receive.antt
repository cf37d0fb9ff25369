-- ===== src/WorkQueue/Receive.antt =====
-- Results come back: `process_result`, `process_available_results`, `fetch_output_from_worker`,
-- `add_task_report` and `receive_tasks` of work_queue.c, without monitoring.
pub mod Fetched
pub mod Names
pub mod Reports
pub mod Sound
use cyque.Prelude.{
  ℕ, suc, ◌+◌, ◌-◌, ◌%◌, ◌^◌, Bool, true, false, ◌&&◌, Option, none, some, List, [], ◌∷◌, ◌++◌,
  ◌==◌, ltb, leb, if◌then◌else◌, Bytes, length, take, drop,
}
use cyque.Prelude.Int.{ℤ, pos, pos_part, ◌+ℤ◌, ◌-ℤ◌, ltb_ℤ}
use cyque.Tables.Chain.{find, unlink}
use cyque.Tables.Itable.{uint64_key}
use cyque.WorkQueue.Failure.{
  Result, success, worker_failure, delete_uncacheable_files, handle_failure, handle_worker_failure,
}
use cyque.WorkQueue.Master.{
  Pointer, Entries, Worker, Queue, write, table_insert, reap_task_from_worker,
}
use cyque.WorkQueue.Task.{Task, File}
use cyque.WorkQueue.Transfer.{Transfer, get_output_files, is_success, with_flag}

-- MAX_TASK_STDOUT_STORAGE, one gigabyte
abbrev pub max_task_stdout_storage : ℕ
max_task_stdout_storage = 2 ^ 30

-- The numbers of a message "result …", and what comes with it: whether `malloc` gives room for the
-- output, the bytes that `link_read` gives, the text that marks a cut output, and the clock.
pub record Message : Type 0 where
  pub task_result : ℤ
  pub output_length : ℤ
  pub execution_time : ℕ
  pub taskid : ℕ
  pub allocated : Bool
  pub read : Bytes
  pub truncate_msg : Bytes
  pub receive_start : ℕ
  pub observed_at : ℕ
  pub receive_finish : ℕ

-- `output_length > MAX_TASK_STDOUT_STORAGE`
abbrev pub is_cut : Message → Bool
is_cut m = ltb_ℤ (pos max_task_stdout_storage) m.output_length

-- `retrieved_output_length` behind the allocation; a negative length stays negative
unfoldable pub retrieved_length : Message → ℤ
retrieved_length m =
    if m.allocated then if is_cut m then pos max_task_stdout_storage else m.output_length else pos 0

-- Whether there is an output to read, and whether its bytes all came. Nothing is read for a length of
-- zero or less, which counts as an output that is in.
unfoldable pub to_read : Message → Bool
unfolding retrieved_length
to_read m = ltb_ℤ (pos 0) (retrieved_length m)

unfoldable pub is_in : Message → Bool
unfolding to_read
is_in m = if to_read m then length m.read == pos_part (retrieved_length m) else true

-- The output that the task gets: the last bytes of a cut output are the mark, and one of which nothing
-- is read is empty. For a length of -1 the code writes the end of it behind a block of no bytes.
unfoldable pub kept_output : Message → Option Bytes
unfolding to_read
kept_output m =
    if m.allocated
    then some (
        if to_read m
        then if is_cut m
          then take (max_task_stdout_storage - length m.truncate_msg) m.read ++ m.truncate_msg
          else m.read
        else [])
    else none

-- what is written to the task before its output is read; a `timestamp_t` has 64 bits
unfoldable pub timed_task : Message → Task → Task
unfolding with_flag
timed_task m t =
    let observed = (2 ^ 64 + m.observed_at - t.time_execute_cmd_start) % 2 ^ 64 in
    let took = if ltb m.execution_time observed then m.execution_time else observed in
    record t {
      time_receive_result_start = m.receive_start;
      cmd_execution_time = took;
      total_cmd_execution_time = (t.total_cmd_execution_time + took) % 2 ^ 64;
      result =
          if is_cut m
          then with_flag 4 t.result
          else if m.allocated
          then t.result
          else with_flag 4 t.result;
    }

unfoldable pub resulted_task : Message → Task → Task
unfolding kept_output
resulted_task m t = record t {
  output = kept_output m;
  time_receive_result_finish = m.receive_finish;
  return_status = m.task_result;
  time_execute_cmd_finish = t.time_execute_cmd_start + t.cmd_execution_time;
}

-- what `process_result` does with the task that it found under the number
unfoldable pub store_result : Queue → Pointer → Message → Option Pointer → Result × Queue
unfolding is_in
store_result q wp m none = (success, q)
store_result q wp m (some tp) =
    let t = timed_task m (q.task tp) in
    if is_in m
    then (
      success,
      record q {
        task = write q.task tp (resulted_task m t);
        total_execute_time = q.total_execute_time + t.cmd_execution_time;
        running_tasks = unlink m.taskid q.running_tasks;
        finished_tasks = table_insert m.taskid tp q.finished_tasks;
        worker =
            write q.worker wp
              (record (q.worker wp) { finished_tasks = (q.worker wp).finished_tasks +ℤ pos 1 });
      },
    )
    else (worker_failure, record q { task = write q.task tp (record t { output = some m.read }) })

-- The result of a task is stored; `none` is a line that is not understood. Its output
-- is to be in; a `link_read` that fails gives no bytes.
unfoldable pub process_result : Queue → Pointer → Option Message → Result × Queue
process_result q wp none = (worker_failure, q)
process_result q wp (some m) = store_result q wp m (find m.taskid (q.worker wp).current_tasks)

-- a line that the worker sends behind "send_results"
pub data Line : Type 0 where
  result_line : Option Message → Line
  end_line : Line
  invalid_line : Line

-- The loop over the lines, with the number of results; where the lines end, the link fails.
unfoldable pub read_results : Queue → Pointer → List Line → ℕ → Result × ℕ × Queue
read_results q wp [] i = (worker_failure, i, q)
read_results q wp (end_line ∷ lines) i = (success, i, q)
read_results q wp (invalid_line ∷ lines) i = (worker_failure, i, q)
read_results q wp (result_line m ∷ lines) i =
    let (result, q') = process_result q wp m in
    let rest = read_results q' wp lines (i + 1) in
    if is_success result then rest else (result, i, q')

unfoldable pub process_available_results : (Pointer → ℕ) → ℤ → Queue → Pointer → List Line → Queue
process_available_results now max_count q wp lines =
    let (result, i, q') = read_results q wp lines 0 in
    let disobeyed = ltb_ℤ (pos 0) max_count && ltb_ℤ max_count (pos i) in
    if is_success result && (if disobeyed then false else true)
    then q'
    else handle_worker_failure now q' wp

-- "Trim the list": reports leave the head while there are `count` or more
unfoldable pub trim : ℕ → List (ℕ × ℕ) → List (ℕ × ℕ)
trim count [] = []
trim count (r ∷ rs) =
    let rest = trim count rs in if leb count (length (r ∷ rs)) then rest else r ∷ rs

-- WORK_QUEUE_TASK_REPORT_MIN_SIZE is 20
unfoldable pub report_count : Queue → ℕ
report_count q = let n = length q.worker_table in if ltb 20 n then n else 20

unfoldable pub add_task_report : Queue → Pointer → Queue
unfolding trim report_count
add_task_report q tp =
    let t = q.task tp in
    record q {
      task_reports =
          trim (report_count q)
            (q.task_reports ++ (t.total_transfer_time, t.cmd_execution_time) ∷ []);
    }

-- what the link and the clock do while the output of a task is fetched
pub record Fetching : Type 0 where
  pub transfer : ℕ → Transfer
  pub start : ℕ
  pub finish : ℕ
  pub done : ℕ
  pub handled : Pointer → ℕ

-- the statistics at the end of `fetch_output_from_worker`
unfoldable pub count_task : Queue → Pointer → Pointer → Queue
count_task q wp tp =
    let t = q.task tp in
    let w = q.worker wp in
    let good = t.result == 0 in
    record q {
      total_tasks_complete = q.total_tasks_complete + 1;
      worker = write q.worker wp (record w {
        total_tasks_complete = w.total_tasks_complete + 1;
        total_task_time = w.total_task_time + t.cmd_execution_time;
      });
      total_good_execute_time =
          if good
          then q.total_good_execute_time + t.cmd_execution_time
          else q.total_good_execute_time;
      total_good_transfer_time =
          if good
          then q.total_good_transfer_time + t.total_transfer_time
          else q.total_good_transfer_time;
    }

-- "At this point, a task is completed": it is reaped and pushed on the complete list
unfoldable pub complete_task : ℕ → Queue → Pointer → Pointer → Queue
complete_task done q wp tp =
    let q' = reap_task_from_worker q wp tp in
    record q' {
      finished_tasks = unlink (q'.task tp).taskid q'.finished_tasks;
      complete_list = tp ∷ q'.complete_list;
      worker =
          write q'.worker wp
            (record (q'.worker wp) { finished_tasks = (q'.worker wp).finished_tasks -ℤ pos 1 });
      task = write q'.task tp (record (q'.task tp) { time_task_finish = done });
    }

module _ (make_cached_name : File → Bytes) where
  -- the output files of the task are in, with a result of the loop over them
  unfoldable pub finish_fetch : Fetching → Result → Queue → Pointer → Pointer → Queue
  finish_fetch x result q wp tp =
      let received = record q {
        task = write q.task tp (record (q.task tp) { time_receive_output_finish = x.finish });
      } in
      let done =
        complete_task x.done (delete_uncacheable_files make_cached_name received wp tp) wp tp in
      if is_success result
      then count_task (add_task_report done tp) wp tp
      else handle_failure make_cached_name x.handled q wp tp result

  unfoldable pub fetch_found : Fetching → Queue → Pointer → Option Pointer → Queue
  fetch_found x q wp none = handle_worker_failure x.handled q wp
  fetch_found x q wp (some tp) =
      let stamped = record q {
        task = write q.task tp (record (q.task tp) { time_receive_output_start = x.start });
      } in
      let (result, q') =
        get_output_files make_cached_name x.transfer 0 (q.task tp).output_files success stamped wp
          tp in
      finish_fetch x result q' wp tp

  unfoldable pub fetch_output_from_worker : Fetching → Queue → Pointer → ℕ → Queue
  fetch_output_from_worker x q wp taskid =
      fetch_found x q wp (find taskid (q.worker wp).current_tasks)

  -- A task without a worker in the map gives no turn: the code would read through a null pointer.
  unfoldable pub receive_from : Fetching → Queue → ℕ → Option Pointer → Queue
  receive_from x q taskid none = q
  receive_from x q taskid (some wp) = fetch_output_from_worker x q wp taskid

  unfoldable pub receive_first : Fetching → Queue → Entries → Queue
  receive_first x q [] = q
  receive_first x q ((taskid, tp) ∷ rest) = receive_from x q taskid (find taskid q.worker_task_map)

  -- one turn of the loop of `receive_tasks`: the first finished task, at the worker the map gives
  unfoldable pub receive_turn : Fetching → Queue → Queue
  receive_turn x q = receive_first x q q.finished_tasks

  -- the loop, with what each turn meets, until no task is finished or the time is over
  unfoldable pub receive_tasks : List Fetching → Queue → Queue
  receive_tasks [] q = q
  receive_tasks (x ∷ xs) q = receive_tasks xs (receive_turn x q)
