-- ===== src/Examples/Runs.antt =====
-- A run of the master of work_queue.c: a task is submitted, started on a worker, reported, and fetched.
use cyque.Prelude.{
  ℕ, ◌-◌, ◌<◌, ◌≡◌, ◌≢◌, ◌↔◌, refl, ap, arith, true, false, some, List, [], ◌∷◌, ◌++◌, leb,
  if◌then◌else◌, Bytes, codes, length, same_text,
}
use cyque.Prelude.Int.{pos, ◌+ℤ◌}
use cyque.Tables.Chain.{find, unlink}
use cyque.Tables.Itable.{uint64_key}
use cyque.WorkQueue.Schedule.{find_best_worker, find_worker_by_fcfs, first_accepting}
use cyque.WorkQueue.Cancel.{cancel_by_taskid}
use cyque.WorkQueue.Cancel.Sound.{Cancels, cancel_by_taskid-Cancels}
use cyque.WorkQueue.Failure.{success, remove_worker, delete_uncacheable_files, delete_worker_files}
use cyque.WorkQueue.Failure.Removal.{evicted, settled, remove_worker-IsSound}
use cyque.WorkQueue.Join.{
  Hello, process_workqueue, Report, category, process_resource, add_worker, report,
}
use cyque.WorkQueue.Resources.{no_resource}
use cyque.WorkQueue.Master.{
  Pointer, Queue, table_insert, allocate, commit_task_to_worker, check_worker_against_task,
  overcommitted_resource_total, reap_task_from_worker, deallocate, reset_negative,
}
use cyque.WorkQueue.Places.{Places, away, ready, running, is_live, put}
use cyque.WorkQueue.Places.Sound.{IsSound}
use cyque.WorkQueue.Receive.{
  Message, process_result, Fetching, receive_turn, receive_tasks, store_result,
  fetch_output_from_worker, report_count, add_task_report, receive_first, receive_from, timed_task,
  complete_task, finish_fetch, fetch_found, count_task, trim, resulted_task,
}
use cyque.WorkQueue.Receive.Fetched.{fetched, fetch_output_from_worker-IsSound}
use cyque.WorkQueue.Receive.Reports.{add_task_report-bound}
use cyque.WorkQueue.Receive.Sound.{behind_message, process_result-IsSound}
use cyque.WorkQueue.Release.{reset}
use cyque.WorkQueue.Release.Sound.{evicted_first, dropped, reset-IsSound}
use cyque.WorkQueue.Start.{
  start_turn, Sending, start_one_task, finish_start, start_task_on_worker, start_first, start_best,
}
use cyque.WorkQueue.Start.Sound.{outcome, start_task_on_worker-IsSound}
use cyque.WorkQueue.Steps.{
  Run, done, more, hears, fetches, returns, joins, greets, measures, submits, starts, IsFree,
  Reaches, events, held,
}
use cyque.WorkQueue.Steps.Ends.{receive_tasks_total}
use cyque.WorkQueue.Steps.Refine.{Run-Follows}
use cyque.WorkQueue.Submit.{submit_internal, submit, clear_state}
use cyque.WorkQueue.Submit.Sound.{submit-IsSound}
use cyque.WorkQueue.Task.{Task, file, File, create}
use cyque.WorkQueue.Transfer.{
  Transfer, send_input_file, send_loop, all_exist, send_input_files, sent_task, carried,
  get_output_files, get_output_file, received_task, input_in_place, output_in_place,
}
use cyque.WorkQueue.Wait.{new_worker, work_queue_create, pop_complete, empty}
use cyque.WorkQueue.Wait.Sound.{work_queue_create-IsSound, empty_iff}

abbrev program : File
program = record { type = file; flags = 1; payload = codes "sim"; remote_name = codes "sim" }

abbrev cached : File → Bytes
cached f = f.payload

-- every task has one input file, and an output file
abbrev job : Pointer → Task
job p = record create { input_files = program ∷ []; output_files = program ∷ [] }

abbrev queue : Queue
queue = work_queue_create job 1 (λ n. n)

abbrev nowhere : Places
nowhere p = away

queue-IsSound : IsSound queue nowhere
queue-IsSound = work_queue_create-IsSound job 1 (λ n. n)

-- the task at 5 is submitted
abbrev waiting : Queue
waiting = (submit 100 queue 5).1

abbrev at_head : Places
at_head = put nowhere 5 ready

submit-IsSound_example :
    ((submit 100 queue 5).0 ≡ queue.next_taskid)
    × IsSound waiting at_head
    × ((r : Pointer) → r ≢ 5 → waiting.task r ≡ queue.task r)
submit-IsSound_example = submit-IsSound 100 5 queue-IsSound refl

waiting-IsSound : IsSound waiting at_head
waiting-IsSound = (submit-IsSound 100 5 queue-IsSound refl).1

abbrev carries : ℕ → Transfer
carries n = record {
  result = success;
  total_bytes = 12;
  elapsed = 3;
  sent = true;
  missing = false;
  size = some (pos 12);
}

abbrev sending : Sending
sending = record {
  committed = 101;
  input_start = 102;
  input_finish = 105;
  execute_start = 106;
  exists = λ f. true;
  transfer = carries;
  end_sent = true;
  handled = λ p. 107;
}

-- it is sent to the worker at 7
abbrev busy : Queue
busy = start_task_on_worker cached sending waiting 7

waiting_list : waiting.ready_list ≡ 5 ∷ []
unfolding submit submit_internal work_queue_create
waiting_list = refl

start_task_on_worker-IsSound_example :
    IsSound busy (settled (outcome cached sending waiting 7 5 []) 5 7 (put at_head 5 (running 7)))
start_task_on_worker-IsSound_example =
    start_task_on_worker-IsSound cached sending 7 5 [] waiting-IsSound waiting_list

abbrev at_work : Places
at_work = settled (outcome cached sending waiting 7 5 []) 5 7 (put at_head 5 (running 7))

busy-IsSound : IsSound busy at_work
busy-IsSound = start_task_on_worker-IsSound cached sending 7 5 [] waiting-IsSound waiting_list

-- the worker runs it under the number 1
busy_tasks : busy.running_tasks ≡ (1, 5) ∷ []
unfolding start_task_on_worker start_one_task finish_start commit_task_to_worker submit
    submit_internal work_queue_create send_input_files all_exist send_loop send_input_file
    table_insert find create
busy_tasks = refl

abbrev message : Message
message = record {
  task_result = pos 0;
  output_length = pos 2;
  allocated = true;
  execution_time = 40;
  taskid = 1;
  read = codes "ok";
  truncate_msg = [];
  receive_start = 150;
  observed_at = 151;
  receive_finish = 152;
}

process_result-IsSound_example :
    IsSound (process_result busy 7 (some message)).1 (behind_message busy 7 (some message) at_work)
process_result-IsSound_example = process_result-IsSound (some message) 7 busy-IsSound

abbrev fetching : Fetching
fetching = record { transfer = carries; start = 160; finish = 170; done = 171; handled = λ p. 172 }

fetch_output_from_worker-IsSound_example :
    IsSound
      (fetch_output_from_worker cached fetching busy 7 1)
      (fetched cached fetching busy 7 1 at_work)
fetch_output_from_worker-IsSound_example =
    fetch_output_from_worker-IsSound cached fetching 7 1 busy-IsSound

remove_worker-IsSound_example : IsSound (remove_worker (λ p. 200) busy 7) (evicted 7 at_work)
remove_worker-IsSound_example = remove_worker-IsSound (λ p. 200) 7 busy-IsSound

cancel_by_taskid-Cancels_example : Cancels busy at_work 1 (cancel_by_taskid cached busy 1)
cancel_by_taskid-Cancels_example = cancel_by_taskid-Cancels busy-IsSound 1 cached (omega arith)

empty_iff_example : (empty busy ≡ true) ↔ ((p : Pointer) → is_live (at_work p) ≡ false)
empty_iff_example = empty_iff busy-IsSound

add_task_report-bound_example :
    let all =
      busy.task_reports
      ++ ((busy.task 5).total_transfer_time, (busy.task 5).cmd_execution_time) ∷ [] in
    let reports = (add_task_report busy 5).task_reports in
    let count = report_count busy in
    ((dropped : List (ℕ × ℕ)) × (all ≡ dropped ++ reports))
    × (length reports < count)
    × (length reports ≡ (if leb count (length all) then count - 1 else length all))
add_task_report-bound_example = add_task_report-bound busy 5

-- the result is heard
abbrev heard : Queue
heard = (process_result busy 7 (some message)).1

-- the loop fetches what was heard
heard-IsSound : IsSound heard (behind_message busy 7 (some message) at_work)
heard-IsSound = process_result-IsSound (some message) 7 busy-IsSound

heard_tasks : heard.finished_tasks ≡ (1, 5) ∷ []
unfolding process_result store_result start_task_on_worker start_one_task finish_start
    commit_task_to_worker allocate submit submit_internal work_queue_create send_input_files
    all_exist send_loop send_input_file table_insert find create
heard_tasks = refl

receive_tasks_total_example : (receive_tasks cached (fetching ∷ []) heard).finished_tasks ≡ []
receive_tasks_total_example =
    receive_tasks_total cached (fetching ∷ []) heard-IsSound
      (let one = ap length heard_tasks in omega arith)

-- A whole run: a worker connects, tells of itself, and a task goes through.
abbrev hello : Hello
hello = record { worker_protocol = 3; hostname = codes "node"; os = codes "Linux" }

abbrev one_slot : Report
one_slot = category (codes "workers") (record no_resource { total = pos 1 })

abbrev joined : Queue
joined = process_resource (process_workqueue (add_worker queue 7) 7 (some hello)).1 7 one_slot

joined-IsFree : IsFree joined 5
unfolding add_worker process_workqueue process_resource work_queue_create find
joined-IsFree = record {
  ready = refl;
  complete = refl;
  running = λ e. absurd (cc);
  finished = λ e. absurd (cc);
}

no_task_yet : (queue.worker 7).current_tasks ≡ []
unfolding work_queue_create new_worker
no_task_yet = refl

abbrev sent : Queue
sent = (start_turn cached 0 sending (submit 100 joined 5).1).1

abbrev fetched_queue : Queue
fetched_queue = receive_turn cached fetching (process_result sent 7 (some message)).1

abbrev at_end : Queue
at_end = (pop_complete fetched_queue fetched_queue.complete_list).1

run : Run cached queue at_end
run =
    more
      (more
        (more
          (more
            (more
              (more (more (more done (joins 7 no_task_yet)) (greets 7 (some hello)))
                (measures 7 one_slot))
              (submits 100 5 joined-IsFree))
            (starts 0 sending))
          (hears 7 (some message)))
        (fetches fetching))
      returns

Run-Follows_example :
    (s : Places) × IsSound at_end s
    × Reaches nowhere (events cached run) s
    × ((p : Pointer) → is_live (s p) ≡ held (events cached run) (λ r. is_live (nowhere r)) p)
Run-Follows_example = Run-Follows cached queue-IsSound run

-- what the run comes to: the task was run once and fetched, and is counted as failed
abbrev counts : Queue → ℕ × ℕ × ℕ × ℕ
counts q =
    (q.total_tasks_submitted, q.total_tasks_complete, q.total_tasks_failed, length q.task_reports)

counts-at_end : counts at_end ≡ (1, 1, 1, 1)
unfolding pop_complete receive_turn receive_first receive_from process_result store_result
    timed_task find start_turn start_first start_best submit submit_internal clear_state
    process_resource report process_workqueue add_worker new_worker work_queue_create
    find_best_worker find_worker_by_fcfs first_accepting create check_worker_against_task
    overcommitted_resource_total start_task_on_worker start_one_task finish_start
    commit_task_to_worker table_insert allocate send_input_files all_exist send_loop send_input_file
    input_in_place sent_task carried get_output_files get_output_file output_in_place received_task
    fetch_output_from_worker fetch_found finish_fetch complete_task delete_uncacheable_files
    delete_worker_files reap_task_from_worker deallocate reset_negative unlink count_task
    add_task_report trim report_count same_text ◌+ℤ◌ resulted_task
counts-at_end = refl

-- the busy worker in the table before another one, and a reset
abbrev connected : Queue
connected = record busy { worker_table = 7 ∷ 8 ∷ [] }

connected-IsSound : IsSound connected at_work
connected-IsSound = record { places = busy-IsSound.places; accounted = busy-IsSound.accounted }

reset-IsSound_example :
    IsSound (reset (λ p. 200) connected 0) (dropped (evicted_first (7 ∷ 8 ∷ []) at_work))
    × ((reset (λ p. 200) connected 0).worker_table ≡ 8 ∷ [])
    × ((reset (λ p. 200) connected 0).complete_list ≡ connected.complete_list)
reset-IsSound_example = reset-IsSound (λ p. 200) 0 connected-IsSound
