-- ===== src/WorkQueue/Start.antt =====
-- Tasks are sent to workers: `start_one_task`, `start_task_on_worker`, `available_workers` and
-- `start_tasks` of work_queue.c. The messages behind the input files are left out but for the last,
-- whose outcome decides.
pub mod Sound
use cyque.Prelude.{
  ℕ, suc, ◌+◌, ◌≡◌, Bool, true, false, ◌||◌, ◌&&◌, not, Option, none, some, List, [], ◌∷◌, ◌++◌,
  ltb, if◌then◌else◌, Bytes, codes, same_text,
}
use cyque.Prelude.Int.{ℤ, pos, ltb_ℤ}
use cyque.WorkQueue.Failure.{Result, success, worker_failure, handle_failure}
use cyque.WorkQueue.Master.{
  Pointer, Worker, Queue, write, overcommitted_resource_total, exceeds, commit_task_to_worker,
}
use cyque.WorkQueue.Schedule.{Request, find_best_worker}
use cyque.WorkQueue.Task.{Task, File}
use cyque.WorkQueue.Transfer.{Transfer, send_input_files, is_success}

-- What the link and the clock do while a task is sent: whether each input file exists, how each one
-- goes, whether the last message goes, and the times. `handled` is the clock of a worker's removal.
pub record Sending : Type 0 where
  pub committed : ℕ
  pub input_start : ℕ
  pub input_finish : ℕ
  pub execute_start : ℕ
  pub exists : File → Bool
  pub transfer : ℕ → Transfer
  pub end_sent : Bool
  pub handled : Pointer → ℕ

abbrev pub started_task : Sending → Bytes → Task → Task
started_task x host t = record t {
  time_send_input_finish = x.input_finish;
  time_execute_cmd_start = x.execute_start;
  hostname = some host;
}

module _ (make_cached_name : File → Bytes) where
  unfoldable pub start_one_task : Sending → Queue → Pointer → Pointer → Result × Queue
  start_one_task x q wp tp =
      let stamped = record q {
        task = write q.task tp (record (q.task tp) { time_send_input_start = x.input_start });
      } in
      let (result, q') = send_input_files make_cached_name x.exists x.transfer stamped wp tp in
      if is_success result
      then (
        if x.end_sent then success else worker_failure,
        record q' { task = write q'.task tp (started_task x (q'.worker wp).hostname (q'.task tp)) },
      )
      else (result, q')

  -- the end of `start_task_on_worker`
  unfoldable pub finish_start : (Pointer → ℕ) → Result → Queue → Pointer → Pointer → Queue
  finish_start handled result q wp tp =
      if is_success result then q else handle_failure make_cached_name handled q wp tp result

  unfoldable pub start_task_on_worker : Sending → Queue → Pointer → Queue
  start_task_on_worker x q wp = elim q.ready_list [
    | [] ↦ q
    | tp ∷ rest ↦
        let q' = commit_task_to_worker x.committed (record q { ready_list = rest }) wp tp in
        let (result, q'') = start_one_task x q' wp tp in finish_start x.handled result q'' wp tp
  ]

-- `strcmp(w->hostname, "unknown")`
abbrev pub is_known : Worker → Bool
is_known w = not (same_text w.hostname (codes "unknown"))

-- the test of `available_workers` for one worker
unfoldable pub has_room : Queue → Worker → Bool
unfolding overcommitted_resource_total
has_room q w =
    if exceeds w.unlabeled_allocated (pos 0)
    then exceeds (overcommitted_resource_total q w.resources.workers.total true)
        w.unlabeled_allocated
    else exceeds (overcommitted_resource_total q w.resources.cores.total true) w.cores_allocated
      || exceeds w.resources.disk.total w.disk_allocated
      || exceeds (overcommitted_resource_total q w.resources.memory.total false) w.memory_allocated

unfoldable pub known_workers : Queue → List Pointer → ℕ
known_workers q [] = 0
known_workers q (wp ∷ wps) = (if is_known (q.worker wp) then 1 else 0) + known_workers q wps

unfoldable pub available_workers : Queue → List Pointer → ℕ
unfolding has_room
available_workers q [] = 0
available_workers q (wp ∷ wps) =
    (if is_known (q.worker wp) && has_room q (q.worker wp) then 1 else 0) + available_workers q wps

-- what a turn does with the best worker for the head of the ready list, with whether the loop goes on;
-- without a worker, that task goes to the end of the list if some worker has room
unfoldable pub start_best :
    (File → Bytes) → Sending → Queue → Pointer → List Pointer → Option Pointer → Bool × Queue
start_best make_cached_name x q tp rest (some wp) =
    (true, start_task_on_worker make_cached_name x q wp)
start_best make_cached_name x q tp rest none = (
  false,
  if ltb 0 (available_workers q q.worker_table)
      then record q { ready_list = rest ++ tp ∷ [] }
      else q,
)

unfoldable pub start_first : (File → Bytes) → ℕ → Sending → Queue → List Pointer → Bool × Queue
start_first make_cached_name rand x q [] = (false, q)
start_first make_cached_name rand x q (tp ∷ rest) =
    start_best make_cached_name x q tp rest
      (find_best_worker rand q (record { task = q.task tp; make_cached_name = make_cached_name }))

-- one turn of the loop of `start_tasks`
unfoldable pub start_turn : (File → Bytes) → ℕ → Sending → Queue → Bool × Queue
start_turn make_cached_name rand x q = start_first make_cached_name rand x q q.ready_list

-- The loop, with what each turn meets; it ends where the list of turns does, when the time is over. It
-- gives the number of tasks started.
unfoldable pub start_tasks : (File → Bytes) → List (ℕ × Sending) → Queue → ℕ × Queue
start_tasks make_cached_name [] q = (0, q)
start_tasks make_cached_name ((rand, x) ∷ turns) q =
    let (started, q') = start_turn make_cached_name rand x q in
    let rest = start_tasks make_cached_name turns q' in
    if started then (rest.0 + 1, rest.1) else (0, q')
