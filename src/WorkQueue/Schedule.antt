-- ===== src/WorkQueue/Schedule.antt =====
-- Which worker a task goes to: the `find_worker_by_*` functions and `find_best_worker` of
-- work_queue.c. The walk over the worker table visits the workers in the order of `worker_table`.
-- `make_cached_name`, which digests a file's name by MD5, is a parameter, and so is the number that
-- `rand` returns. An average time is an integer that a double holds.
pub mod Choice
use cyque.Prelude.{
  ℕ, zero, suc, ◌+◌, ◌-◌, ◌/◌, ◌%◌, Bool, true, false, ◌&&◌, ◌||◌, Option, none, some, List, [],
  ◌∷◌, ◌++◌, ◌==◌, ltb, if◌then◌else◌, is_some, not, Bytes, length, same_text,
}
use cyque.Prelude.Int.{ℤ, pos, ◌+ℤ◌, ltb_ℤ}
use cyque.WorkQueue.Master.{Pointer, Worker, Queue, check_worker_against_task}
use cyque.WorkQueue.Task.{Task, FileType, file, file_piece, File}

abbrev pub is_file : FileType → Bool
is_file file = true
is_file file_piece = true
is_file _ = false

-- `flags & WORK_QUEUE_CACHE`
abbrev pub cacheable : ℕ → Bool
cacheable flags = flags % 2 == 1

-- What a scheduler is given of a task: the task, and the names that files have on
-- a worker.
pub record Request : Type 0 where
  pub task : Task
  pub make_cached_name : File → Bytes

-- `if(remote_info) task_cached_bytes += remote_info->st_size`
abbrev pub add_size : ℤ → Option ℤ → ℤ
add_size bytes none = bytes
add_size bytes (some n) = bytes +ℤ n

-- `hash_table_lookup(w->current_files, cached_name)`, of which the size is read
unfoldable pub size_of : Bytes → List (Bytes × ℤ) → Option ℤ
size_of name [] = none
size_of name ((n, size) ∷ files) = if same_text name n then some size else size_of name files

unfoldable pub cached_bytes : Queue → Request → Pointer → List File → ℤ → ℤ
cached_bytes q r wp [] bytes = bytes
cached_bytes q r wp (f ∷ fs) bytes = cached_bytes q r wp fs (
    if is_file f.type && cacheable f.flags
    then add_size bytes (size_of (r.make_cached_name f) (q.worker wp).current_files)
    else bytes)

-- `check_worker_against_task(q, w, t)`
abbrev pub accepts : Queue → Request → Pointer → Bool
accepts q r wp = check_worker_against_task q (q.worker wp) r.task

-- the walk of `find_worker_by_files`, with `best_worker` and `most_task_cached_bytes`
unfoldable pub files_loop : Queue → Request → List Pointer → Option Pointer → ℤ → Option Pointer
unfolding cached_bytes
files_loop q r [] best most = best
files_loop q r (wp ∷ wps) best most =
    let bytes = cached_bytes q r wp r.task.input_files (pos 0) in
    let better = accepts q r wp && (not (is_some best) || ltb_ℤ most bytes) in
    files_loop q r wps (if better then some wp else best) (if better then bytes else most)

unfoldable pub find_worker_by_files : Queue → Request → Option Pointer
unfolding files_loop
find_worker_by_files q r = files_loop q r q.worker_table none (pos 0)

unfoldable pub first_accepting : Queue → Request → List Pointer → Option Pointer
first_accepting q r [] = none
first_accepting q r (wp ∷ wps) = if accepts q r wp then some wp else first_accepting q r wps

unfoldable pub find_worker_by_fcfs : Queue → Request → Option Pointer
unfolding first_accepting
find_worker_by_fcfs q r = first_accepting q r q.worker_table

-- `list_push_tail(valid_workers, w)`
unfoldable pub valid_workers : Queue → Request → List Pointer → List Pointer → List Pointer
valid_workers q r [] valid = valid
valid_workers q r (wp ∷ wps) valid =
    valid_workers q r wps (if accepts q r wp then valid ++ wp ∷ [] else valid)

-- `while(random_worker && list_size(valid_workers)) w = list_pop_head(valid_workers)`
unfoldable pub pop_many : ℕ → List Pointer → Option Pointer → Option Pointer
pop_many zero valid w = w
pop_many (suc n) [] w = w
pop_many (suc n) (x ∷ valid) w = pop_many n valid (some x)

-- `rand` is what `rand()` returns
unfoldable pub find_worker_by_random : ℕ → Queue → Request → Option Pointer
unfolding valid_workers pop_many
find_worker_by_random rand q r =
    let valid = valid_workers q r q.worker_table [] in
    if ltb 0 (length valid) then pop_many (rand % length valid + 1) valid none else none

abbrev pub average_time : Worker → ℕ
average_time w = (w.total_task_time + w.total_transfer_time) / w.total_tasks_complete

-- the walk of `find_worker_by_time`, with `best_worker` and `best_time`
unfoldable pub time_loop : Queue → Request → List Pointer → Option Pointer → ℕ → Option Pointer
time_loop q r [] best best_time = best
time_loop q r (wp ∷ wps) best best_time =
    let w = q.worker wp in
    let better =
      (accepts q r wp && ltb 0 w.total_tasks_complete)
      && (not (is_some best) || ltb (average_time w) best_time) in
    time_loop q r wps (if better then some wp else best)
      (if better then average_time w else best_time)

-- `best_time` is read only behind a first worker, so its start value stands for HUGE_VAL
unfoldable pub find_worker_by_time : Queue → Request → Option Pointer
unfolding time_loop find_worker_by_fcfs
find_worker_by_time q r = elim (time_loop q r q.worker_table none 0) [
  | some wp ↦ some wp
  | none ↦ find_worker_by_fcfs q r
]

-- WORK_QUEUE_SCHEDULE_UNSET is 0, _FCFS 1, _FILES 2, _TIME 3 and _RAND 4; the task's choice goes first
unfoldable pub find_best_worker : ℕ → Queue → Request → Option Pointer
unfolding find_worker_by_files find_worker_by_time find_worker_by_random find_worker_by_fcfs
find_best_worker rand q r =
    let own = r.task.worker_selection_algorithm in
    let a = if own == 0 then q.worker_selection_algorithm else own in
    if a == 2
    then find_worker_by_files q r
    else if a == 3
    then find_worker_by_time q r
    else if a == 4
    then find_worker_by_random rand q r
    else find_worker_by_fcfs q r
