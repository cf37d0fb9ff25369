-- ===== src/WorkQueue/Transfer.antt =====
-- The files of a task between the master and a worker, in work_queue.c. What the link and the file
-- system do with one file is a `Transfer`; the books that the master keeps of it are modelled.
pub mod Books
use cyque.Prelude.{
  ℕ, suc, ◌+◌, ◌/◌, ◌%◌, Bool, true, false, ◌||◌, ◌&&◌, not, Option, none, some, List, [], ◌∷◌,
  ◌==◌, ltb, if◌then◌else◌, is_some, Bytes, zero, same_text,
}
use cyque.Prelude.Int.{ℤ}
use cyque.WorkQueue.Failure.{Result, success, worker_failure, app_failure, forget_file}
use cyque.WorkQueue.Master.{Pointer, Worker, Queue, write}
use cyque.WorkQueue.Schedule.{size_of, cacheable, is_file}
use cyque.WorkQueue.Task.{Task, File}

-- How one file went over the link: the outcome, the bytes, the time it took, whether a file or
-- directory was sent because the worker did not have it as it is, whether the worker reported it
-- missing, and the size that `stat` gave. A third party's answer counts by its sign.
pub record Transfer : Type 0 where
  pub result : Result
  pub total_bytes : ℕ
  pub elapsed : ℕ
  pub sent : Bool
  pub missing : Bool
  pub size : Option ℤ

abbrev pub is_success : Result → Bool
is_success success = true
is_success _ = false

-- `if(result …)`: a failure of the application is not 0
abbrev pub nonzero : Result → Bool
nonzero worker_failure = false
nonzero _ = true

-- `t->result |= flag`, where the flag is a power of two
unfoldable pub with_flag : ℕ → ℕ → ℕ
with_flag flag result = if result / flag % 2 == 1 then result else result + flag

-- `hash_table_insert(w->current_files, …)` does nothing for a name that is there
unfoldable pub remember : Bytes → Option ℤ → List (Bytes × ℤ) → List (Bytes × ℤ)
remember name none files = files
remember name (some size) files =
    if is_some (size_of name files) then files else (name, size) ∷ files

-- the cache behind `send_file_or_directory`
unfoldable pub store : Transfer → File → Bytes → List (Bytes × ℤ) → List (Bytes × ℤ)
unfolding forget_file remember
store x f name files =
    let known = forget_file name files in
    if x.sent
    then (if nonzero x.result && cacheable f.flags then remember name x.size known else known)
    else files

-- `flags & WORK_QUEUE_THIRDGET`; WORK_QUEUE_THIRDPUT is the same flag
abbrev pub third_party : ℕ → Bool
third_party flags = flags / 8 % 2 == 1

-- `f->flags |= WORK_QUEUE_PREEXIST` for the n-th file of a list
unfoldable pub preexists : ℕ → List File → List File
unfolding with_flag
preexists n [] = []
preexists zero (f ∷ fs) = record f { flags = with_flag 4 f.flags } ∷ fs
preexists (suc n) (f ∷ fs) = f ∷ preexists n fs

-- an input file that the worker has under its own name on a shared file system is used in place
unfoldable pub input_in_place : ℕ → File → Task → Task
input_in_place n f t = record t {
  input_files =
      if is_file f.type && third_party f.flags && same_text f.remote_name f.payload
      then preexists n t.input_files
      else t.input_files;
}

-- an output file whose cached name is its own on a shared file system is left in place
unfoldable pub output_in_place : (File → Bytes) → ℕ → File → Task → Task
output_in_place make_cached_name n f t = record t {
  output_files =
      if third_party f.flags && same_text (make_cached_name f) f.payload
      then preexists n t.output_files
      else t.output_files;
}

-- what `send_input_file` writes to the task, by its result
unfoldable pub sent_task : Result → Transfer → Task → Task
unfolding with_flag
sent_task success x t = record t {
  total_bytes_sent = t.total_bytes_sent + x.total_bytes;
  total_bytes_transferred = t.total_bytes_transferred + x.total_bytes;
  total_transfer_time = t.total_transfer_time + x.elapsed;
}
sent_task app_failure x t = record t { result = with_flag 1 t.result }
sent_task worker_failure x t = t

-- what a transfer adds to the books of the worker
unfoldable pub carried : Transfer → Worker → Worker
carried x w = record w {
  total_bytes_transferred = w.total_bytes_transferred + x.total_bytes;
  total_transfer_time = w.total_transfer_time + x.elapsed;
}

-- the n-th file of the task
unfoldable pub send_input_file :
    (File → Bytes) → Queue → Pointer → Pointer → ℕ → File → Transfer → Queue
unfolding store input_in_place sent_task carried
send_input_file make_cached_name q wp tp n f x =
    let w = q.worker wp in
    let kept = record w { current_files = store x f (make_cached_name f) w.current_files } in
    let done = is_success x.result in
    record q {
      task = write q.task tp (sent_task x.result x (input_in_place n f (q.task tp)));
      worker = write q.worker wp (if done then carried x kept else kept);
      total_bytes_sent = if done then q.total_bytes_sent + x.total_bytes else q.total_bytes_sent;
      total_send_time = if done then q.total_send_time + x.elapsed else q.total_send_time;
    }

-- the loop over the input files; the n-th file goes as `transfer n`
unfoldable pub send_loop :
    (File → Bytes) → (ℕ → Transfer) → ℕ → List File → Queue → Pointer → Pointer → Result × Queue
send_loop make_cached_name transfer n [] q wp tp = (success, q)
send_loop make_cached_name transfer n (f ∷ fs) q wp tp =
    let q' = send_input_file make_cached_name q wp tp n f (transfer n) in
    let rest = send_loop make_cached_name transfer (suc n) fs q' wp tp in
    if is_success (transfer n).result then rest else ((transfer n).result, q')

-- whether each file that is to be read exists; `exists` is what `stat` says of the expanded name
unfoldable pub all_exist : (File → Bool) → List File → Bool
all_exist exists [] = true
all_exist exists (f ∷ fs) = (not (is_file f.type) || exists f) && all_exist exists fs

unfoldable pub send_input_files :
    (File → Bytes) → (File → Bool) → (ℕ → Transfer) → Queue → Pointer → Pointer → Result × Queue
send_input_files make_cached_name exists transfer q wp tp =
    let t = q.task tp in
    if all_exist exists t.input_files
    then send_loop make_cached_name transfer 0 t.input_files q wp tp
    else (
      app_failure,
      record q { task = write q.task tp (record t { result = with_flag 1 t.result }) },
    )

-- the notes of `get_file_or_directory` on the task, then the statistics of `get_output_file`
unfoldable pub received_task : Transfer → Task → Task
unfolding with_flag
received_task x t =
    let noted = if x.missing then with_flag 2 t.result else t.result in
    if ltb 0 x.total_bytes
    then record t {
      result = noted;
      total_bytes_received = t.total_bytes_received + x.total_bytes;
      total_bytes_transferred = t.total_bytes_transferred + x.total_bytes;
      total_transfer_time = t.total_transfer_time + x.elapsed;
    }
    else record t { result = noted }

-- the n-th file of the task
unfoldable pub get_output_file :
    (File → Bytes) → Queue → Pointer → Pointer → ℕ → File → Transfer → Queue
unfolding remember output_in_place received_task carried
get_output_file make_cached_name q wp tp n f x =
    let w = q.worker wp in
    let some_bytes = ltb 0 x.total_bytes in
    let counted = if some_bytes then carried x w else w in
    record q {
      task = write q.task tp (received_task x (output_in_place make_cached_name n f (q.task tp)));
      worker = write q.worker wp (record counted {
        current_files =
            if nonzero x.result && cacheable f.flags
            then remember (make_cached_name f) x.size w.current_files
            else w.current_files;
      });
      total_bytes_received =
          if some_bytes then q.total_bytes_received + x.total_bytes else q.total_bytes_received;
      total_receive_time =
          if some_bytes then q.total_receive_time + x.elapsed else q.total_receive_time;
    }

-- the loop over the output files, with the result of the last file
unfoldable pub get_output_files :
    (File → Bytes)
    → (ℕ → Transfer)
    → ℕ
    → List File
    → Result
    → Queue
    → Pointer
    → Pointer
    → Result × Queue
get_output_files make_cached_name transfer n [] result q wp tp = (result, q)
get_output_files make_cached_name transfer n (f ∷ fs) result q wp tp =
    let x = transfer n in
    let q' = get_output_file make_cached_name q wp tp n f x in
    let rest = get_output_files make_cached_name transfer (suc n) fs x.result q' wp tp in
    if nonzero x.result then rest else (x.result, q')
