-- ===== src/WorkQueue/Failure.antt =====
-- What work_queue.c does when a transfer fails: the failure of the task is reported to the
-- application, the failure of a worker removes the worker. Messages to the worker are left out;
-- `make_cached_name`, which digests by MD5, is a parameter.
pub mod Places
pub mod Removal
pub mod Sound
use cyque.Prelude.{
  ℕ, ◌+◌, ◌/◌, ◌%◌, ◌≡◌, Bool, true, false, ◌||◌, not, List, [], ◌∷◌, ◌==◌, ltb, if◌then◌else◌,
  Bytes, same_text,
}
use cyque.Prelude.Int.{ℤ}
use cyque.Tables.Chain.{unlink}
use cyque.Tables.Itable.{uint64_key}
use cyque.WorkQueue.Cleanup.{cleanup_worker}
use cyque.WorkQueue.Master.{Pointer, Worker, Queue, write, reap_task_from_worker}
use cyque.WorkQueue.Task.{Task, File}

-- SUCCESS is 1, WORKER_FAILURE 0 and APP_FAILURE -1.
pub data Result : Type 0 where
  success worker_failure app_failure : Result

-- `list_remove`, `hash_table_remove`: the first entry for the pointer
unfoldable pub without : Pointer → List Pointer → List Pointer
without p [] = []
without p (x ∷ xs) = if x == p then xs else x ∷ without p xs

-- `flags & (WORK_QUEUE_CACHE | WORK_QUEUE_PREEXIST)`
abbrev pub cache_or_preexist : ℕ → Bool
cache_or_preexist flags = flags % 2 == 1 || flags / 4 % 2 == 1

-- `flags & 0`
abbrev pub no_flags : ℕ → Bool
no_flags flags = false

unfoldable pub forget_file : Bytes → List (Bytes × ℤ) → List (Bytes × ℤ)
forget_file name [] = []
forget_file name (f ∷ files) = if same_text name f.0 then files else f ∷ forget_file name files

module _ (make_cached_name : File → Bytes) where
  -- the loop over the files that do not match `except_flags`
  unfoldable pub forget_worker_files : (ℕ → Bool) → List File → List (Bytes × ℤ) → List (Bytes × ℤ)
  unfolding forget_file
  forget_worker_files except [] known = known
  forget_worker_files except (f ∷ fs) known =
      forget_worker_files except fs
        (if except f.flags then known else forget_file (make_cached_name f) known)

  unfoldable pub delete_worker_files : (ℕ → Bool) → Queue → Pointer → List File → Queue
  unfolding forget_worker_files
  delete_worker_files except q wp files = record q {
    worker = write q.worker wp (record (q.worker wp) {
      current_files = forget_worker_files except files (q.worker wp).current_files;
    });
  }

  unfoldable pub delete_uncacheable_files : Queue → Pointer → Pointer → Queue
  delete_uncacheable_files q wp tp =
      let q' = delete_worker_files cache_or_preexist q wp (q.task tp).input_files in
      delete_worker_files cache_or_preexist q' wp (q'.task tp).output_files

  -- `delete_task_output_files` if the task was started
  unfoldable pub delete_task_output_files : Queue → Pointer → Pointer → Queue
  delete_task_output_files q wp tp =
      let t = q.task tp in
      if ltb 0 t.time_execute_cmd_start then delete_worker_files no_flags q wp t.output_files else q

  unfoldable pub handle_app_failure : Queue → Pointer → Pointer → Queue
  handle_app_failure q wp tp =
      let q' = reap_task_from_worker q wp tp in
      delete_task_output_files
        (record q' {
          finished_tasks = unlink (q'.task tp).taskid q'.finished_tasks;
          complete_list = tp ∷ q'.complete_list;
        })
        wp tp

-- `remove_worker`; its memory is freed, and no table or list leads to it
unfoldable pub remove_worker : (Pointer → ℕ) → Queue → Pointer → Queue
unfolding without
remove_worker now q wp =
    let q' =
      cleanup_worker now (record q { total_workers_removed = q.total_workers_removed + 1 }) wp in
    record q' {
      worker_table = without wp q'.worker_table;
      workers_with_available_results = without wp q'.workers_with_available_results;
    }

unfoldable pub handle_worker_failure : (Pointer → ℕ) → Queue → Pointer → Queue
handle_worker_failure now q wp = remove_worker now q wp

-- `fail_type < 0` is a failure of the application; nothing else than a failure is handled
unfoldable pub handle_failure :
    (File → Bytes) → (Pointer → ℕ) → Queue → Pointer → Pointer → Result → Queue
handle_failure make_cached_name now q wp tp app_failure =
    handle_app_failure make_cached_name q wp tp
handle_failure make_cached_name now q wp tp _ = handle_worker_failure now q wp
