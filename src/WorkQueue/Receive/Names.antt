-- ===== src/WorkQueue/Receive/Names.antt =====
-- A fetch leaves the number of every task as it is, however it ends.
use cyque.Prelude.{ℕ, ◌+◌, ◌≡◌, refl, ◌∙◌, inl, inr, some, [], ◌∷◌, ltb, Bool-cases, Bytes}
use cyque.Tables.Itable.{uint64_key}
use cyque.WorkQueue.Cleanup.{cleanup_task, cleanup_loop, forget_files, forget_tasks, cleanup_worker}
use cyque.WorkQueue.Cleanup.Emptied.{ready_again-Alike}
use cyque.WorkQueue.Failure.{
  Result, success, worker_failure, app_failure, delete_worker_files, delete_task_output_files,
  handle_app_failure, remove_worker, handle_worker_failure, handle_failure,
  delete_uncacheable_files,
}
use cyque.WorkQueue.Failure.Sound.{delete_uncacheable_files-Untouched}
use cyque.WorkQueue.Master.{Pointer, Entries, Queue, write, reap_task_from_worker}
use cyque.WorkQueue.Places.Frame.{write-Alike}
use cyque.WorkQueue.Receive.{
  count_task, add_task_report, complete_task, Fetching, finish_fetch, fetch_found,
}
use cyque.WorkQueue.Task.{File}
use cyque.WorkQueue.Transfer.{get_output_files}
use cyque.WorkQueue.Transfer.Books.{get_output_files-Untouched}

-- the tasks keep their numbers
abbrev pub SameNames : Queue → Queue → Type 0
SameNames q q' = (r : Pointer) → (q'.task r).taskid ≡ (q.task r).taskid

module _ (now : Pointer → ℕ) where
  cleanup_loop-SameNames :
      (es : Entries) (q : Queue) (wp : Pointer) → SameNames q (cleanup_loop now q wp es)
  unfolding cleanup_loop cleanup_task reap_task_from_worker
  cleanup_loop-SameNames [] q wp r = refl
  cleanup_loop-SameNames (e ∷ es) q wp r =
      cleanup_loop-SameNames es (cleanup_task now q wp e.1) wp r
      ∙ (ready_again-Alike now q e.1).names r

  remove_worker-SameNames : (q : Queue) (wp : Pointer) → SameNames q (remove_worker now q wp)
  unfolding remove_worker cleanup_worker forget_files forget_tasks
  remove_worker-SameNames q wp r =
      cleanup_loop-SameNames _
        (forget_files (record q { total_workers_removed = q.total_workers_removed + 1 }) wp) wp r

module _ (make_cached_name : File → Bytes) where
  handle_app_failure-SameNames :
      (q : Queue) (wp p : Pointer) → SameNames q (handle_app_failure make_cached_name q wp p)
  unfolding handle_app_failure delete_task_output_files delete_worker_files reap_task_from_worker
  handle_app_failure-SameNames q wp p r =
      elim (Bool-cases (ltb 0 (q.task p).time_execute_cmd_start)) [
        | inl e ↦ rw e refl
        | inr e ↦ rw e refl
      ]

  complete_task-SameNames :
      (done : ℕ) (q : Queue) (wp p : Pointer) → SameNames q (complete_task done q wp p)
  unfolding complete_task reap_task_from_worker
  complete_task-SameNames done q wp p r =
      (write-Alike q.task p (record (q.task p) { time_task_finish = done })
          (record {
            taskid = refl;
            unlabeled = refl;
            cores = refl;
            memory = refl;
            disk = refl;
            gpus = refl;
          })).names
        r

  finish_fetch-SameNames :
      (x : Fetching) (result : Result) (q : Queue) (wp p : Pointer)
      → SameNames q (finish_fetch make_cached_name x result q wp p)
  unfolding finish_fetch handle_failure handle_worker_failure count_task add_task_report
  finish_fetch-SameNames x success q wp p r =
      let received = record q {
        task = write q.task p (record (q.task p) { time_receive_output_finish = x.finish });
      } in
      complete_task-SameNames x.done (delete_uncacheable_files make_cached_name received wp p) wp p
        r
      ∙ (delete_uncacheable_files-Untouched make_cached_name received wp p).alike.names r
      ∙ (write-Alike q.task p (record (q.task p) { time_receive_output_finish = x.finish })
            (record {
              taskid = refl;
              unlabeled = refl;
              cores = refl;
              memory = refl;
              disk = refl;
              gpus = refl;
            })).names
          r
  finish_fetch-SameNames x app_failure q wp p r = handle_app_failure-SameNames q wp p r
  finish_fetch-SameNames x worker_failure q wp p r = remove_worker-SameNames x.handled q wp r

  pub fetch_found-SameNames :
      (x : Fetching) (q : Queue) (wp p : Pointer)
      → SameNames q (fetch_found make_cached_name x q wp (some p))
  unfolding fetch_found
  fetch_found-SameNames x q wp p r =
      let stamped = record q {
        task = write q.task p (record (q.task p) { time_receive_output_start = x.start });
      } in
      let got =
        get_output_files make_cached_name x.transfer 0 (q.task p).output_files success stamped wp
          p in
      finish_fetch-SameNames x got.0 got.1 wp p r
      ∙ (get_output_files-Untouched make_cached_name x.transfer 0 (q.task p).output_files success
            stamped wp p).alike.names
          r
      ∙ (write-Alike q.task p (record (q.task p) { time_receive_output_start = x.start })
            (record {
              taskid = refl;
              unlabeled = refl;
              cores = refl;
              memory = refl;
              disk = refl;
              gpus = refl;
            })).names
          r
