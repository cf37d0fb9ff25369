-- ===== src/WorkQueue/Receive/Fetched.antt =====
-- `fetch_output_from_worker` keeps a queue sound, however the transfer ends.
use cyque.Prelude.{ℕ, ◌≡◌, refl, Option, some, none, ◌∷◌, Bytes}
use cyque.Tables.Chain.{find, unlink}
use cyque.Tables.Itable.{uint64_key}
use cyque.WorkQueue.Failure.{Result, success, worker_failure, app_failure, handle_worker_failure}
use cyque.WorkQueue.Failure.Places.{count-cons, count_absent}
use cyque.WorkQueue.Failure.Removal.{
  evicted, settled, handle_failure-IsSound, remove_worker-IsSound,
}
use cyque.WorkQueue.Failure.Sound.{released-IsSound, off_lists, delete_uncacheable_files-Untouched}
use cyque.WorkQueue.Master.{Pointer, Queue, write, reap_task_from_worker}
use cyque.WorkQueue.Places.{Places, complete, worker_of, put}
use cyque.WorkQueue.Places.Frame.{Alike-refl, write-SameBooks, SameBooks-of, Untouched-of}
use cyque.WorkQueue.Places.Sound.{
  IsSound, SameBooks-refl, Untouched, Untouched-trans, Untouched-IsSound,
}
use cyque.WorkQueue.Receive.{
  count_task, add_task_report, complete_task, Fetching, finish_fetch, fetch_output_from_worker,
  fetch_found,
}
use cyque.WorkQueue.Receive.Sound.{entry_at}
use cyque.WorkQueue.Task.{File}
use cyque.WorkQueue.Transfer.{get_output_files}
use cyque.WorkQueue.Transfer.Books.{both_written, one_task_written, get_output_files-Untouched}

complete_task-IsSound :
    (done : ℕ) {q : Queue} {s : Places} (p wp : Pointer)
    → IsSound q s
    → worker_of (s p) ≡ some wp
    → IsSound (complete_task done q wp p) (put s p complete)
unfolding complete_task reap_task_from_worker
complete_task-IsSound done {q} {s} p wp sound at =
    let q' = reap_task_from_worker q wp p in
    let base = record q' {
      finished_tasks = unlink (q'.task p).taskid q'.finished_tasks;
      ready_list = q.ready_list;
      complete_list = p ∷ q.complete_list;
    } in
    let (r, c) = off_lists p wp sound at in
    Untouched-IsSound
      (both_written base (complete_task done q wp p) wp p _ _
        (record {
          taskid = refl;
          unlabeled = refl;
          cores = refl;
          memory = refl;
          disk = refl;
          gpus = refl;
        })
        (record {
          unlabeled = refl;
          cores = refl;
          memory = refl;
          disk = refl;
          gpus = refl;
          current = refl;
        })
        (refl, refl) (refl, refl, refl, refl, refl, refl))
      (released-IsSound p wp complete q.ready_list (p ∷ q.complete_list) sound at refl
        (λ x. count_absent p x q.ready_list r) (λ x. count-cons p x q.complete_list c))

add_task_report-Untouched : (q : Queue) (p : Pointer) → Untouched q (add_task_report q p)
unfolding add_task_report
add_task_report-Untouched q p =
    Untouched-of q (Alike-refl q.task) (λ x. SameBooks-refl (q.worker x))
      (refl, refl, refl, refl, refl, refl)

count_task-Untouched : (q : Queue) (wp p : Pointer) → Untouched q (count_task q wp p)
unfolding count_task
count_task-Untouched q wp p =
    Untouched-of q (Alike-refl q.task)
      (λ x.
        write-SameBooks q.worker wp _
          (SameBooks-of (record {
            unlabeled = refl;
            cores = refl;
            memory = refl;
            disk = refl;
            gpus = refl;
            current = refl;
          }))
          x)
      (refl, refl, refl, refl, refl, refl)

-- where the tasks are behind a fetch whose output files came in with the result `r`
abbrev pub delivered : Result → Pointer → Pointer → Places → Places
delivered success p wp s = put s p complete
delivered r p wp s = settled r p wp s

module _ (make_cached_name : File → Bytes) where
  finish_fetch-IsSound :
      (x : Fetching) (r : Result) {q : Queue} {s : Places} (p wp : Pointer)
      → IsSound q s
      → worker_of (s p) ≡ some wp
      → IsSound (finish_fetch make_cached_name x r q wp p) (delivered r p wp s)
  unfolding finish_fetch
  finish_fetch-IsSound x success {q} p wp sound at =
      let received = record q {
        task = write q.task p (record (q.task p) { time_receive_output_finish = x.finish });
      } in
      let touched =
        Untouched-trans
          (one_task_written q received p _
            (record {
              taskid = refl;
              unlabeled = refl;
              cores = refl;
              memory = refl;
              disk = refl;
              gpus = refl;
            })
            (refl, refl) (refl, refl, refl, refl, refl, refl))
          (delete_uncacheable_files-Untouched make_cached_name received wp p) in
      Untouched-IsSound
        (Untouched-trans (add_task_report-Untouched _ p) (count_task-Untouched _ wp p))
        (complete_task-IsSound x.done p wp (Untouched-IsSound touched sound) at)
  finish_fetch-IsSound x app_failure p wp sound at =
      handle_failure-IsSound make_cached_name x.handled p wp app_failure sound at
  finish_fetch-IsSound x worker_failure p wp sound at =
      handle_failure-IsSound make_cached_name x.handled p wp worker_failure sound at

  -- the result of the last output file that was asked for
  unfoldable pub received : Fetching → Queue → Pointer → Pointer → Result
  received x q wp p =
      (get_output_files make_cached_name x.transfer 0 (q.task p).output_files success
        (record q {
          task = write q.task p (record (q.task p) { time_receive_output_start = x.start });
        })
        wp p).0

  -- where the tasks are behind a fetch for a number
  abbrev pub fetched_at : Fetching → Queue → Pointer → Option Pointer → Places → Places
  fetched_at x q wp none s = evicted wp s
  fetched_at x q wp (some p) s = delivered (received x q wp p) p wp s

  abbrev pub fetched : Fetching → Queue → Pointer → ℕ → Places → Places
  fetched x q wp taskid s = fetched_at x q wp (find taskid (q.worker wp).current_tasks) s

  -- If every task of a queue is in its place and every worker accounted for, and the output of a task is
  -- fetched from a worker, then the same holds behind it, whatever the link does. The task is complete if
  -- its files came in or one of them failed; every task of the worker is ready again if the worker failed
  -- or does not have the task; every other task is where it was.
  pub fetch_output_from_worker-IsSound :
      (x : Fetching) {q : Queue} {s : Places} (wp taskid : ℕ)
      → IsSound q s
      → IsSound (fetch_output_from_worker make_cached_name x q wp taskid) (fetched x q wp taskid s)
  unfolding fetch_output_from_worker fetch_found received handle_worker_failure
  fetch_output_from_worker-IsSound x {q} {s} wp taskid sound =
      by_entry (find taskid (q.worker wp).current_tasks) refl
    where
      by_entry :
          (o : Option Pointer)
          → find taskid (q.worker wp).current_tasks ≡ o
          → IsSound (fetch_found make_cached_name x q wp o) (fetched_at x q wp o s)
      by_entry none e = remove_worker-IsSound x.handled wp sound
      by_entry (some p) e =
          let at = (entry_at taskid p wp sound e).1 in
          let stamped = record q {
            task = write q.task p (record (q.task p) { time_receive_output_start = x.start });
          } in
          let touched =
            Untouched-trans
              (one_task_written q stamped p _
                (record {
                  taskid = refl;
                  unlabeled = refl;
                  cores = refl;
                  memory = refl;
                  disk = refl;
                  gpus = refl;
                })
                (refl, refl) (refl, refl, refl, refl, refl, refl))
              (get_output_files-Untouched make_cached_name x.transfer 0 (q.task p).output_files
                success stamped wp p) in
          finish_fetch-IsSound x (received x q wp p) p wp (Untouched-IsSound touched sound) at
