-- ===== src/WorkQueue/Failure/Sound.antt =====
-- Failures keep a queue sound: the task of a failed application is complete, the tasks of a lost
-- worker are ready.
use cyque.Prelude.{
  ℕ, ◌≡◌, refl, ap, ◌∙◌, inl, inr, Bool, false, none, some, List, ◌∷◌, ◌==◌, ==_iff, ltb,
  if◌then◌else◌, Bool-cases, Bytes,
}
use cyque.Prelude.Int.{ℤ}
use cyque.Tables.Chain.{find, unlink}
use cyque.Tables.Itable.{uint64_key}
use cyque.WorkQueue.Accounting.{Kind, slots, of_cores, of_memory, of_disk, of_gpus, allocated}
use cyque.WorkQueue.Commit.{reap_task_from_worker-AllAccounted}
use cyque.WorkQueue.Failure.{
  delete_worker_files, delete_uncacheable_files, delete_task_output_files, handle_app_failure,
  no_flags, cache_or_preexist,
}
use cyque.WorkQueue.Failure.Places.{count-cons, count_absent, Releases-Represents, reap-Releases}
use cyque.WorkQueue.Master.{Pointer, Worker, Queue, reap_task_from_worker}
use cyque.WorkQueue.Places.{
  Place, Places, complete, worker_of, is_ready, is_complete, holds, put, count, number,
}
use cyque.WorkQueue.Places.Frame.{Alike-refl, write-SameBooks}
use cyque.WorkQueue.Places.Sound.{IsSound, SameBooks, Untouched, Untouched-trans, Untouched-IsSound}
use cyque.WorkQueue.Task.{File}

files-SameBooks :
    (w : Worker) (files : List (Bytes × ℤ)) → SameBooks w (record w { current_files = files })
files-SameBooks w files = record { sums = sums; current = refl }
  where
    sums : (k : Kind) → allocated k (record w { current_files = files }) ≡ allocated k w
    sums slots = refl
    sums of_cores = refl
    sums of_memory = refl
    sums of_disk = refl
    sums of_gpus = refl

-- a worker that has a task has a live one, neither ready nor complete
pub elsewhere :
    (x : Place) (wp : Pointer)
    → worker_of x ≡ some wp
    → (is_ready x ≡ false) × (is_complete x ≡ false)
elsewhere (Place.running w) wp h = (refl, refl)
elsewhere (Place.finished w) wp h = (refl, refl)
elsewhere _ wp h = absurd (cc)

-- a sound queue finds a task where it is
pub found_at :
    {q : Queue} {s : Places} (p wp : Pointer)
    → IsSound q s
    → worker_of (s p) ≡ some wp
    → find (q.task p).taskid (q.worker wp).current_tasks ≡ some p
found_at {s} p wp sound at =
    (sound.places.current_tracks wp).whole p
      (let same = (==_iff wp wp).1 refl in ap (λ o. holds o wp) at ∙ same)

module _ (make_cached_name : File → Bytes) where
  pub delete_worker_files-Untouched :
      (except : ℕ → Bool) (q : Queue) (wp : Pointer) (files : List File)
      → Untouched q (delete_worker_files make_cached_name except q wp files)
  unfolding delete_worker_files
  delete_worker_files-Untouched except q wp files = record {
    alike = Alike-refl q.task;
    books = λ x. write-SameBooks q.worker wp _ (files-SameBooks (q.worker wp) _) x;
    ready_list = refl;
    complete_list = refl;
    running_tasks = refl;
    finished_tasks = refl;
    worker_task_map = refl;
    next_taskid = refl;
  }

  pub delete_uncacheable_files-Untouched :
      (q : Queue) (wp tp : Pointer)
      → Untouched q (delete_uncacheable_files make_cached_name q wp tp)
  unfolding delete_uncacheable_files
  delete_uncacheable_files-Untouched q wp tp =
      Untouched-trans (delete_worker_files-Untouched cache_or_preexist q wp _)
        (delete_worker_files-Untouched cache_or_preexist _ wp _)

  pub delete_task_output_files-IsSound :
      (q : Queue) (wp tp : Pointer) (s : Places)
      → IsSound q s
      → IsSound (delete_task_output_files make_cached_name q wp tp) s
  unfolding delete_task_output_files
  delete_task_output_files-IsSound q wp tp s sound =
      elim (Bool-cases (ltb 0 (q.task tp).time_execute_cmd_start)) [
        | inl e ↦ rw e (Untouched-IsSound (delete_worker_files-Untouched no_flags q wp _) sound)
        | inr e ↦ rw e sound
      ]

-- A task that a worker has is reaped, leaves `finished_tasks`, and goes where the ready list and the
-- complete list put it.
pub released-IsSound :
    {q : Queue} {s : Places} (p wp : Pointer) (x : Place) (ready_list complete_list : List Pointer)
    → IsSound q s
    → worker_of (s p) ≡ some wp
    → worker_of x ≡ none
    → ((r : ℕ)
        → count r ready_list ≡ (if r == p then number (is_ready x) else count r q.ready_list))
    → ((r : ℕ)
        → count r complete_list
          ≡ (if r == p then number (is_complete x) else count r q.complete_list))
    → let q' = reap_task_from_worker q wp p in
      IsSound
        (record q' {
          finished_tasks = unlink (q'.task p).taskid q'.finished_tasks;
          ready_list = ready_list;
          complete_list = complete_list;
        })
        (put s p x)
released-IsSound {q} p wp x ready_list complete_list sound at idle on_ready on_complete = record {
  places =
      Releases-Represents p wp x sound.places at idle
        (reap-Releases q wp p ready_list complete_list) on_ready on_complete;
  accounted =
      λ w. (reap_task_from_worker-AllAccounted q wp p sound.accounted (found_at p wp sound at)).0 w;
}

-- how often a task that a worker has is on the lists: not at all
pub off_lists :
    {q : Queue} {s : Places} (p wp : Pointer)
    → IsSound q s
    → worker_of (s p) ≡ some wp
    → (count p q.ready_list ≡ 0) × (count p q.complete_list ≡ 0)
off_lists {s} p wp sound at =
    let (r, c) = elsewhere (s p) wp at in
    (sound.places.ready_once p ∙ ap number r, sound.places.complete_once p ∙ ap number c)

pub handle_app_failure-IsSound :
    (make_cached_name : File → Bytes) {q : Queue} {s : Places} (p wp : Pointer)
    → IsSound q s
    → worker_of (s p) ≡ some wp
    → IsSound (handle_app_failure make_cached_name q wp p) (put s p complete)
unfolding handle_app_failure reap_task_from_worker
handle_app_failure-IsSound make_cached_name {q} {s} p wp sound at =
    let (r, c) = off_lists p wp sound at in
    let q' = reap_task_from_worker q wp p in
    delete_task_output_files-IsSound make_cached_name _ wp p (put s p complete) (
      released-IsSound p wp complete q.ready_list (p ∷ q.complete_list) sound at refl
        (λ x. count_absent p x q.ready_list r) (λ x. count-cons p x q.complete_list c))
