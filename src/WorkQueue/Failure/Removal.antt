-- ===== src/WorkQueue/Failure/Removal.antt =====
-- A worker is removed: `cleanup_worker` and `remove_worker` keep a queue sound.
use cyque.Prelude.{
  ℕ, ◌+◌, ◌≡◌, refl, sym, ap, ◌∙◌, ◌⊎◌, inl, inr, true, false, some, List, [], ◌∷◌, ◌==◌, ==_iff,
  if◌then◌else◌, Bool-cases, Bytes,
}
use cyque.Prelude.Int.{pos}
use cyque.Tables.Chain.{find}
use cyque.Tables.Itable.{uint64_key}
use cyque.WorkQueue.Accounting.{Kind, slots, of_cores, of_memory, of_disk, of_gpus, allocated}
use cyque.WorkQueue.Cleanup.{
  ready_again, cleanup_task, cleanup_loop, forget_files, forget_tasks, cleanup_worker,
}
use cyque.WorkQueue.Cleanup.Emptied.{ready_again-Alike, cleanup_task-AllAccounted, find_first}
use cyque.WorkQueue.Failure.{
  Result, success, worker_failure, app_failure, remove_worker, handle_failure,
  handle_worker_failure,
}
use cyque.WorkQueue.Transfer.{is_success}
use cyque.WorkQueue.Failure.Places.{count-cons, count_absent}
use cyque.WorkQueue.Places.Frame.{Alike-refl, write-SameBooks}
use cyque.WorkQueue.Failure.Sound.{released-IsSound, off_lists, handle_app_failure-IsSound}
use cyque.WorkQueue.Master.{Pointer, Entries, Worker, Queue, reap_task_from_worker}
use cyque.WorkQueue.Places.{Place, Places, ready, complete, worker_of, is_at, put}
use cyque.WorkQueue.Places.Sound.{
  IsSound, SameBooks, SameBooks-refl, Untouched, Untouched-IsSound, IsSound-ext,
}
use cyque.WorkQueue.Task.{File}

-- the tasks of a worker are ready, the others where they were
abbrev pub evicted : Pointer → Places → Places
evicted wp s p = if is_at wp (s p) then ready else s p

pub at_worker : (x : Place) (wp : Pointer) → is_at wp x ≡ true → worker_of x ≡ some wp
at_worker (Place.running w) wp h = ap some ((==_iff w wp).0 h)
at_worker (Place.finished w) wp h = ap some ((==_iff w wp).0 h)
at_worker _ wp h = absurd (cc)

same_but_current :
    (w : Worker)
    → w.current_tasks ≡ []
    → SameBooks w (record w { current_tasks = []; finished_tasks = pos 0 })
same_but_current w e = record { sums = sums; current = sym e }
  where
    sums :
        (k : Kind)
        → allocated k (record w { current_tasks = []; finished_tasks = pos 0 }) ≡ allocated k w
    sums slots = refl
    sums of_cores = refl
    sums of_memory = refl
    sums of_disk = refl
    sums of_gpus = refl

same_but_files : (w : Worker) → SameBooks w (record w { current_files = [] })
same_but_files w = record { sums = sums; current = refl }
  where
    sums : (k : Kind) → allocated k (record w { current_files = [] }) ≡ allocated k w
    sums slots = refl
    sums of_cores = refl
    sums of_memory = refl
    sums of_disk = refl
    sums of_gpus = refl

forget_files-Untouched : (q : Queue) (wp : Pointer) → Untouched q (forget_files q wp)
unfolding forget_files
forget_files-Untouched q wp = record {
  alike = Alike-refl q.task;
  books = λ x. write-SameBooks q.worker wp _ (same_but_files (q.worker wp)) x;
  ready_list = refl;
  complete_list = refl;
  running_tasks = refl;
  finished_tasks = refl;
  worker_task_map = refl;
  next_taskid = refl;
}

forget_tasks-Untouched :
    (q : Queue) (wp : Pointer) → (q.worker wp).current_tasks ≡ [] → Untouched q (forget_tasks q wp)
unfolding forget_tasks
forget_tasks-Untouched q wp e = record {
  alike = Alike-refl q.task;
  books = λ x. write-SameBooks q.worker wp _ (same_but_current (q.worker wp) e) x;
  ready_list = refl;
  complete_list = refl;
  running_tasks = refl;
  finished_tasks = refl;
  worker_task_map = refl;
  next_taskid = refl;
}

module _ (now : Pointer → ℕ) where
  cleanup_task-IsSound :
      {q : Queue} {s : Places} (p wp : Pointer)
      → IsSound q s
      → worker_of (s p) ≡ some wp
      → IsSound (cleanup_task now q wp p) (put s p ready)
  unfolding cleanup_task ready_again reap_task_from_worker
  cleanup_task-IsSound {q} {s} p wp sound at =
      let (r, c) = off_lists p wp sound at in
      let reset = record q { task = (ready_again now q p).task } in
      let touched : Untouched q reset = record {
        alike = ready_again-Alike now q p;
        books = λ x. SameBooks-refl (q.worker x);
        ready_list = refl;
        complete_list = refl;
        running_tasks = refl;
        finished_tasks = refl;
        worker_task_map = refl;
        next_taskid = refl;
      } in
      released-IsSound p wp ready (p ∷ q.ready_list) q.complete_list
        (Untouched-IsSound touched sound) at refl (λ x. count-cons p x q.ready_list r)
        (λ x. count_absent p x q.complete_list c)

  evicted-put :
      (s : Places) (p wp r : Pointer)
      → is_at wp (s p) ≡ true
      → evicted wp (put s p ready) r ≡ evicted wp s r
  evicted-put s p wp r h = elim (Bool-cases (r == p)) [
    | inl e ↦
        let there : is_at wp (s r) ≡ true = ap (λ x. is_at wp (s x)) ((==_iff r p).0 e) ∙ h in
        rw (e, there) refl
    | inr e ↦ rw e refl
  ]

  cleanup_loop-IsSound :
      (es : Entries) (q : Queue) {s : Places} (wp : Pointer)
      → IsSound q s
      → (q.worker wp).current_tasks ≡ es
      → IsSound (cleanup_loop now q wp es) (evicted wp s)
        × (((cleanup_loop now q wp es).worker wp).current_tasks ≡ [])
  unfolding cleanup_loop find
  cleanup_loop-IsSound [] q {s} wp sound held =
      (IsSound-ext (λ p. stays p (Bool-cases (is_at wp (s p)))) sound, held)
    where
      stays :
          (p : Pointer) → (is_at wp (s p) ≡ true) ⊎ (is_at wp (s p) ≡ false) → s p ≡ evicted wp s p
      stays p (inl e) =
          let found = (sound.places.current_tracks wp).whole p e in
          let none' = ap (find (q.task p).taskid) held in absurd (cc)
      stays p (inr e) = rw e refl
  cleanup_loop-IsSound ((id, p) ∷ es) q {s} wp sound held =
      let found = find_first (q.worker wp).current_tasks es id p held in
      let there = ((sound.places.current_tracks wp).sound id p found).1 in
      let (_, held', _, _) = cleanup_task-AllAccounted now q wp id p es sound.accounted held in
      let (sound', empty) =
        cleanup_loop-IsSound es (cleanup_task now q wp p) wp
          (cleanup_task-IsSound p wp sound (at_worker (s p) wp there)) held' in
      (IsSound-ext (λ r. evicted-put s p wp r there) sound', empty)

  pub cleanup_worker-IsSound :
      {q : Queue} {s : Places} (wp : Pointer)
      → IsSound q s
      → IsSound (cleanup_worker now q wp) (evicted wp s)
  unfolding cleanup_worker
  cleanup_worker-IsSound {q} wp sound =
      let f = forget_files q wp in
      let (sound', empty) =
        cleanup_loop-IsSound (f.worker wp).current_tasks f wp
          (Untouched-IsSound (forget_files-Untouched q wp) sound) refl in
      Untouched-IsSound (forget_tasks-Untouched _ wp empty) sound'

  -- If every task of a queue is in its place and every worker accounted for, and a worker is removed, then
  -- the same holds behind it: every task that was at that worker, running or finished, is ready again,
  -- once, and every other task is where it was.
  pub remove_worker-IsSound :
      {q : Queue} {s : Places} (wp : Pointer)
      → IsSound q s
      → IsSound (remove_worker now q wp) (evicted wp s)
  unfolding remove_worker
  remove_worker-IsSound {q} {s} wp sound =
      let counted = record q { total_workers_removed = q.total_workers_removed + 1 } in
      Untouched-IsSound removed
        (cleanup_worker-IsSound wp (Untouched-IsSound (touched counted) sound))
    where
      touched :
          (q' : Queue) → Untouched q (record q { total_workers_removed = q'.total_workers_removed })
      touched q' = record {
        alike = Alike-refl q.task;
        books = λ x. SameBooks-refl (q.worker x);
        ready_list = refl;
        complete_list = refl;
        running_tasks = refl;
        finished_tasks = refl;
        worker_task_map = refl;
        next_taskid = refl;
      }

      removed :
          {q' : Queue} {l m : List Pointer}
          → Untouched q' (record q' { worker_table = l; workers_with_available_results = m })
      removed {q'} = record {
        alike = Alike-refl q'.task;
        books = λ x. SameBooks-refl (q'.worker x);
        ready_list = refl;
        complete_list = refl;
        running_tasks = refl;
        finished_tasks = refl;
        worker_task_map = refl;
        next_taskid = refl;
      }

-- where the tasks are when a transfer for the task at `p` and the worker at `wp` is over
abbrev pub settled : Result → Pointer → Pointer → Places → Places
settled success p wp s = s
settled app_failure p wp s = put s p complete
settled worker_failure p wp s = evicted wp s

pub handle_failure-IsSound :
    (make_cached_name : File → Bytes) (now : Pointer → ℕ) {q : Queue} {s : Places} (p wp : Pointer)
    (r : Result)
    → IsSound q s
    → worker_of (s p) ≡ some wp
    → IsSound
        (if is_success r then q else handle_failure make_cached_name now q wp p r)
        (settled r p wp s)
unfolding handle_failure handle_worker_failure
handle_failure-IsSound make_cached_name now p wp success sound at = sound
handle_failure-IsSound make_cached_name now p wp app_failure sound at =
    handle_app_failure-IsSound make_cached_name p wp sound at
handle_failure-IsSound make_cached_name now p wp worker_failure sound at =
    remove_worker-IsSound now wp sound
