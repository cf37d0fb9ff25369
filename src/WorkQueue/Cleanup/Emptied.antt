-- ===== src/WorkQueue/Cleanup/Emptied.antt =====
-- What `cleanup_worker` leaves: a worker with nothing, and its tasks on the ready list.
use mathlib.Core.Path.{subst}
use cyque.Prelude.{
  ℕ, ◌≡◌, ◌≢◌, refl, sym, ap, ◌∙◌, true, some, List, [], ◌∷◌, arith, ◌==◌, ==_iff, Bool-cases, inl,
  inr, All,
}
use cyque.Prelude.Int.{pos}
use cyque.Tables.Chain.{find, unlink}
use cyque.Tables.Itable.{uint64_key}
use cyque.WorkQueue.Accounting.{
  Kind, slots, of_cores, of_memory, of_disk, of_gpus, need, needed, allocated, IsAccounted, Alike,
  Alike-IsAccounted, current_tasks-deallocate,
}
use cyque.WorkQueue.Cleanup.{
  reset_task, ready_again, cleanup_task, cleanup_loop, forget_files, forget_tasks, cleanup_worker,
}
use cyque.WorkQueue.Commit.{
  AllAccounted, need-write, write-IsAccounted, reap_task_from_worker-AllAccounted,
}
use cyque.WorkQueue.Master.{Pointer, Entries, Worker, Queue, write, reap_task_from_worker}
use cyque.WorkQueue.Task.{Task}

need-reset_task : (k : Kind) (now : ℕ) (t : Task) → need k (reset_task now t) ≡ need k t
unfolding reset_task
need-reset_task slots now t = refl
need-reset_task of_cores now t = ground arith
need-reset_task of_memory now t = ground arith
need-reset_task of_disk now t = ground arith
need-reset_task of_gpus now t = ground arith

taskid-reset_task : (now : ℕ) (t : Task) → (reset_task now t).taskid ≡ t.taskid
unfolding reset_task
taskid-reset_task now t = refl

pub taskid-write :
    (task : Pointer → Task) (tp p : Pointer) (t : Task)
    → t.taskid ≡ (task tp).taskid
    → (write task tp t p).taskid ≡ (task p).taskid
taskid-write task tp p t same = elim (Bool-cases (p == tp)) [
  | inl e ↦ rw e (same ∙ ap (λ x. (task x).taskid) (sym ((==_iff p tp).0 e)))
  | inr e ↦ rw e refl
]

write_other : {A : Type 0} (f : Pointer → A) (p x : Pointer) (a : A) → x ≢ p → write f p a x ≡ f x
write_other f p x a ne = elim (Bool-cases (x == p)) [
  | inl e ↦ absurd (ne ((==_iff x p).0 e))
  | inr e ↦ rw e refl
]

pub write_self : {A : Type 0} (f : Pointer → A) (p : Pointer) (a : A) → write f p a p ≡ a
write_self f p a = let same : (p == p) ≡ true = (==_iff p p).1 refl in rw same refl

reap_others :
    (q : Queue) (wp tp x : Pointer) → x ≢ wp → (reap_task_from_worker q wp tp).worker x ≡ q.worker x
unfolding reap_task_from_worker
reap_others q wp tp x ne = write_other q.worker wp x _ ne

reap_ready :
    (q : Queue) (wp tp : Pointer) → (reap_task_from_worker q wp tp).ready_list ≡ q.ready_list
unfolding reap_task_from_worker
reap_ready q wp tp = refl

pub find_first : (m es : Entries) (k p : Pointer) → m ≡ (k, p) ∷ es → find k m ≡ some p
unfolding find
find_first m es k p e = let same = (==_iff k k).1 refl in rw (e, same) refl

unlink_first : (m es : Entries) (k p : Pointer) → m ≡ (k, p) ∷ es → unlink k m ≡ es
unfolding unlink
unlink_first m es k p e = let same = (==_iff k k).1 refl in rw (e, same) refl

named_first :
    (task : Pointer → Task) (m es : Entries) (k p : Pointer)
    → m ≡ (k, p) ∷ es
    → All (λ e. (task e.1).taskid ≡ e.0) m
    → (task p).taskid ≡ k
named_first task m es k p e h = (subst (All (λ e. (task e.1).taskid ≡ e.0)) e h).0

module _ (now : Pointer → ℕ) where
  pub ready_again-Alike : (q : Queue) (p : Pointer) → Alike q.task (ready_again now q p).task
  unfolding ready_again
  ready_again-Alike q p = record {
    needs = λ k x. need-write k q.task p x _ (need-reset_task k (now p) (q.task p));
    names = λ x. taskid-write q.task p x _ (taskid-reset_task (now p) (q.task p));
  }

  ready_again-AllAccounted :
      (q : Queue) (p : Pointer) → AllAccounted q → AllAccounted (ready_again now q p)
  unfolding ready_again
  ready_again-AllAccounted q p all x = Alike-IsAccounted (ready_again-Alike q p) (all x)

  ready_again_frame :
      (q : Queue) (p : Pointer)
      → ((x : Pointer) → (ready_again now q p).worker x ≡ q.worker x)
        × ((ready_again now q p).ready_list ≡ p ∷ q.ready_list)
  unfolding ready_again
  ready_again_frame q p = (λ x. refl, refl)

  -- one task is handled, which the worker holds first
  pub cleanup_task-AllAccounted :
      (q : Queue) (wp id p : Pointer) (es : Entries)
      → AllAccounted q
      → (q.worker wp).current_tasks ≡ (id, p) ∷ es
      → AllAccounted (cleanup_task now q wp p)
        × (((cleanup_task now q wp p).worker wp).current_tasks ≡ es)
        × ((cleanup_task now q wp p).ready_list ≡ p ∷ q.ready_list)
        × ((x : Pointer) → x ≢ wp → (cleanup_task now q wp p).worker x ≡ q.worker x)
  unfolding cleanup_task
  cleanup_task-AllAccounted q wp id p es all held =
      let a = ready_again now q p in
      let accounted = ready_again-AllAccounted q p all in
      let (workers, ready) = ready_again_frame q p in
      let current = ap (λ w. w.current_tasks) (workers wp) ∙ held in
      let m = (a.worker wp).current_tasks in
      let number = named_first a.task m es id p current (accounted wp).named in
      let found = ap (λ k. find k m) number ∙ find_first m es id p current in
      let (all', run) = reap_task_from_worker-AllAccounted a wp p accounted found in
      (
        all',
        ap (λ w. w.current_tasks) run
            ∙ current_tasks-deallocate (a.task p) _
            ∙ ap (λ k. unlink k m) number
            ∙ unlink_first m es id p current,
        reap_ready a wp p ∙ ready,
        λ x ne. reap_others a wp p x ne ∙ workers x,
      )

  -- the tasks of a table, each pushed on the head of a list
  abbrev pub pushed : Entries → List Pointer → List Pointer
  pushed [] l = l
  pushed (e ∷ es) l = pushed es (e.1 ∷ l)

  cleanup_loop-AllAccounted :
      (es : Entries) (q : Queue) (wp : Pointer)
      → AllAccounted q
      → (q.worker wp).current_tasks ≡ es
      → AllAccounted (cleanup_loop now q wp es)
        × (((cleanup_loop now q wp es).worker wp).current_tasks ≡ [])
        × ((cleanup_loop now q wp es).ready_list ≡ pushed es q.ready_list)
        × ((x : Pointer) → x ≢ wp → (cleanup_loop now q wp es).worker x ≡ q.worker x)
  unfolding cleanup_loop
  cleanup_loop-AllAccounted [] q wp all held = (all, held, refl, λ x ne. refl)
  cleanup_loop-AllAccounted (e ∷ es) q wp all held =
      let (all', held', ready', others') = cleanup_task-AllAccounted q wp e.0 e.1 es all held in
      let (all'', held'', ready'', others'') =
        cleanup_loop-AllAccounted es (cleanup_task now q wp e.1) wp all' held' in
      (all'', held'', ready'' ∙ ap (pushed es) ready', λ x ne. others'' x ne ∙ others' x ne)

  files_IsAccounted :
      {task : Pointer → Task} {w : Worker}
      → IsAccounted task w
      → IsAccounted task (record w { current_files = [] })
  files_IsAccounted {task} {w} acc = record {
    sums = sums;
    distinct = acc.distinct;
    named = acc.named;
  }
    where
      sums :
          (k : Kind)
          → allocated k (record w { current_files = [] }) ≡ pos (needed k task w.current_tasks)
      sums slots = acc.sums slots
      sums of_cores = acc.sums of_cores
      sums of_memory = acc.sums of_memory
      sums of_disk = acc.sums of_disk
      sums of_gpus = acc.sums of_gpus

  -- a worker without tasks has nothing allocated
  pub nothing_allocated :
      {task : Pointer → Task} {w : Worker}
      → IsAccounted task w
      → w.current_tasks ≡ []
      → (k : Kind) → allocated k w ≡ pos 0
  unfolding needed
  nothing_allocated {task} {w} acc empty k = acc.sums k ∙ ap (λ m. pos (needed k task m)) empty

  emptied_IsAccounted :
      {task : Pointer → Task} {w : Worker}
      → IsAccounted task w
      → w.current_tasks ≡ []
      → IsAccounted task (record w { current_tasks = []; finished_tasks = pos 0 })
        × ((k : Kind)
            → allocated k (record w { current_tasks = []; finished_tasks = pos 0 }) ≡ pos 0)
  unfolding needed
  emptied_IsAccounted {task} {w} acc empty =
      (record { sums = λ k. by_kind k; distinct = tt; named = tt }, by_kind)
    where
      by_kind :
          (k : Kind) → allocated k (record w { current_tasks = []; finished_tasks = pos 0 }) ≡ pos 0
      by_kind slots = nothing_allocated acc empty slots
      by_kind of_cores = nothing_allocated acc empty of_cores
      by_kind of_memory = nothing_allocated acc empty of_memory
      by_kind of_disk = nothing_allocated acc empty of_disk
      by_kind of_gpus = nothing_allocated acc empty of_gpus

  -- If every worker of a queue is accounted for and a worker is cleaned up, then every worker is
  -- accounted for behind it; that worker holds no task, and nothing of any kind is allocated on it;
  -- the tasks it held are at the head of the ready list, the last of its table first, before what was
  -- there; and no other worker changes.
  pub cleanup_worker-AllAccounted :
      (q : Queue) (wp : Pointer)
      → AllAccounted q
      → let q' = cleanup_worker now q wp in
        AllAccounted q'
        × ((q'.worker wp).current_tasks ≡ [])
        × ((k : Kind) → allocated k (q'.worker wp) ≡ pos 0)
        × (q'.ready_list ≡ pushed (q.worker wp).current_tasks q.ready_list)
        × ((x : Pointer) → x ≢ wp → q'.worker x ≡ q.worker x)
  unfolding cleanup_worker forget_files forget_tasks
  cleanup_worker-AllAccounted q wp all =
      let f = forget_files q wp in
      let known = write-IsAccounted q.worker wp _ all (files_IsAccounted (all wp)) in
      let tasks = ap (λ w. w.current_tasks) (write_self q.worker wp _) in
      let c = cleanup_loop now f wp (f.worker wp).current_tasks in
      let (all', held', ready', others') =
        cleanup_loop-AllAccounted (f.worker wp).current_tasks f wp known refl in
      let (acc, nothing) = emptied_IsAccounted (all' wp) held' in
      let self = write_self c.worker wp _ in
      (
        write-IsAccounted c.worker wp _ all' acc,
        ap (λ w. w.current_tasks) self,
        λ k. ap (allocated k) self ∙ nothing k,
        ready' ∙ ap (λ m. pushed m q.ready_list) tasks,
        λ x ne. write_other c.worker wp x _ ne ∙ others' x ne ∙ write_other q.worker wp x _ ne,
      )
