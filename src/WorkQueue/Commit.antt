-- ===== src/WorkQueue/Commit.antt =====
-- Committing a task to a worker and reaping it, on the whole queue.
use cyque.Prelude.{
  ℕ, ◌≡◌, refl, sym, ap, ◌∙◌, true, none, some, arith, ◌==◌, ==_iff, Bool-cases, inl, inr,
}
use cyque.Tables.Chain.{find, unlink}
use cyque.Tables.Itable.{uint64_key}
use cyque.WorkQueue.Accounting.{
  Kind, slots, need, IsAccounted, Alike, Alike-IsAccounted, allocate-IsAccounted,
  deallocate-IsAccounted,
}
use cyque.WorkQueue.Master.{
  Pointer, Worker, Queue, write, deallocate, commit_task_to_worker, reap_task_from_worker,
}
use cyque.WorkQueue.Task.{Task}

-- Every worker of the queue is accounted for.
abbrev pub AllAccounted : Queue → Type 0
AllAccounted q = (wp : Pointer) → IsAccounted q.task (q.worker wp)

pub write-IsAccounted :
    {task : Pointer → Task} (worker : Pointer → Worker) (wp : Pointer) (w : Worker)
    → ((x : Pointer) → IsAccounted task (worker x))
    → IsAccounted task w
    → (x : Pointer) → IsAccounted task (write worker wp w x)
write-IsAccounted worker wp w all here x = elim (Bool-cases (x == wp)) [
  | inl e ↦ rw e here
  | inr e ↦ rw e (all x)
]

need-stamped :
    (k : Kind) (t : Task) (now n : ℕ)
    → need k (record t { time_committed = now; total_submissions = n }) ≡ need k t
need-stamped slots t now n = refl
need-stamped _ t now n = refl

pub need-write :
    (k : Kind) (task : Pointer → Task) (tp p : Pointer) (t : Task)
    → need k t ≡ need k (task tp)
    → need k (write task tp t p) ≡ need k (task p)
need-write k task tp p t same = elim (Bool-cases (p == tp)) [
  | inl e ↦ rw e (same ∙ ap (λ x. need k (task x)) (sym ((==_iff p tp).0 e)))
  | inr e ↦ rw e
]

pub commit_Alike :
    (now : ℕ) (q : Queue) (wp tp : Pointer) → Alike q.task (commit_task_to_worker now q wp tp).task
unfolding commit_task_to_worker
commit_Alike now q wp tp = record {
  needs = λ k p. need-write k q.task tp p _ (need-stamped k (q.task tp) now _);
  names = λ p. ground (arith, ==_iff p tp);
}

-- If every worker of a queue is accounted for (what it has allocated is the sum of the needs of the
-- tasks in its table) and a task is committed to a worker that has no task under its number, then
-- every worker is accounted for behind it.
pub commit_task_to_worker-AllAccounted :
    (now : ℕ) (q : Queue) (wp tp : Pointer)
    → AllAccounted q
    → find (q.task tp).taskid (q.worker wp).current_tasks ≡ none
    → AllAccounted (commit_task_to_worker now q wp tp)
unfolding commit_task_to_worker
commit_task_to_worker-AllAccounted now q wp tp all absent x =
    Alike-IsAccounted (commit_Alike now q wp tp)
      (write-IsAccounted q.worker wp _ all (allocate-IsAccounted tp (all wp) absent) x)

-- If every worker of a queue is accounted for and a task is reaped from the worker that has it, then
-- every worker is accounted for behind it, and the branch for an accounting error is not taken: that
-- worker is what the subtractions leave, with nothing reset.
pub reap_task_from_worker-AllAccounted :
    (q : Queue) (wp tp : Pointer)
    → AllAccounted q
    → find (q.task tp).taskid (q.worker wp).current_tasks ≡ some tp
    → AllAccounted (reap_task_from_worker q wp tp)
      × ((reap_task_from_worker q wp tp).worker wp
          ≡ deallocate (q.task tp) (record (q.worker wp) {
            current_tasks = unlink (q.task tp).taskid (q.worker wp).current_tasks;
          }))
unfolding reap_task_from_worker
reap_task_from_worker-AllAccounted q wp tp all there =
    let (same, acc) = deallocate-IsAccounted tp (all wp) there in
    let self : (wp == wp) ≡ true = ground arith in
    (λ x. write-IsAccounted q.worker wp _ all acc x, rw self same)
