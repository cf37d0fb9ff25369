-- ===== src/WorkQueue/Places/Frame.antt =====
-- Writes to a task or a worker that change neither the number nor the needs of the task, nor the books
-- of the worker.
use cyque.Prelude.{◌≡◌, refl, sym, ap, ◌∙◌, inl, inr, ◌==◌, ==_iff, if◌then◌else◌, Bool-cases}
use cyque.Prelude.Int.{pos_part}
use cyque.Tables.Itable.{uint64_key}
use cyque.WorkQueue.Accounting.{
  Kind, slots, of_cores, of_memory, of_disk, of_gpus, need, allocated, Alike,
}
use cyque.WorkQueue.Commit.{need-write}
use cyque.WorkQueue.Cleanup.Emptied.{taskid-write}
use cyque.WorkQueue.Master.{Pointer, Worker, Queue, write}
use cyque.WorkQueue.Places.Sound.{SameBooks, SameBooks-refl, Untouched}
use cyque.WorkQueue.Task.{Task}

pub Alike-refl : (task : Pointer → Task) → Alike task task
Alike-refl task = record { needs = λ k p. refl; names = λ p. refl }

-- a worker is written with the same books
pub write-SameBooks :
    (worker : Pointer → Worker) (wp : Pointer) (w : Worker)
    → SameBooks (worker wp) w
    → (x : Pointer) → SameBooks (worker x) (write worker wp w x)
write-SameBooks worker wp w b x = elim (Bool-cases (x == wp)) [
  | inl e ↦
      let same : x ≡ wp = (==_iff x wp).0 e in
      rw e (record {
        sums = λ k. b.sums k ∙ ap (λ y. allocated k (worker y)) (sym same);
        current = b.current ∙ ap (λ y. (worker y).current_tasks) (sym same);
      })
  | inr e ↦ rw e (SameBooks-refl (worker x))
]

-- a task with the number and the resources of another
pub record SameNeeds (t t' : Task) : Type 0 where
  pub taskid : t'.taskid ≡ t.taskid
  pub unlabeled : t'.unlabeled ≡ t.unlabeled
  pub cores : t'.cores ≡ t.cores
  pub memory : t'.memory ≡ t.memory
  pub disk : t'.disk ≡ t.disk
  pub gpus : t'.gpus ≡ t.gpus

pub need-SameNeeds : (k : Kind) (t t' : Task) → SameNeeds t t' → need k t' ≡ need k t
need-SameNeeds slots t t' h = ap (λ b. if b then 1 else 0) h.unlabeled
need-SameNeeds of_cores t t' h =
    ap (λ b. if b then 0 else pos_part t'.cores) h.unlabeled
    ∙ ap (λ n. if t.unlabeled then 0 else pos_part n) h.cores
need-SameNeeds of_memory t t' h =
    ap (λ b. if b then 0 else pos_part t'.memory) h.unlabeled
    ∙ ap (λ n. if t.unlabeled then 0 else pos_part n) h.memory
need-SameNeeds of_disk t t' h =
    ap (λ b. if b then 0 else pos_part t'.disk) h.unlabeled
    ∙ ap (λ n. if t.unlabeled then 0 else pos_part n) h.disk
need-SameNeeds of_gpus t t' h =
    ap (λ b. if b then 0 else pos_part t'.gpus) h.unlabeled
    ∙ ap (λ n. if t.unlabeled then 0 else pos_part n) h.gpus

pub write-Alike :
    (task : Pointer → Task) (tp : Pointer) (t : Task)
    → SameNeeds (task tp) t
    → Alike task (write task tp t)
write-Alike task tp t h = record {
  needs = λ k p. need-write k task tp p t (need-SameNeeds k (task tp) t h);
  names = λ p. taskid-write task tp p t h.taskid;
}

-- a worker with the allocations and the tasks of another
pub record SameAllocations (w w' : Worker) : Type 0 where
  pub unlabeled : w'.unlabeled_allocated ≡ w.unlabeled_allocated
  pub cores : w'.cores_allocated ≡ w.cores_allocated
  pub memory : w'.memory_allocated ≡ w.memory_allocated
  pub disk : w'.disk_allocated ≡ w.disk_allocated
  pub gpus : w'.gpus_allocated ≡ w.gpus_allocated
  pub current : w'.current_tasks ≡ w.current_tasks

pub SameBooks-of : {w w' : Worker} → SameAllocations w w' → SameBooks w w'
SameBooks-of {w} {w'} h = record { sums = sums; current = h.current }
  where
    sums : (k : Kind) → allocated k w' ≡ allocated k w
    sums slots = h.unlabeled
    sums of_cores = h.cores
    sums of_memory = h.memory
    sums of_disk = h.disk
    sums of_gpus = h.gpus

-- a queue with other memories and other statistics
pub Untouched-of :
    (q : Queue) {q' : Queue}
    → Alike q.task q'.task
    → ((x : Pointer) → SameBooks (q.worker x) (q'.worker x))
    → (q'.ready_list ≡ q.ready_list)
      × (q'.complete_list ≡ q.complete_list)
      × (q'.running_tasks ≡ q.running_tasks)
      × (q'.finished_tasks ≡ q.finished_tasks)
      × (q'.worker_task_map ≡ q.worker_task_map)
      × (q'.next_taskid ≡ q.next_taskid)
    → Untouched q q'
Untouched-of q alike books (a, b, c, d, e, f) = record {
  alike = alike;
  books = books;
  ready_list = a;
  complete_list = b;
  running_tasks = c;
  finished_tasks = d;
  worker_task_map = e;
  next_taskid = f;
}

pub Untouched-refl : (q : Queue) → Untouched q q
Untouched-refl q =
    Untouched-of q (Alike-refl q.task) (λ x. SameBooks-refl (q.worker x))
      (refl, refl, refl, refl, refl, refl)
