-- ===== src/WorkQueue/Admit.antt =====
-- What `check_worker_against_task` guarantees: a worker is never given more than it offers, and
-- unlabeled tasks share a worker with no others.
use cyque.Prelude.{
  ℕ, ◌≡◌, ◌⊎◌, inl, inr, Bool, true, false, arith, if◌then◌else◌, Bool-cases, not, ◌&&◌, ◌||◌,
}
use cyque.Prelude.Int.{ℤ, pos, ◌≤ℤ◌, ◌+ℤ◌, max_ℤ}
use cyque.WorkQueue.Accounting.{
  Kind, slots, of_cores, of_memory, of_disk, of_gpus, allocated, IsAccounted,
}
use cyque.WorkQueue.Master.{
  Pointer, Worker, Queue, allocate, overcommitted_resource_total, check_worker_against_task,
  exceeds,
}
use cyque.WorkQueue.Task.{Task}

-- What the master lets a worker take of each kind.
abbrev pub limit : Kind → Queue → Worker → ℤ
limit slots q w = overcommitted_resource_total q w.resources.workers.total true
limit of_cores q w = overcommitted_resource_total q w.resources.cores.total true
limit of_memory q w = overcommitted_resource_total q w.resources.memory.total false
limit of_disk q w = w.resources.disk.total
limit of_gpus q w = overcommitted_resource_total q w.resources.gpus.total false

-- The kinds that a task is charged for.
abbrev pub IsCharged : Kind → Task → Type 0
IsCharged slots t = t.unlabeled ≡ true
IsCharged of_cores t = t.unlabeled ≡ false
IsCharged of_memory t = t.unlabeled ≡ false
IsCharged of_disk t = t.unlabeled ≡ false
IsCharged of_gpus t = t.unlabeled ≡ false

all_pass :
    (a b c d e : Bool)
    → (if a
        then false
        else if b
        then false
        else if c
        then false
        else if d
        then false
        else if e
        then false
        else true)
      ≡ true
    → (a ≡ false) × (b ≡ false) × (c ≡ false) × (d ≡ false) × (e ≡ false)
all_pass a b c d e h = ground arith

none_pass :
    (a b c d f : Bool)
    → (not (a || b || c || d) && not f) ≡ true
    → (a ≡ false) × (b ≡ false) × (c ≡ false) × (d ≡ false) × (f ≡ false)
none_pass a b c d f h = ground arith

le_of_not_exceeds : (a b : ℤ) → exceeds a b ≡ false → a ≤ℤ b
le_of_not_exceeds a b h = ground arith

labeled_pass :
    (a a' b b' c c' d d' e e' : ℤ)
    → (if exceeds a a'
        then false
        else if exceeds b b'
        then false
        else if exceeds c c'
        then false
        else if exceeds d d'
        then false
        else if exceeds e e'
        then false
        else true)
      ≡ true
    → (a ≤ℤ a') × (b ≤ℤ b') × (c ≤ℤ c') × (d ≤ℤ d') × (e ≤ℤ e')
labeled_pass a a' b b' c c' d d' e e' h =
    let r = all_pass (exceeds a a') (exceeds b b') (exceeds c c') (exceeds d d') (exceeds e e') h in
    (
      le_of_not_exceeds a a' r.0,
      le_of_not_exceeds b b' r.1,
      le_of_not_exceeds c c' r.2,
      le_of_not_exceeds d d' r.3,
      le_of_not_exceeds e e' r.4,
    )

unlabeled_pass :
    (a b c d e e' : ℤ)
    → (not (exceeds a (pos 0) || exceeds b (pos 0) || exceeds c (pos 0) || exceeds d (pos 0))
        && not (exceeds e e'))
      ≡ true
    → (a ≤ℤ pos 0) × (b ≤ℤ pos 0) × (c ≤ℤ pos 0) × (d ≤ℤ pos 0) × (e ≤ℤ e')
unlabeled_pass a b c d e e' h =
    let r =
      none_pass (exceeds a (pos 0)) (exceeds b (pos 0)) (exceeds c (pos 0)) (exceeds d (pos 0))
        (exceeds e e') h in
    (
      le_of_not_exceeds a (pos 0) r.0,
      le_of_not_exceeds b (pos 0) r.1,
      le_of_not_exceeds c (pos 0) r.2,
      le_of_not_exceeds d (pos 0) r.3,
      le_of_not_exceeds e e' r.4,
    )

-- a count that is a number, and at most 0
zero_of : {a : ℤ} {n : ℕ} → a ≤ℤ pos 0 → a ≡ pos n → a ≡ pos 0
zero_of {a} {n} h e = ground arith

module _ (q : Queue) (w : Worker) (t : Task) (ok : check_worker_against_task q w t ≡ true) where
  -- what an accepted labeled task passes, in the order of the tests
  labeled_passes :
      t.unlabeled ≡ false
      → (w.unlabeled_allocated ≤ℤ pos 0)
        × (w.cores_allocated +ℤ max_ℤ t.cores (pos 0) ≤ℤ limit of_cores q w)
        × (w.memory_allocated +ℤ max_ℤ t.memory (pos 0) ≤ℤ limit of_memory q w)
        × (w.disk_allocated +ℤ max_ℤ t.disk (pos 0) ≤ℤ limit of_disk q w)
        × (w.gpus_allocated +ℤ max_ℤ t.gpus (pos 0) ≤ℤ limit of_gpus q w)
  unfolding check_worker_against_task
  labeled_passes e =
      labeled_pass w.unlabeled_allocated (pos 0) (w.cores_allocated +ℤ max_ℤ t.cores (pos 0))
        (limit of_cores q w) (w.memory_allocated +ℤ max_ℤ t.memory (pos 0)) (limit of_memory q w)
        (w.disk_allocated +ℤ max_ℤ t.disk (pos 0)) (limit of_disk q w)
        (w.gpus_allocated +ℤ max_ℤ t.gpus (pos 0)) (limit of_gpus q w) (rw e at ok)

  unlabeled_passes :
      t.unlabeled ≡ true
      → (w.cores_allocated ≤ℤ pos 0)
        × (w.memory_allocated ≤ℤ pos 0)
        × (w.disk_allocated ≤ℤ pos 0)
        × (w.gpus_allocated ≤ℤ pos 0)
        × (w.unlabeled_allocated +ℤ pos 1 ≤ℤ limit slots q w)
  unfolding check_worker_against_task
  unlabeled_passes e =
      unlabeled_pass w.cores_allocated w.memory_allocated w.disk_allocated w.gpus_allocated
        (w.unlabeled_allocated +ℤ pos 1) (limit slots q w) (rw e at ok)

  -- A worker that the check accepts for a task is within its limits when the task is added, in every
  -- kind of resource that the task is charged for: slots for an unlabeled task; cores, memory, disk
  -- and gpus for any other.
  pub check_worker_against_task-le :
      (k : Kind) → IsCharged k t → allocated k (allocate t w) ≤ℤ limit k q w
  unfolding allocate
  check_worker_against_task-le slots c = rw c (unlabeled_passes c).4
  check_worker_against_task-le of_cores c = rw c (labeled_passes c).1
  check_worker_against_task-le of_memory c = rw c (labeled_passes c).2
  check_worker_against_task-le of_disk c = rw c (labeled_passes c).3
  check_worker_against_task-le of_gpus c = rw c (labeled_passes c).4

  -- If a worker is accounted for and the check accepts it for a task, then with the task added either
  -- it has no slot taken by unlabeled tasks, or no cores, memory, disk or gpus taken by others.
  pub check_worker_against_task-unmixed :
      {task : Pointer → Task}
      → IsAccounted task w
      → let w' = allocate t w in
        (w'.unlabeled_allocated ≡ pos 0)
        ⊎ ((w'.cores_allocated ≡ pos 0)
            × (w'.memory_allocated ≡ pos 0)
            × (w'.disk_allocated ≡ pos 0)
            × (w'.gpus_allocated ≡ pos 0))
  unfolding allocate
  check_worker_against_task-unmixed acc = elim (Bool-cases t.unlabeled) [
    | inl e ↦ inr (
        let p = unlabeled_passes e in
        rw e (
          zero_of p.0 (acc.sums of_cores),
          zero_of p.1 (acc.sums of_memory),
          zero_of p.2 (acc.sums of_disk),
          zero_of p.3 (acc.sums of_gpus),
        ))
    | inr e ↦ inl (rw e (zero_of (labeled_passes e).0 (acc.sums slots)))
  ]
