-- ===== src/WorkQueue/Accounting.antt =====
-- The invariant of the master's accounting: what a worker has allocated is the sum of what the tasks
-- in its table need. `commit_task_to_worker` and `reap_task_from_worker` of work_queue.c keep it.
use mathlib.Core.Path.{subst}
use cyque.Prelude.{
  ◌∙◌, ℕ, ◌+◌, ◌-◌, ◌≤◌, ◌≡◌, refl, sym, ap, none, some, [], ◌∷◌, arith, if◌then◌else◌, All,
}
use cyque.Prelude.Int.{ℤ, pos, pos_part, ◌+ℤ◌, ◌-ℤ◌, max_ℤ, +ℤ-pos, -ℤ-pos, +ℤ-zero, -ℤ-zero}
use cyque.Tables.Chain.{find, unlink, Distinct, Distinct-unlink}
use cyque.Tables.Itable.{uint64_key}
use cyque.WorkQueue.Master.{
  Pointer, Entries, Worker, table_insert, allocate, deallocate, reset_negative, accounting_error,
}
use cyque.WorkQueue.Task.{Task}

-- What a running task needs of each kind: a slot of its own if it is unlabeled, else what it specifies.
pub data Kind : Type 0 where
  slots of_cores of_memory of_disk of_gpus : Kind

abbrev pub need : Kind → Task → ℕ
need slots t = if t.unlabeled then 1 else 0
need of_cores t = if t.unlabeled then 0 else pos_part t.cores
need of_memory t = if t.unlabeled then 0 else pos_part t.memory
need of_disk t = if t.unlabeled then 0 else pos_part t.disk
need of_gpus t = if t.unlabeled then 0 else pos_part t.gpus

abbrev pub allocated : Kind → Worker → ℤ
allocated slots w = w.unlabeled_allocated
allocated of_cores w = w.cores_allocated
allocated of_memory w = w.memory_allocated
allocated of_disk w = w.disk_allocated
allocated of_gpus w = w.gpus_allocated

-- the sum of the needs of the tasks in a table
unfoldable pub needed : Kind → (Pointer → Task) → Entries → ℕ
needed k task [] = 0
needed k task ((id, p) ∷ m) = need k (task p) + needed k task m

pub record IsAccounted (task : Pointer → Task) (w : Worker) : Type 0 where
  pub sums : (k : Kind) → allocated k w ≡ pos (needed k task w.current_tasks)
  pub distinct : Distinct w.current_tasks
  pub named : All (λ e. (task e.1).taskid ≡ e.0) w.current_tasks

needed-unlink :
    (k : Kind) (task : Pointer → Task) (id : ℕ) (p : Pointer) (m : Entries)
    → find id m ≡ some p
    → needed k task (unlink id m) + need k (task p) ≡ needed k task m
unfolding needed find unlink
needed-unlink k task id p [] h = ground arith
needed-unlink k task id p ((j, x) ∷ m) h = ground (arith, needed-unlink k task id p m)

named-unlink :
    (task : Pointer → Task) (id : ℕ) (m : Entries)
    → All (λ e. (task e.1).taskid ≡ e.0) m
    → All (λ e. (task e.1).taskid ≡ e.0) (unlink id m)
unfolding unlink
named-unlink task id [] h = tt
named-unlink task id ((j, x) ∷ m) h = ground (arith, named-unlink task id m)

max_zero : (n : ℤ) → max_ℤ n (pos 0) ≡ pos (pos_part n)
max_zero n = ground arith

allocated-allocate :
    (k : Kind) (t : Task) (w : Worker)
    → allocated k (allocate t w) ≡ allocated k w +ℤ pos (need k t)
unfolding allocate
allocated-allocate slots t w = ground (arith, +ℤ-zero w.unlabeled_allocated)
allocated-allocate of_cores t w = ground (arith, +ℤ-zero w.cores_allocated, max_zero t.cores)
allocated-allocate of_memory t w = ground (arith, +ℤ-zero w.memory_allocated, max_zero t.memory)
allocated-allocate of_disk t w = ground (arith, +ℤ-zero w.disk_allocated, max_zero t.disk)
allocated-allocate of_gpus t w = ground (arith, +ℤ-zero w.gpus_allocated, max_zero t.gpus)

allocated-deallocate :
    (k : Kind) (t : Task) (w : Worker)
    → allocated k (deallocate t w) ≡ allocated k w -ℤ pos (need k t)
unfolding deallocate
allocated-deallocate slots t w = ground (arith, -ℤ-zero w.unlabeled_allocated)
allocated-deallocate of_cores t w = ground (arith, -ℤ-zero w.cores_allocated, max_zero t.cores)
allocated-deallocate of_memory t w = ground (arith, -ℤ-zero w.memory_allocated, max_zero t.memory)
allocated-deallocate of_disk t w = ground (arith, -ℤ-zero w.disk_allocated, max_zero t.disk)
allocated-deallocate of_gpus t w = ground (arith, -ℤ-zero w.gpus_allocated, max_zero t.gpus)

pub current_tasks-allocate :
    (t : Task) (w : Worker) → (allocate t w).current_tasks ≡ w.current_tasks
unfolding allocate
current_tasks-allocate t w = ground arith

pub current_tasks-deallocate :
    (t : Task) (w : Worker) → (deallocate t w).current_tasks ≡ w.current_tasks
unfolding deallocate
current_tasks-deallocate t w = ground arith

-- Where every count is a number, nothing is reset.
reset_nothing :
    (w : Worker) → ((k : Kind) → (n : ℕ) × (allocated k w ≡ pos n)) → reset_negative w ≡ w
unfolding reset_negative accounting_error
reset_nothing w h = ground (arith, h slots, h of_cores, h of_memory, h of_disk, h of_gpus)

pub IsAccounted-of :
    {task : Pointer → Task} (w : Worker) {m : Entries}
    → w.current_tasks ≡ m
    → ((k : Kind) → allocated k w ≡ pos (needed k task m))
    → Distinct m
    → All (λ e. (task e.1).taskid ≡ e.0) m
    → IsAccounted task w
IsAccounted-of {task} w e sums d n = record {
  sums = λ k. sums k ∙ ap (λ x. pos (needed k task x)) (sym e);
  distinct = subst (λ x. Distinct x) (sym e) d;
  named = subst (λ (x : Entries). All (λ y. (task y.1).taskid ≡ y.0) x) (sym e) n;
}

allocated-current :
    (k : Kind) (w : Worker) (m : Entries)
    → allocated k (record w { current_tasks = m }) ≡ allocated k w
allocated-current slots w m = refl
allocated-current _ w m = refl

-- `p` enters the table under a number that the table does not hold
pub allocate-IsAccounted :
    {task : Pointer → Task} {w : Worker} (p : Pointer)
    → IsAccounted task w
    → find (task p).taskid w.current_tasks ≡ none
    → IsAccounted task (
        allocate
          (task p)
          (record w { current_tasks = table_insert (task p).taskid p w.current_tasks }))
unfolding table_insert needed
allocate-IsAccounted {task} {w} p acc absent =
    let t = task p in
    let m : Entries = (t.taskid, p) ∷ w.current_tasks in
    let w' = record w { current_tasks = table_insert t.taskid p w.current_tasks } in
    let e : table_insert t.taskid p w.current_tasks ≡ m = rw absent in
    IsAccounted-of (allocate t w') {m = m} (current_tasks-allocate t w' ∙ e)
      (λ k.
        allocated-allocate k t w'
        ∙ ap (λ n. n +ℤ pos (need k t)) (allocated-current k w _ ∙ acc.sums k)
        ∙ +ℤ-pos (needed k task w.current_tasks) (need k t)
        ∙ ap pos (omega arith))
      (absent, acc.distinct) (refl, acc.named)

deallocate_sums :
    (k : Kind) {task : Pointer → Task} {w : Worker} (p : Pointer)
    → IsAccounted task w
    → find (task p).taskid w.current_tasks ≡ some p
    → let m = unlink (task p).taskid w.current_tasks in
      allocated k (deallocate (task p) (record w { current_tasks = m })) ≡ pos (needed k task m)
deallocate_sums k {task} {w} p acc there =
    let t = task p in
    let m = unlink t.taskid w.current_tasks in
    let enough = needed-unlink k task t.taskid p w.current_tasks there in
    let less : need k t ≤ needed k task w.current_tasks = omega arith in
    let rest : needed k task w.current_tasks - need k t ≡ needed k task m = omega arith in
    allocated-deallocate k t (record w { current_tasks = m })
    ∙ ap (λ n. n -ℤ pos (need k t)) (allocated-current k w m ∙ acc.sums k)
    ∙ -ℤ-pos (needed k task w.current_tasks) (need k t) less
    ∙ ap pos rest

-- `p` leaves the table; no count falls below zero, so nothing is reset
pub deallocate-IsAccounted :
    {task : Pointer → Task} {w : Worker} (p : Pointer)
    → IsAccounted task w
    → find (task p).taskid w.current_tasks ≡ some p
    → let w' =
        deallocate (task p) (record w { current_tasks = unlink (task p).taskid w.current_tasks }) in
      (reset_negative w' ≡ w') × IsAccounted task (reset_negative w')
deallocate-IsAccounted {task} {w} p acc there =
    let t = task p in
    let m = unlink t.taskid w.current_tasks in
    let w' = deallocate t (record w { current_tasks = m }) in
    let sums = λ (k : Kind). deallocate_sums k p acc there in
    let same = reset_nothing w' (λ k. (needed k task m, sums k)) in
    let done =
      IsAccounted-of w' {m = m} (current_tasks-deallocate t (record w { current_tasks = m })) sums
        (Distinct-unlink t.taskid w.current_tasks acc.distinct)
        (named-unlink task t.taskid w.current_tasks acc.named) in
    (same, subst (λ x. IsAccounted task x) (sym same) done)

-- two memories in which every task needs the same, under the same number
pub record Alike (task task' : Pointer → Task) : Type 0 where
  pub needs : (k : Kind) (p : Pointer) → need k (task' p) ≡ need k (task p)
  pub names : (p : Pointer) → (task' p).taskid ≡ (task p).taskid

needed-Alike :
    (k : Kind) {task task' : Pointer → Task} (m : Entries)
    → Alike task task'
    → needed k task' m ≡ needed k task m
unfolding needed
needed-Alike k [] a = refl
needed-Alike k ((id, p) ∷ m) a = omega (arith, a.needs k p, needed-Alike k m a)

named-Alike :
    {task task' : Pointer → Task} (m : Entries)
    → Alike task task'
    → All (λ e. (task e.1).taskid ≡ e.0) m
    → All (λ e. (task' e.1).taskid ≡ e.0) m
named-Alike [] a h = tt
named-Alike ((id, p) ∷ m) a h = (a.names p ∙ h.0, named-Alike m a h.1)

pub Alike-IsAccounted :
    {task task' : Pointer → Task} {w : Worker}
    → Alike task task'
    → IsAccounted task w
    → IsAccounted task' w
Alike-IsAccounted {w} a acc = record {
  sums = λ k. acc.sums k ∙ ap pos (sym (needed-Alike k w.current_tasks a));
  distinct = acc.distinct;
  named = named-Alike w.current_tasks a acc.named;
}
