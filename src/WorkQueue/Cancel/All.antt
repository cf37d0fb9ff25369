-- ===== src/WorkQueue/Cancel/All.antt =====
-- `work_queue_cancel_all_tasks` of work_queue.c. Both walks remove the entry that they have just been
-- given, which the tables allow.
use cyque.Prelude.{
  ℕ, ◌+◌, ◌≡◌, refl, sym, ap, ◌∙◌, inl, inr, Bool-cases, List, [], ◌∷◌, ◌++◌, ◌==◌, ==_iff, Bytes,
  length,
}
use cyque.Prelude.Int.{◌-ℤ◌}
use cyque.Tables.Chain.{unlink}
use cyque.Tables.Itable.{uint64_key}
use cyque.WorkQueue.Failure.{delete_worker_files, cache_or_preexist, no_flags}
use cyque.WorkQueue.Master.{Pointer, Entries, Worker, Queue, write}
use cyque.WorkQueue.Task.{Task, File}

-- "w->cores_allocated -= t->cores" and so on: what is not specified is -1, and no slot is given back
unfoldable pub give_back : Task → ℕ → Worker → Worker
give_back t taskid w = record w {
  cores_allocated = w.cores_allocated -ℤ t.cores;
  memory_allocated = w.memory_allocated -ℤ t.memory;
  disk_allocated = w.disk_allocated -ℤ t.disk;
  gpus_allocated = w.gpus_allocated -ℤ t.gpus;
  current_tasks = unlink taskid w.current_tasks;
}

module _ (make_cached_name : File → Bytes) where
  -- the body of the inner walk, over the tasks of a worker
  unfoldable pub cancel_entry : Queue → Pointer → ℕ × Pointer → Queue
  cancel_entry q wp (taskid, tp) =
      let q' =
        delete_worker_files make_cached_name cache_or_preexist q wp (q.task tp).input_files in
      let q'' = delete_worker_files make_cached_name no_flags q' wp (q'.task tp).output_files in
      record q'' {
        running_tasks = unlink taskid q''.running_tasks;
        finished_tasks = unlink taskid q''.finished_tasks;
        worker_task_map = unlink taskid q''.worker_task_map;
        worker = write q''.worker wp (give_back (q''.task tp) taskid (q''.worker wp));
        total_tasks_cancelled = q''.total_tasks_cancelled + 1;
      }

  unfoldable pub cancel_entries : Entries → Pointer → Queue → List Pointer × Queue
  cancel_entries [] wp q = ([], q)
  cancel_entries (e ∷ es) wp q =
      let (tasks, q') = cancel_entries es wp (cancel_entry q wp e) in (e.1 ∷ tasks, q')

  unfoldable pub cancel_workers : List Pointer → Queue → List Pointer × Queue
  cancel_workers [] q = ([], q)
  cancel_workers (wp ∷ wps) q =
      let (tasks, q') = cancel_entries (q.worker wp).current_tasks wp q in
      let (others, q'') = cancel_workers wps q' in (tasks ++ others, q'')

  -- the tasks that were cancelled, and the queue
  unfoldable pub cancel_all_tasks : Queue → List Pointer × Queue
  cancel_all_tasks q =
      let emptied = record q {
        ready_list = [];
        complete_list = [];
        total_tasks_cancelled =
            q.total_tasks_cancelled + length q.ready_list + length q.complete_list;
        workers_with_available_results = [];
      } in
      let (tasks, q') = cancel_workers q.worker_table emptied in
      (q.ready_list ++ q.complete_list ++ tasks, q')

  cancel_entry_unlabeled :
      (q : Queue) (wp x : Pointer) (e : ℕ × Pointer)
      → ((cancel_entry q wp e).worker x).unlabeled_allocated ≡ (q.worker x).unlabeled_allocated
  unfolding cancel_entry give_back delete_worker_files
  cancel_entry_unlabeled q wp x e = elim (Bool-cases (x == wp)) [
    | inl same ↦
        let here = (==_iff x wp).0 same in
        let self = (==_iff wp wp).1 refl in
        rw (same, self) (ap (λ y. (q.worker y).unlabeled_allocated) (sym here))
    | inr other ↦ rw other refl
  ]

  cancel_entries_unlabeled :
      (es : Entries) (wp x : Pointer) (q : Queue)
      → ((cancel_entries es wp q).1.worker x).unlabeled_allocated ≡ (q.worker x).unlabeled_allocated
  unfolding cancel_entries
  cancel_entries_unlabeled [] wp x q = refl
  cancel_entries_unlabeled (e ∷ es) wp x q =
      cancel_entries_unlabeled es wp x (cancel_entry q wp e) ∙ cancel_entry_unlabeled q wp x e

  cancel_workers_unlabeled :
      (wps : List Pointer) (x : Pointer) (q : Queue)
      → ((cancel_workers wps q).1.worker x).unlabeled_allocated ≡ (q.worker x).unlabeled_allocated
  unfolding cancel_workers
  cancel_workers_unlabeled [] x q = refl
  cancel_workers_unlabeled (wp ∷ wps) x q =
      cancel_workers_unlabeled wps x (cancel_entries (q.worker wp).current_tasks wp q).1
      ∙ cancel_entries_unlabeled (q.worker wp).current_tasks wp x q

  -- No worker gets a slot back when every task is cancelled: as many unlabeled tasks count as allocated
  -- as before, though the tasks are gone.
  pub cancel_all_tasks_unlabeled :
      (q : Queue) (x : Pointer)
      → ((cancel_all_tasks q).1.worker x).unlabeled_allocated ≡ (q.worker x).unlabeled_allocated
  unfolding cancel_all_tasks
  cancel_all_tasks_unlabeled q x = cancel_workers_unlabeled q.worker_table x _
