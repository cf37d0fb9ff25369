-- ===== src/WorkQueue/Transfer/Books.antt =====
-- Transfers leave the places of the tasks and the books of the workers as they are.
use cyque.Prelude.{
  ℕ, suc, ◌≡◌, refl, inl, inr, Bool, true, false, List, [], ◌∷◌, ltb, if◌then◌else◌, Bool-cases,
  Bytes,
}
use cyque.Prelude.Int.{ℤ}
use cyque.Tables.Itable.{uint64_key}
use cyque.WorkQueue.Failure.{Result, success, worker_failure, app_failure}
use cyque.WorkQueue.Master.{Pointer, Worker, Queue, write}
use cyque.WorkQueue.Places.Frame.{
  write-SameBooks, SameNeeds, write-Alike, SameAllocations, SameBooks-of, Untouched-of,
  Untouched-refl,
}
use cyque.WorkQueue.Places.Sound.{SameBooks-refl, Untouched, Untouched-trans}
use cyque.WorkQueue.Task.{Task, File}
use cyque.WorkQueue.Transfer.{
  Transfer, is_success, nonzero, send_input_file, send_loop, all_exist, send_input_files,
  get_output_file, get_output_files, with_flag, sent_task, input_in_place, output_in_place,
  received_task, carried,
}

-- a task and a worker are written at once
pub both_written :
    (q q' : Queue) (wp tp : Pointer) (t : Task) (w : Worker)
    → SameNeeds (q.task tp) t
    → SameAllocations (q.worker wp) w
    → (q'.task ≡ write q.task tp t) × (q'.worker ≡ write q.worker wp w)
    → (q'.ready_list ≡ q.ready_list)
      × (q'.complete_list ≡ q.complete_list)
      × (q'.running_tasks ≡ q.running_tasks)
      × (q'.finished_tasks ≡ q.finished_tasks)
      × (q'.worker_task_map ≡ q.worker_task_map)
      × (q'.next_taskid ≡ q.next_taskid)
    → Untouched q q'
both_written q q' wp tp t w needs books (tasks, workers) lists =
    Untouched-of q (rw tasks (write-Alike q.task tp t needs))
      (λ x. rw workers (write-SameBooks q.worker wp w (SameBooks-of books) x)) lists

pub one_task_written :
    (q q' : Queue) (tp : Pointer) (t : Task)
    → SameNeeds (q.task tp) t
    → (q'.task ≡ write q.task tp t) × (q'.worker ≡ q.worker)
    → (q'.ready_list ≡ q.ready_list)
      × (q'.complete_list ≡ q.complete_list)
      × (q'.running_tasks ≡ q.running_tasks)
      × (q'.finished_tasks ≡ q.finished_tasks)
      × (q'.worker_task_map ≡ q.worker_task_map)
      × (q'.next_taskid ≡ q.next_taskid)
    → Untouched q q'
one_task_written q q' tp t needs (tasks, workers) lists =
    Untouched-of q (rw tasks (write-Alike q.task tp t needs))
      (λ x. rw workers (SameBooks-refl (q.worker x))) lists

sent_task-SameNeeds :
    (n : ℕ) (f : File) (r : Result) (x : Transfer) (t : Task)
    → SameNeeds t (sent_task r x (input_in_place n f t))
unfolding sent_task input_in_place
sent_task-SameNeeds n f success x t = (record {
  taskid = refl;
  unlabeled = refl;
  cores = refl;
  memory = refl;
  disk = refl;
  gpus = refl;
})
sent_task-SameNeeds n f app_failure x t = (record {
  taskid = refl;
  unlabeled = refl;
  cores = refl;
  memory = refl;
  disk = refl;
  gpus = refl;
})
sent_task-SameNeeds n f worker_failure x t = (record {
  taskid = refl;
  unlabeled = refl;
  cores = refl;
  memory = refl;
  disk = refl;
  gpus = refl;
})

received_task-SameNeeds :
    (make_cached_name : File → Bytes) (n : ℕ) (f : File) (x : Transfer) (t : Task)
    → SameNeeds t (received_task x (output_in_place make_cached_name n f t))
unfolding received_task output_in_place
received_task-SameNeeds make_cached_name n f x t = elim (Bool-cases (ltb 0 x.total_bytes)) [
  | inl e ↦ rw e (record {
    taskid = refl;
    unlabeled = refl;
    cores = refl;
    memory = refl;
    disk = refl;
    gpus = refl;
  })
  | inr e ↦ rw e (record {
    taskid = refl;
    unlabeled = refl;
    cores = refl;
    memory = refl;
    disk = refl;
    gpus = refl;
  })
]

carried_if :
    (b : Bool) (x : Transfer) (w : Worker) (files : List (Bytes × ℤ))
    → SameAllocations w (
        if b
        then carried x (record w { current_files = files })
        else record w { current_files = files })
      × SameAllocations w (record (if b then carried x w else w) { current_files = files })
unfolding carried
carried_if true x w files = (
  (record {
    unlabeled = refl;
    cores = refl;
    memory = refl;
    disk = refl;
    gpus = refl;
    current = refl;
  }),
  (record {
    unlabeled = refl;
    cores = refl;
    memory = refl;
    disk = refl;
    gpus = refl;
    current = refl;
  }),
)
carried_if false x w files = (
  (record {
    unlabeled = refl;
    cores = refl;
    memory = refl;
    disk = refl;
    gpus = refl;
    current = refl;
  }),
  (record {
    unlabeled = refl;
    cores = refl;
    memory = refl;
    disk = refl;
    gpus = refl;
    current = refl;
  }),
)

module _ (make_cached_name : File → Bytes) where
  send_input_file-Untouched :
      (q : Queue) (wp tp : Pointer) (n : ℕ) (f : File) (x : Transfer)
      → Untouched q (send_input_file make_cached_name q wp tp n f x)
  unfolding send_input_file
  send_input_file-Untouched q wp tp n f x =
      both_written q (send_input_file make_cached_name q wp tp n f x) wp tp _ _
        (sent_task-SameNeeds n f x.result x (q.task tp))
        (carried_if (is_success x.result) x (q.worker wp) _).0 (refl, refl)
        (refl, refl, refl, refl, refl, refl)

  send_loop-Untouched :
      (transfer : ℕ → Transfer) (n : ℕ) (files : List File) (q : Queue) (wp tp : Pointer)
      → Untouched q (send_loop make_cached_name transfer n files q wp tp).1
  unfolding send_loop
  send_loop-Untouched transfer n [] q wp tp = Untouched-refl q
  send_loop-Untouched transfer n (f ∷ fs) q wp tp =
      let first = send_input_file-Untouched q wp tp n f (transfer n) in
      let rest =
        send_loop-Untouched transfer (suc n) fs
          (send_input_file make_cached_name q wp tp n f (transfer n)) wp tp in
      elim (Bool-cases (is_success (transfer n).result)) [
        | inl e ↦ rw e (Untouched-trans first rest)
        | inr e ↦ rw e first
      ]

  pub send_input_files-Untouched :
      (exists : File → Bool) (transfer : ℕ → Transfer) (q : Queue) (wp tp : Pointer)
      → Untouched q (send_input_files make_cached_name exists transfer q wp tp).1
  unfolding send_input_files
  send_input_files-Untouched exists transfer q wp tp =
      let missing = record q {
        task = write q.task tp (record (q.task tp) { result = with_flag 1 (q.task tp).result });
      } in
      elim (Bool-cases (all_exist exists (q.task tp).input_files)) [
        | inl e ↦ rw e (send_loop-Untouched transfer 0 (q.task tp).input_files q wp tp)
        | inr e ↦ rw e (
            one_task_written q missing tp _
              (record {
                taskid = refl;
                unlabeled = refl;
                cores = refl;
                memory = refl;
                disk = refl;
                gpus = refl;
              })
              (refl, refl) (refl, refl, refl, refl, refl, refl))
      ]

  get_output_file-Untouched :
      (q : Queue) (wp tp : Pointer) (n : ℕ) (f : File) (x : Transfer)
      → Untouched q (get_output_file make_cached_name q wp tp n f x)
  unfolding get_output_file
  get_output_file-Untouched q wp tp n f x =
      both_written q (get_output_file make_cached_name q wp tp n f x) wp tp _ _
        (received_task-SameNeeds make_cached_name n f x (q.task tp))
        (carried_if (ltb 0 x.total_bytes) x (q.worker wp) _).1 (refl, refl)
        (refl, refl, refl, refl, refl, refl)

  pub get_output_files-Untouched :
      (transfer : ℕ → Transfer) (n : ℕ) (files : List File) (result : Result) (q : Queue)
      (wp tp : Pointer)
      → Untouched q (get_output_files make_cached_name transfer n files result q wp tp).1
  unfolding get_output_files
  get_output_files-Untouched transfer n [] result q wp tp = Untouched-refl q
  get_output_files-Untouched transfer n (f ∷ fs) result q wp tp =
      let x = transfer n in
      let q' = get_output_file make_cached_name q wp tp n f x in
      let first = get_output_file-Untouched q wp tp n f x in
      let rest = get_output_files-Untouched transfer (suc n) fs x.result q' wp tp in
      elim (Bool-cases (nonzero x.result)) [
        | inl e ↦ rw e (Untouched-trans first rest)
        | inr e ↦ rw e first
      ]
