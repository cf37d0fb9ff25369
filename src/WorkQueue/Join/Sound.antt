-- ===== src/WorkQueue/Join/Sound.antt =====
-- A worker that connects or tells of itself moves no task.
use cyque.Prelude.{◌≡◌, refl, sym, inl, inr, Option, none, some, [], ◌==◌, Bool-cases}
use cyque.WorkQueue.Accounting.{Kind, slots, of_cores, of_memory, of_disk, of_gpus, allocated}
use cyque.WorkQueue.Cleanup.Emptied.{nothing_allocated}
use cyque.WorkQueue.Join.{add_worker, Hello, process_workqueue, Report, process_resource}
use cyque.WorkQueue.Master.{Pointer, Worker, Queue, write}
use cyque.WorkQueue.Places.{Places}
use cyque.WorkQueue.Places.Frame.{Alike-refl, write-SameBooks, SameBooks-of, Untouched-of}
use cyque.WorkQueue.Places.Sound.{IsSound, SameBooks, Untouched-IsSound}
use cyque.WorkQueue.Wait.{new_worker}

-- a worker is written with the same books
rewritten-IsSound :
    {q : Queue} {s : Places} (q' : Queue) (wp : Pointer) (w : Worker)
    → IsSound q s
    → SameBooks (q.worker wp) w
    → (q'.task ≡ q.task) × (q'.worker ≡ write q.worker wp w)
    → (q'.ready_list ≡ q.ready_list)
      × (q'.complete_list ≡ q.complete_list)
      × (q'.running_tasks ≡ q.running_tasks)
      × (q'.finished_tasks ≡ q.finished_tasks)
      × (q'.worker_task_map ≡ q.worker_task_map)
      × (q'.next_taskid ≡ q.next_taskid)
    → IsSound q' s
rewritten-IsSound {q} q' wp w sound books (tasks, workers) lists =
    Untouched-IsSound
      (Untouched-of q (rw tasks (Alike-refl q.task))
        (λ x. rw workers (write-SameBooks q.worker wp w books x)) lists)
      sound

-- If every task of a queue is in its place and every worker accounted for, and a worker connects whose
-- block of memory has no task, then the same holds behind it, with every task where it was.
pub add_worker-IsSound :
    {q : Queue} {s : Places} (wp : Pointer)
    → IsSound q s
    → (q.worker wp).current_tasks ≡ []
    → IsSound (add_worker q wp) s
unfolding add_worker
add_worker-IsSound {q} wp sound free =
    rewritten-IsSound (add_worker q wp) wp new_worker sound
      (record { sums = sums; current = sym free }) (refl, refl) (refl, refl, refl, refl, refl, refl)
  where
    sums : (k : Kind) → allocated k new_worker ≡ allocated k (q.worker wp)
    sums slots = sym (nothing_allocated (λ p. 0) (sound.accounted wp) free slots)
    sums of_cores = sym (nothing_allocated (λ p. 0) (sound.accounted wp) free of_cores)
    sums of_memory = sym (nothing_allocated (λ p. 0) (sound.accounted wp) free of_memory)
    sums of_disk = sym (nothing_allocated (λ p. 0) (sound.accounted wp) free of_disk)
    sums of_gpus = sym (nothing_allocated (λ p. 0) (sound.accounted wp) free of_gpus)

pub process_workqueue-IsSound :
    {q : Queue} {s : Places} (wp : Pointer) (h : Option Hello)
    → IsSound q s
    → IsSound (process_workqueue q wp h).1 s
unfolding process_workqueue
process_workqueue-IsSound wp none sound = sound
process_workqueue-IsSound {q} wp (some h) sound = elim (Bool-cases (h.worker_protocol == 3)) [
  | inl e ↦ rw e (
      rewritten-IsSound _ wp _ sound
        (SameBooks-of (record {
          unlabeled = refl;
          cores = refl;
          memory = refl;
          disk = refl;
          gpus = refl;
          current = refl;
        }))
        (refl, refl) (refl, refl, refl, refl, refl, refl))
  | inr e ↦ rw e sound
]

pub process_resource-IsSound :
    {q : Queue} {s : Places} (wp : Pointer) (x : Report)
    → IsSound q s
    → IsSound (process_resource q wp x) s
unfolding process_resource
process_resource-IsSound {q} wp x sound =
    rewritten-IsSound (process_resource q wp x) wp _ sound
      (SameBooks-of (record {
        unlabeled = refl;
        cores = refl;
        memory = refl;
        disk = refl;
        gpus = refl;
        current = refl;
      }))
      (refl, refl) (refl, refl, refl, refl, refl, refl)
