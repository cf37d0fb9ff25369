-- ===== src/WorkQueue/Join.antt =====
-- Workers connect and tell of themselves: `add_worker`, `process_workqueue` and `process_resource` of
-- work_queue.c. What `sscanf` finds in a line is an argument, `none` where it finds too little.
pub mod Sound
use cyque.Prelude.{
  ℕ, Bool, true, false, Option, none, some, List, ◌∷◌, ◌==◌, if◌then◌else◌, Bytes, codes, same_text,
}
use cyque.Prelude.Int.{ℤ}
use cyque.WorkQueue.Master.{Pointer, Worker, Queue, write}
use cyque.WorkQueue.Resources.{Resource, Resources}
use cyque.WorkQueue.Wait.{new_worker}

-- the end of `add_worker`, where the link is accepted and `malloc` gave the block at `wp`
unfoldable pub add_worker : Queue → Pointer → Queue
unfolding new_worker
add_worker q wp = record q {
  worker = write q.worker wp new_worker;
  worker_table = wp ∷ q.worker_table;
}

-- the fields of "workqueue …" that are kept: the version of the protocol, the host and the system
pub record Hello : Type 0 where
  pub worker_protocol : ℕ
  pub hostname : Bytes
  pub os : Bytes

-- true for 0, false for -1; WORK_QUEUE_PROTOCOL_VERSION is 3
unfoldable pub process_workqueue : Queue → Pointer → Option Hello → Bool × Queue
process_workqueue q wp none = (false, q)
process_workqueue q wp (some h) =
    let w = q.worker wp in
    if h.worker_protocol == 3
    then (
      true,
      record q {
        worker = write q.worker wp (record w {
          hostname = h.hostname;
          foreman = if same_text h.os (codes "foreman") then true else w.foreman;
        });
      },
    )
    else (false, q)

-- what `sscanf` finds in "resource …": the tag, a category with its numbers, or neither
pub data Report : Type 0 where
  tag : ℤ → Report
  category : Bytes → Resource → Report
  unknown : Report

unfoldable pub report : Report → Resources → Resources
report (tag n) r = record r { tag = n }
report (category name x) r =
    if same_text name (codes "cores")
    then record r { cores = x }
    else if same_text name (codes "memory")
    then record r { memory = x }
    else if same_text name (codes "disk")
    then record r { disk = x }
    else if same_text name (codes "gpus")
    then record r { gpus = x }
    else if same_text name (codes "workers")
    then record r { workers = x }
    else r
report unknown r = r

unfoldable pub process_resource : Queue → Pointer → Report → Queue
process_resource q wp x = record q {
  worker =
      write q.worker wp (record (q.worker wp) { resources = report x (q.worker wp).resources });
}
