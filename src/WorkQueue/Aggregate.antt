-- ===== src/WorkQueue/Aggregate.antt =====
-- `aggregate_workers_resources` and `aggregate_committed_in_queue` of work_queue.c, over the
-- resources of the workers in the order of the walk and the tasks of the ready list.
pub mod Sums
use cyque.Prelude.{List, [], ◌∷◌, if◌then◌else◌}
use cyque.Prelude.Int.{ℤ, pos, ◌+ℤ◌, max_ℤ}
use cyque.WorkQueue.Resources.{Resource, Resources, add, cleared}
use cyque.WorkQueue.Task.{Task}

abbrev pub commit_more : Resource → ℤ → Resource
commit_more r n = record r { committed = r.committed +ℤ n }

-- the body of the walk over the ready list
unfoldable pub add_committed : Task → Resources → Resources
add_committed t total =
    if t.unlabeled
    then record total { unlabeled = commit_more total.unlabeled (pos 1) }
    else record total {
      cores = commit_more total.cores (max_ℤ t.cores (pos 0));
      memory = commit_more total.memory (max_ℤ t.memory (pos 0));
      disk = commit_more total.disk (max_ℤ t.disk (pos 0));
      gpus = commit_more total.gpus (max_ℤ t.gpus (pos 0));
    }

unfoldable pub aggregate_committed_in_queue : List Task → Resources → Resources
unfolding add_committed
aggregate_committed_in_queue [] total = total
aggregate_committed_in_queue (t ∷ ts) total =
    aggregate_committed_in_queue ts (add_committed t total)

unfoldable pub add_all : Resources → List Resources → Resources
unfolding add
add_all total [] = total
add_all total (r ∷ rs) = add_all (add total r) rs

-- `*total = *w->resources` for the first worker, `work_queue_resources_add` for the others; with no
-- worker all is zero, the ready list is not looked at
unfoldable pub aggregate_workers_resources : List Resources → List Task → Resources
unfolding add_all aggregate_committed_in_queue cleared
aggregate_workers_resources [] ready = cleared
aggregate_workers_resources (r ∷ rs) ready = aggregate_committed_in_queue ready (add_all r rs)
