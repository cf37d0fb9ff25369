-- ===== src/Process/Tally/Flags.antt =====
-- The invariant reads the tables and what is allocated, and nothing else of a worker.
use cyque.Prelude.{◌≡◌, ◌∙◌, refl, ap}
use cyque.Prelude.Int.{pos}
use cyque.Tables.Itable.{uint64_key}
use cyque.Process.{Process}
use cyque.Process.Served.{Amount, of_cores, of_memory, of_disk, of_gpus, taken}
use cyque.Process.Tally.{IsTallied}

-- `w'` has the tables of `w`, and what it has allocated
pub record Same (w w' : Process) : Type 0 where
  pub taken_same : (k : Amount) → taken k w' ≡ taken k w
  pub waiting : w'.waiting_tasks ≡ w.waiting_tasks
  pub active : w'.active_tasks ≡ w.active_tasks
  pub stored : w'.stored_tasks ≡ w.stored_tasks
  pub results : w'.results_to_be_sent ≡ w.results_to_be_sent

pub taken_of :
    (w w' : Process)
    → w'.cores_allocated ≡ w.cores_allocated
    → w'.memory_allocated ≡ w.memory_allocated
    → w'.disk_allocated ≡ w.disk_allocated
    → w'.gpus_allocated ≡ w.gpus_allocated
    → (k : Amount) → taken k w' ≡ taken k w
taken_of w w' c m d g of_cores = c
taken_of w w' c m d g of_memory = m
taken_of w w' c m d g of_disk = d
taken_of w w' c m d g of_gpus = g

pub Same-IsTallied : (w w' : Process) → Same w w' → IsTallied w → IsTallied w'
Same-IsTallied w w' s tallied = record {
  sums = λ k.
      Same.taken_same s k
      ∙ IsTallied.sums tallied k
      ∙ ap pos (rw (Same.active s, Same.results s) refl);
  once = λ id. rw (Same.waiting s, Same.active s, Same.results s) (IsTallied.once tallied id);
  running = rw (Same.active s) (IsTallied.running tallied);
  results = rw (Same.results s) (IsTallied.results tallied);
  distinct = rw (Same.active s) (IsTallied.distinct tallied);
  distinct_stored = rw (Same.stored s) (IsTallied.distinct_stored tallied);
  stored = rw (Same.stored s, Same.active s) (IsTallied.stored tallied);
}
