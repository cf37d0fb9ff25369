-- ===== src/Process/Tally.antt =====
-- The invariant of a worker's task tables: what is allocated is what is held by the tasks that run and
-- by the results that are not sent yet.
pub mod Begin
pub mod Entries
pub mod Flags
pub mod Moves
pub mod Orders
pub mod Rounds
pub mod Emptied
pub mod Sent
pub mod Starts
use cyque.Prelude.{ℕ, ◌+◌, ◌≡◌, ◌≤◌, ◌<◌, List, [], ◌∷◌, some, arith, ◌==◌, if◌then◌else◌, All}
use cyque.Prelude.Int.{ℤ, pos, pos_part, ◌≤ℤ◌}
use cyque.Tables.Chain.{find, Distinct}
use cyque.Tables.Itable.{uint64_key}
use cyque.Process.{TaskInfo, Infos, Process}
use cyque.Process.Report.{no_pid}
use cyque.Process.Served.{Amount, taken, wanted}
use cyque.WorkQueue.Task.{Task}

-- what the end of a task will give back
abbrev pub held_by : Amount → TaskInfo → ℕ
held_by k ti = if no_pid ti then 0 else pos_part (wanted k ti.task)

unfoldable pub held : Amount → Infos → ℕ
held k [] = 0
held k ((key, ti) ∷ m) = held_by k ti + held k m

-- how many entries are of a task, and how many times it waits
unfoldable pub times : ℕ → Infos → ℕ
times id [] = 0
times id ((key, ti) ∷ m) = (if id == ti.taskid then 1 else 0) + times id m

unfoldable pub waits : ℕ → List Task → ℕ
waits id [] = 0
waits id (t ∷ l) = (if id == t.taskid then 1 else 0) + waits id l

abbrev pub IsCharged : TaskInfo → Type 0
IsCharged ti = (k : Amount) → pos 0 ≤ℤ wanted k ti.task

abbrev pub IsRunning : ℕ × TaskInfo → Type 0
IsRunning e = (e.1.pid ≡ pos e.0) × (0 < e.0) × IsCharged e.1

abbrev pub IsResult : ℕ × TaskInfo → Type 0
IsResult e = (e.1.taskid ≡ e.0) × IsCharged e.1

-- Beside the sums: a task is in one place at most, the active tasks are under the numbers of their
-- processes, and a stored task is active.
pub record IsTallied (w : Process) : Type 0 where
  pub sums : (k : Amount) → taken k w ≡ pos (held k w.active_tasks + held k w.results_to_be_sent)
  pub once :
      (id : ℕ)
      → waits id w.waiting_tasks + times id w.active_tasks + times id w.results_to_be_sent ≤ 1
  pub running : All IsRunning w.active_tasks
  pub results : All IsResult w.results_to_be_sent
  pub distinct : Distinct w.active_tasks
  pub distinct_stored : Distinct w.stored_tasks
  pub stored :
      (id : ℕ) (ti : TaskInfo)
      → find id w.stored_tasks ≡ some ti
      → (ti.taskid ≡ id) × (find (pos_part ti.pid) w.active_tasks ≡ some ti)
