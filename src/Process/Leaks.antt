-- ===== src/Process/Leaks.antt =====
-- Two ways in which a worker's resources are lost: a task is killed whose result is not sent yet, and
-- the output file of a task cannot be made.
use mathlib.Core.Option
use cyque.Prelude.{
  ◌||◌, ℕ, ◌+◌, ◌≡◌, refl, ap, ◌∙◌, inl, inr, List, [], ◌∷◌, none, some, true, false, arith, ◌==◌,
  ==_iff, Option-cases, some_inj, Bool-cases, Bool,
}
use cyque.Prelude.Int.{pos, pos_part, ◌+ℤ◌}
use cyque.Tables.Chain.{find, unlink, find-assign}
use cyque.Tables.Itable.{uint64_key}
use cyque.Process.{
  Process, TaskInfo, Infos, Launch, task_info_create, task_info_execute, charged, info_insert,
  started, start_task,
}
use cyque.Process.Kill.{
  do_kill, kill_stored, is_own_group, signals_itself, kill_all_tasks, do_reset_results_to_be_sent,
}
use cyque.Process.Served.{Amount, taken, wanted}
use cyque.Process.Tally.{held_by, held, IsTallied, IsResult}
use cyque.Process.Tally.Begin.{taken-started}
use cyque.Process.Tally.Entries.{held-unlink, All-find, times-found}
use cyque.Process.Tally.Flags.{taken_of}
use cyque.WorkQueue.Task.{Task}

-- a task with a result does not run, nor is it stored
unstored :
    (taskid : ℕ) (w : Process) (ti : TaskInfo)
    → IsTallied w
    → find taskid w.results_to_be_sent ≡ some ti
    → find taskid w.stored_tasks ≡ none
unstored taskid w ti tallied here = by_entry (find taskid w.stored_tasks) refl
  where
    by_entry :
        (o : Option.Option TaskInfo)
        → find taskid w.stored_tasks ≡ o
        → find taskid w.stored_tasks ≡ none
    by_entry none e = e
    by_entry (some x) e =
        let (number, active) = IsTallied.stored tallied taskid x e in
        let runs = times-found taskid (pos_part x.pid) x w.active_tasks active number in
        let named =
          All-find IsResult taskid ti w.results_to_be_sent (IsTallied.results tallied) here in
        let waits' = times-found taskid taskid ti w.results_to_be_sent here named.0 in
        let most = IsTallied.once tallied taskid in absurd (omega arith)

-- If the tables of a worker are in order and it is told to kill a task whose result is not sent yet,
-- then the result is dropped, but of each resource, more is allocated afterwards than is held, by just
-- what the task was charged for.
pub do_kill-Leaks :
    (taskid : ℕ) (w : Process) (ti : TaskInfo) (k : Amount)
    → IsTallied w
    → find taskid w.results_to_be_sent ≡ some ti
    → let w' = do_kill taskid w in
      (w'.results_to_be_sent ≡ unlink taskid w.results_to_be_sent)
      × (taken k w' ≡ pos (held k w'.active_tasks + held k w'.results_to_be_sent + held_by k ti))
unfolding do_kill kill_stored
do_kill-Leaks taskid w ti k tallied here =
    let out = unstored taskid w ti tallied here in
    let less = held-unlink k taskid ti w.results_to_be_sent here in
    let r = unlink taskid w.results_to_be_sent in
    rw out (
      refl,
      taken_of w (record w { results_to_be_sent = r }) refl refl refl refl k
          ∙ IsTallied.sums tallied k
          ∙ ap pos (omega arith),
    )

Bool-or_true : (b : Bool) → (b || true) ≡ true
Bool-or_true true = refl
Bool-or_true false = refl

-- an active task without a process has the worker signal itself
found-signals_itself :
    (k : ℕ) (ti : TaskInfo) (m : Infos)
    → find k m ≡ some ti
    → ti.pid ≡ pos 0
    → signals_itself m ≡ true
unfolding find signals_itself
found-signals_itself k ti [] here none' = absurd (ground arith)
found-signals_itself k ti ((j, x) ∷ m) here none' = elim (Bool-cases (k == j)) [
  | inl e ↦
      let same = some_inj x ti (rw e at here) in
      let zero' : x.pid ≡ pos 0 = ap (λ (y : TaskInfo). y.pid) same ∙ none' in rw zero' refl
  | inr e ↦
      let later = found-signals_itself k ti m (rw e at here) none' in
      let this = is_own_group x in rw later (Bool-or_true this)
]

find-info_insert : (k : ℕ) (ti : TaskInfo) (m : Infos) → find k (info_insert k ti m) ≡ some ti
unfolding info_insert
find-info_insert k ti m =
    let same : (k == k) ≡ true = (==_iff k k).1 refl in
    elim (Option-cases (find k m)) [
      | inl e ↦ rw e (unfold find in rw same refl)
      | inr (old, e) ↦ let there = find-assign k k ti old m e in rw e (there ∙ rw same refl)
    ]

-- the worker behind a start without an output file
abbrev pub lost : Launch → Process → Task → TaskInfo
lost l w t = record (task_info_create t) { output_fd = none; task = charged w.local_resources t }

start_lost :
    (l : Launch) (w : Process) (t : Task)
    → l.mkstemp ≡ none
    → start_task l w t ≡ started w (charged w.local_resources t) (lost l w t)
unfolding start_task task_info_create task_info_execute
start_lost l w t failed = rw failed refl

-- If the output file of a task cannot be made, then the task is charged for all the same and entered
-- as active under the number 0, though it has no process; and `kill_all_tasks` then sends a signal
-- that kills the worker itself, so that it does not come to its end, whatever `wait` would return.
pub start_task-KillsItself :
    (l : Launch) (w : Process) (t : Task) (k : Amount)
    → l.mkstemp ≡ none
    → let w' = start_task l w t in
      (taken k w' ≡ taken k w +ℤ wanted k (charged w.local_resources t))
      × (find 0 w'.active_tasks ≡ some (lost l w t))
      × (signals_itself w'.active_tasks ≡ true)
      × ((pids : List ℕ) → kill_all_tasks pids w' ≡ none)
unfolding started kill_all_tasks do_reset_results_to_be_sent task_info_create
start_task-KillsItself l w t k failed =
    let run = start_lost l w t failed in
    let ti = lost l w t in
    let w1 = started w (charged w.local_resources t) ti in
    let active = find-info_insert 0 ti w.active_tasks in
    let own : signals_itself w1.active_tasks ≡ true =
      found-signals_itself 0 ti w1.active_tasks active refl in
    rw run (taken-started k w (charged w.local_resources t) ti, active, own, λ pids. rw own refl)
