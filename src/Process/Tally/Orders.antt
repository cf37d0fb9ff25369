-- ===== src/Process/Tally/Orders.antt =====
-- What the master orders keeps the invariant: tasks that arrive, reports, kills and resets.
use mathlib.Core.Path.{subst}
use cyque.Prelude.{
  ℕ, ◌+◌, ◌≡◌, ◌≤◌, refl, sym, ◌∙◌, inl, inr, Option, [], ◌∷◌, ◌++◌, none, some, Bool, true, false,
  arith, ◌==◌, ==_iff, if◌then◌else◌, Bool-cases,
}
use cyque.Prelude.Int.{ℤ, pos}
use cyque.Tables.Chain.{find, unlink, unlink-absent}
use cyque.Tables.Itable.{uint64_key}
use cyque.Process.{TaskInfo, Process}
use cyque.Process.Kill.{do_task, do_kill, kill_stored}
use cyque.Process.Report.{report_tasks, report_loop}
use cyque.Process.Tally.{times, waits, IsTallied}
use cyque.Process.Tally.Entries.{waits-append}
use cyque.Process.Tally.Flags.{taken_of, Same-IsTallied}
use cyque.Process.Tally.Moves.{kill_task-IsTallied}
use cyque.Process.Tally.Sent.{asked, report_loop-IsTallied}
use cyque.WorkQueue.Task.{Task}

-- the number of a task is nowhere in the tables
abbrev pub IsNew : ℕ → Process → Type 0
IsNew id w = waits id w.waiting_tasks + times id w.active_tasks + times id w.results_to_be_sent ≡ 0

waits-one : (id : ℕ) (t : Task) → waits id (t ∷ []) ≡ (if id == t.taskid then 1 else 0)
unfolding waits
waits-one id t = omega arith

-- a number that is new stands nowhere, so it may stand once
room_once :
    (id : ℕ) (w : Process) (t : Task)
    → IsTallied w
    → IsNew t.taskid w
    → waits id (w.waiting_tasks ++ (t ∷ []))
        + times id w.active_tasks
        + times id w.results_to_be_sent
      ≤ 1
room_once id w t tallied new =
    let most = IsTallied.once tallied id in
    let parts = waits-append id w.waiting_tasks (t ∷ []) in
    let one = waits-one id t in
    elim (Bool-cases (id == t.taskid)) [
      | inl e ↦
          let none' : IsNew id w = subst (λ n. IsNew n w) (sym ((==_iff id t.taskid).0 e)) new in
          let mark : waits id (t ∷ []) ≡ 1 = rw e at one in omega arith
      | inr e ↦ let mark : waits id (t ∷ []) ≡ 0 = rw e at one in omega arith
    ]

waiting-IsTallied :
    (w : Process) (t : Task)
    → IsTallied w
    → IsNew t.taskid w
    → IsTallied (record w { waiting_tasks = w.waiting_tasks ++ (t ∷ []) })
waiting-IsTallied w t tallied new = record {
  sums = λ k.
      taken_of w (record w { waiting_tasks = w.waiting_tasks ++ (t ∷ []) }) refl refl refl refl k
      ∙ IsTallied.sums tallied k;
  once = λ id. room_once id w t tallied new;
  running = IsTallied.running tallied;
  results = IsTallied.results tallied;
  distinct = IsTallied.distinct tallied;
  distinct_stored = IsTallied.distinct_stored tallied;
  stored = IsTallied.stored tallied;
}

-- a task arrives
pub do_task-IsTallied :
    (t : Task) (linked : Bool) (w : Process)
    → IsTallied w
    → IsNew t.taskid w
    → IsTallied (do_task t linked w).1
unfolding do_task
do_task-IsTallied t true w tallied new =
    let queued = waiting-IsTallied w t tallied new in
    Same-IsTallied (record w { waiting_tasks = w.waiting_tasks ++ (t ∷ []) }) _
      (record {
        taken_same = taken_of _ _ refl refl refl refl;
        waiting = refl;
        active = refl;
        stored = refl;
        results = refl;
      })
      queued
do_task-IsTallied t false w tallied new =
    Same-IsTallied w (record w { last_task_received = pos t.taskid })
      (record {
        taken_same =
            taken_of w (record w { last_task_received = pos t.taskid }) refl refl refl refl;
        waiting = refl;
        active = refl;
        stored = refl;
        results = refl;
      })
      tallied

module _ (size : Option ℕ → ℕ) where
  pub report_tasks-IsTallied :
      (n : ℤ) (w : Process) → IsTallied w → IsTallied (report_tasks size n w).1
  unfolding report_tasks
  report_tasks-IsTallied n w tallied =
      let w' = (report_loop size (asked size n w.results_to_be_sent) w).1 in
      Same-IsTallied w' _
        (record {
          taken_same = taken_of w' _ refl refl refl refl;
          waiting = refl;
          active = refl;
          stored = refl;
          results = refl;
        })
        (report_loop-IsTallied size (asked size n w.results_to_be_sent) w w.results_to_be_sent
          tallied refl)

-- A task without an unsent result is killed, if it is here at all.
pub do_kill-IsTallied :
    (taskid : ℕ) (w : Process)
    → IsTallied w
    → find taskid w.results_to_be_sent ≡ none
    → IsTallied (do_kill taskid w)
unfolding do_kill kill_stored
do_kill-IsTallied taskid w tallied unsent = by_entry (find taskid w.stored_tasks) refl
  where
    w' : Process
    w' = record w { results_to_be_sent = unlink taskid w.results_to_be_sent }

    same : IsTallied w'
    same =
        Same-IsTallied w w'
          (record {
            taken_same = taken_of w w' refl refl refl refl;
            waiting = refl;
            active = refl;
            stored = refl;
            results = unlink-absent taskid w.results_to_be_sent unsent;
          })
          tallied

    by_entry :
        (o : Option TaskInfo) → find taskid w.stored_tasks ≡ o → IsTallied (kill_stored taskid w' o)
    by_entry none e = same
    by_entry (some ti) e =
        let (number, here) = IsTallied.stored tallied taskid ti e in
        rw here (kill_task-IsTallied w' ti same here)
