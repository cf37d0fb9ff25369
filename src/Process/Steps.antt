-- ===== src/Process/Steps.antt =====
-- Every run of a worker: turns of the loop that starts tasks, children that end, and the messages of
-- the master.
use mathlib.Core.Option
use mathlib.Core.Path.{subst}
use cyque.Prelude.{
  some_inj, ℕ, ◌≡◌, refl, sym, ap, ◌∙◌, inl, inr, List, [], none, some, Bool, true, false, arith,
  Bool-cases,
}
use cyque.Prelude.Int.{pos, pos_part, ltb_ℤ}
use cyque.Tables.Chain.{find}
use cyque.Tables.Itable.{uint64_key}
use cyque.Process.{Process, TaskInfo, Launch, start_or_pass}
use cyque.Process.Collect.{Wait, handle_tasks}
use cyque.Process.Kill.{
  Command, task, transfer, kill, release, exit, check, reset, auth, send_results, unrecognized,
  kill_all_tasks, do_kill_signals_itself, do_kill, do_task, Handled, handle_master,
}
use cyque.Process.Report.{Reply, report_tasks}
use cyque.Process.Tally.{IsTallied}
use cyque.Process.Tally.Emptied.{kill_all_tasks-ended, IsEmptied-IsTallied}
use cyque.Process.Tally.Flags.{taken_of, Same-IsTallied}
use cyque.Process.Tally.Orders.{IsNew, do_task-IsTallied, do_kill-IsTallied, report_tasks-IsTallied}
use cyque.Process.Tally.Rounds.{handle_tasks-Ends}
use cyque.Process.Tally.Starts.{IsLaunch, start_or_pass-IsTallied}
use cyque.WorkQueue.Resources.{Resources}

-- What the master keeps to: it numbers tasks afresh, and kills none whose result is waiting here.
abbrev pub IsFair : Command → Process → Type 0
IsFair (task (some t) linked) w = IsNew t.taskid w
IsFair (kill id) w = ltb_ℤ id (pos 0) ≡ false → find (pos_part id) w.results_to_be_sent ≡ none
IsFair _ w = Unit

pub data Step : Process → Process → Type 0 where
  turns :
      (launch : ℕ → Launch) (measure : ℕ → Resources → Resources) (n v : ℕ) (w w' : Process)
      → IsLaunch w (launch n)
      → w' ≡ (start_or_pass launch measure n v w w.waiting_tasks).1
      → Step w w'
  collects :
      (wait4 : ℕ → TaskInfo → Wait) (now : ℕ → ℕ) (r : Bool) (w w' : Process)
      → handle_tasks wait4 now w ≡ some (r, w')
      → Step w w'
  obeys :
      (size : Option.Option ℕ → ℕ) (pids : List ℕ) (c : Command) (r : Bool) (sent : List Reply)
      (w w' : Process)
      → IsFair c w
      → handle_master size pids w c ≡ some (r, sent, w')
      → Step w w'

pub data Run : Process → Process → Type 0 where
  stay : (w : Process) → Run w w
  go : (w w' w'' : Process) → Run w w' → Step w' w'' → Run w w''

handled : (a b : Handled) → some a ≡ some b → a.2 ≡ b.2
handled a b e = ap (λ (h : Handled). h.2) (some_inj a b e)

moved : (w w' : Process) → w ≡ w' → IsTallied w → IsTallied w'
moved w w' e tallied = subst IsTallied e tallied

abbrev answer : Bool → Process → Handled
answer r w = (r, [], w)

-- `kill_all_tasks`, with what its caller makes of the result
emptying-IsTallied :
    (pids : List ℕ) (w : Process) (r : Bool) (out : Handled)
    → IsTallied w
    → (o : Option.Option Process) → kill_all_tasks pids w ≡ o
    → Option.map (λ w'. answer r w') o ≡ some out
    → IsTallied out.2
emptying-IsTallied pids w r out tallied none e run = absurd (ground arith)
emptying-IsTallied pids w r out tallied (some w1) e run =
    let (emptied, same) = kill_all_tasks-ended pids w w1 e in
    moved w1 out.2 (handled (answer r w1) out run) (IsEmptied-IsTallied w w1 tallied emptied same)

handle_master-IsTallied :
    (size : Option.Option ℕ → ℕ) (pids : List ℕ) (c : Command) (w : Process) (out : Handled)
    → IsTallied w
    → IsFair c w
    → handle_master size pids w c ≡ some out
    → IsTallied out.2
unfolding handle_master
handle_master-IsTallied size pids (task none linked) w out tallied fair run =
    moved w out.2 (handled (answer false w) out run) tallied
handle_master-IsTallied size pids (task (some t) linked) w out tallied fair run =
    moved (do_task t linked w).1 out.2
      (handled ((do_task t linked w).0, [], (do_task t linked w).1) out run)
      (do_task-IsTallied t linked w tallied fair)
handle_master-IsTallied size pids (transfer r) w out tallied fair run =
    moved w out.2 (handled (answer r w) out run) tallied
handle_master-IsTallied size pids (kill id) w out tallied fair run =
    elim (Bool-cases (ltb_ℤ id (pos 0))) [
      | inl all ↦
          emptying-IsTallied pids w true out tallied (kill_all_tasks pids w) refl (rw all at run)
      | inr one ↦ elim (Bool-cases (do_kill_signals_itself (pos_part id) w)) [
        | inl own ↦ let stuck : none ≡ some out = rw (one, own) at run in absurd (ground arith)
        | inr safe ↦
            moved (do_kill (pos_part id) w) out.2
              (handled (answer true (do_kill (pos_part id) w)) out (rw (one, safe) at run))
              (do_kill-IsTallied (pos_part id) w tallied (fair one))
      ]
    ]
handle_master-IsTallied size pids release w out tallied fair run =
    let w' = record w { released_by_master = true } in
    moved w' out.2 (handled (answer false w') out run) (
      Same-IsTallied w w'
        (record {
          taken_same = taken_of w w' refl refl refl refl;
          waiting = refl;
          active = refl;
          stored = refl;
          results = refl;
        })
        tallied)
handle_master-IsTallied size pids exit w out tallied fair run =
    moved w out.2 (handled (answer false w) out run) tallied
handle_master-IsTallied size pids check w out tallied fair run =
    moved w out.2 (handled (answer true w) out run) tallied
handle_master-IsTallied size pids (reset emptied) w out tallied fair run =
    emptying-IsTallied pids w emptied out tallied (kill_all_tasks pids w) refl run
handle_master-IsTallied size pids auth w out tallied fair run =
    moved w out.2 (handled (answer false w) out run) tallied
handle_master-IsTallied size pids (send_results n) w out tallied fair run =
    let r = report_tasks size n w in
    moved r.1 out.2 (handled (true, r.0, r.1) out run) (report_tasks-IsTallied size n w tallied)
handle_master-IsTallied size pids unrecognized w out tallied fair run =
    moved w out.2 (handled (answer false w) out run) tallied

Step-IsTallied : {w w' : Process} → Step w w' → IsTallied w → IsTallied w'
Step-IsTallied (turns launch measure n v w w' good e) tallied =
    subst IsTallied (sym e) (start_or_pass-IsTallied launch measure n v w tallied good)
Step-IsTallied (collects wait4 now r w w' run) tallied =
    let (r', w1, run', tallied', kept) = handle_tasks-Ends wait4 now w tallied in
    let same = ap (λ (x : Bool × Process). x.1) (some_inj (r', w1) (r, w') (sym run' ∙ run)) in
    moved w1 w' same tallied'
Step-IsTallied (obeys size pids c r sent w w' fair run) tallied =
    handle_master-IsTallied size pids c w (r, sent, w') tallied fair run

-- Along every run of a worker whose tables are in order they stay so: what is allocated of each resource
-- is exactly what the running tasks and the unsent results hold, no task is in two places, and every
-- stored task is active under the number of its process. In a run tasks are started, with whatever
-- measurement of the resources between, children end, and the master sends tasks, asks for results, kills
-- and resets. Its conditions: at every start `mkstemp` succeeds and `fork` fails or gives the number
-- of a new process; the master numbers tasks afresh, and kills none whose result is unsent; and
-- every message is one behind which the worker lives on and waits for no child in vain.
pub Run-IsTallied : {w w' : Process} → Run w w' → IsTallied w → IsTallied w'
Run-IsTallied (stay w) tallied = tallied
Run-IsTallied (go w w' w'' run step) tallied = Step-IsTallied step (Run-IsTallied run tallied)
