-- ===== src/Process/Kill.antt =====
-- Tasks that the master takes back: `kill_task`, `do_kill`, `kill_all_tasks`, `do_reset`,
-- `do_release`, and the messages of `handle_master` that reach the task tables. Of the signals,
-- those that reach the worker itself are modelled; what they do to a child shows in what `wait`
-- returns. The directories of the tasks and their output files are left out.
use mathlib.Core.Option
use cyque.Prelude.{
  ◌==◌, length, ℕ, Bool, true, false, Option, none, some, List, [], ◌∷◌, ◌++◌, is_some,
  if◌then◌else◌, ◌||◌, ◌&&◌, not,
}
use cyque.Prelude.Int.{ℤ, pos, pos_part, ltb_ℤ}
use cyque.Tables.Chain.{find, unlink}
use cyque.Tables.Itable.{uint64_key}
use cyque.Process.{TaskInfo, Infos, Process}
use cyque.Process.Report.{Reply, given_back, report_tasks}
use cyque.WorkQueue.Task.{Task}

-- whether `kill(-1 * ti->pid, SIGKILL)` is `kill(0, SIGKILL)`, for the process group of the worker
abbrev pub is_own_group : TaskInfo → Bool
is_own_group ti = if ltb_ℤ ti.pid (pos 0) then false else not (ltb_ℤ (pos 0) ti.pid)

-- `kill_task` behind its signal
unfoldable pub kill_task : Process → TaskInfo → Process
unfolding given_back
kill_task w ti = given_back ti.task (record w {
  stored_tasks = unlink ti.taskid w.stored_tasks;
  active_tasks = unlink (pos_part ti.pid) w.active_tasks;
})

-- `do_kill` behind the lookup of the task
unfoldable pub kill_stored : ℕ → Process → Option TaskInfo → Process
kill_stored taskid w none = w
kill_stored taskid w (some ti) =
    if is_some (find (pos_part ti.pid) w.active_tasks)
    then kill_task w ti
    else record w { stored_tasks = unlink taskid w.stored_tasks }

unfoldable pub do_kill : ℕ → Process → Process
do_kill taskid w =
    kill_stored taskid (record w { results_to_be_sent = unlink taskid w.results_to_be_sent })
      (find taskid w.stored_tasks)

-- whether `kill_task` is called, and its signal is for the worker itself
unfoldable pub do_kill_signals_itself : ℕ → Process → Bool
do_kill_signals_itself taskid w = elim (find taskid w.stored_tasks) [
  | none ↦ false
  | some ti ↦ is_some (find (pos_part ti.pid) w.active_tasks) && is_own_group ti
]

-- every entry is popped
unfoldable pub do_reset_results_to_be_sent : Process → Process
do_reset_results_to_be_sent w = record w { results_to_be_sent_msg = false; results_to_be_sent = [] }

-- a child that `wait(0)` returned, and its task, if it had one
unfoldable pub reaped : ℕ → Process → Option TaskInfo → Process
reaped pid w none = w
reaped pid w (some ti) = record w {
  active_tasks = unlink pid w.active_tasks;
  stored_tasks = unlink ti.taskid w.stored_tasks;
}

-- The loop over what `wait(0)` returns, as keys: none when it waits for a child beyond these.
unfoldable pub reap_loop : List ℕ → Process → Option Process
reap_loop [] w = if length w.active_tasks == 0 then some w else none
reap_loop (pid ∷ pids) w =
    let rest = reap_loop pids (reaped pid w (find pid w.active_tasks)) in
    if length w.active_tasks == 0 then some w else rest

-- the end of `kill_all_tasks`
unfoldable pub cleared : Process → Process
cleared w = record w {
  stored_tasks = [];
  cores_allocated = pos 0;
  memory_allocated = pos 0;
  disk_allocated = pos 0;
  gpus_allocated = pos 0;
}

-- the walk that sends the signals: whether one of them is for the worker itself
unfoldable pub signals_itself : Infos → Bool
signals_itself [] = false
signals_itself (e ∷ m) = is_own_group e.1 || signals_itself m

-- None when the worker does not come behind it: its own signal has killed it, or it waits for a child
-- beyond `pids`.
unfoldable pub kill_all_tasks : List ℕ → Process → Option Process
unfolding signals_itself
kill_all_tasks pids w =
    let w' = do_reset_results_to_be_sent w in
    if signals_itself w'.active_tasks then none else Option.map cleared (reap_loop pids w')

-- The end of `do_task`: a task has been received, and its input files could be linked or not.
unfoldable pub do_task : Task → Bool → Process → Bool × Process
do_task t linked w =
    let w' = record w { last_task_received = pos t.taskid } in
    (linked, if linked then record w' { waiting_tasks = w.waiting_tasks ++ (t ∷ []) } else w')

-- The messages of the master. A task is none if one of its lines is invalid. The messages that move
-- files come with what their handlers return, and a reset with whether the workspace was emptied.
pub data Command : Type 0 where
  task : Option Task → Bool → Command
  transfer : Bool → Command
  kill : ℤ → Command
  release exit check : Command
  reset : Bool → Command
  auth : Command
  send_results : ℤ → Command
  unrecognized : Command

-- what a handler returns: its value, what it sends, and the worker
abbrev pub Handled : Type 0
Handled = Bool × List Reply × Process

module _ (size : Option ℕ → ℕ) (pids : List ℕ) where
  -- the branches of `handle_master`; none when the worker does not come behind a signal or `kill_all_tasks`
  unfoldable pub handle_master : Process → Command → Option Handled
  unfolding do_task
  handle_master w (task none linked) = some (false, [], w)
  handle_master w (task (some t) linked) = let (r, w') = do_task t linked w in some (r, [], w')
  handle_master w (transfer r) = some (r, [], w)
  handle_master w (kill taskid) =
      if ltb_ℤ taskid (pos 0)
      then Option.map (λ w'. (true, [], w')) (kill_all_tasks pids w)
      else if do_kill_signals_itself (pos_part taskid) w
      then none
      else some (true, [], do_kill (pos_part taskid) w)
  handle_master w release = some (false, [], record w { released_by_master = true })
  handle_master w exit = some (false, [], w)
  handle_master w check = some (true, [], w)
  handle_master w (reset emptied) = Option.map (λ w'. (emptied, [], w')) (kill_all_tasks pids w)
  handle_master w auth = some (false, [], w)
  handle_master w (send_results n) = let (sent, w') = report_tasks size n w in some (true, sent, w')
  handle_master w unrecognized = some (false, [], w)
