-- ===== src/Process/Collect.antt =====
-- Children that have ended: `handle_tasks` of work_queue_worker.c. The links to the output files are
-- left out.
use cyque.Prelude.{ℕ, zero, suc, Bool, true, false, Option, none, some, [], ◌∷◌, length}
use cyque.Prelude.Int.{pos_part}
use cyque.Tables.Chain.{unlink}
use cyque.Tables.Itable.{uint64_key}
use cyque.Process.{TaskInfo, Infos, Process, info_insert}

-- What `wait4` says of a child: it runs, there is an error, or it ended with a status, by itself or by
-- a signal.
pub data Wait : Type 0 where
  still wrong : Wait
  exited signalled : ℕ → Wait

-- `ti` ended with `status`, at `now`
unfoldable pub task_ended : ℕ → ℕ → Process → TaskInfo → Process
task_ended status now w ti =
    let ti' = record ti { status = status; execution_end = now } in
    record w {
      active_tasks = unlink (pos_part ti.pid) w.active_tasks;
      stored_tasks = unlink ti.taskid w.stored_tasks;
      results_to_be_sent = info_insert ti.taskid ti' w.results_to_be_sent;
    }

-- the calls of `wait4` are numbered, and each has an answer and a time
module _ (wait4 : ℕ → TaskInfo → Wait) (now : ℕ → ℕ) where
  -- Each answer in turn; `rest` goes on with the next entry, `again` with the first one of what is
  -- active then. The results are the return value and the worker.
  unfoldable pub on_wait :
      (ℕ → Process → Option (Bool × Process))
      → Option (Bool × Process)
      → ℕ
      → Process
      → TaskInfo
      → Wait
      → Option (Bool × Process)
  on_wait again rest call w ti still = rest
  on_wait again rest call w ti wrong = some (false, record w { abort_flag = true })
  on_wait again rest call w ti (exited status) =
      again (suc call) (task_ended status (now call) w ti)
  on_wait again rest call w ti (signalled signal) =
      again (suc call) (task_ended signal (now call) w ti)

  -- the walk over the entries that `itable_nextkey` still gives
  unfoldable pub walk :
      (ℕ → Process → Option (Bool × Process)) → ℕ → Process → Infos → Option (Bool × Process)
  walk again call w [] = some (true, w)
  walk again call w ((key, ti) ∷ m) =
      on_wait again (walk again (suc call) w m) call w ti (wait4 call ti)

  -- `itable_firstkey` and the walk behind it; none when more walks are begun than granted
  unfoldable pub handle_from : ℕ → ℕ → Process → Option (Bool × Process)
  handle_from zero call w = none
  handle_from (suc walks) call w = walk (handle_from walks) call w w.active_tasks

  -- each walk but the last ends with a task that is active no more
  unfoldable pub handle_tasks : Process → Option (Bool × Process)
  handle_tasks w = handle_from (suc (length w.active_tasks)) 0 w
