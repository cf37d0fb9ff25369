-- ===== src/WorkQueue/Steps/Loops.antt =====
-- The loops of the master are runs of its operations: what holds behind every run holds behind them.
use cyque.Prelude.{
  ℕ, ◌+◌, inl, inr, true, false, ◌&&◌, List, [], ◌∷◌, ltb, if◌then◌else◌, Bool-cases, Bytes,
}
use cyque.Prelude.Int.{ℤ, pos, ltb_ℤ}
use cyque.WorkQueue.Failure.{remove_worker, handle_worker_failure}
use cyque.WorkQueue.Master.{Pointer, Queue, no_tasks}
use cyque.WorkQueue.Receive.{
  Line, result_line, end_line, invalid_line, process_result, read_results,
  process_available_results, Fetching, receive_turn, receive_tasks,
}
use cyque.WorkQueue.Release.{shut_down_worker, shut_down_loop, shut_down_workers}
use cyque.WorkQueue.Start.{Sending, start_turn, start_tasks}
use cyque.WorkQueue.Steps.{Step, starts, hears, fetches, loses, Run, done, more}
use cyque.WorkQueue.Task.{File}
use cyque.WorkQueue.Transfer.{is_success}

module _ {make_cached_name : File → Bytes} where
  pub Run-trans :
      {q q' q'' : Queue}
      → Run make_cached_name q q'
      → Run make_cached_name q' q''
      → Run make_cached_name q q''
  Run-trans run done = run
  Run-trans run (more rest step) = more (Run-trans run rest) step

  begins :
      {q q' q'' : Queue}
      → Step make_cached_name q q'
      → Run make_cached_name q' q''
      → Run make_cached_name q q''
  begins step run = Run-trans (more done step) run

  start_tasks-Run :
      (turns : List (ℕ × Sending)) (q : Queue)
      → Run make_cached_name q (start_tasks make_cached_name turns q).1
  unfolding start_tasks
  start_tasks-Run [] q = done
  start_tasks-Run ((rand, x) ∷ turns) q =
      let turn = start_turn make_cached_name rand x q in
      let step : Step make_cached_name q turn.1 = starts rand x in
      elim (Bool-cases turn.0) [
        | inl e ↦ rw e (begins step (start_tasks-Run turns turn.1))
        | inr e ↦ rw e (more done step)
      ]

  receive_tasks-Run :
      (xs : List Fetching) (q : Queue)
      → Run make_cached_name q (receive_tasks make_cached_name xs q)
  unfolding receive_tasks
  receive_tasks-Run [] q = done
  receive_tasks-Run (x ∷ xs) q =
      begins (fetches x) (receive_tasks-Run xs (receive_turn make_cached_name x q))

  read_results-Run :
      (q : Queue) (wp : Pointer) (lines : List Line) (i : ℕ)
      → Run make_cached_name q (read_results q wp lines i).2
  unfolding read_results
  read_results-Run q wp [] i = done
  read_results-Run q wp (end_line ∷ lines) i = done
  read_results-Run q wp (invalid_line ∷ lines) i = done
  read_results-Run q wp (result_line m ∷ lines) i =
      let heard = process_result q wp m in
      let step : Step make_cached_name q heard.1 = hears wp m in
      elim (Bool-cases (is_success heard.0)) [
        | inl e ↦ rw e (begins step (read_results-Run heard.1 wp lines (i + 1)))
        | inr e ↦ rw e (more done step)
      ]

  process_available_results-Run :
      (now : Pointer → ℕ) (max_count : ℤ) (q : Queue) (wp : Pointer) (lines : List Line)
      → Run make_cached_name q (process_available_results now max_count q wp lines)
  unfolding process_available_results handle_worker_failure
  process_available_results-Run now max_count q wp lines =
      let read = read_results q wp lines 0 in
      let run = read_results-Run q wp lines 0 in
      let disobeyed = ltb_ℤ (pos 0) max_count && ltb_ℤ max_count (pos read.1) in
      elim (Bool-cases (is_success read.0 && (if disobeyed then false else true))) [
        | inl e ↦ rw e run
        | inr e ↦ rw e (more run (loses now wp))
      ]

  shut_down_workers-Run :
      (now : Pointer → ℕ) (n i : ℕ) (wps : List Pointer) (q : Queue)
      → Run make_cached_name q (shut_down_loop now n i wps q).1
  unfolding shut_down_loop shut_down_worker
  shut_down_workers-Run now n i [] q = done
  shut_down_workers-Run now n i (wp ∷ wps) q =
      let gone : Run make_cached_name q (remove_worker now q wp) = more done (loses now wp) in
      let kept = shut_down_workers-Run now n i wps q in
      elim (Bool-cases (ltb i n)) [
        | inl e ↦ elim (Bool-cases (no_tasks (q.worker wp))) [
          | inl idle ↦ rw (e, idle) gone
          | inr busy ↦ rw (e, busy) kept
        ]
        | inr e ↦ rw e done
      ]

-- The loop that starts tasks, the loop that fetches outputs, the loop that reads the results of a worker
-- and the one that shuts down workers without tasks are each a run of the master's operations, from any queue, however many turns the time allows
-- and whatever each turn meets.
pub loops-Run :
    (make_cached_name : File → Bytes) (q : Queue)
    → ((turns : List (ℕ × Sending))
        → Run make_cached_name q (start_tasks make_cached_name turns q).1)
      × ((xs : List Fetching) → Run make_cached_name q (receive_tasks make_cached_name xs q))
      × ((now : Pointer → ℕ) (max_count : ℤ) (wp : Pointer) (lines : List Line)
          → Run make_cached_name q (process_available_results now max_count q wp lines))
      × ((now : Pointer → ℕ) (n : ℕ) → Run make_cached_name q (shut_down_workers now n q).1)
unfolding shut_down_workers
loops-Run make_cached_name q = (
  λ turns. start_tasks-Run turns q,
  λ xs. receive_tasks-Run xs q,
  λ now max_count wp lines. process_available_results-Run now max_count q wp lines,
  λ now n. shut_down_workers-Run now n 0 q.worker_table q,
)
