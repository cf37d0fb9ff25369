-- ===== src/Process/Tally/Sent.antt =====
-- Results that are sent: which, in which order, and what is allocated behind them.
use mathlib.Core.Path.{subst}
use cyque.Prelude.{
  ℕ, zero, suc, ◌+◌, ◌≡◌, refl, ap, ◌∙◌, inl, inr, Option, List, [], ◌∷◌, ◌++◌, some, false, arith,
  ◌==◌, ==_iff, if◌then◌else◌, All, Bool-cases, take, drop, length,
}
use cyque.Prelude.Int.{ℤ, pos, pos_part, ◌-ℤ◌, ◌≤ℤ◌, ltb_ℤ}
use cyque.Tables.Chain.{unlink}
use cyque.Tables.Itable.{uint64_key}
use cyque.Process.{TaskInfo, Infos, Process}
use cyque.Process.Report.{
  Reply, end, no_pid, given_back, result_of, report_task_complete, itable_pop, report_turn,
  report_loop, report_tasks,
}
use cyque.Process.Served.{Amount, of_cores, of_memory, of_disk, of_gpus, taken, wanted}
use cyque.Process.Tally.{held_by, held, times, IsResult, IsTallied}
use cyque.Process.Tally.Moves.{less_by}

pop_first : (key : ℕ) (ti : TaskInfo) (m : Infos) → itable_pop ((key, ti) ∷ m) ≡ some (ti, m)
unfolding itable_pop unlink
pop_first key ti m = let same = (==_iff key key).1 refl in rw same refl

module _ (size : Option ℕ → ℕ) where
  -- what the worker is behind one report
  abbrev pub sent_one : Process → TaskInfo → Infos → Process
  sent_one w ti m = (report_task_complete size (record w { results_to_be_sent = m }) ti).1

  report_loop_first :
      (n key : ℕ) (ti : TaskInfo) (m : Infos) (w : Process)
      → w.results_to_be_sent ≡ (key, ti) ∷ m
      → report_loop size (suc n) w ≡ (
        result_of size ti ∷ (report_loop size n (sent_one w ti m)).0,
        (report_loop size n (sent_one w ti m)).1,
      )
  unfolding report_loop report_turn report_task_complete
  report_loop_first n key ti m w e =
      ap (λ r. report_turn size (report_loop size n) w (itable_pop r)) e
      ∙ ap (report_turn size (report_loop size n) w) (pop_first key ti m)

  report_loop_empty :
      (n : ℕ) (w : Process) → w.results_to_be_sent ≡ [] → report_loop size n w ≡ ([], w)
  unfolding report_loop report_turn itable_pop
  report_loop_empty zero w e = refl
  report_loop_empty (suc n) w e = ap (λ r. report_turn size (report_loop size n) w (itable_pop r)) e

  sent_one_frame :
      (w : Process) (ti : TaskInfo) (m : Infos)
      → ((sent_one w ti m).results_to_be_sent ≡ m)
        × ((sent_one w ti m).total_tasks_executed ≡ w.total_tasks_executed + 1)
        × ((sent_one w ti m).active_tasks ≡ w.active_tasks)
        × ((sent_one w ti m).stored_tasks ≡ w.stored_tasks)
        × ((sent_one w ti m).waiting_tasks ≡ w.waiting_tasks)
        × ((sent_one w ti m).results_to_be_sent_msg ≡ w.results_to_be_sent_msg)
  unfolding report_task_complete given_back
  sent_one_frame w ti m = elim (Bool-cases (no_pid ti)) [
    | inl e ↦ rw e (refl, refl, refl, refl, refl, refl)
    | inr e ↦ rw e (refl, refl, refl, refl, refl, refl)
  ]

  abbrev pub results_of : Infos → List Reply
  results_of [] = []
  results_of (e ∷ m) = result_of size e.1 ∷ results_of m

  report_loop_lem :
      (n : ℕ) (w : Process) (l : Infos)
      → w.results_to_be_sent ≡ l
      → let r = report_loop size n w in
        (r.0 ≡ results_of (take n l))
        × ((r.1).results_to_be_sent ≡ drop n l)
        × ((r.1).total_tasks_executed ≡ w.total_tasks_executed + length (take n l))
        × ((r.1).results_to_be_sent_msg ≡ w.results_to_be_sent_msg)
  unfolding report_loop
  report_loop_lem zero w l e = (refl, e, omega arith, refl)
  report_loop_lem (suc n) w [] e = rw (report_loop_empty (suc n) w e) (refl, e, omega arith, refl)
  report_loop_lem (suc n) w ((key, ti) ∷ m) e =
      let (left, one, active, stored, waiting, flag) = sent_one_frame w ti m in
      let (msgs, rest, executed, again) = report_loop_lem n (sent_one w ti m) m left in
      rw (report_loop_first n key ti m w e)
        (ap (λ x. result_of size ti ∷ x) msgs, rest, executed ∙ omega arith, again ∙ flag)

  -- how many results are sent of the number that the master asks for: all, if it is negative
  abbrev pub asked : ℤ → Infos → ℕ
  asked n m = if ltb_ℤ n (pos 0) then length m else pos_part n

  -- A request for a number of results, or for all of them, sends that many from the start of the
  -- table, in its order and each once, and then the end; exactly those leave the table and are counted
  -- as executed; and only if none is left is the flag of announced results reset.
  pub report_tasks-Sends :
      (n : ℤ) (w : Process)
      → let r = report_tasks size n w in
        let l = w.results_to_be_sent in
        (r.0 ≡ results_of (take (asked n l) l) ++ (end ∷ []))
        × ((r.1).results_to_be_sent ≡ drop (asked n l) l)
        × ((r.1).total_tasks_executed ≡ w.total_tasks_executed + length (take (asked n l) l))
        × ((r.1).results_to_be_sent_msg
            ≡ (if length (drop (asked n l) l) == 0 then false else w.results_to_be_sent_msg))
  unfolding report_tasks
  report_tasks-Sends n w =
      let l = w.results_to_be_sent in
      let (msgs, rest, executed, flag) = report_loop_lem (asked n l) w l refl in
      (ap (λ x. x ++ (end ∷ [])) msgs, rest, executed, rw (rest, flag) refl)

  taken-sent_one :
      (k : Amount) (w : Process) (ti : TaskInfo) (m : Infos)
      → taken k (sent_one w ti m)
        ≡ (if no_pid ti then taken k w else (taken k w -ℤ wanted k ti.task))
  unfolding report_task_complete given_back
  taken-sent_one of_cores w ti m = ground arith
  taken-sent_one of_memory w ti m = ground arith
  taken-sent_one of_disk w ti m = ground arith
  taken-sent_one of_gpus w ti m = ground arith

  sent_one-IsTallied :
      (w : Process) (key : ℕ) (ti : TaskInfo) (m : Infos)
      → IsTallied w
      → w.results_to_be_sent ≡ (key, ti) ∷ m
      → IsTallied (sent_one w ti m)
  unfolding held times
  sent_one-IsTallied w key ti m tallied e =
      let (left, one, active, stored, waiting, flag) = sent_one_frame w ti m in
      let all = subst (λ (l : Infos). All IsResult l) e (IsTallied.results tallied) in
      record {
        sums = λ k.
            taken-sent_one k w ti m
            ∙ sum_one k (taken k w) (held k w.active_tasks) (held k m) ti
                (IsTallied.sums tallied k ∙ ap (λ l. pos (held k w.active_tasks + held k l)) e)
                (all.0.1 k)
            ∙ ap pos (rw (left, active) refl);
        once = λ id.
            let most = IsTallied.once tallied id in
            let first = ap (times id) e in rw (left, active, waiting) (omega arith);
        running = rw active (IsTallied.running tallied);
        results = rw left all.1;
        distinct = rw active (IsTallied.distinct tallied);
        distinct_stored = rw stored (IsTallied.distinct_stored tallied);
        stored = rw (stored, active) (IsTallied.stored tallied);
      }
    where
      sum_one :
          (k : Amount) (a : ℤ) (x y : ℕ) (ti : TaskInfo)
          → a ≡ pos (x + (held_by k ti + y))
          → pos 0 ≤ℤ wanted k ti.task
          → (if no_pid ti then a else (a -ℤ wanted k ti.task)) ≡ pos (x + y)
      sum_one k a x y ti e up = elim (Bool-cases (no_pid ti)) [
        | inl on ↦ let same : held_by k ti ≡ 0 = rw on refl in rw on (e ∙ ap pos (omega arith))
        | inr off ↦
            let by : held_by k ti ≡ pos_part (wanted k ti.task) = rw off refl in
            rw off
              (less_by a (wanted k ti.task) (x + (held_by k ti + y)) (x + y) e up (omega arith))
      ]

  pub report_loop-IsTallied :
      (n : ℕ) (w : Process) (l : Infos)
      → IsTallied w
      → w.results_to_be_sent ≡ l
      → IsTallied (report_loop size n w).1
  unfolding report_loop
  report_loop-IsTallied zero w l tallied e = tallied
  report_loop-IsTallied (suc n) w [] tallied e = rw (report_loop_empty (suc n) w e) tallied
  report_loop-IsTallied (suc n) w ((key, ti) ∷ m) tallied e =
      rw (report_loop_first n key ti m w e) (
        report_loop-IsTallied n (sent_one w ti m) m (sent_one-IsTallied w key ti m tallied e)
          (sent_one_frame w ti m).0)
