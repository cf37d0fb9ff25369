-- ===== src/Process/Tally/Rounds.antt =====
-- `handle_tasks` comes to an end, and loses no task.
use cyque.Prelude.{
  ℕ, zero, suc, ◌+◌, ◌≡◌, ◌<◌, refl, sym, ap, ◌∙◌, inl, inr, Option, [], ◌∷◌, none, some, Bool,
  true, false, arith, ◌==◌, ==_iff, All, Bool-cases, length,
}
use cyque.Prelude.Int.{pos_part}
use cyque.Tables.Chain.{find, Distinct, length-unlink}
use cyque.Tables.Itable.{uint64_key}
use cyque.Process.{TaskInfo, Infos, Process}
use cyque.Process.Collect.{
  Wait, still, wrong, exited, signalled, task_ended, on_wait, walk, handle_from, handle_tasks,
}
use cyque.Process.Served.{Amount, taken}
use cyque.Process.Tally.{times, IsTallied, IsRunning}
use cyque.Process.Tally.Entries.{times-unlink, times-insert}
use cyque.Process.Tally.Flags.{taken_of, Same-IsTallied}
use cyque.Process.Tally.Moves.{task_ended-IsTallied, no_result, taken-task_ended}

-- Every task that ran runs still or has its result kept, and nothing is given back or taken.
pub record Kept (w w' : Process) : Type 0 where
  pub tasks :
      (id : ℕ)
      → times id w'.active_tasks + times id w'.results_to_be_sent
        ≡ times id w.active_tasks + times id w.results_to_be_sent
  pub allocated : (k : Amount) → taken k w' ≡ taken k w
  pub waiting : w'.waiting_tasks ≡ w.waiting_tasks

-- It ends, with the tables in order.
abbrev pub Ends : Option (Bool × Process) → Process → Type 0
Ends o w = (r : Bool) × (w' : Process) × (o ≡ some (r, w')) × IsTallied w' × Kept w w'

Kept-trans : (a b c : Process) → Kept a b → Kept b c → Kept a c
Kept-trans a b c h k = record {
  tasks = λ id. Kept.tasks k id ∙ Kept.tasks h id;
  allocated = λ x. Kept.allocated k x ∙ Kept.allocated h x;
  waiting = Kept.waiting k ∙ Kept.waiting h;
}

task_ended-Kept :
    (status now : ℕ) (w : Process) (ti : TaskInfo)
    → IsTallied w
    → find (pos_part ti.pid) w.active_tasks ≡ some ti
    → Kept w (task_ended status now w ti)
      × (suc (length (task_ended status now w ti).active_tasks) ≡ length w.active_tasks)
unfolding task_ended
task_ended-Kept status now w ti tallied here =
    let new = record ti { status = status; execution_end = now } in
    let out = no_result w tallied ti here in
    (
      record {
        tasks = λ id.
            let less = times-unlink id (pos_part ti.pid) ti w.active_tasks here in
            let more = times-insert ti.taskid new w.results_to_be_sent out id in omega arith;
        allocated = λ k. taken-task_ended w tallied ti here k status now;
        waiting = refl;
      },
      sym (length-unlink (pos_part ti.pid) ti w.active_tasks here),
    )

-- every entry of `m` is found in the table of active tasks
abbrev Found : Infos → Infos → Type 0
Found active m = All (λ e. find (pos_part e.1.pid) active ≡ some e.1) m

Found-behind :
    (j : ℕ) (x : TaskInfo) (m l : Infos) → find j m ≡ none → Found m l → Found ((j, x) ∷ m) l
unfolding find
Found-behind j x m [] out h = tt
Found-behind j x m ((i, y) ∷ l) out h = (
  elim (Bool-cases (pos_part y.pid == j)) [
    | inr e ↦ rw e h.0
    | inl e ↦
        let both : none ≡ some y =
          sym out ∙ sym (ap (λ k. find k m) ((==_iff (pos_part y.pid) j).0 e)) ∙ h.0 in
        absurd (ground arith)
  ],
  Found-behind j x m l out h.1,
)

Found-all : (m : Infos) → Distinct m → All IsRunning m → Found m m
unfolding find
Found-all [] d h = tt
Found-all ((j, x) ∷ m) (out, d) (((pid, positive, up)), h) =
    let key : pos_part x.pid ≡ j = ground arith in
    let same : (pos_part x.pid == j) ≡ true = (==_iff (pos_part x.pid) j).1 key in
    (rw same refl, Found-behind j x m m out (Found-all m d h))

module _ (wait4 : ℕ → TaskInfo → Wait) (now : ℕ → ℕ) where
  -- a round goes on with fewer active tasks
  again-Ends :
      (walks call status : ℕ) (w : Process) (ti : TaskInfo)
      → ((call : ℕ) (w : Process)
          → IsTallied w
          → length w.active_tasks < walks
          → Ends (handle_from wait4 now walks call w) w)
      → IsTallied w
      → find (pos_part ti.pid) w.active_tasks ≡ some ti
      → length w.active_tasks < suc walks
      → Ends (handle_from wait4 now walks (suc call) (task_ended status (now call) w ti)) w
  again-Ends walks call status w ti ih tallied here enough =
      let w1 = task_ended status (now call) w ti in
      let (kept, shorter) = task_ended-Kept status (now call) w ti tallied here in
      let (r, w', run, tallied', kept') =
        ih (suc call) w1 (task_ended-IsTallied w tallied ti here status (now call)) (omega arith) in
      (r, w', run, tallied', Kept-trans w w1 w' kept kept')

  walk-Ends :
      (walks call : ℕ) (w : Process) (m : Infos)
      → ((call : ℕ) (w : Process)
          → IsTallied w
          → length w.active_tasks < walks
          → Ends (handle_from wait4 now walks call w) w)
      → IsTallied w
      → Found w.active_tasks m
      → length w.active_tasks < suc walks
      → Ends (walk wait4 now (handle_from wait4 now walks) call w m) w
  unfolding walk on_wait
  walk-Ends walks call w [] ih tallied found enough =
      (true, w, refl, tallied, record { tasks = λ id. refl; allocated = λ k. refl; waiting = refl })
  walk-Ends walks call w ((key, ti) ∷ m) ih tallied found enough =
      by_answer (wait4 call ti) (walk-Ends walks (suc call) w m ih tallied found.1 enough)
    where
      by_answer :
          (a : Wait)
          → Ends (walk wait4 now (handle_from wait4 now walks) (suc call) w m) w
          → Ends
              (on_wait wait4 now
                (handle_from wait4 now walks)
                (walk wait4 now (handle_from wait4 now walks) (suc call) w m)
                call
                w
                ti
                a)
              w
      by_answer still rest = rest
      by_answer wrong rest =
          let w' = record w { abort_flag = true } in
          (
            false,
            w',
            refl,
            Same-IsTallied w w'
                (record {
                  taken_same = taken_of w w' refl refl refl refl;
                  waiting = refl;
                  active = refl;
                  stored = refl;
                  results = refl;
                })
                tallied,
            record {
              tasks = λ id. refl;
              allocated = taken_of w w' refl refl refl refl;
              waiting = refl;
            },
          )
      by_answer (exited status) rest = again-Ends walks call status w ti ih tallied found.0 enough
      by_answer (signalled signal) rest =
          again-Ends walks call signal w ti ih tallied found.0 enough

  handle_from-Ends :
      (walks call : ℕ) (w : Process)
      → IsTallied w
      → length w.active_tasks < walks
      → Ends (handle_from wait4 now walks call w) w
  unfolding handle_from
  handle_from-Ends zero call w tallied enough = absurd (omega arith)
  handle_from-Ends (suc walks) call w tallied enough =
      walk-Ends walks call w w.active_tasks (handle_from-Ends walks) tallied
        (Found-all w.active_tasks (IsTallied.distinct tallied) (IsTallied.running tallied)) enough

  -- If the tables of a worker are in order, then `handle_tasks` ends, whatever `wait4` answers; the
  -- tables are in order behind it, every task that ran or had a result does so still, as often as
  -- before, no waiting task is touched, and what is allocated stays allocated until results are sent.
  pub handle_tasks-Ends : (w : Process) → IsTallied w → Ends (handle_tasks wait4 now w) w
  unfolding handle_tasks
  handle_tasks-Ends w tallied =
      handle_from-Ends (suc (length w.active_tasks)) 0 w tallied (omega arith)
