-- ===== src/Process/Tally/Moves.antt =====
-- The steps of a task through the tables keep the invariant: it waits, runs, ends or is killed, and
-- its result is sent.
use cyque.Prelude.{
  some_inj, ℕ, ◌+◌, ◌-◌, ◌≡◌, ◌<◌, refl, sym, ap, ◌∙◌, inl, inr, [], ◌∷◌, none, some, false, arith,
  ◌==◌, ==_iff, All, Bool-cases,
}
use cyque.Prelude.Int.{ℤ, pos, pos_part, ◌-ℤ◌, ◌≤ℤ◌, -ℤ-pos}
use cyque.Tables.Chain.{find, unlink, Distinct, find-unlink, Distinct-unlink}
use cyque.Tables.Itable.{uint64_key}
use cyque.Process.{TaskInfo, Infos, Process, info_insert}
use cyque.Process.Collect.{task_ended}
use cyque.Process.Kill.{kill_task}
use cyque.Process.Report.{no_pid, given_back}
use cyque.Process.Served.{Amount, of_cores, of_memory, of_disk, of_gpus, taken, wanted}
use cyque.Process.Tally.{held_by, held, IsRunning, IsResult, IsTallied}
use cyque.Process.Tally.Entries.{
  held-unlink, times-unlink, All-unlink, All-find, times-absent, times-found, held-insert,
  times-insert, All-insert,
}
use cyque.WorkQueue.Task.{Task}

-- every stored task is active
abbrev pub StoredIn : Infos → Infos → Type 0
StoredIn stored active =
    (id : ℕ) (ti : TaskInfo)
    → find id stored ≡ some ti
    → (ti.taskid ≡ id) × (find (pos_part ti.pid) active ≡ some ti)

-- one active task leaves both tables
stored-unlink :
    (stored active : Infos) (ti : TaskInfo)
    → Distinct stored
    → Distinct active
    → find (pos_part ti.pid) active ≡ some ti
    → StoredIn stored active
    → StoredIn (unlink ti.taskid stored) (unlink (pos_part ti.pid) active)
stored-unlink stored active ti d d' here all id x e =
    let at = find-unlink ti.taskid id stored d in
    elim (Bool-cases (id == ti.taskid)) [
      | inl on ↦ let gone : none ≡ some x = sym (rw on at at) ∙ e in absurd (ground arith)
      | inr off ↦
          let (named, active_at) = all id x (sym (rw off at at) ∙ e) in
          let at' = find-unlink (pos_part ti.pid) (pos_part x.pid) active d' in
          elim (Bool-cases (pos_part x.pid == pos_part ti.pid)) [
            | inr other ↦ (named, rw other at at' ∙ active_at)
            | inl same ↦
                let both =
                  sym (ap (λ y. find y active) ((==_iff (pos_part x.pid) (pos_part ti.pid)).0 same))
                  ∙ active_at in
                let eq = some_inj x ti (sym both ∙ here) in
                let number : id ≡ ti.taskid = sym named ∙ ap (λ y. y.taskid) eq in
                absurd (ground arith)
          ]
    ]

-- The parts of the invariant that its tables do not fix.
module _ (w : Process) (tallied : IsTallied w) (ti : TaskInfo)
    (here : find (pos_part ti.pid) w.active_tasks ≡ some ti) where
  IsRunning-at : IsRunning (pos_part ti.pid, ti)
  IsRunning-at =
      All-find IsRunning (pos_part ti.pid) ti w.active_tasks (IsTallied.running tallied) here

  -- the result of a task that runs is not there yet
  pub no_result : find ti.taskid w.results_to_be_sent ≡ none
  no_result =
      let one = times-found ti.taskid (pos_part ti.pid) ti w.active_tasks here refl in
      let most = IsTallied.once tallied ti.taskid in
      times-absent ti.taskid w.results_to_be_sent
        (named w.results_to_be_sent (IsTallied.results tallied)) (omega arith)
    where
      named : (m : Infos) → All IsResult m → All (λ e. e.1.taskid ≡ e.0) m
      named [] h = tt
      named (e ∷ m) h = (h.0.0, named m h.1)

  pub taken-task_ended :
      (k : Amount) (status now : ℕ) → taken k (task_ended status now w ti) ≡ taken k w
  unfolding task_ended
  taken-task_ended of_cores status now = refl
  taken-task_ended of_memory status now = refl
  taken-task_ended of_disk status now = refl
  taken-task_ended of_gpus status now = refl

  pub task_ended-IsTallied : (status now : ℕ) → IsTallied (task_ended status now w ti)
  unfolding task_ended no_pid
  task_ended-IsTallied status now =
      let new = record ti { status = status; execution_end = now } in
      let out = no_result in
      record {
        sums = λ k.
            let less = held-unlink k (pos_part ti.pid) ti w.active_tasks here in
            let more : held k (info_insert ti.taskid new w.results_to_be_sent)
                ≡ held_by k ti + held k w.results_to_be_sent =
              held-insert ti.taskid new w.results_to_be_sent out k in
            let all : held k w.active_tasks + held k w.results_to_be_sent
                ≡ held k (unlink (pos_part ti.pid) w.active_tasks)
                  + held k (info_insert ti.taskid new w.results_to_be_sent) =
              omega arith in
            taken-task_ended k status now ∙ IsTallied.sums tallied k ∙ ap pos all;
        once = λ id.
            let most = IsTallied.once tallied id in
            let less = times-unlink id (pos_part ti.pid) ti w.active_tasks here in
            let more = times-insert ti.taskid new w.results_to_be_sent out id in omega arith;
        running = All-unlink IsRunning (pos_part ti.pid) w.active_tasks (IsTallied.running tallied);
        results =
            All-insert ti.taskid new w.results_to_be_sent out IsResult (refl, IsRunning-at.2)
              (IsTallied.results tallied);
        distinct = Distinct-unlink (pos_part ti.pid) w.active_tasks (IsTallied.distinct tallied);
        distinct_stored =
            Distinct-unlink ti.taskid w.stored_tasks (IsTallied.distinct_stored tallied);
        stored =
            stored-unlink w.stored_tasks w.active_tasks ti (IsTallied.distinct_stored tallied)
              (IsTallied.distinct tallied) here (IsTallied.stored tallied);
      }

-- a number of at least 0 is taken off a sum that holds it
pub less_by : (a u : ℤ) (n h : ℕ) → a ≡ pos n → pos 0 ≤ℤ u → pos_part u + h ≡ n → a -ℤ u ≡ pos h
less_by a u n h e up parts =
    let whole : u ≡ pos (pos_part u) = ground arith in
    let back = -ℤ-pos n (pos_part u) (omega arith) in
    let rest : n - pos_part u ≡ h = omega arith in rw (e, whole) (back ∙ ap pos rest)

taken-given_back :
    (k : Amount) (t : Task) (w : Process) → taken k (given_back t w) ≡ taken k w -ℤ wanted k t
unfolding given_back
taken-given_back of_cores t w = refl
taken-given_back of_memory t w = refl
taken-given_back of_disk t w = refl
taken-given_back of_gpus t w = refl

pub has_pid : (ti : TaskInfo) (n : ℕ) → ti.pid ≡ pos n → 0 < n → no_pid ti ≡ false
unfolding no_pid
has_pid ti n e positive = ground arith

taken-tables :
    (k : Amount) (w : Process) (s a : Infos)
    → taken k (record w { stored_tasks = s; active_tasks = a }) ≡ taken k w
taken-tables of_cores w s a = refl
taken-tables of_memory w s a = refl
taken-tables of_disk w s a = refl
taken-tables of_gpus w s a = refl

-- a task that runs is killed
pub kill_task-IsTallied :
    (w : Process) (ti : TaskInfo)
    → IsTallied w
    → find (pos_part ti.pid) w.active_tasks ≡ some ti
    → IsTallied (kill_task w ti)
unfolding kill_task given_back
kill_task-IsTallied w ti tallied here =
    let s = unlink ti.taskid w.stored_tasks in
    let a = unlink (pos_part ti.pid) w.active_tasks in
    let (pid, positive, charged) = IsRunning-at w tallied ti here in
    record {
      sums = λ k.
          let less = held-unlink k (pos_part ti.pid) ti w.active_tasks here in
          let off = has_pid ti (pos_part ti.pid) pid positive in
          let by : held_by k ti ≡ pos_part (wanted k ti.task) = rw off refl in
          taken-given_back k ti.task (record w { stored_tasks = s; active_tasks = a })
          ∙ less_by (taken k (record w { stored_tasks = s; active_tasks = a })) (wanted k ti.task)
              (held k w.active_tasks + held k w.results_to_be_sent)
              (held k a + held k w.results_to_be_sent)
              (taken-tables k w s a ∙ IsTallied.sums tallied k) (charged k) (omega arith);
      once = λ id.
          let most = IsTallied.once tallied id in
          let less = times-unlink id (pos_part ti.pid) ti w.active_tasks here in omega arith;
      running = All-unlink IsRunning (pos_part ti.pid) w.active_tasks (IsTallied.running tallied);
      results = IsTallied.results tallied;
      distinct = Distinct-unlink (pos_part ti.pid) w.active_tasks (IsTallied.distinct tallied);
      distinct_stored =
          Distinct-unlink ti.taskid w.stored_tasks (IsTallied.distinct_stored tallied);
      stored =
          stored-unlink w.stored_tasks w.active_tasks ti (IsTallied.distinct_stored tallied)
            (IsTallied.distinct tallied) here (IsTallied.stored tallied);
    }
