-- ===== src/Process/Tally/Begin.antt =====
-- A task that waits is started, with a process of its own.
use mathlib.Core.Path.{subst}
use cyque.Prelude.{
  some_inj, ℕ, ◌+◌, ◌≡◌, ◌<◌, refl, sym, ap, ◌∙◌, inl, inr, List, ◌∷◌, none, some, true, arith,
  ◌==◌, ==_iff, if◌then◌else◌, Bool-cases, Option,
}
use cyque.Prelude.Int.{ℤ, pos, pos_part, ◌+ℤ◌, ◌≤ℤ◌, +ℤ-pos}
use cyque.Tables.Chain.{find}
use cyque.Tables.Itable.{uint64_key}
use cyque.Process.{TaskInfo, Infos, Process, info_insert, started}
use cyque.Process.Served.{Amount, of_cores, of_memory, of_disk, of_gpus, taken, wanted}
use cyque.Process.Tally.{held_by, held, times, waits, IsCharged, IsRunning, IsTallied}
use cyque.Process.Tally.Entries.{
  times-found, held-insert, times-insert, All-insert, Distinct-insert, find-insert,
}
use cyque.Process.Tally.Moves.{StoredIn, has_pid}
use cyque.WorkQueue.Task.{Task}

more_by : (a u : ℤ) (n : ℕ) → a ≡ pos n → pos 0 ≤ℤ u → a +ℤ u ≡ pos (n + pos_part u)
more_by a u n e up =
    let whole : u ≡ pos (pos_part u) = ground arith in rw (e, whole) (+ℤ-pos n (pos_part u))

pub taken-started :
    (k : Amount) (w : Process) (t : Task) (ti : TaskInfo)
    → taken k (started w t ti) ≡ taken k w +ℤ wanted k t
unfolding started
taken-started of_cores w t ti = refl
taken-started of_memory w t ti = refl
taken-started of_disk w t ti = refl
taken-started of_gpus w t ti = refl

-- a task enters both tables
stored-insert :
    (stored active : Infos) (id : ℕ) (ti : TaskInfo)
    → find id stored ≡ none
    → find (pos_part ti.pid) active ≡ none
    → ti.taskid ≡ id
    → StoredIn stored active
    → StoredIn (info_insert id ti stored) (info_insert (pos_part ti.pid) ti active)
stored-insert stored active id ti out out' named all q x e =
    let at = find-insert id ti stored out q in
    elim (Bool-cases (q == id)) [
      | inl on ↦
          let eq : ti ≡ x = some_inj ti x (sym (rw on at at) ∙ e) in
          let same : (pos_part ti.pid == pos_part ti.pid) ≡ true =
            (==_iff (pos_part ti.pid) (pos_part ti.pid)).1 refl in
          let at' = find-insert (pos_part ti.pid) ti active out' (pos_part ti.pid) in
          subst
            (λ y.
              (y.taskid ≡ q)
              × (find (pos_part y.pid) (info_insert (pos_part ti.pid) ti active) ≡ some y))
            eq (named ∙ sym ((==_iff q id).0 on), rw same at at')
      | inr off ↦
          let (number, active_at) = all q x (sym (rw off at at) ∙ e) in
          let at' = find-insert (pos_part ti.pid) ti active out' (pos_part x.pid) in
          elim (Bool-cases (pos_part x.pid == pos_part ti.pid)) [
            | inr other ↦ (number, rw other at at' ∙ active_at)
            | inl same ↦
                let eq = (==_iff (pos_part x.pid) (pos_part ti.pid)).0 same in
                let both : none ≡ some x =
                  sym out' ∙ sym (ap (λ y. find y active) eq) ∙ active_at in
                absurd (ground arith)
          ]
    ]

-- A task `t` is started as `ti`: its number is nowhere in the tables, nor its process.
module _ (w : Process) (tallied : IsTallied w) (t : Task) (ts : List Task) (ti : TaskInfo) (pid : ℕ)
    (waiting : w.waiting_tasks ≡ t ∷ ts) (positive : 0 < pid) (forked : ti.pid ≡ pos pid)
    (new_pid : find pid w.active_tasks ≡ none) (same : ti.taskid ≡ t.taskid)
    (up : IsCharged ti) where
  abbrev mark : ℕ → ℕ → ℕ
  mark id n = if id == n then 1 else 0

  -- the number of `t` is only on the list
  alone : times t.taskid w.active_tasks + times t.taskid w.results_to_be_sent ≡ 0
  unfolding waits
  alone =
      let most = IsTallied.once tallied t.taskid in
      let here = (==_iff t.taskid t.taskid).1 refl in
      let first : waits t.taskid w.waiting_tasks ≡ 1 + waits t.taskid ts =
        ap (waits t.taskid) waiting ∙ rw here refl in
      omega arith

  not_active : find (pos_part ti.pid) w.active_tasks ≡ none
  not_active = ap (λ p. find (pos_part p) w.active_tasks) forked ∙ new_pid

  not_stored : find t.taskid w.stored_tasks ≡ none
  not_stored = by_entry (find t.taskid w.stored_tasks) refl
    where
      by_entry :
          (o : Option TaskInfo)
          → find t.taskid w.stored_tasks ≡ o
          → find t.taskid w.stored_tasks ≡ none
      by_entry none e = e
      by_entry (some x) e =
          let (number, active_at) = IsTallied.stored tallied t.taskid x e in
          let one = times-found t.taskid (pos_part x.pid) x w.active_tasks active_at number in
          let none' = alone in absurd (omega arith)

  -- the worker behind the start
  abbrev begun : Process
  begun = started (record w { waiting_tasks = ts }) ti.task ti

  begun_sums :
      (k : Amount)
      → taken k begun
        ≡ pos
            (held k (info_insert (pos_part ti.pid) ti w.active_tasks) + held k w.results_to_be_sent)
  begun_sums k =
      let popped = record w { waiting_tasks = ts } in
      let off = has_pid ti pid forked positive in
      let by : held_by k ti ≡ pos_part (wanted k ti.task) = rw off refl in
      let more = held-insert (pos_part ti.pid) ti w.active_tasks not_active k in
      let all : held k w.active_tasks + held k w.results_to_be_sent + pos_part (wanted k ti.task)
          ≡ held k (info_insert (pos_part ti.pid) ti w.active_tasks) + held k w.results_to_be_sent =
        omega arith in
      taken-started k popped ti.task ti
      ∙ more_by (taken k popped) (wanted k ti.task)
          (held k w.active_tasks + held k w.results_to_be_sent)
          (taken_popped k ∙ IsTallied.sums tallied k) (up k)
      ∙ ap pos all
    where
      taken_popped : (k : Amount) → taken k (record w { waiting_tasks = ts }) ≡ taken k w
      taken_popped of_cores = refl
      taken_popped of_memory = refl
      taken_popped of_disk = refl
      taken_popped of_gpus = refl

  pub begun-IsTallied : ti.task.taskid ≡ t.taskid → IsTallied begun
  unfolding started waits
  begun-IsTallied kept =
      let number : ti.taskid ≡ ti.task.taskid = same ∙ sym kept in
      let absent = ap (λ n. find n w.stored_tasks) kept ∙ not_stored in
      let whole : ti.pid ≡ pos (pos_part ti.pid) = ground arith in
      let up_pid : 0 < pos_part ti.pid = ground arith in
      record {
        sums = begun_sums;
        once = λ id.
            let most = IsTallied.once tallied id in
            let first = ap (waits id) waiting in
            let more = times-insert (pos_part ti.pid) ti w.active_tasks not_active id in
            let moved = ap (λ n. mark id n) same in omega arith;
        running =
            All-insert (pos_part ti.pid) ti w.active_tasks not_active IsRunning (whole, up_pid, up)
              (IsTallied.running tallied);
        results = IsTallied.results tallied;
        distinct =
            Distinct-insert (pos_part ti.pid) ti w.active_tasks not_active
              (IsTallied.distinct tallied);
        distinct_stored =
            Distinct-insert ti.task.taskid ti w.stored_tasks absent
              (IsTallied.distinct_stored tallied);
        stored =
            stored-insert w.stored_tasks w.active_tasks ti.task.taskid ti absent not_active number
              (IsTallied.stored tallied);
      }
