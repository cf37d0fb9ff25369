-- ===== src/Process/Tally/Emptied.antt =====
-- `kill_all_tasks` comes to an end once every child has been waited for, and nothing is left.
use mathlib.Core.Option
use mathlib.Core.Path.{subst}
use cyque.Prelude.{
  some_inj, ℕ, ◌+◌, ◌≡◌, ◌≤◌, refl, sym, ap, ◌∙◌, inl, inr, Option, List, [], ◌∷◌, none, some, Bool,
  true, false, ◌||◌, arith, ◌==◌, ==_iff, All, Bool-cases, length,
}
use cyque.Prelude.Int.{pos}
use cyque.Tables.Chain.{find, unlink, Distinct, Distinct-unlink, unlink-absent}
use cyque.Tables.Itable.{uint64_key}
use cyque.Process.{TaskInfo, Infos, Process}
use cyque.Process.Kill.{
  do_reset_results_to_be_sent, reaped, reap_loop, cleared, signals_itself, kill_all_tasks,
}
use cyque.Process.Served.{Amount, of_cores, of_memory, of_disk, of_gpus, taken}
use cyque.Process.Tally.{held, times, waits, IsTallied}

-- a process that `wait(0)` returns
abbrev pub occurs : ℕ → List ℕ → Bool
occurs k [] = false
occurs k (p ∷ ps) = k == p || occurs k ps

abbrev pub AllReaped : List ℕ → Infos → Type 0
AllReaped pids m = All (λ e. occurs e.0 pids ≡ true) m

absent-AllReaped :
    (p : ℕ) (ps : List ℕ) (m : Infos) → find p m ≡ none → AllReaped (p ∷ ps) m → AllReaped ps m
unfolding find
absent-AllReaped p ps [] out h = tt
absent-AllReaped p ps ((j, x) ∷ m) out h = ground (arith, absent-AllReaped p ps m)

unlink-AllReaped :
    (p : ℕ) (ps : List ℕ) (m : Infos)
    → Distinct m
    → AllReaped (p ∷ ps) m
    → AllReaped ps (unlink p m)
unfolding unlink
unlink-AllReaped p ps [] d h = tt
unlink-AllReaped p ps ((j, x) ∷ m) d h = elim (Bool-cases (p == j)) [
  | inl e ↦
      let same = (==_iff p j).0 e in
      rw e (absent-AllReaped p ps m (ap (λ k. find k m) same ∙ d.0) h.1)
  | inr e ↦
      let other : occurs j ps ≡ true = ground arith in rw e (other, unlink-AllReaped p ps m d.1 h.1)
]

-- what the loop leaves
record Reaped (w w' : Process) : Type 0 where
  none_active : w'.active_tasks ≡ []
  waiting : w'.waiting_tasks ≡ w.waiting_tasks
  results : w'.results_to_be_sent ≡ w.results_to_be_sent

empty_of : (m : Infos) → (length m == 0) ≡ true → m ≡ []
empty_of [] h = refl
empty_of (e ∷ m) h = absurd (ground arith)

pub reaped-tables :
    (p : ℕ) (w : Process) (o : Option TaskInfo)
    → find p w.active_tasks ≡ o
    → ((reaped p w o).active_tasks ≡ unlink p w.active_tasks)
      × ((reaped p w o).waiting_tasks ≡ w.waiting_tasks)
      × ((reaped p w o).results_to_be_sent ≡ w.results_to_be_sent)
unfolding reaped
reaped-tables p w none e = (sym (unlink-absent p w.active_tasks e), refl, refl)
reaped-tables p w (some ti) e = (refl, refl, refl)

reap_loop-Reaped :
    (pids : List ℕ) (w : Process)
    → Distinct w.active_tasks
    → AllReaped pids w.active_tasks
    → (w' : Process) × (reap_loop pids w ≡ some w') × Reaped w w'
unfolding reap_loop
reap_loop-Reaped [] w d h =
    let none' = nothing_left w.active_tasks h in
    let over : (length w.active_tasks == 0) ≡ true = rw none' refl in
    (w, rw over refl, record { none_active = none'; waiting = refl; results = refl })
  where
    nothing_left : (m : Infos) → AllReaped [] m → m ≡ []
    nothing_left [] h = refl
    nothing_left (e ∷ m) h = absurd (ground (arith, h.0))
reap_loop-Reaped (p ∷ ps) w d h =
    let w1 = reaped p w (find p w.active_tasks) in
    let (active, waiting', results') = reaped-tables p w (find p w.active_tasks) refl in
    let (w', run, left) =
      reap_loop-Reaped ps w1 (rw active (Distinct-unlink p w.active_tasks d))
        (rw active (unlink-AllReaped p ps w.active_tasks d h)) in
    elim (Bool-cases (length w.active_tasks == 0)) [
      | inl over ↦ (
        w,
        rw over refl,
        record { none_active = empty_of w.active_tasks over; waiting = refl; results = refl },
      )
      | inr more ↦ (
        w',
        rw more run,
        record {
          none_active = Reaped.none_active left;
          waiting = Reaped.waiting left ∙ waiting';
          results = Reaped.results left ∙ results';
        },
      )
    ]

-- nothing runs, is stored or unsent, and nothing is allocated
pub record IsEmptied (w : Process) : Type 0 where
  pub active : w.active_tasks ≡ []
  pub stored : w.stored_tasks ≡ []
  pub results : w.results_to_be_sent ≡ []
  pub allocated : (k : Amount) → taken k w ≡ pos 0

taken-cleared : (k : Amount) (w : Process) → taken k (cleared w) ≡ pos 0
unfolding cleared
taken-cleared of_cores w = refl
taken-cleared of_memory w = refl
taken-cleared of_disk w = refl
taken-cleared of_gpus w = refl

-- a loop that ends leaves no active task
reap_loop-ended : (pids : List ℕ) (w w' : Process) → reap_loop pids w ≡ some w' → Reaped w w'
unfolding reap_loop
reap_loop-ended [] w w' run = elim (Bool-cases (length w.active_tasks == 0)) [
  | inl over ↦
      let same = some_inj w w' (rw over at run) in
      subst (λ x. Reaped w x) same
        (record { none_active = empty_of w.active_tasks over; waiting = refl; results = refl })
  | inr more ↦ let stuck : none ≡ some w' = rw more at run in absurd (ground arith)
]
reap_loop-ended (p ∷ ps) w w' run = elim (Bool-cases (length w.active_tasks == 0)) [
  | inl over ↦
      let same = some_inj w w' (rw over at run) in
      subst (λ x. Reaped w x) same
        (record { none_active = empty_of w.active_tasks over; waiting = refl; results = refl })
  | inr more ↦
      let w1 = reaped p w (find p w.active_tasks) in
      let (active, waiting', results') = reaped-tables p w (find p w.active_tasks) refl in
      let left = reap_loop-ended ps w1 w' (rw more at run) in
      record {
        none_active = Reaped.none_active left;
        waiting = Reaped.waiting left ∙ waiting';
        results = Reaped.results left ∙ results';
      }
]

IsEmptied-of :
    (w w1 : Process)
    → Reaped (do_reset_results_to_be_sent w) w1
    → IsEmptied (cleared w1) × ((cleared w1).waiting_tasks ≡ w.waiting_tasks)
unfolding do_reset_results_to_be_sent cleared
IsEmptied-of w w1 left = (
  record {
    active = Reaped.none_active left;
    stored = refl;
    results = Reaped.results left;
    allocated = λ k. taken-cleared k w1;
  },
  Reaped.waiting left,
)

-- whatever `wait` returned
pub kill_all_tasks-ended :
    (pids : List ℕ) (w w' : Process)
    → kill_all_tasks pids w ≡ some w'
    → IsEmptied w' × (w'.waiting_tasks ≡ w.waiting_tasks)
unfolding kill_all_tasks
kill_all_tasks-ended pids w w' run =
    let w0 = do_reset_results_to_be_sent w in
    elim (Bool-cases (signals_itself w0.active_tasks)) [
      | inl own ↦ let stuck : none ≡ some w' = rw own at run in absurd (ground arith)
      | inr safe ↦ by_result (reap_loop pids w0) refl (rw safe at run)
    ]
  where
    by_result :
        (o : Option.Option Process)
        → reap_loop pids (do_reset_results_to_be_sent w) ≡ o
        → Option.map cleared o ≡ some w'
        → IsEmptied w' × (w'.waiting_tasks ≡ w.waiting_tasks)
    by_result none e run = absurd (ground arith)
    by_result (some w1) e run =
        subst (λ x. IsEmptied x × (x.waiting_tasks ≡ w.waiting_tasks))
          (some_inj (cleared w1) w' run)
          (IsEmptied-of w w1 (reap_loop-ended pids (do_reset_results_to_be_sent w) w1 e))

-- If every active task's process is among those that `wait` returns, then `kill_all_tasks` ends, unless
-- an active task has the process number 0, for which the worker kills itself; no task runs, is stored
-- or has an unsent result behind it, and nothing is allocated, whatever was before; only the tasks
-- that wait are as they were.
pub kill_all_tasks-IsEmptied :
    (pids : List ℕ) (w : Process)
    → Distinct w.active_tasks
    → AllReaped pids w.active_tasks
    → signals_itself w.active_tasks ≡ false
    → (w' : Process) × (kill_all_tasks pids w ≡ some w')
      × IsEmptied w'
      × (w'.waiting_tasks ≡ w.waiting_tasks)
unfolding kill_all_tasks do_reset_results_to_be_sent
kill_all_tasks-IsEmptied pids w d h safe =
    let (w', run, left) = reap_loop-Reaped pids (do_reset_results_to_be_sent w) d h in
    let (emptied, waiting) = IsEmptied-of w w' left in
    (cleared w', rw safe (ap (Option.map cleared) run), emptied, waiting)

emptied_once :
    (id n : ℕ) (m r : Infos) → n + times id m + times id r ≤ 1 → n + times id [] + times id [] ≤ 1
unfolding times
emptied_once id n m r h = omega arith

-- tables of which only the waiting list is left
pub IsEmptied-IsTallied :
    (w w' : Process)
    → IsTallied w
    → IsEmptied w'
    → w'.waiting_tasks ≡ w.waiting_tasks
    → IsTallied w'
unfolding held find
IsEmptied-IsTallied w w' tallied e same = record {
  sums = λ k. IsEmptied.allocated e k ∙ ap pos (rw (IsEmptied.active e, IsEmptied.results e) refl);
  once = λ id.
      rw (same, IsEmptied.active e, IsEmptied.results e)
        (emptied_once id (waits id w.waiting_tasks) w.active_tasks w.results_to_be_sent
          (IsTallied.once tallied id));
  running = rw (IsEmptied.active e) tt;
  results = rw (IsEmptied.results e) tt;
  distinct = rw (IsEmptied.active e) tt;
  distinct_stored = rw (IsEmptied.stored e) tt;
  stored =
      λ id ti f. let none' : none ≡ some ti = rw (IsEmptied.stored e) at f in absurd (ground arith);
}
