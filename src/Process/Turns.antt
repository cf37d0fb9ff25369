-- ===== src/Process/Turns.antt =====
-- The loop that starts tasks comes to an end, whatever its turns meet.
pub mod Steady
use mathlib.Core.Path.{subst}
use cyque.Prelude.{
  ℕ, zero, suc, ◌+◌, ◌≡◌, refl, sym, ap, ◌∙◌, ◌⊎◌, inl, inr, Bool, true, false, ◌&&◌, some, List,
  [], ◌∷◌, ◌++◌, append_assoc, append-nil, arith, ltb, Bool-cases, length, length-append, All,
  All-append,
}
use cyque.Prelude.Int.{◌≤ℤ◌, ltb_ℤ, pos}
use cyque.Process.{
  Process, Launch, check_for_resources, started, start_task, start_or_pass, starts_more, start_loop,
  start_waiting_tasks, task_info_create, task_info_execute,
}
use cyque.Process.Served.{
  Amount, of_cores, of_memory, of_disk, of_gpus, taken, total, start_task-le, stays_rejected,
}
use cyque.WorkQueue.Resources.{Resources}
use cyque.WorkQueue.Task.{Task}

abbrev pub with_waiting : Process → List Task → Process
with_waiting w l = record w { waiting_tasks = l }

pub check-with_waiting :
    (w : Process) (l : List Task) (t : Task)
    → check_for_resources (with_waiting w l) t ≡ check_for_resources w t
unfolding check_for_resources
check-with_waiting w l t = refl

pub taken-with_waiting :
    (k : Amount) (w : Process) (l : List Task) → taken k (with_waiting w l) ≡ taken k w
taken-with_waiting of_cores w l = refl
taken-with_waiting of_memory w l = refl
taken-with_waiting of_disk w l = refl
taken-with_waiting of_gpus w l = refl

pub start_task_frame :
    (l : Launch) (w : Process) (t : Task)
    → ((start_task l w t).waiting_tasks ≡ w.waiting_tasks)
      × ((start_task l w t).local_resources ≡ w.local_resources)
unfolding start_task started
start_task_frame l w t =
    elim (Bool-cases (ltb_ℤ (task_info_execute l (task_info_create t)).pid (pos 0))) [
      | inl e ↦ rw e (refl, refl)
      | inr e ↦ rw e (refl, refl)
    ]

module _ (launch : ℕ → Launch) (measure : ℕ → Resources → Resources) where
  -- the loop goes on with what its turn made
  pub loop_goes :
      (n v v' : ℕ) (w w' : Process)
      → starts_more v w ≡ true
      → start_or_pass launch measure n v w w.waiting_tasks ≡ (v', w')
      → start_loop launch measure (suc n) v w ≡ start_loop launch measure n v' w'
  unfolding start_loop
  loop_goes n v v' w w' more e = rw more (ap (λ x. start_loop launch measure n x.0 x.1) e)

  pub loop_stops :
      (n v : ℕ) (w : Process) → starts_more v w ≡ false → start_loop launch measure n v w ≡ some w
  unfolding start_loop
  loop_stops zero v w e = rw e refl
  loop_stops (suc n) v w e = rw e refl

  -- each turn leaves one turn less: a task has left the list, or has been passed over
  turn_size :
      (n m v : ℕ) (w : Process) (l : List Task)
      → length l ≡ suc m + v
      → let next = start_or_pass launch measure n v w l in
        length (next.1).waiting_tasks ≡ m + next.0
  unfolding start_or_pass
  turn_size n m v w [] e = absurd (omega arith)
  turn_size n m v w (t ∷ ts) e =
      let popped = with_waiting w ts in
      elim (Bool-cases (check_for_resources popped t)) [
        | inl ok ↦
            let same = ap length (start_task_frame (launch n) popped t).0 in
            rw (ok, same) (omega arith)
        | inr out ↦ let parts = length-append ts (t ∷ []) in rw (out, parts) (omega arith)
      ]

  loop_total :
      (n v : ℕ) (w : Process)
      → length w.waiting_tasks ≡ n + v
      → (w' : Process) × (start_loop launch measure n v w ≡ some w')
  loop_total zero v w e =
      let over : starts_more v w ≡ false = ground arith in (w, loop_stops 0 v w over)
  loop_total (suc n) v w e =
      let next = start_or_pass launch measure n v w w.waiting_tasks in
      let (w', run) = loop_total n next.0 next.1 (turn_size n n v w w.waiting_tasks e) in
      elim (Bool-cases (starts_more v w)) [
        | inr stop ↦ (w, loop_stops (suc n) v w stop)
        | inl more ↦ (w', loop_goes n v next.0 w next.1 more refl ∙ run)
      ]

  -- Whatever the system answers and whatever the resources are measured as, the loop that starts
  -- waiting tasks ends within as many turns as tasks wait, since a task that is passed over is not
  -- tried again.
  start_waiting_tasks_total :
      (w : Process) → (w' : Process) × (start_waiting_tasks launch measure w ≡ some w')
  unfolding start_waiting_tasks
  start_waiting_tasks_total w = loop_total (length w.waiting_tasks) 0 w (omega arith)
