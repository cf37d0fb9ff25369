-- ===== src/Process/Turns/Steady.antt =====
-- The loop that starts tasks leaves none waiting that could run, where measuring the resources changes
-- nothing.
use mathlib.Core.Path.{subst}
use cyque.Prelude.{
  ℕ, suc, ◌+◌, ◌≡◌, refl, sym, ap, ◌∙◌, ◌⊎◌, inl, inr, Bool, true, false, ◌&&◌, some, List, [], ◌∷◌,
  ◌++◌, append_assoc, append-nil, arith, ltb, Bool-cases, length, length-append, All, All-append,
}
use cyque.Prelude.Int.{◌≤ℤ◌, ltb_ℤ}
use cyque.Process.{
  Process, Launch, check_for_resources, start_task, start_or_pass, starts_more, start_loop,
  start_waiting_tasks,
}
use cyque.Process.Served.{Amount, taken, total, start_task-le, stays_rejected}
use cyque.Process.Turns.{
  with_waiting, check-with_waiting, taken-with_waiting, start_task_frame, loop_goes, loop_stops,
}
use cyque.WorkQueue.Resources.{Resources}
use cyque.WorkQueue.Task.{Task}

-- the list `front ++ back` is waiting, and none of `back` fits
record Passed (front back : List Task) (w : Process) : Type 0 where
  waiting : w.waiting_tasks ≡ front ++ back
  rejected : All (λ t. check_for_resources w t ≡ false) back
  within : (k : Amount) → taken k w ≤ℤ total k w.local_resources

-- no task that waits could run, or no core is free, and no more is allocated than there is
pub record Served (w : Process) : Type 0 where
  pub full :
      (ltb_ℤ w.cores_allocated w.local_resources.cores.total ≡ false)
      ⊎ All (λ t. check_for_resources w t ≡ false) w.waiting_tasks
  pub within : (k : Amount) → taken k w ≤ℤ total k w.local_resources

All_map : {P Q : Task → Type 0} (l : List Task) → ((t : Task) → P t → Q t) → All P l → All Q l
All_map [] f h = tt
All_map (t ∷ l) f h = (f t h.0, All_map l f h.1)

-- Two states with the same tables but for what is started: what was rejected is rejected.
later-Passed :
    (front back : List Task) (w w' : Process)
    → w'.waiting_tasks ≡ front ++ back
    → w'.local_resources ≡ w.local_resources
    → ((k : Amount) → taken k w ≤ℤ taken k w')
    → ((k : Amount) → taken k w' ≤ℤ total k w.local_resources)
    → All (λ t. check_for_resources w t ≡ false) back
    → Passed front back w'
later-Passed front back w w' e same more below out = record {
  waiting = e;
  rejected = All_map back (λ t. stays_rejected w w' t same more) out;
  within = λ k. subst (λ r. taken k w' ≤ℤ total k r) (sym same) (below k);
}

module _ (launch : ℕ → Launch) (measure : ℕ → Resources → Resources)
    (steady : (n : ℕ) (r : Resources) → measure n r ≡ r) where
  -- the worker behind a turn that starts the task
  abbrev behind : ℕ → Process → Process
  behind n w = record w { local_resources = measure n w.local_resources }

  behind_same : (n : ℕ) (w : Process) → behind n w ≡ w
  behind_same n w = rw (steady n w.local_resources) refl

  turn-starts :
      (n : ℕ) (t : Task) (front back : List Task) (w : Process)
      → Passed (t ∷ front) back w
      → check_for_resources (with_waiting w (front ++ back)) t ≡ true
      → Passed front back (start_task (launch n) (with_waiting w (front ++ back)) t)
  turn-starts n t front back w passed ok =
      let p = with_waiting w (front ++ back) in
      let (e, same) = start_task_frame (launch n) p t in
      let le = λ (k : Amount). start_task-le (launch n) p t k ok (
        subst (λ x. x ≤ℤ total k w.local_resources) (sym (taken-with_waiting k w (front ++ back)))
          (Passed.within passed k)) in
      later-Passed front back p (start_task (launch n) p t) e same (λ k. (le k).1) (λ k. (le k).0)
        (All_map back (λ r h. check-with_waiting w (front ++ back) r ∙ h) (Passed.rejected passed))

  turn-passes :
      (t : Task) (front back : List Task) (w : Process)
      → Passed (t ∷ front) back w
      → check_for_resources (with_waiting w (front ++ back)) t ≡ false
      → Passed front (back ++ (t ∷ [])) (with_waiting w ((front ++ back) ++ (t ∷ [])))
  turn-passes t front back w passed out = record {
    waiting = append_assoc front back (t ∷ []);
    rejected =
        All_map (back ++ (t ∷ [])) (λ r h. check-with_waiting w ((front ++ back) ++ (t ∷ [])) r ∙ h)
          (All-append (λ r. check_for_resources w r ≡ false) back (t ∷ []) (Passed.rejected passed)
            (sym (check-with_waiting w (front ++ back) t) ∙ out, tt));
    within = λ k.
        subst (λ x. x ≤ℤ total k w.local_resources)
          (sym (taken-with_waiting k w ((front ++ back) ++ (t ∷ [])))) (Passed.within passed k);
  }

  start_or_pass-starts :
      (n v : ℕ) (t : Task) (ts : List Task) (w : Process)
      → w.waiting_tasks ≡ t ∷ ts
      → check_for_resources (with_waiting w ts) t ≡ true
      → start_or_pass launch measure n v w w.waiting_tasks
        ≡ (v, start_task (launch n) (with_waiting w ts) t)
  unfolding start_or_pass
  start_or_pass-starts n v t ts w e ok =
      ap (start_or_pass launch measure n v w) e
      ∙ rw ok (ap (λ x. (v, x)) (behind_same n (start_task (launch n) (with_waiting w ts) t)))

  start_or_pass-passes :
      (n v : ℕ) (t : Task) (ts : List Task) (w : Process)
      → w.waiting_tasks ≡ t ∷ ts
      → check_for_resources (with_waiting w ts) t ≡ false
      → start_or_pass launch measure n v w w.waiting_tasks
        ≡ (v + 1, with_waiting w (ts ++ (t ∷ [])))
  unfolding start_or_pass
  start_or_pass-passes n v t ts w e out = ap (start_or_pass launch measure n v w) e ∙ rw out refl

  -- fewer tasks were passed over than wait, so it is the cores that stop the loop
  stopped_full :
      (t : Task) (front back : List Task) (w : Process)
      → w.waiting_tasks ≡ (t ∷ front) ++ back
      → starts_more (length back) w ≡ false
      → ltb_ℤ w.cores_allocated w.local_resources.cores.total ≡ false
  stopped_full t front back w e stop =
      let size = ap length e in
      let parts = length-append (t ∷ front) back in
      let less : ltb (length back) (length w.waiting_tasks) ≡ true = ground arith in
      and_right (ltb (length back) (length w.waiting_tasks))
        (ltb_ℤ w.cores_allocated w.local_resources.cores.total) less stop
    where
      and_right : (a b : Bool) → a ≡ true → (a && b) ≡ false → b ≡ false
      and_right a b h k = ground arith

  loop-Served :
      (front back : List Task) (w : Process)
      → Passed front back w
      → (w' : Process) × (start_loop launch measure (length front) (length back) w ≡ some w')
        × Served w'
  loop-Served [] back w passed =
      let size = ap length (Passed.waiting passed) in
      let none_left : ltb (length back) (length w.waiting_tasks) ≡ false = ground arith in
      let served : Served w = record {
        full = inr (
            subst (λ l. All (λ t. check_for_resources w t ≡ false) l) (sym (Passed.waiting passed))
              (Passed.rejected passed));
        within = Passed.within passed;
      } in
      (w, loop_stops launch measure 0 (length back) w (rw none_left refl), served)
  loop-Served (t ∷ front) back w passed = elim (Bool-cases (starts_more (length back) w)) [
    | inr stop ↦ (
      w,
      loop_stops launch measure (suc (length front)) (length back) w stop,
      record {
        full = inl (stopped_full t front back w (Passed.waiting passed) stop);
        within = Passed.within passed;
      },
    )
    | inl more ↦
        let ts = front ++ back in
        elim (Bool-cases (check_for_resources (with_waiting w ts) t)) [
          | inl ok ↦
              let next = start_task (launch (length front)) (with_waiting w ts) t in
              let (w', run, served) =
                loop-Served front back next (turn-starts (length front) t front back w passed ok) in
              (
                w',
                loop_goes launch measure (length front) (length back) (length back) w next more (
                      start_or_pass-starts (length front) (length back) t ts w
                        (Passed.waiting passed) ok)
                    ∙ run,
                served,
              )
          | inr out ↦
              let next = with_waiting w (ts ++ (t ∷ [])) in
              let (w', run, served) =
                loop-Served front (back ++ (t ∷ [])) next (turn-passes t front back w passed out) in
              let longer : length back + 1 ≡ length (back ++ (t ∷ [])) =
                sym (length-append back (t ∷ [])) in
              (
                w',
                loop_goes launch measure (length front) (length back) (length back + 1) w next more
                      (start_or_pass-passes (length front) (length back) t ts w
                        (Passed.waiting passed) out)
                    ∙ ap (λ v. start_loop launch measure (length front) v next) longer
                    ∙ run,
                served,
              )
        ]
  ]

  -- If no more is allocated than there is, and measuring the resources finds them unchanged, then the
  -- loop that starts waiting tasks ends; behind it either every core is allocated, or no task that
  -- still waits passes the check, so none was starved by those before it; and no more is allocated
  -- than there is.
  pub start_waiting_tasks-Served :
      (w : Process)
      → ((k : Amount) → taken k w ≤ℤ total k w.local_resources)
      → (w' : Process) × (start_waiting_tasks launch measure w ≡ some w') × Served w'
  unfolding start_waiting_tasks
  start_waiting_tasks-Served w within =
      loop-Served w.waiting_tasks [] w
        (record { waiting = sym (append-nil w.waiting_tasks); rejected = tt; within = within })
