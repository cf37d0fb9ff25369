-- ===== src/WorkQueue/Schedule/Choice.antt =====
-- Every scheduling algorithm chooses a worker that can take the task, and finds one if there is one.
use mathlib.Core.Path.{subst}
use native.Mathlib.Numerals.{add-one}
use cyque.Prelude.{
  ℕ, zero, suc, ◌%◌, ◌<◌, ◌≡◌, refl, sym, ap, ◌∙◌, ◌⊎◌, inl, inr, Bool, true, false, Option, none,
  some, List, [], ◌∷◌, ◌++◌, arith, ◌==◌, ltb, ◌&&◌, ◌||◌, if◌then◌else◌, is_some, not, Bool-cases,
  Option-cases, length, length-append, All,
}
use cyque.Prelude.Int.{ℤ, pos, ltb_ℤ}
use cyque.WorkQueue.Master.{Pointer, Queue}
use cyque.WorkQueue.Schedule.{
  Request, accepts, files_loop, first_accepting, valid_workers, pop_many, time_loop, average_time,
  cached_bytes, find_worker_by_files, find_worker_by_fcfs, find_worker_by_random,
  find_worker_by_time, find_best_worker,
}

abbrev pub IsAmong : Pointer → List Pointer → Type 0
IsAmong p [] = ⊥
IsAmong p (x ∷ xs) = (p ≡ x) ⊎ IsAmong p xs

-- A worker of the list that accepts the task; or none, and no worker of the list accepts it.
abbrev pub Chooses : Queue → Request → List Pointer → Option Pointer → Type 0
Chooses q r wps (some wp) = IsAmong wp wps × (accepts q r wp ≡ true)
Chooses q r wps none = All (λ wp. accepts q r wp ≡ false) wps

module _ (q : Queue) (r : Request) where
  first_accepting-Chooses : (wps : List Pointer) → Chooses q r wps (first_accepting q r wps)
  unfolding first_accepting
  first_accepting-Chooses [] = tt
  first_accepting-Chooses (wp ∷ wps) = elim (Bool-cases (accepts q r wp)) [
    | inl e ↦ rw e (inl refl, e)
    | inr e ↦ rw e (further (first_accepting q r wps) e (first_accepting-Chooses wps))
  ]
    where
      further :
          (o : Option Pointer)
          → accepts q r wp ≡ false
          → Chooses q r wps o
          → Chooses q r (wp ∷ wps) o
      further none e h = (e, h)
      further (some p) e h = (inr h.0, h.1)

-- How a walk that keeps the best worker ends, from `best` over `wps`: with `best`, or with a good
-- worker of the list; with none only if there is no good one.
abbrev Ends : (Pointer → Bool) → List Pointer → Option Pointer → Option Pointer → Type 0
Ends good wps best none = (best ≡ none) × All (λ wp. good wp ≡ false) wps
Ends good wps best (some p) = (best ≡ some p) ⊎ (IsAmong p wps × (good p ≡ true))

-- one round of such a walk
Ends-cons :
    (good : Pointer → Bool) (wp : Pointer) (wps : List Pointer) (best : Option Pointer)
    (closer : Bool) (o : Option Pointer)
    → Ends good wps (if good wp && (not (is_some best) || closer) then some wp else best) o
    → Ends good (wp ∷ wps) best o
Ends-cons good wp wps best closer none h = ground arith
Ends-cons good wp wps best closer (some p) (inr h) = inr (inr h.0, h.1)
Ends-cons good wp wps best closer (some p) (inl e) =
    elim (Bool-cases (good wp && (not (is_some best) || closer))) [
      | inl better ↦
          let same : wp ≡ p = ground arith in
          inr (inl (sym same), ap good (sym same) ∙ ground arith)
      | inr worse ↦ inl (ground arith)
    ]

IsAmong-snoc :
    (xs : List Pointer) (x p : Pointer) → IsAmong p (xs ++ x ∷ []) → IsAmong p xs ⊎ (p ≡ x)
IsAmong-snoc [] x p (inl e) = inr e
IsAmong-snoc [] x p (inr out) = absurd out
IsAmong-snoc (y ∷ xs) x p (inl e) = inl (inl e)
IsAmong-snoc (y ∷ xs) x p (inr h) = elim (IsAmong-snoc xs x p h) [
  | inl before ↦ inl (inr before)
  | inr e ↦ inr e
]

-- `n + 1` pops from a list that is long enough give one of its members
pop_many-IsAmong :
    (n : ℕ) (valid : List Pointer) (w : Option Pointer)
    → n < length valid
    → (p : Pointer) × (pop_many (suc n) valid w ≡ some p) × IsAmong p valid
unfolding pop_many
pop_many-IsAmong n [] w h = absurd (omega arith)
pop_many-IsAmong zero (x ∷ valid) w h = (x, refl, inl refl)
pop_many-IsAmong (suc n) (x ∷ valid) w h =
    let (p, run, among) = pop_many-IsAmong n valid (some x) (omega arith) in (p, run, inr among)

module _ (q : Queue) (r : Request) where
  files_loop-Ends :
      (wps : List Pointer) (best : Option Pointer) (most : ℤ)
      → Ends (accepts q r) wps best (files_loop q r wps best most)
  unfolding files_loop
  files_loop-Ends [] none most = (refl, tt)
  files_loop-Ends [] (some p) most = inl refl
  files_loop-Ends (wp ∷ wps) best most =
      Ends-cons (accepts q r) wp wps best
        (ltb_ℤ most (cached_bytes q r wp r.task.input_files (pos 0))) _ (files_loop-Ends wps _ _)

  -- an accepting worker that has completed a task
  abbrev experienced : Pointer → Bool
  experienced wp = accepts q r wp && ltb 0 (q.worker wp).total_tasks_complete

  time_loop-Ends :
      (wps : List Pointer) (best : Option Pointer) (best_time : ℕ)
      → Ends experienced wps best (time_loop q r wps best best_time)
  unfolding time_loop
  time_loop-Ends [] none best_time = (refl, tt)
  time_loop-Ends [] (some p) best_time = inl refl
  time_loop-Ends (wp ∷ wps) best best_time =
      Ends-cons experienced wp wps best (ltb (average_time (q.worker wp)) best_time) _
        (time_loop-Ends wps _ _)

  accepts-experienced : (wp : Pointer) → experienced wp ≡ true → accepts q r wp ≡ true
  accepts-experienced wp h = ground arith

  -- the members of the list of valid workers accept the task, and with none of them no worker does
  valid_workers-accepts :
      (wps valid : List Pointer) (p : Pointer)
      → IsAmong p (valid_workers q r wps valid)
      → IsAmong p valid ⊎ (IsAmong p wps × (accepts q r p ≡ true))
  unfolding valid_workers
  valid_workers-accepts [] valid p h = inl h
  valid_workers-accepts (wp ∷ wps) valid p h = elim (Bool-cases (accepts q r wp)) [
    | inl e ↦ elim (valid_workers-accepts wps (valid ++ wp ∷ []) p (rw e at h)) [
      | inl old ↦ elim (IsAmong-snoc valid wp p old) [
        | inl before ↦ inl before
        | inr same ↦ inr (inl same, ap (accepts q r) same ∙ e)
      ]
      | inr new ↦ inr (inr new.0, new.1)
    ]
    | inr e ↦ elim (valid_workers-accepts wps valid p (rw e at h)) [
      | inl old ↦ inl old
      | inr new ↦ inr (inr new.0, new.1)
    ]
  ]

  valid_workers-none :
      (wps valid : List Pointer)
      → length (valid_workers q r wps valid) ≡ 0
      → (length valid ≡ 0) × All (λ wp. accepts q r wp ≡ false) wps
  unfolding valid_workers
  valid_workers-none [] valid h = (h, tt)
  valid_workers-none (wp ∷ wps) valid h = elim (Bool-cases (accepts q r wp)) [
    | inl e ↦
        let (l, _) = valid_workers-none wps (valid ++ wp ∷ []) (rw e at h) in
        absurd (omega (arith, length-append {0} valid (wp ∷ [])))
    | inr e ↦ let (l, a) = valid_workers-none wps valid (rw e at h) in (l, (e, a))
  ]

  abbrev Right : Option Pointer → Type 0
  Right o = Chooses q r q.worker_table o

  random-Right : (rand : ℕ) → Right (find_worker_by_random rand q r)
  unfolding find_worker_by_random
  random-Right rand =
      let valid = valid_workers q r q.worker_table [] in
      elim (Bool-cases (ltb 0 (length valid))) [
        | inl e ↦
            let (p, run, among) =
              pop_many-IsAmong (rand % length valid) valid none (ground arith) in
            let found : find_worker_by_random rand q r ≡ some p = rw (e, add-one) run in
            elim (valid_workers-accepts q.worker_table [] p among) [
              | inl out ↦ absurd out
              | inr ok ↦ subst Right (sym found) ok
            ]
        | inr e ↦ rw e (valid_workers-none q.worker_table [] (ground arith)).1
      ]

  time-Right : Right (find_worker_by_time q r)
  unfolding find_worker_by_time find_worker_by_fcfs
  time-Right =
      let ends = time_loop-Ends q.worker_table none 0 in
      elim (Option-cases (time_loop q r q.worker_table none 0)) [
        | inl e ↦
            let left : find_worker_by_time q r ≡ first_accepting q r q.worker_table =
              rw (find_worker_by_time, e) refl in
            subst Right (sym left) (first_accepting-Chooses q r q.worker_table)
        | inr (p, e) ↦
            let found : find_worker_by_time q r ≡ some p = rw (find_worker_by_time, e) refl in
            elim (subst (Ends experienced q.worker_table none) e ends) [
              | inl out ↦ cc
              | inr ok ↦ subst Right (sym found) (ok.0, accepts-experienced p ok.1)
            ]
      ]

  files-Right : Right (find_worker_by_files q r)
  unfolding find_worker_by_files
  files-Right =
      of_ends (files_loop q r q.worker_table none (pos 0))
        (files_loop-Ends q.worker_table none (pos 0))
    where
      of_ends : (o : Option Pointer) → Ends (accepts q r) q.worker_table none o → Right o
      of_ends none h = h.1
      of_ends (some p) (inl e) = absurd (cc)
      of_ends (some p) (inr h) = h

  fcfs-Right : Right (find_worker_by_fcfs q r)
  unfolding find_worker_by_fcfs
  fcfs-Right = first_accepting-Chooses q r q.worker_table

  if-Right : (b : Bool) (x y : Option Pointer) → Right x → Right y → Right (if b then x else y)
  if-Right true x y hx hy = hx
  if-Right false x y hx hy = hy

  -- Whatever algorithm the task or the queue names, and whatever `rand` returns: the worker that
  -- `find_best_worker` answers is in the worker table and accepts the task, and it answers none only
  -- if no worker in the table accepts the task.
  pub find_best_worker-Chooses : (rand : ℕ) → Chooses q r q.worker_table (find_best_worker rand q r)
  unfolding find_best_worker
  find_best_worker-Chooses rand =
      let own = r.task.worker_selection_algorithm in
      let a = if own == 0 then q.worker_selection_algorithm else own in
      let by_random = find_worker_by_random rand q r in
      let by_fcfs = find_worker_by_fcfs q r in
      let last = if a == 4 then by_random else by_fcfs in
      if-Right (a == 2) (find_worker_by_files q r)
        (if a == 3 then find_worker_by_time q r else last) files-Right
        (if-Right (a == 3) (find_worker_by_time q r) last time-Right
          (if-Right (a == 4) by_random by_fcfs (random-Right rand) fcfs-Right))
