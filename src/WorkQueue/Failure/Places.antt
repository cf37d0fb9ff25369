-- ===== src/WorkQueue/Failure/Places.antt =====
-- Where the tasks are behind a failure: no task is lost or doubled.
use mathlib.Core.Path.{subst}
use cyque.Prelude.{
  ℕ, ◌+◌, ◌≡◌, refl, sym, ap, ◌∙◌, ◌⊎◌, inl, inr, true, false, Option, none, some, List, ◌∷◌, arith,
  ◌==◌, ==_iff, if◌then◌else◌, Bool-cases, Option-cases,
}
use cyque.Tables.Chain.{find, unlink, Distinct, Distinct-unlink}
use cyque.Tables.Itable.{uint64_key}
use cyque.WorkQueue.Accounting.{current_tasks-deallocate}
use cyque.WorkQueue.Master.{
  Pointer, Entries, Worker, Queue, deallocate, reset_negative, reap_task_from_worker,
}
use cyque.WorkQueue.Places.{
  Place, Places, worker_of, is_ready, is_complete, is_running, is_finished, is_live, is_at, holds,
  put, count, number, View, view, Represents,
}
use cyque.WorkQueue.Places.Moves.{
  Moves-Represents, Sets, Sets-unlink, eq_true, eq_false, worker_live, only,
}

-- a list that the task at `p` is not on
pub count-cons :
    (p r : Pointer) (l : List Pointer)
    → count p l ≡ 0
    → count r (p ∷ l) ≡ (if r == p then 1 else count r l)
count-cons p r l h = elim (Bool-cases (r == p)) [
  | inl e ↦
      let same : r ≡ p = (==_iff r p).0 e in
      let head = eq_true p r (sym same) in
      rw (e, head) (ap (λ n. 1 + n) (ap (λ x. count x l) same ∙ h))
  | inr e ↦
      let other = eq_false p r (λ x. (let same = eq_true r p (sym x) in cc)) in
      rw (e, other) (omega arith)
]

pub count_absent :
    (p r : Pointer) (l : List Pointer)
    → count p l ≡ 0
    → count r l ≡ (if r == p then 0 else count r l)
count_absent p r l h = elim (Bool-cases (r == p)) [
  | inl e ↦ rw e (ap (λ x. count x l) ((==_iff r p).0 e) ∙ h)
  | inr e ↦ rw e refl
]

-- The task at `p` leaves the worker at `wp`, and every table.
pub record Releases (v v' : View) (p wp : Pointer) : Type 0 where
  pub taskid : (r : ℕ) → v'.taskid r ≡ v.taskid r
  pub next_taskid : v'.next_taskid ≡ v.next_taskid
  pub running : v'.running_tasks ≡ unlink (v.taskid p) v.running_tasks
  pub finished : v'.finished_tasks ≡ unlink (v.taskid p) v.finished_tasks
  pub map : v'.worker_task_map ≡ unlink (v.taskid p) v.worker_task_map
  pub current :
      (w : ℕ)
      → v'.current_tasks w
        ≡ (if w == wp then unlink (v.taskid p) (v.current_tasks w) else v.current_tasks w)

-- the number of a task that one worker has is in the table of no other
other_absent :
    {v : View} {s : Places} (p wp w : Pointer)
    → Represents v s
    → worker_of (s p) ≡ some wp
    → (w == wp) ≡ false
    → find (v.taskid p) (v.current_tasks w) ≡ none
other_absent {v} {s} p wp w rep at e = elim (Option-cases (find (v.taskid p) (v.current_tasks w))) [
  | inl h ↦ h
  | inr (r, h) ↦
      let (named, there) = (rep.current_tracks w).sound (v.taskid p) r h in
      let same : r ≡ p = rep.ids r p (live r there) (worker_live (s p) wp at) named in
      absurd (clash r same there)
]
  where
    live : (r : ℕ) → is_at w (s r) ≡ true → is_live (s r) ≡ true
    live r there = by_place (s r) there
      where
        by_place : (x : Place) → is_at w x ≡ true → is_live x ≡ true
        by_place (Place.running y) h = refl
        by_place (Place.finished y) h = refl
        by_place _ h = absurd (cc)

    clash : (r : ℕ) → r ≡ p → is_at w (s r) ≡ true → ⊥
    clash r same there =
        let moved : is_at w (s p) ≡ true = ap (λ x. is_at w (s x)) (sym same) ∙ there in
        let eq : (wp == w) ≡ true = sym (ap (λ o. holds o w) at) ∙ moved in
        let same' : (w == wp) ≡ true = eq_true w wp (sym ((==_iff wp w).0 eq)) in cc

-- A task that a worker has is released: it goes to a place without a worker, if the ready and the
-- complete list do what that place asks for.
pub Releases-Represents :
    {v v' : View} {s : Places} (p wp : Pointer) (x : Place)
    → Represents v s
    → worker_of (s p) ≡ some wp
    → worker_of x ≡ none
    → Releases v v' p wp
    → ((r : ℕ)
        → count r v'.ready_list ≡ (if r == p then number (is_ready x) else count r v.ready_list))
    → ((r : ℕ)
        → count r v'.complete_list
          ≡ (if r == p then number (is_complete x) else count r v.complete_list))
    → Represents v' (put s p x)
Releases-Represents {v} {v'} {s} p wp x rep at idle rel on_ready on_complete =
    let live = worker_live (s p) wp at in
    let k = v.taskid p in
    Moves-Represents p x rep (λ r ne h e. ne (rep.ids r p h live e)) (rep.below p live)
      (record {
        taskid = rel.taskid;
        next_taskid = rel.next_taskid;
        ready = on_ready;
        complete = on_complete;
        running = gone v.running_tasks rel.running rep.running_tracks.distinct (not_running x idle);
        finished =
            gone v.finished_tasks rel.finished rep.finished_tracks.distinct (not_finished x idle);
        current = λ w. at_worker w (Bool-cases (w == wp));
        map = gone v.worker_task_map rel.map rep.maps.distinct idle;
      })
  where
    not_running : (y : Place) → worker_of y ≡ none → only (is_running y) p ≡ none
    not_running (Place.running w) h = absurd (cc)
    not_running _ h = refl

    not_finished : (y : Place) → worker_of y ≡ none → only (is_finished y) p ≡ none
    not_finished (Place.finished w) h = absurd (cc)
    not_finished _ h = refl

    not_at : (w : ℕ) → only (is_at w x) p ≡ none
    not_at w = ap (λ o. only (holds o w) p) idle

    gone :
        (m : Entries) {m' : Entries} {o : Option Pointer}
        → m' ≡ unlink (v.taskid p) m
        → Distinct m
        → o ≡ none
        → Distinct m' × Sets (v.taskid p) o m m'
    gone m e d n = (
      subst (λ y. Distinct y) (sym e) (Distinct-unlink (v.taskid p) m d),
      λ id.
          ap (find id) e
          ∙ Sets-unlink (v.taskid p) m d id
          ∙ ap (λ y. if id == v.taskid p then y else find id m) (sym n),
    )

    at_worker :
        (w : ℕ)
        → ((w == wp) ≡ true) ⊎ ((w == wp) ≡ false)
        → Distinct (v'.current_tasks w)
          × Sets (v.taskid p) (only (is_at w x) p) (v.current_tasks w) (v'.current_tasks w)
    at_worker w (inl e) =
        gone (v.current_tasks w)
          (rel.current w
            ∙ ap (λ b. if b then unlink (v.taskid p) (v.current_tasks w) else v.current_tasks w) e)
          (rep.current_tracks w).distinct (not_at w)
    at_worker w (inr e) =
        let same : v'.current_tasks w ≡ v.current_tasks w =
          rel.current w
          ∙ ap (λ b. if b then unlink (v.taskid p) (v.current_tasks w) else v.current_tasks w) e in
        let absent = other_absent p wp w rep at e in
        (
          subst (λ y. Distinct y) (sym same) (rep.current_tracks w).distinct,
          λ id. ap (find id) same ∙ elsewhere id w absent (Bool-cases (id == v.taskid p)),
        )
      where
        elsewhere :
            (id w : ℕ)
            → find (v.taskid p) (v.current_tasks w) ≡ none
            → ((id == v.taskid p) ≡ true) ⊎ ((id == v.taskid p) ≡ false)
            → find id (v.current_tasks w)
              ≡ (if id == v.taskid p then only (is_at w x) p else find id (v.current_tasks w))
        elsewhere id w absent (inl e) = rw e (
            ap (λ y. find y (v.current_tasks w)) ((==_iff id (v.taskid p)).0 e)
            ∙ absent
            ∙ sym (not_at w))
        elsewhere id w absent (inr e) = rw e refl

reset_current : (w : Worker) → (reset_negative w).current_tasks ≡ w.current_tasks
unfolding reset_negative
reset_current w = ground arith

-- `reap_task_from_worker` takes the task out of the tables that it knows; `finished_tasks` it leaves.
pub reap_current :
    (q : Queue) (wp p x : Pointer)
    → ((reap_task_from_worker q wp p).worker x).current_tasks ≡ (
        if x == wp
        then unlink (q.task p).taskid (q.worker x).current_tasks
        else (q.worker x).current_tasks)
unfolding reap_task_from_worker
reap_current q wp p x = elim (Bool-cases (x == wp)) [
  | inl e ↦
      let w = q.worker wp in
      let t = q.task p in
      let same : x ≡ wp = (==_iff x wp).0 e in
      rw e (
        reset_current (deallocate t (record w { current_tasks = unlink t.taskid w.current_tasks }))
        ∙ current_tasks-deallocate t (record w { current_tasks = unlink t.taskid w.current_tasks })
        ∙ ap (λ y. unlink t.taskid (q.worker y).current_tasks) (sym same))
  | inr e ↦ rw e refl
]

-- what a reap and the removal from `finished_tasks` do to the tables
pub reap-Releases :
    (q : Queue) (wp p : Pointer) (ready_list complete_list : List Pointer)
    → let q' = reap_task_from_worker q wp p in
      Releases
        (view q)
        (view (record q' {
          finished_tasks = unlink (q'.task p).taskid q'.finished_tasks;
          ready_list = ready_list;
          complete_list = complete_list;
        }))
        p
        wp
unfolding reap_task_from_worker
reap-Releases q wp p ready_list complete_list = record {
  taskid = λ r. refl;
  next_taskid = refl;
  running = refl;
  finished = refl;
  map = refl;
  current = λ x. reap_current q wp p x;
}
