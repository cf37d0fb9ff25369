-- ===== src/WorkQueue/Start/Sound.antt =====
-- A task that is started is at its worker, or where its failure puts it.
use mathlib.Core.Path.{subst}
use cyque.Prelude.{
  ℕ, ◌≡◌, refl, sym, ap, ◌∙◌, ◌⊎◌, inl, inr, true, false, some, none, List, ◌∷◌, arith, ◌==◌,
  ==_iff, if◌then◌else◌, Bool-cases, Bytes,
}
use cyque.Tables.Chain.{find, Distinct}
use cyque.Tables.Itable.{uint64_key}
use cyque.WorkQueue.Accounting.{current_tasks-allocate}
use cyque.WorkQueue.Commit.{commit_Alike, commit_task_to_worker-AllAccounted}
use cyque.WorkQueue.Failure.{Result}
use cyque.WorkQueue.Failure.Places.{count_absent}
use cyque.WorkQueue.Failure.Removal.{settled, handle_failure-IsSound}
use cyque.WorkQueue.Master.{Pointer, Queue, write, table_insert, commit_task_to_worker}
use cyque.WorkQueue.Places.{
  Place, Places, ready, running, worker_of, is_ready, is_complete, is_finished, is_live, is_at, put,
  count, number, view, Represents,
}
use cyque.WorkQueue.Places.Moves.{
  Moves-Represents, Sets, Sets-table_insert, Distinct-table_insert, only, eq_true, eq_false,
  at_live, finished_live,
}
use cyque.WorkQueue.Places.Lists.{absent_where, kept}
use cyque.WorkQueue.Places.Sound.{IsSound, Untouched, Untouched-trans, Untouched-IsSound}
use cyque.WorkQueue.Start.{
  Sending, started_task, start_one_task, finish_start, start_task_on_worker,
}
use cyque.WorkQueue.Task.{File}
use cyque.WorkQueue.Transfer.{is_success, send_input_files}
use cyque.WorkQueue.Transfer.Books.{one_task_written, send_input_files-Untouched}

-- the head of the ready list is ready, and once on it
pub head_ready :
    {q : Queue} {s : Places} (p : Pointer) (rest : List Pointer)
    → IsSound q s
    → q.ready_list ≡ p ∷ rest
    → (s p ≡ ready) × (count p rest ≡ 0)
head_ready {q} {s} p rest sound e =
    by_place (s p) (sym (ap (count p) e) ∙ sound.places.ready_once p)
  where
    one : number (p == p) ≡ 1
    one = ap number (eq_true p p refl)

    by_place :
        (x : Place) → count p (p ∷ rest) ≡ number (is_ready x) → (x ≡ ready) × (count p rest ≡ 0)
    by_place Place.ready h = (refl, let same = one in omega arith)
    by_place Place.away h = absurd (let same = one in omega arith)
    by_place (Place.running w) h = absurd (let same = one in omega arith)
    by_place (Place.finished w) h = absurd (let same = one in omega arith)
    by_place Place.complete h = absurd (let same = one in omega arith)

commit_current :
    (now : ℕ) (q : Queue) (wp p w : Pointer)
    → ((commit_task_to_worker now q wp p).worker w).current_tasks ≡ (
        if w == wp
        then table_insert (q.task p).taskid p (q.worker w).current_tasks
        else (q.worker w).current_tasks)
unfolding commit_task_to_worker
commit_current now q wp p w = elim (Bool-cases (w == wp)) [
  | inl e ↦ rw e (
      current_tasks-allocate (q.task p) _
      ∙ ap (λ y. table_insert (q.task p).taskid p (q.worker y).current_tasks)
          (sym ((==_iff w wp).0 e)))
  | inr e ↦ rw e refl
]

popped :
    (p r : Pointer) (rest : List Pointer)
    → count p rest ≡ 0
    → count r rest ≡ (if r == p then 0 else count r (p ∷ rest))
popped p r rest h = elim (Bool-cases (r == p)) [
  | inl e ↦ rw e (ap (λ x. count x rest) ((==_iff r p).0 e) ∙ h)
  | inr e ↦
      let other = eq_false p r (λ x. (let same = eq_true r p (sym x) in cc)) in
      rw (e, other) (omega arith)
]

-- If every task of a queue is in its place and every worker accounted for, and the head of the ready
-- list is taken off it and committed to a worker, then it is at that worker, running, every other task
-- is where it was, and the same holds behind it.
pub commit_task_to_worker-IsSound :
    (now : ℕ) {q : Queue} {s : Places} (wp p : Pointer) (rest : List Pointer)
    → IsSound q s
    → q.ready_list ≡ p ∷ rest
    → IsSound
        (commit_task_to_worker now (record q { ready_list = rest }) wp p)
        (put s p (running wp))
unfolding commit_task_to_worker
commit_task_to_worker-IsSound now {q} {s} wp p rest sound e = record {
  places =
      Moves-Represents p (running wp) rep (λ r ne h same. ne (rep.ids r p h live same))
        (rep.below p live)
        (record {
          taskid = names;
          next_taskid = refl;
          ready = λ r. popped p r rest head.1 ∙ ap (λ l. if r == p then 0 else count r l) (sym e);
          complete = λ r.
              count_absent p r q.complete_list
                (rep.complete_once p ∙ ap (λ x. number (is_complete x)) head.0);
          running = (
            Distinct-table_insert k p q.running_tasks rep.running_tracks.distinct,
            Sets-table_insert k p q.running_tasks,
          );
          finished = (
            rep.finished_tracks.distinct,
            kept k none q.finished_tasks (
                absent_where is_finished p rep rep.finished_tracks (λ x h. finished_live x h) live
                  (ap is_finished head.0)),
          );
          current = λ w. at_worker w (Bool-cases (w == wp));
          map = (
            Distinct-table_insert k wp q.worker_task_map rep.maps.distinct,
            Sets-table_insert k wp q.worker_task_map,
          );
        });
  accounted = commit_task_to_worker-AllAccounted now q' wp p sound.accounted (off wp);
}
  where
    q' : Queue
    q' = record q { ready_list = rest }

    rep : Represents (view q) s
    rep = sound.places

    head : (s p ≡ ready) × (count p rest ≡ 0)
    head = head_ready p rest sound e

    k : ℕ
    k = (q.task p).taskid

    live : is_live (s p) ≡ true
    live = ap is_live head.0

    off : (w : ℕ) → find k (q.worker w).current_tasks ≡ none
    off w =
        absent_where (is_at w) p rep (rep.current_tracks w) (λ x h. at_live x w h) live
          (ap (is_at w) head.0)

    names : (r : ℕ) → ((commit_task_to_worker now q' wp p).task r).taskid ≡ (q.task r).taskid
    names r = (commit_Alike now q' wp p).names r

    at_worker :
        (w : ℕ)
        → ((w == wp) ≡ true) ⊎ ((w == wp) ≡ false)
        → let m = (q.worker w).current_tasks in
          let m' = ((commit_task_to_worker now q' wp p).worker w).current_tasks in
          Distinct m' × Sets k (only (is_at w (running wp)) p) m m'
    at_worker w (inl same) =
        let m = (q.worker w).current_tasks in
        let step =
          commit_current now q' wp p w ∙ ap (λ b. if b then table_insert k p m else m) same in
        let here = eq_true wp w (sym ((==_iff w wp).0 same)) in
        (
          subst (λ y. Distinct y) (sym step)
              (Distinct-table_insert k p m (rep.current_tracks w).distinct),
          λ id. ap (find id) step ∙ rw here (Sets-table_insert k p m id),
        )
    at_worker w (inr other) =
        let m = (q.worker w).current_tasks in
        let step =
          commit_current now q' wp p w ∙ ap (λ b. if b then table_insert k p m else m) other in
        let gone = eq_false wp w (λ x. (let same = eq_true w wp (sym x) in cc)) in
        (
          subst (λ y. Distinct y) (sym step) (rep.current_tracks w).distinct,
          λ id. ap (find id) step ∙ rw gone (kept k none m (off w) id),
        )

module _ (make_cached_name : File → Bytes) where
  start_one_task-Untouched :
      (x : Sending) (q : Queue) (wp p : Pointer)
      → Untouched q (start_one_task make_cached_name x q wp p).1
  unfolding start_one_task
  start_one_task-Untouched x q wp p =
      let stamped = record q {
        task = write q.task p (record (q.task p) { time_send_input_start = x.input_start });
      } in
      let sent = send_input_files make_cached_name x.exists x.transfer stamped wp p in
      let done = record sent.1 {
        task = write sent.1.task p (started_task x (sent.1.worker wp).hostname (sent.1.task p));
      } in
      let first =
        one_task_written q stamped p _
          (record {
            taskid = refl;
            unlabeled = refl;
            cores = refl;
            memory = refl;
            disk = refl;
            gpus = refl;
          })
          (refl, refl) (refl, refl, refl, refl, refl, refl) in
      let last =
        one_task_written sent.1 done p _
          (record {
            taskid = refl;
            unlabeled = refl;
            cores = refl;
            memory = refl;
            disk = refl;
            gpus = refl;
          })
          (refl, refl) (refl, refl, refl, refl, refl, refl) in
      let before =
        Untouched-trans first
          (send_input_files-Untouched make_cached_name x.exists x.transfer stamped wp p) in
      elim (Bool-cases (is_success sent.0)) [
        | inl e ↦ rw e (Untouched-trans before last)
        | inr e ↦ rw e before
      ]

  -- what the worker at `wp` and the link make of the task at `p`
  unfoldable pub outcome : Sending → Queue → Pointer → Pointer → List Pointer → Result
  outcome x q wp p rest =
      (start_one_task make_cached_name x
        (commit_task_to_worker x.committed (record q { ready_list = rest }) wp p) wp p).0

  -- If every task of a queue is in its place and every worker accounted for, and the head of the ready
  -- list is started on a worker, then the same holds behind it, whatever the link does. The task runs at
  -- the worker if it was sent, is complete if one of its files failed, and is ready again with every
  -- other task of the worker if the worker failed. Every other task is where it was.
  pub start_task_on_worker-IsSound :
      (x : Sending) {q : Queue} {s : Places} (wp p : Pointer) (rest : List Pointer)
      → IsSound q s
      → q.ready_list ≡ p ∷ rest
      → IsSound
          (start_task_on_worker make_cached_name x q wp)
          (settled (outcome x q wp p rest) p wp (put s p (running wp)))
  unfolding start_task_on_worker finish_start outcome
  start_task_on_worker-IsSound x {q} {s} wp p rest sound e =
      let q' = commit_task_to_worker x.committed (record q { ready_list = rest }) wp p in
      let committed = commit_task_to_worker-IsSound x.committed wp p rest sound e in
      let at : worker_of (put s p (running wp) p) ≡ some wp =
        (let same = eq_true p p refl in rw same refl) in
      rw e (
        handle_failure-IsSound make_cached_name x.handled p wp
          (start_one_task make_cached_name x q' wp p).0
          (Untouched-IsSound (start_one_task-Untouched x q' wp p) committed) at)
