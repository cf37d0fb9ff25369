-- ===== src/WorkQueue/Submit/Sound.antt =====
-- A submitted task waits, under a number that no other task has.
use cyque.Prelude.{
  ℕ, ◌+◌, ◌≡◌, ◌≢◌, refl, ap, ◌∙◌, inl, inr, Bool, true, false, none, List, [], ◌∷◌, ◌++◌, arith,
  ◌==◌, ==_iff, if◌then◌else◌, Bool-cases,
}
use cyque.Tables.Chain.{find}
use cyque.Tables.Itable.{uint64_key}
use cyque.WorkQueue.Failure.Places.{count-cons, count_absent}
use cyque.WorkQueue.Master.{Pointer, Entries, Queue, write}
use cyque.WorkQueue.Places.{
  Places, away, ready, is_ready, is_complete, is_live, is_at, put, count, number, view, Represents,
}
use cyque.WorkQueue.Places.Moves.{
  Moves-Represents, Sets, eq_false, running_live, finished_live, at_live,
}
use cyque.WorkQueue.Cleanup.Emptied.{write_self}
use cyque.WorkQueue.Places.Sound.{IsSound}
use cyque.WorkQueue.Submit.{clear_state, submit_internal, submit}
use cyque.WorkQueue.Task.{Task}
pub use cyque.WorkQueue.Submit.Fresh.{count-append}
use cyque.WorkQueue.Submit.Fresh.{All-found, IsAccounted-same, fresh_in, fresh_in_map, renumbered}

not_held : (w : ℕ) (s : Places) (p : Pointer) (r : ℕ) → s p ≡ away → is_at w (s r) ≡ true → r ≢ p
not_held w s p r at h e = let off = ap (λ x. is_at w (s x)) e ∙ ap (is_at w) at in cc

-- A task that was with the application enters the ready list, under the next number.
enters-IsSound :
    {q : Queue} {s : Places} (p : Pointer) (task : Pointer → Task) (ready_list : List Pointer)
    (n : ℕ)
    → IsSound q s
    → s p ≡ away
    → ((r : ℕ) → r ≢ p → task r ≡ q.task r)
    → (task p).taskid ≡ q.next_taskid
    → ((r : ℕ) → count r ready_list ≡ (if r == p then 1 else count r q.ready_list))
    → IsSound
        (record q {
          task = task;
          next_taskid = q.next_taskid + 1;
          ready_list = ready_list;
          total_tasks_submitted = n;
        })
        (put s p ready)
enters-IsSound {q} {s} p task ready_list n sound at others named on_ready = record {
  places = Moves-Represents p ready again apart (omega arith) (record {
    taskid = λ r. refl;
    next_taskid = refl;
    ready = on_ready;
    complete = λ r.
        count_absent p r q.complete_list
          (rep.complete_once p ∙ ap (λ x. number (is_complete x)) at);
    running = (
      rep.running_tracks.distinct,
      nothing q.running_tasks (fresh_in rep rep.running_tracks (λ r h. running_live (s r) h)),
    );
    finished = (
      rep.finished_tracks.distinct,
      nothing q.finished_tasks (fresh_in rep rep.finished_tracks (λ r h. finished_live (s r) h)),
    );
    current = λ wp. (
      (rep.current_tracks wp).distinct,
      nothing (q.worker wp).current_tasks
          (fresh_in rep (rep.current_tracks wp) (λ r h. at_live (s r) wp h)),
    );
    map = (rep.maps.distinct, nothing q.worker_task_map (fresh_in_map rep));
  });
  accounted = λ w.
      IsAccounted-same
        (All-found (λ x. task x ≡ q.task x) (q.worker w).current_tasks
          (rep.current_tracks w).distinct
          (λ id r e. others r (not_held w s p r at ((rep.current_tracks w).sound id r e).1)))
        (sound.accounted w);
}
  where
    rep : Represents (view q) s
    rep = sound.places

    again :
        Represents
          (record (view q) { taskid = λ r. (task r).taskid; next_taskid = q.next_taskid + 1 })
          s
    again =
        renumbered (λ r. (task r).taskid) p (λ r ne. ap (λ (t : Task). t.taskid) (others r ne)) at
          rep

    apart : (r : ℕ) → r ≢ p → is_live (s r) ≡ true → (task r).taskid ≢ (task p).taskid
    apart r ne h e =
        let less = rep.below r h in
        let same = ap (λ (t : Task). t.taskid) (others r ne) in omega arith

    nothing : (m : Entries) → find q.next_taskid m ≡ none → Sets (task p).taskid none m m
    nothing m absent id = elim (Bool-cases (id == (task p).taskid)) [
      | inl e ↦ rw e (ap (λ k. find k m) ((==_iff id (task p).taskid).0 e ∙ named) ∙ absent)
      | inr e ↦ rw e refl
    ]

write_off : (task : Pointer → Task) (p r : Pointer) (t : Task) → r ≢ p → write task p t r ≡ task r
write_off task p r t ne = let e = eq_false r p ne in rw e refl

cleared : (now : ℕ) (t : Task) → (clear_state now t).taskid ≡ t.taskid
unfolding clear_state
cleared now t = refl

-- If every task of a queue is in its place and every worker accounted for, and a task that is with the
-- application is submitted, then it gets the next number, every other task stays where it is and keeps
-- its number, the submitted one waits on the ready list, and the same holds behind it.
pub submit-IsSound :
    (now : ℕ) {q : Queue} {s : Places} (p : Pointer)
    → IsSound q s
    → s p ≡ away
    → ((submit now q p).0 ≡ q.next_taskid)
      × IsSound (submit now q p).1 (put s p ready)
      × ((r : Pointer) → r ≢ p → (submit now q p).1.task r ≡ q.task r)
unfolding submit submit_internal
submit-IsSound now {q} {s} p sound at =
    let t' = record (q.task p) { taskid = q.next_taskid } in
    let task' = write q.task p t' in
    let here : task' p ≡ t' = write_self q.task p t' in
    let others = λ (r : ℕ) (ne : r ≢ p). write_off task' p r _ ne ∙ write_off q.task p r t' ne in
    let named =
      ap (λ (t : Task). t.taskid) (write_self task' p (clear_state now (task' p)))
      ∙ cleared now (task' p)
      ∙ ap (λ (t : Task). t.taskid) here in
    (
      ap (λ (t : Task). t.taskid) here,
      enters-IsSound p _ _ _ sound at others named (λ r. on_ready r q.lifo),
      others,
    )
  where
    absent : count p q.ready_list ≡ 0
    absent = sound.places.ready_once p ∙ ap (λ x. number (is_ready x)) at

    on_ready :
        (r : ℕ) (b : Bool)
        → count r (if b then p ∷ q.ready_list else q.ready_list ++ p ∷ [])
          ≡ (if r == p then 1 else count r q.ready_list)
    on_ready r true = count-cons p r q.ready_list absent
    on_ready r false = count-append p r q.ready_list absent
