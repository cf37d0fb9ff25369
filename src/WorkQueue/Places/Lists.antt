-- ===== src/WorkQueue/Places/Lists.antt =====
-- A task that no worker has goes from one list of the queue to another, or leaves the queue.
use cyque.Prelude.{
  ℕ, ◌+◌, ◌≤◌, ◌≡◌, refl, sym, ap, ◌∙◌, inl, inr, Bool, true, false, Option, none, List, [], ◌∷◌,
  arith, ◌==◌, ==_iff, if◌then◌else◌, Bool-cases, Option-cases,
}
use cyque.Tables.Chain.{find}
use cyque.Tables.Itable.{uint64_key}
use cyque.WorkQueue.Failure.{without}
use cyque.WorkQueue.Master.{Pointer, Entries, Queue}
use cyque.WorkQueue.Places.{
  Place, Places, ready, complete, worker_of, is_ready, is_complete, is_running, is_finished,
  is_live, is_at, holds, put, count, number, View, Tracks, Represents,
}
use cyque.WorkQueue.Places.Moves.{
  Moves-Represents, Sets, only, running_live, finished_live, at_live, worker_live,
}
use cyque.WorkQueue.Places.Sound.{IsSound}

-- a live task has no entry in a table that it is not to be in
pub absent_where :
    {v : View} {s : Places} {m : Entries} (f : Place → Bool) (p : Pointer)
    → Represents v s
    → Tracks v.taskid m (λ r. f (s r))
    → ((x : Place) → f x ≡ true → is_live x ≡ true)
    → is_live (s p) ≡ true
    → f (s p) ≡ false
    → find (v.taskid p) m ≡ none
absent_where {v} {s} {m} f p rep t live alive off = elim (Option-cases (find (v.taskid p) m)) [
  | inl e ↦ e
  | inr (r, e) ↦
      let (named, held) = t.sound (v.taskid p) r e in
      let same = rep.ids r p (live (s r) held) alive named in
      let on = ap (λ x. f (s x)) same in absurd (cc)
]

-- a table that already is what it is to become
pub kept : (k : ℕ) (o : Option ℕ) (m : Entries) → find k m ≡ o → Sets k o m m
kept k o m h id = elim (Bool-cases (id == k)) [
  | inl e ↦ rw e (ap (λ y. find y m) ((==_iff id k).0 e) ∙ h)
  | inr e ↦ rw e refl
]

idle_running : (x : Place) → worker_of x ≡ none → is_running x ≡ false
idle_running (Place.running w) h = absurd (cc)
idle_running _ h = refl

idle_finished : (x : Place) → worker_of x ≡ none → is_finished x ≡ false
idle_finished (Place.finished w) h = absurd (cc)
idle_finished _ h = refl

-- the map has no entry for a live task that no worker has
idle_unmapped :
    {v : View} {s : Places} (p : Pointer)
    → Represents v s
    → is_live (s p) ≡ true
    → worker_of (s p) ≡ none
    → find (v.taskid p) v.worker_task_map ≡ none
idle_unmapped {v} {s} p rep live idle = elim (Option-cases (find (v.taskid p) v.worker_task_map)) [
  | inl e ↦ e
  | inr (wp, e) ↦
      let (r, named, at) = rep.maps.sound (v.taskid p) wp e in
      let same = rep.ids r p (worker_live (s r) wp at) live named in
      let on = ap (λ x. worker_of (s x)) same in absurd (cc)
]

pub relist-IsSound :
    {q : Queue} {s : Places} (p : Pointer) (x : Place) (ready_list complete_list : List Pointer)
    → IsSound q s
    → is_live (s p) ≡ true
    → worker_of (s p) ≡ none
    → worker_of x ≡ none
    → ((r : ℕ)
        → count r ready_list ≡ (if r == p then number (is_ready x) else count r q.ready_list))
    → ((r : ℕ)
        → count r complete_list
          ≡ (if r == p then number (is_complete x) else count r q.complete_list))
    → IsSound (record q { ready_list = ready_list; complete_list = complete_list }) (put s p x)
relist-IsSound {q} {s} p x ready_list complete_list sound live idle idle' on_ready on_complete =
    let rep = sound.places in
    let k = (q.task p).taskid in
    record {
      places =
          Moves-Represents p x rep (λ r ne h same. ne (rep.ids r p h live same)) (rep.below p live)
            (record {
              taskid = λ r. refl;
              next_taskid = refl;
              ready = on_ready;
              complete = on_complete;
              running = (
                rep.running_tracks.distinct,
                kept k _ q.running_tasks (
                    absent_where is_running p rep rep.running_tracks (λ y h. running_live y h) live
                      (idle_running (s p) idle)
                    ∙ ap (λ b. only b p) (sym (idle_running x idle'))),
              );
              finished = (
                rep.finished_tracks.distinct,
                kept k _ q.finished_tasks (
                    absent_where is_finished p rep rep.finished_tracks (λ y h. finished_live y h)
                      live (idle_finished (s p) idle)
                    ∙ ap (λ b. only b p) (sym (idle_finished x idle'))),
              );
              current = λ w. (
                (rep.current_tracks w).distinct,
                kept k _ (q.worker w).current_tasks (
                    absent_where (is_at w) p rep (rep.current_tracks w) (λ y h. at_live y w h) live
                      (ap (λ o. holds o w) idle)
                    ∙ ap (λ o. only (holds o w) p) (sym idle')),
              );
              map = (
                rep.maps.distinct,
                kept k _ q.worker_task_map (idle_unmapped p rep live idle ∙ sym idle'),
              );
            });
      accounted = sound.accounted;
    }

count-without_sum :
    (p r : Pointer) (l : List Pointer)
    → 1 ≤ count p l
    → count r (without p l) + (if r == p then 1 else 0) ≡ count r l
unfolding without
count-without_sum p r [] h = absurd (omega arith)
count-without_sum p r (x ∷ xs) h =
    ground (arith, count-without_sum p r xs, ==_iff r p, ==_iff x p, ==_iff x r)

-- a task that is on a list once leaves it
pub count-without :
    (p r : Pointer) (l : List Pointer)
    → count p l ≡ 1
    → count r (without p l) ≡ (if r == p then 0 else count r l)
count-without p r l h = elim (Bool-cases (r == p)) [
  | inl e ↦
      let same = ap (λ x. count x l) ((==_iff r p).0 e) in
      let step = count-without_sum p r l (omega arith) in
      let one = ap number e in rw e (omega arith)
  | inr e ↦
      let step = count-without_sum p r l (omega arith) in
      let none' = ap number e in rw e (omega arith)
]

-- which place a task has, by the list that it is on
pub at_ready : (x : Place) (n : ℕ) → n ≡ number (is_ready x) → 1 ≤ n → x ≡ ready
at_ready Place.ready n h on = refl
at_ready Place.away n h on = absurd (omega arith)
at_ready (Place.running w) n h on = absurd (omega arith)
at_ready (Place.finished w) n h on = absurd (omega arith)
at_ready Place.complete n h on = absurd (omega arith)

pub at_complete : (x : Place) (n : ℕ) → n ≡ number (is_complete x) → 1 ≤ n → x ≡ complete
at_complete Place.complete n h on = refl
at_complete Place.away n h on = absurd (omega arith)
at_complete Place.ready n h on = absurd (omega arith)
at_complete (Place.running w) n h on = absurd (omega arith)
at_complete (Place.finished w) n h on = absurd (omega arith)
