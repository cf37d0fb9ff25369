-- ===== src/WorkQueue/Wait/Sound.antt =====
-- What a wait and a look at the queue tell of its tasks.
use cyque.Prelude.{
  ℕ, ◌+◌, ◌≡◌, ◌↔◌, refl, sym, ap, ◌∙◌, inl, inr, Bool, true, false, some, List, [], ◌∷◌, arith,
  ◌==◌, ==_iff, if◌then◌else◌, Bool-cases, length,
}
use cyque.Prelude.Int.{ℤ, pos}
use cyque.Tables.Chain.{find}
use cyque.Tables.Itable.{uint64_key}
use cyque.WorkQueue.Accounting.{
  Kind, slots, of_cores, of_memory, of_disk, of_gpus, allocated, needed,
}
use cyque.WorkQueue.Failure.Places.{count_absent}
use cyque.WorkQueue.Master.{Pointer, Entries, Queue}
use cyque.WorkQueue.Places.{
  Place, Places, away, worker_of, is_ready, is_complete, is_running, is_finished, is_live, put,
  count, number, Represents, view, Tracks,
}
use cyque.WorkQueue.Places.Frame.{Alike-refl, Untouched-of}
use cyque.WorkQueue.Places.Lists.{relist-IsSound, at_complete}
use cyque.WorkQueue.Places.Moves.{eq_true, eq_false, running_live, finished_live}
use cyque.WorkQueue.Places.Sound.{IsSound, SameBooks-refl, Untouched-IsSound}
use cyque.WorkQueue.Receive.{count_task}
use cyque.WorkQueue.Task.{Task}
use cyque.WorkQueue.Wait.{new_worker, work_queue_create, pop_complete, empty}

-- A queue that was just created has no task: every task is with the application, whatever the memory
-- of the tasks, the scheduler and the asynchrony are, and every worker is accounted for.
pub work_queue_create-IsSound :
    (task : Pointer → Task) (scheduler : ℕ) (scaled : ℤ → ℤ)
    → IsSound (work_queue_create task scheduler scaled) (λ p. away)
unfolding work_queue_create find needed
work_queue_create-IsSound task scheduler scaled = record {
  places = record {
    ready_once = λ p. refl;
    complete_once = λ p. refl;
    running_tracks = nothing;
    finished_tracks = nothing;
    current_tracks = λ wp. nothing;
    maps = record { distinct = tt; sound = λ id wp e. absurd (cc); whole = λ p wp e. absurd (cc) };
    ids = λ p r h. absurd (cc);
    below = λ p h. absurd (cc);
  };
  accounted = λ wp. record { sums = zeros; distinct = tt; named = tt };
}
  where
    nothing : {taskid : Pointer → ℕ} → Tracks taskid [] (λ p. false)
    nothing = record { distinct = tt; sound = λ id p e. absurd (cc); whole = λ p e. absurd (cc) }

    zeros : (k : Kind) → allocated k new_worker ≡ pos 0
    zeros slots = refl
    zeros of_cores = refl
    zeros of_memory = refl
    zeros of_disk = refl
    zeros of_gpus = refl

-- what the place of a task is that was popped from a complete list
abbrev pub popped : List Pointer → Places → Places
popped [] s = s
popped (p ∷ rest) s = put s p away

pub head_count : (p : Pointer) (rest : List Pointer) → count p (p ∷ rest) ≡ 1 + count p rest
head_count p rest = let e = eq_true p p refl in rw e refl

pub rest_count :
    (p r : Pointer) (rest : List Pointer)
    → count p rest ≡ 0
    → count r rest ≡ (if r == p then 0 else count r (p ∷ rest))
rest_count p r rest h = elim (Bool-cases (r == p)) [
  | inl e ↦ rw e (ap (λ x. count x rest) ((==_iff r p).0 e) ∙ h)
  | inr e ↦
      let other = eq_false p r (λ x. (let same = eq_true r p (sym x) in cc)) in
      rw (e, other) (omega arith)
]

once : (n m : ℕ) (b : Bool) → n ≡ number b → n ≡ 1 + m → m ≡ 0
once n m true h e = omega arith
once n m false h e = absurd (omega arith)

-- If every task of a queue is in its place and every worker accounted for, and a task is taken off the
-- complete list for the application, then that task is with the application, every other one where it
-- was, and the same holds behind it; where the list is empty nothing changes.
pub pop_complete-IsSound :
    {q : Queue} {s : Places} (l : List Pointer)
    → IsSound q s
    → q.complete_list ≡ l
    → IsSound (pop_complete q l).1 (popped l s)
unfolding pop_complete
pop_complete-IsSound [] sound e = sound
pop_complete-IsSound {q} {s} (p ∷ rest) sound e =
    let n = count p q.complete_list in
    let on : n ≡ 1 + count p rest = ap (count p) e ∙ head_count p rest in
    let here = at_complete (s p) n (sound.places.complete_once p) (omega arith) in
    let gone = once n (count p rest) (is_complete (s p)) (sound.places.complete_once p) on in
    let off = sound.places.ready_once p ∙ ap (λ x. number (is_ready x)) here in
    Untouched-IsSound
      (Untouched-of _ (Alike-refl q.task) (λ x. SameBooks-refl (q.worker x))
        (refl, refl, refl, refl, refl, refl))
      (relist-IsSound p away q.ready_list rest sound (ap is_live here) (ap worker_of here) refl
        (λ x. count_absent p x q.ready_list off)
        (λ x. rest_count p x rest gone ∙ ap (λ l. if x == p then 0 else count x l) (sym e)))

first_entry : (k p : ℕ) (m : Entries) → find k ((k, p) ∷ m) ≡ some p
unfolding find
first_entry k p m = let e = eq_true k k refl in rw e refl

-- If every task of a queue is in its place and every worker accounted for, then `work_queue_empty` is
-- true exactly if every task is with the application: none waits, is at a worker, or is complete.
pub empty_iff :
    {q : Queue} {s : Places}
    → IsSound q s
    → (empty q ≡ true) ↔ ((p : Pointer) → is_live (s p) ≡ false)
unfolding empty find
empty_iff {q} {s} sound =
    (λ e p. dead p (s p) refl ((==_iff all 0).0 e), λ h. (==_iff all 0).1 (gone h))
  where
    rep : Represents (view q) s
    rep = sound.places

    all : ℕ
    all =
        length q.ready_list
        + length q.running_tasks
        + length q.finished_tasks
        + length q.complete_list

    no_list : (l : List Pointer) → length l ≡ 0 → l ≡ []
    no_list [] h = refl
    no_list (x ∷ l) h = absurd (omega arith)

    no_table : (m : Entries) → length m ≡ 0 → m ≡ []
    no_table [] h = refl
    no_table (x ∷ m) h = absurd (omega arith)

    dead : (p : Pointer) (x : Place) → s p ≡ x → all ≡ 0 → is_live x ≡ false
    dead p Place.away e z = refl
    dead p Place.ready e z =
        let one = rep.ready_once p ∙ ap (λ x. number (is_ready x)) e in
        let zero' = ap (count p) (no_list q.ready_list (omega arith)) in absurd (omega arith)
    dead p (Place.running w) e z =
        let one = rep.running_tracks.whole p (ap is_running e) in
        let zero' = ap (find (q.task p).taskid) (no_table q.running_tasks (omega arith)) in
        absurd (cc)
    dead p (Place.finished w) e z =
        let one = rep.finished_tracks.whole p (ap is_finished e) in
        let zero' = ap (find (q.task p).taskid) (no_table q.finished_tasks (omega arith)) in
        absurd (cc)
    dead p Place.complete e z =
        let one = rep.complete_once p ∙ ap (λ x. number (is_complete x)) e in
        let zero' = ap (count p) (no_list q.complete_list (omega arith)) in absurd (omega arith)

    ready_gone :
        (h : (p : Pointer) → is_live (s p) ≡ false) (l : List Pointer)
        → q.ready_list ≡ l
        → length l ≡ 0
    ready_gone h [] e = refl
    ready_gone h (p ∷ l) e =
        let on = ap (count p) e ∙ head_count p l in
        let off = by_place (s p) (h p) in let once' = rep.ready_once p in absurd (omega arith)
      where
        by_place : (x : Place) → is_live x ≡ false → number (is_ready x) ≡ 0
        by_place Place.away e = refl
        by_place _ e = absurd (cc)

    complete_gone :
        (h : (p : Pointer) → is_live (s p) ≡ false) (l : List Pointer)
        → q.complete_list ≡ l
        → length l ≡ 0
    complete_gone h [] e = refl
    complete_gone h (p ∷ l) e =
        let on = ap (count p) e ∙ head_count p l in
        let off = by_place (s p) (h p) in let once' = rep.complete_once p in absurd (omega arith)
      where
        by_place : (x : Place) → is_live x ≡ false → number (is_complete x) ≡ 0
        by_place Place.away e = refl
        by_place _ e = absurd (cc)

    table_gone :
        (f : Place → Bool) (t : (x : Place) → f x ≡ true → is_live x ≡ true)
        (h : (p : Pointer) → is_live (s p) ≡ false) (m : Entries)
        → Tracks (λ r. (q.task r).taskid) m (λ r. f (s r))
        → length m ≡ 0
    table_gone f live h [] t = refl
    table_gone f live h ((k, p) ∷ m) t =
        let held = (t.sound k p (first_entry k p m)).1 in
        let on = live (s p) held in let off = h p in absurd (cc)

    gone : ((p : Pointer) → is_live (s p) ≡ false) → all ≡ 0
    gone h =
        let a = ready_gone h q.ready_list refl in
        let b = table_gone is_running running_live h q.running_tasks rep.running_tracks in
        let c = table_gone is_finished finished_live h q.finished_tasks rep.finished_tracks in
        let d = complete_gone h q.complete_list refl in omega arith

-- A task whose result is WORK_QUEUE_RESULT_SUCCESS, 0, counts as good when its output was fetched, and
-- then as failed when `work_queue_wait` returns it.
pub count_task-pop_complete :
    (q : Queue) (wp p : Pointer) (rest : List Pointer)
    → (q.task p).result ≡ 0
    → let counted = count_task q wp p in
      (counted.total_good_execute_time ≡ q.total_good_execute_time + (q.task p).cmd_execution_time)
      × ((pop_complete counted (p ∷ rest)).1.total_tasks_failed ≡ counted.total_tasks_failed + 1)
unfolding count_task pop_complete
count_task-pop_complete q wp p rest h = (rw h refl, rw h refl)
