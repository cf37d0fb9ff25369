-- ===== src/WorkQueue/Steps/Refine.antt =====
-- Every run of the master is a run of the places, with the same events.
use mathlib.Core.Path.{subst}
use cyque.Prelude.{
  ℕ, ◌≤◌, ◌≡◌, refl, sym, ap, ◌∙◌, ◌⊎◌, inl, inr, true, false, Option, some, none, List, [], ◌∷◌,
  ◌++◌, arith, ◌==◌, ==_iff, ltb, if◌then◌else◌, Bool-cases, Bytes,
}
use cyque.Tables.Chain.{find}
use cyque.Tables.Itable.{uint64_key}
use cyque.WorkQueue.Cancel.{cancel_by_taskid}
use cyque.WorkQueue.Cancel.Sound.{Cancels, cancel_by_taskid-Cancels}
use cyque.WorkQueue.Failure.{Result, success, worker_failure, app_failure}
use cyque.WorkQueue.Failure.Places.{count_absent}
use cyque.WorkQueue.Failure.Removal.{settled, remove_worker-IsSound}
use cyque.WorkQueue.Join.Sound.{
  add_worker-IsSound, process_workqueue-IsSound, process_resource-IsSound,
}
use cyque.WorkQueue.Master.{Pointer, Entries, Queue}
use cyque.WorkQueue.Places.{
  Place, Places, away, ready, running, worker_of, is_ready, is_complete, is_running, is_finished,
  is_live, put, count, number,
}
use cyque.WorkQueue.Places.Lists.{relist-IsSound, at_complete}
use cyque.WorkQueue.Places.Moves.{eq_true, eq_false}
use cyque.WorkQueue.Places.Sound.{IsSound, IsSound-ext}
use cyque.WorkQueue.Receive.{
  Message, is_in, process_result, Fetching, receive_turn, receive_first, receive_from,
}
use cyque.WorkQueue.Receive.Fetched.{
  delivered, received, fetched_at, fetch_output_from_worker-IsSound,
}
use cyque.WorkQueue.Receive.Sound.{entry_at, message_at, behind_message, process_result-IsSound}
use cyque.WorkQueue.Start.{Sending, available_workers, start_turn, start_first, start_best}
use cyque.WorkQueue.Start.Sound.{outcome, head_ready, start_task_on_worker-IsSound}
use cyque.WorkQueue.Steps.{
  IsFree, Step, submits, starts, hears, fetches, loses, cancels, returns, joins, greets, measures,
  Event, returned, add, event, Run, done, more, events, submitted, given_back, started, reported,
  completed, evicts, Reaches, stays, then_goes, held,
}
use cyque.WorkQueue.Steps.Counted.{add-append, Reaches-trans, Reaches-held}
use cyque.WorkQueue.Submit.Sound.{count-append, submit-IsSound}
use cyque.WorkQueue.Task.{File}
use cyque.WorkQueue.Wait.{pop_complete}
use cyque.WorkQueue.Wait.Sound.{popped, head_count, pop_complete-IsSound}

-- The queue is sound for places that the old ones reach with these events.
abbrev pub Follows : Places → List Event → Queue → Type 0
Follows s es q = (s' : Places) × Reaches s es s' × IsSound q s'

free_away : {q : Queue} {s : Places} (p : Pointer) → IsSound q s → IsFree q p → s p ≡ away
free_away {q} {s} p sound free = by_place (s p) refl
  where
    by_place : (x : Place) → s p ≡ x → x ≡ away
    by_place Place.away e = refl
    by_place Place.ready e =
        let one = sound.places.ready_once p ∙ ap (λ x. number (is_ready x)) e in
        let off = free.ready in absurd (omega arith)
    by_place (Place.running w) e =
        absurd (free.running (sound.places.running_tracks.whole p (ap is_running e)))
    by_place (Place.finished w) e =
        absurd (free.finished (sound.places.finished_tracks.whole p (ap is_finished e)))
    by_place Place.complete e =
        let one = sound.places.complete_once p ∙ ap (λ x. number (is_complete x)) e in
        let off = free.complete in absurd (omega arith)

put_here : (s : Places) (p : Pointer) (x : Place) → put s p x p ≡ x
put_here s p x = let e = eq_true p p refl in rw e refl

settles :
    {s s' : Places} (r : Result) (p wp : Pointer)
    → Reaches s [] s'
    → worker_of (s' p) ≡ some wp
    → Reaches s [] (settled r p wp s')
settles success p wp path at = path
settles app_failure p wp path at = then_goes path (completed p wp at)
settles worker_failure p wp path at = then_goes path (evicts wp)

delivers :
    {s : Places} (r : Result) (p wp : Pointer)
    → worker_of (s p) ≡ some wp
    → Reaches s [] (delivered r p wp s)
delivers success p wp at = then_goes stays (completed p wp at)
delivers app_failure p wp at = settles app_failure p wp stays at
delivers worker_failure p wp at = settles worker_failure p wp stays at

module _ (make_cached_name : File → Bytes) {q : Queue} {s : Places} (sound : IsSound q s) where
  hears-Follows : (wp : Pointer) (m : Option Message) → Follows s [] (process_result q wp m).1
  hears-Follows wp m = (_, reaches m, process_result-IsSound m wp sound)
    where
      at :
          (m : Message) (o : Option Pointer)
          → find m.taskid (q.worker wp).current_tasks ≡ o
          → Reaches s [] (message_at m wp o s)
      at m none e = stays
      at m (some p) e = elim (Bool-cases (is_in m)) [
        | inl ok ↦ rw ok (then_goes stays (reported p wp (entry_at m.taskid p wp sound e).1))
        | inr bad ↦ rw bad stays
      ]

      reaches : (m : Option Message) → Reaches s [] (behind_message q wp m s)
      reaches none = stays
      reaches (some m) = at m _ refl

  fetched-Reaches :
      (x : Fetching) (wp taskid : ℕ) (o : Option Pointer)
      → find taskid (q.worker wp).current_tasks ≡ o
      → Reaches s [] (fetched_at make_cached_name x q wp o s)
  fetched-Reaches x wp taskid none e = then_goes stays (evicts wp)
  fetched-Reaches x wp taskid (some p) e =
      delivers (received make_cached_name x q wp p) p wp (entry_at taskid p wp sound e).1

  pub fetches-Follows : (x : Fetching) → Follows s [] (receive_turn make_cached_name x q)
  unfolding receive_turn receive_first receive_from
  fetches-Follows x = by_table q.finished_tasks
    where
      by_worker :
          (taskid : ℕ) (o : Option Pointer)
          → Follows s [] (receive_from make_cached_name x q taskid o)
      by_worker taskid none = (s, stays, sound)
      by_worker taskid (some wp) = (
        _,
        fetched-Reaches x wp taskid _ refl,
        fetch_output_from_worker-IsSound make_cached_name x wp taskid sound,
      )

      by_table : (m : Entries) → Follows s [] (receive_first make_cached_name x q m)
      by_table [] = (s, stays, sound)
      by_table (e ∷ rest) = by_worker e.0 (find e.0 q.worker_task_map)

  -- the head of the ready list goes to its end, and stays ready
  rotated :
      (p : Pointer) (rest : List Pointer)
      → q.ready_list ≡ p ∷ rest
      → IsSound (record q { ready_list = rest ++ p ∷ [] }) s
  rotated p rest e =
      let (here, once) = head_ready p rest sound e in
      let off = sound.places.complete_once p ∙ ap (λ x. number (is_complete x)) here in
      IsSound-ext (λ r. same r here (Bool-cases (r == p)))
        (relist-IsSound p ready (rest ++ p ∷ []) q.complete_list sound (ap is_live here)
          (ap worker_of here) refl
          (λ r.
            count-append p r rest once
            ∙ tail r (Bool-cases (r == p))
            ∙ ap (λ l. if r == p then 1 else count r l) (sym e))
          (λ r. count_absent p r q.complete_list off))
    where
      same : (r : ℕ) → s p ≡ ready → ((r == p) ≡ true) ⊎ ((r == p) ≡ false) → put s p ready r ≡ s r
      same r here (inl eq) = rw eq (sym (ap s ((==_iff r p).0 eq) ∙ here))
      same r here (inr ne) = rw ne refl

      tail :
          (r : ℕ)
          → ((r == p) ≡ true) ⊎ ((r == p) ≡ false)
          → (if r == p then 1 else count r rest) ≡ (if r == p then 1 else count r (p ∷ rest))
      tail r (inl eq) = rw eq refl
      tail r (inr ne) =
          let other = eq_false p r (λ x. (let same = eq_true r p (sym x) in cc)) in
          rw (ne, other) (omega arith)

  starts-Follows : (rand : ℕ) (x : Sending) → Follows s [] (start_turn make_cached_name rand x q).1
  unfolding start_turn start_first start_best
  starts-Follows rand x = by_list q.ready_list refl
    where
      by_worker :
          (p : Pointer) (rest : List Pointer) (o : Option Pointer)
          → q.ready_list ≡ p ∷ rest
          → Follows s [] (start_best make_cached_name x q p rest o).1
      by_worker p rest (some wp) e =
          let at : worker_of (put s p (running wp) p) ≡ some wp =
            ap worker_of (put_here s p (running wp)) in
          (
            _,
            settles (outcome make_cached_name x q wp p rest) p wp
                (then_goes stays (started p wp (head_ready p rest sound e).0)) at,
            start_task_on_worker-IsSound make_cached_name x wp p rest sound e,
          )
      by_worker p rest none e = elim (Bool-cases (ltb 0 (available_workers q q.worker_table))) [
        | inl room ↦ rw room (s, stays, rotated p rest e)
        | inr full ↦ rw full (s, stays, sound)
      ]

      by_list :
          (l : List Pointer)
          → q.ready_list ≡ l
          → Follows s [] (start_first make_cached_name rand x q l).1
      by_list [] e = (s, stays, sound)
      by_list (p ∷ rest) e = by_worker p rest _ e

  cancels-Follows :
      (taskid : ℕ)
      → let r = cancel_by_taskid make_cached_name q taskid in Follows s (add (returned r.0) []) r.1
  cancels-Follows taskid = elim (Bool-cases (ltb 0 taskid)) [
    | inl e ↦ by_outcome _ (cancel_by_taskid-Cancels sound taskid make_cached_name (ground arith))
    | inr e ↦ unfold cancel_by_taskid in rw e (s, stays, sound)
  ]
    where
      by_outcome :
          (r : Option Pointer × Queue)
          → Cancels q s taskid r
          → Follows s (add (returned r.0) []) r.1
      by_outcome (found, q') (inl (none', same, free)) =
          rw none' (s, stays, subst (λ y. IsSound y s) (sym same) sound)
      by_outcome (found, q') (inr (p, found', named, live, sound')) =
          rw found' (put s p away, then_goes stays (given_back p live), sound')

  returns-Follows :
      (l : List Pointer)
      → q.complete_list ≡ l
      → Follows s (add (returned (pop_complete q l).0) []) (pop_complete q l).1
  unfolding pop_complete
  returns-Follows l e = (_, reaches l e, pop_complete-IsSound l sound e)
    where
      reaches :
          (l : List Pointer)
          → q.complete_list ≡ l
          → Reaches s (add (returned (pop_complete q l).0) []) (popped l s)
      reaches [] e = stays
      reaches (p ∷ rest) e =
          let on : 1 ≤ count p q.complete_list =
            (let c = ap (count p) e ∙ head_count p rest in omega arith) in
          let here = at_complete (s p) _ (sound.places.complete_once p) on in
          then_goes stays (given_back p (ap is_live here))

  -- one operation
  Step-Follows :
      {q' : Queue} (step : Step make_cached_name q q')
      → Follows s (add (event make_cached_name step) []) q'
  unfolding event
  Step-Follows (submits now p free) =
      let at = free_away p sound free in
      (_, then_goes stays (submitted p at), (submit-IsSound now p sound at).1)
  Step-Follows (starts rand x) = starts-Follows rand x
  Step-Follows (hears wp m) = hears-Follows wp m
  Step-Follows (fetches x) = fetches-Follows x
  Step-Follows (loses now wp) = (_, then_goes stays (evicts wp), remove_worker-IsSound now wp sound)
  Step-Follows (cancels taskid) = cancels-Follows taskid
  Step-Follows returns = returns-Follows q.complete_list refl
  Step-Follows (joins wp free) = (s, stays, add_worker-IsSound wp sound free)
  Step-Follows (greets wp h) = (s, stays, process_workqueue-IsSound wp h sound)
  Step-Follows (measures wp x) = (s, stays, process_resource-IsSound wp x sound)

Run-Reaches :
    (make_cached_name : File → Bytes) {q q' : Queue} {s : Places}
    → IsSound q s
    → (run : Run make_cached_name q q') → Follows s (events make_cached_name run) q'
unfolding events
Run-Reaches make_cached_name {s = s} sound done = (s, stays, sound)
Run-Reaches make_cached_name {s = s} sound (more run step) =
    let (s', path, sound') = Run-Reaches make_cached_name sound run in
    let (s'', path', sound'') = Step-Follows make_cached_name sound' step in
    let es = events make_cached_name run in
    let o = event make_cached_name step in
    let joined : Reaches s (add o es) s'' =
      subst (λ l. Reaches s l s'') (sym (add-append o es [])) (Reaches-trans path path') in
    (s'', joined, sound'')

-- If every task of a queue is in its place and every worker accounted for, then so it is behind every
-- run of these operations - submissions, turns of the loops that start tasks and fetch outputs,
-- messages with results, losses and arrivals of workers, cancellations by number, waits; not
-- `work_queue_cancel_all_tasks` - in any order, whatever the links, the files, the clock and `rand` do. The
-- places are reached from the old ones by moves of the abstract machine, with just the events that
-- the application sees: a task comes in only by a submission, and leaves only as one that a wait or a
-- cancellation returned; unseen it is only started, reported, completed, or lost with its worker. So
-- the master has exactly the tasks that the application counts from its own calls.
pub Run-Follows :
    (make_cached_name : File → Bytes) {q q' : Queue} {s : Places}
    → IsSound q s
    → (run : Run make_cached_name q q')
    → (s' : Places) × IsSound q' s'
      × Reaches s (events make_cached_name run) s'
      × ((p : Pointer) → is_live (s' p) ≡ held (events make_cached_name run) (λ r. is_live (s r)) p)
Run-Follows make_cached_name sound run =
    let (s', path, sound') = Run-Reaches make_cached_name sound run in
    (s', sound', path, Reaches-held path)
