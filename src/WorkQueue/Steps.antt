-- ===== src/WorkQueue/Steps.antt =====
-- The runs of the master of work_queue.c: a step is one operation, with whatever the links, the files,
-- the clock and `rand` do. The abstract runs move tasks between places and know nothing of the tables;
-- what the application sees of a run is a list of events.
pub mod Counted
pub mod Refine
pub mod Ends
pub mod Loops
use cyque.Prelude.{
  ℕ, ◌≡◌, ◌≢◌, Bool, true, false, Option, none, some, List, [], ◌∷◌, Bytes, ◌==◌, if◌then◌else◌,
}
use cyque.Tables.Chain.{find}
use cyque.Tables.Itable.{uint64_key}
use cyque.WorkQueue.Cancel.{cancel_by_taskid}
use cyque.WorkQueue.Failure.{remove_worker}
use cyque.WorkQueue.Failure.Removal.{evicted}
use cyque.WorkQueue.Join.{add_worker, Hello, process_workqueue, Report, process_resource}
use cyque.WorkQueue.Master.{Pointer, Worker, Queue}
use cyque.WorkQueue.Places.{
  Place, Places, away, ready, running, finished, complete, worker_of, is_live, put, count,
}
use cyque.WorkQueue.Receive.{Message, process_result, Fetching, receive_turn}
use cyque.WorkQueue.Start.{Sending, start_turn}
use cyque.WorkQueue.Submit.{submit}
use cyque.WorkQueue.Task.{File}
use cyque.WorkQueue.Wait.{pop_complete}

-- No list and no table of the queue has the task: the application may submit it.
pub record IsFree (q : Queue) (p : Pointer) : Type 0 where
  pub ready : count p q.ready_list ≡ 0
  pub complete : count p q.complete_list ≡ 0
  pub running : find (q.task p).taskid q.running_tasks ≢ some p
  pub finished : find (q.task p).taskid q.finished_tasks ≢ some p

-- the master takes a task, or gives it back
pub data Event : Type 0 where
  takes gives : Pointer → Event

abbrev pub returned : Option Pointer → Option Event
returned none = none
returned (some p) = some (gives p)

abbrev pub add : Option Event → List Event → List Event
add none es = es
add (some e) es = e ∷ es

module _ (make_cached_name : File → Bytes) where
  -- One operation on the queue: a submission, a turn of the loop that starts tasks, a message with a
  -- result, a turn of the loop that fetches outputs, the loss of a worker, a cancellation, a wait, a worker
  -- that connects in a block of memory that has no task, and what it tells of itself. A call of
  -- `work_queue_cancel_all_tasks` is none of them.
  pub data Step : Queue → Queue → Type 0 where
    submits : {q : Queue} (now : ℕ) (p : Pointer) → IsFree q p → Step q (submit now q p).1
    starts : {q : Queue} (rand : ℕ) (x : Sending) → Step q (start_turn make_cached_name rand x q).1
    hears : {q : Queue} (wp : Pointer) (m : Option Message) → Step q (process_result q wp m).1
    fetches : {q : Queue} (x : Fetching) → Step q (receive_turn make_cached_name x q)
    loses : {q : Queue} (now : Pointer → ℕ) (wp : Pointer) → Step q (remove_worker now q wp)
    cancels : {q : Queue} (taskid : ℕ) → Step q (cancel_by_taskid make_cached_name q taskid).1
    returns : {q : Queue} → Step q (pop_complete q q.complete_list).1
    joins : {q : Queue} (wp : Pointer) → (q.worker wp).current_tasks ≡ [] → Step q (add_worker q wp)
    greets : {q : Queue} (wp : Pointer) (h : Option Hello) → Step q (process_workqueue q wp h).1
    measures : {q : Queue} (wp : Pointer) (x : Report) → Step q (process_resource q wp x)

  -- what the application sees of an operation: by what it calls, and by what the calls return
  unfoldable pub event : {q q' : Queue} → Step q q' → Option Event
  event (submits now p free) = some (takes p)
  event (cancels {q = q} taskid) = returned (cancel_by_taskid make_cached_name q taskid).0
  event (returns {q = q}) = returned (pop_complete q q.complete_list).0
  event (starts rand x) = none
  event (hears wp m) = none
  event (fetches x) = none
  event (loses now wp) = none
  event (joins wp free) = none
  event (greets wp h) = none
  event (measures wp x) = none

  pub data Run : Queue → Queue → Type 0 where
    done : {q : Queue} → Run q q
    more : {q q' q'' : Queue} → Run q q' → Step q' q'' → Run q q''

  -- the events of a run, the last first
  unfoldable pub events : {q q' : Queue} → Run q q' → List Event
  unfolding event
  events done = []
  events (more run step) = add (event step) (events run)

-- A move of the tasks, with what the application sees of it: a task is submitted, or is given back.
-- Unseen, a task goes to a worker, has its result there, is done with; a worker loses its tasks.
pub data Goes : Option Event → Places → Places → Type 0 where
  submitted : {s : Places} (p : Pointer) → s p ≡ away → Goes (some (takes p)) s (put s p ready)
  given_back :
      {s : Places} (p : Pointer) → is_live (s p) ≡ true → Goes (some (gives p)) s (put s p away)
  started : {s : Places} (p wp : Pointer) → s p ≡ ready → Goes none s (put s p (running wp))
  reported :
      {s : Places} (p wp : Pointer)
      → worker_of (s p) ≡ some wp
      → Goes none s (put s p (finished wp))
  completed :
      {s : Places} (p wp : Pointer) → worker_of (s p) ≡ some wp → Goes none s (put s p complete)
  evicts : {s : Places} (wp : Pointer) → Goes none s (evicted wp s)

pub data Reaches : Places → List Event → Places → Type 0 where
  stays : {s : Places} → Reaches s [] s
  then_goes :
      {s s' s'' : Places} {es : List Event} {o : Option Event}
      → Reaches s es s'
      → Goes o s' s''
      → Reaches s (add o es) s''

-- The tasks that the master has, as the application counts them: by what it has seen alone.
abbrev pub does : Event → (Pointer → Bool) → Pointer → Bool
does (takes p) h r = if r == p then true else h r
does (gives p) h r = if r == p then false else h r

abbrev pub held : List Event → (Pointer → Bool) → Pointer → Bool
held [] h = h
held (e ∷ es) h = does e (held es h)
