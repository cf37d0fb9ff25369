-- ===== src/WorkQueue/Places.antt =====
-- The abstract view of the master of work_queue.c: every task is in one place. A view of a queue is
-- the tables and lists in which `struct work_queue` and its workers keep the tasks.
pub mod Frame
pub mod Held
pub mod Lists
pub mod Moves
pub mod Sound
use cyque.Prelude.{
  ℕ, ◌+◌, ◌≡◌, ◌≢◌, ◌<◌, Bool, true, false, Option, none, some, List, [], ◌∷◌, ◌==◌, if◌then◌else◌,
  ◌&&◌, ◌||◌,
}
use cyque.Tables.Chain.{find, Distinct}
use cyque.Tables.Itable.{uint64_key}
use cyque.WorkQueue.Master.{Pointer, Entries, Worker, Queue}
use cyque.WorkQueue.Task.{Task}

-- Where a task is: with the application, waiting, at a worker that runs it or has its result, or done.
pub data Place : Type 0 where
  away : Place
  ready : Place
  running : Pointer → Place
  finished : Pointer → Place
  complete : Place

-- the worker that has a task
abbrev pub worker_of : Place → Option Pointer
worker_of (running wp) = some wp
worker_of (finished wp) = some wp
worker_of _ = none

abbrev pub is_ready : Place → Bool
is_ready ready = true
is_ready _ = false

abbrev pub is_complete : Place → Bool
is_complete complete = true
is_complete _ = false

abbrev pub is_running : Place → Bool
is_running (running wp) = true
is_running _ = false

abbrev pub is_finished : Place → Bool
is_finished (finished wp) = true
is_finished _ = false

abbrev pub is_live : Place → Bool
is_live away = false
is_live _ = true

abbrev pub holds : Option Pointer → Pointer → Bool
holds none wp = false
holds (some x) wp = x == wp

abbrev pub is_at : Pointer → Place → Bool
is_at wp x = holds (worker_of x) wp

abbrev pub Places : Type 0
Places = Pointer → Place

-- the task at `p` goes to the place `x`
abbrev pub put : Places → Pointer → Place → Places
put s p x r = if r == p then x else s r

abbrev pub count : Pointer → List Pointer → ℕ
count p [] = 0
count p (x ∷ xs) = (if x == p then 1 else 0) + count p xs

abbrev pub number : Bool → ℕ
number b = if b then 1 else 0

pub record View : Type 0 where
  pub taskid : Pointer → ℕ
  pub ready_list : List Pointer
  pub complete_list : List Pointer
  pub running_tasks : Entries
  pub finished_tasks : Entries
  pub worker_task_map : Entries
  pub current_tasks : Pointer → Entries
  pub next_taskid : ℕ

abbrev pub view : Queue → View
view q = record {
  taskid = λ p. (q.task p).taskid;
  ready_list = q.ready_list;
  complete_list = q.complete_list;
  running_tasks = q.running_tasks;
  finished_tasks = q.finished_tasks;
  worker_task_map = q.worker_task_map;
  current_tasks = λ wp. (q.worker wp).current_tasks;
  next_taskid = q.next_taskid;
}

-- A table holds, under its number, each task that `has` tells, and no other.
pub record Tracks (taskid : Pointer → ℕ) (m : Entries) (has : Pointer → Bool) : Type 0 where
  pub distinct : Distinct m
  pub sound : (id p : ℕ) → find id m ≡ some p → (taskid p ≡ id) × (has p ≡ true)
  pub whole : (p : ℕ) → has p ≡ true → find (taskid p) m ≡ some p

-- `worker_task_map` gives the worker of each task that is at one, under its number.
pub record Maps (taskid : Pointer → ℕ) (m : Entries) (at : Pointer → Option Pointer) : Type 0 where
  pub distinct : Distinct m
  pub sound : (id wp : ℕ) → find id m ≡ some wp → (p : ℕ) × (taskid p ≡ id) × (at p ≡ some wp)
  pub whole : (p wp : ℕ) → at p ≡ some wp → find (taskid p) m ≡ some wp

-- A view has each task in its place, once, and nowhere else.
pub record Represents (v : View) (s : Places) : Type 0 where
  pub ready_once : (p : ℕ) → count p v.ready_list ≡ number (is_ready (s p))
  pub complete_once : (p : ℕ) → count p v.complete_list ≡ number (is_complete (s p))
  pub running_tracks : Tracks v.taskid v.running_tasks (λ p. is_running (s p))
  pub finished_tracks : Tracks v.taskid v.finished_tasks (λ p. is_finished (s p))
  pub current_tracks : (wp : ℕ) → Tracks v.taskid (v.current_tasks wp) (λ p. is_at wp (s p))
  pub maps : Maps v.taskid v.worker_task_map (λ p. worker_of (s p))
  pub ids :
      (p r : ℕ) → is_live (s p) ≡ true → is_live (s r) ≡ true → v.taskid p ≡ v.taskid r → p ≡ r
  pub below : (p : ℕ) → is_live (s p) ≡ true → v.taskid p < v.next_taskid
