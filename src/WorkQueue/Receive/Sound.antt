-- ===== src/WorkQueue/Receive/Sound.antt =====
-- Results and outputs keep a queue sound: a task that is reported is finished at its worker, and one
-- whose output is fetched is complete.
use mathlib.Core.Path.{subst}
use cyque.Prelude.{
  ◌+◌, ◌≡◌, refl, sym, ap, ◌∙◌, ◌⊎◌, inl, inr, true, false, Option, some, none, if◌then◌else◌,
  Bool-cases,
}
use cyque.Prelude.Int.{pos, ◌+ℤ◌}
use cyque.Tables.Chain.{find, unlink, Distinct-unlink}
use cyque.Tables.Itable.{uint64_key}
use cyque.WorkQueue.Failure.{Result, success, worker_failure}
use cyque.WorkQueue.Failure.Places.{count_absent}
use cyque.WorkQueue.Failure.Removal.{at_worker}
use cyque.WorkQueue.Failure.Sound.{off_lists}
use cyque.WorkQueue.Master.{Pointer, Queue, write, table_insert}
use cyque.WorkQueue.Places.{
  Places, finished, worker_of, is_live, is_at, holds, put, View, Represents,
}
use cyque.WorkQueue.Places.Moves.{
  Moves-Represents, Sets-unlink, Sets-table_insert, Distinct-table_insert, only, at_live,
  worker_live,
}
use cyque.WorkQueue.Places.Sound.{IsSound, Untouched, Untouched-IsSound}
use cyque.WorkQueue.Receive.{
  Message, timed_task, resulted_task, is_in, process_result, store_result,
}
use cyque.WorkQueue.Places.Lists.{absent_where, kept}
use cyque.WorkQueue.Transfer.Books.{both_written, one_task_written}

-- the table of a worker holds a task exactly if the task is at it
current_of :
    {v : View} {s : Places} (p w : Pointer)
    → Represents v s
    → is_live (s p) ≡ true
    → find (v.taskid p) (v.current_tasks w) ≡ only (is_at w (s p)) p
current_of {v} {s} p w rep live = elim (Bool-cases (is_at w (s p))) [
  | inl e ↦ (rep.current_tracks w).whole p e ∙ ap (λ b. only b p) (sym e)
  | inr e ↦
      absent_where (is_at w) p rep (rep.current_tracks w) (λ x h. at_live x w h) live e
      ∙ ap (λ b. only b p) (sym e)
]

-- the tables of a task that is reported by the worker at `wp`
stored-IsSound :
    {q : Queue} {s : Places} (p wp : Pointer)
    → IsSound q s
    → worker_of (s p) ≡ some wp
    → IsSound
        (record q {
          running_tasks = unlink (q.task p).taskid q.running_tasks;
          finished_tasks = table_insert (q.task p).taskid p q.finished_tasks;
        })
        (put s p (finished wp))
stored-IsSound {q} {s} p wp sound at =
    let rep = sound.places in
    let live = worker_live (s p) wp at in
    let k = (q.task p).taskid in
    let (r, c) = off_lists p wp sound at in
    record {
      places =
          Moves-Represents p (finished wp) rep (λ x ne h same. ne (rep.ids x p h live same))
            (rep.below p live)
            (record {
              taskid = λ x. refl;
              next_taskid = refl;
              ready = λ x. count_absent p x q.ready_list r;
              complete = λ x. count_absent p x q.complete_list c;
              running = (
                Distinct-unlink k q.running_tasks rep.running_tracks.distinct,
                Sets-unlink k q.running_tasks rep.running_tracks.distinct,
              );
              finished = (
                Distinct-table_insert k p q.finished_tasks rep.finished_tracks.distinct,
                Sets-table_insert k p q.finished_tasks,
              );
              current = λ w. (
                (rep.current_tracks w).distinct,
                kept k _ (q.worker w).current_tasks
                    (current_of p w rep live ∙ ap (λ o. only (holds o w) p) at),
              );
              map = (rep.maps.distinct, kept k _ q.worker_task_map (rep.maps.whole p wp at));
            });
      accounted = sound.accounted;
    }

-- a worker that has an entry has its task
pub entry_at :
    {q : Queue} {s : Places} (id p wp : Pointer)
    → IsSound q s
    → find id (q.worker wp).current_tasks ≡ some p
    → ((q.task p).taskid ≡ id) × (worker_of (s p) ≡ some wp)
entry_at {s} id p wp sound e =
    let (named, there) = (sound.places.current_tracks wp).sound id p e in
    (named, at_worker (s p) wp there)

-- where the tasks are behind a message
abbrev pub message_at : Message → Pointer → Option Pointer → Places → Places
message_at m wp none s = s
message_at m wp (some p) s = if is_in m then put s p (finished wp) else s

abbrev pub behind_message : Queue → Pointer → Option Message → Places → Places
behind_message q wp none s = s
behind_message q wp (some m) s = message_at m wp (find m.taskid (q.worker wp).current_tasks) s

-- If every task of a queue is in its place and every worker accounted for, and a message with a result
-- is handled, well formed or not, whatever length of the output it tells, negative or not, and whether
-- memory runs out or not, then the same holds behind it. A task of that worker is finished at the worker
-- if its output was read in full, or if none was to be read: its length was not positive, or there was
-- no room for it. In every other case every task is where it was.
pub process_result-IsSound :
    (m : Option Message) {q : Queue} {s : Places} (wp : Pointer)
    → IsSound q s
    → IsSound (process_result q wp m).1 (behind_message q wp m s)
unfolding process_result store_result timed_task resulted_task
process_result-IsSound none wp sound = sound
process_result-IsSound (some m) {q} {s} wp sound =
    by_entry (find m.taskid (q.worker wp).current_tasks) refl
  where
    good : Pointer → Queue
    good p = record q {
      task = write q.task p (resulted_task m (timed_task m (q.task p)));
      total_execute_time = q.total_execute_time + (timed_task m (q.task p)).cmd_execution_time;
      worker =
          write q.worker wp
            (record (q.worker wp) { finished_tasks = (q.worker wp).finished_tasks +ℤ pos 1 });
    }

    timed : (p : Pointer) → Untouched q (good p)
    timed p =
        both_written q (good p) wp p _ _
          (record {
            taskid = refl;
            unlabeled = refl;
            cores = refl;
            memory = refl;
            disk = refl;
            gpus = refl;
          })
          (record {
            unlabeled = refl;
            cores = refl;
            memory = refl;
            disk = refl;
            gpus = refl;
            current = refl;
          })
          (refl, refl) (refl, refl, refl, refl, refl, refl)

    cut : Pointer → Queue
    cut p = record q {
      task = write q.task p (record (timed_task m (q.task p)) { output = some m.read });
    }

    behind : Pointer → Result × Queue
    behind p =
        if is_in m
        then (
          success,
          record (good p) {
            running_tasks = unlink m.taskid q.running_tasks;
            finished_tasks = table_insert m.taskid p q.finished_tasks;
          },
        )
        else (worker_failure, cut p)

    by_length :
        (p : Pointer)
        → (q.task p).taskid ≡ m.taskid
        → worker_of (s p) ≡ some wp
        → ((is_in m) ≡ true) ⊎ ((is_in m) ≡ false)
        → IsSound (behind p).1 (if is_in m then put s p (finished wp) else s)
    by_length p named at (inl ok) =
        let touched = timed p in
        let named' = touched.alike.names p ∙ named in
        rw ok (
          subst
            (λ k.
              IsSound
                (record (good p) {
                  running_tasks = unlink k q.running_tasks;
                  finished_tasks = table_insert k p q.finished_tasks;
                })
                (put s p (finished wp)))
            named' (stored-IsSound p wp (Untouched-IsSound touched sound) at))
    by_length p named at (inr bad) = rw bad (
        Untouched-IsSound
          (one_task_written q (cut p) p _
            (record {
              taskid = refl;
              unlabeled = refl;
              cores = refl;
              memory = refl;
              disk = refl;
              gpus = refl;
            })
            (refl, refl) (refl, refl, refl, refl, refl, refl))
          sound)

    by_entry :
        (o : Option Pointer)
        → find m.taskid (q.worker wp).current_tasks ≡ o
        → IsSound (store_result q wp m o).1 (message_at m wp o s)
    by_entry none e = sound
    by_entry (some p) e =
        let (named, at) = entry_at m.taskid p wp sound e in
        by_length p named at (Bool-cases (is_in m))
