-- ===== src/WorkQueue/Cancel/Sound.antt =====
-- A cancelled task is with the application again, wherever it was; no other task moves.
use cyque.Prelude.{
  ℕ, ◌+◌, ◌≤◌, ◌<◌, ◌≡◌, ◌≢◌, refl, sym, ap, ◌∙◌, ◌⊎◌, inl, inr, Bool, true, false, Option, some,
  none, List, [], ◌∷◌, arith, ==_iff, ltb, Bytes,
}
use cyque.Tables.Chain.{find}
use cyque.Tables.Itable.{uint64_key}
use cyque.WorkQueue.Cancel.{
  find_by_taskid, or_find, find_running_task_by_id, cancel_complete, cancel_ready, abort_task,
  cancel_at, cancel_running_task, cancel_found, cancel_by_taskid,
}
use cyque.WorkQueue.Failure.{delete_worker_files, cache_or_preexist, no_flags, without}
use cyque.WorkQueue.Failure.Places.{count_absent}
use cyque.WorkQueue.Failure.Sound.{released-IsSound, off_lists, delete_worker_files-Untouched}
use cyque.WorkQueue.Master.{Pointer, Queue, reap_task_from_worker}
use cyque.WorkQueue.Places.{
  Place, Places, away, worker_of, is_ready, is_complete, is_running, is_finished, is_live, put,
  count, number, Represents, view,
}
use cyque.WorkQueue.Places.Frame.{Alike-refl, Untouched-of}
use cyque.WorkQueue.Places.Lists.{relist-IsSound, count-without, at_ready, at_complete}
use cyque.WorkQueue.Places.Moves.{worker_live}
use cyque.WorkQueue.Places.Sound.{IsSound, SameBooks-refl, Untouched-trans, Untouched-IsSound}
use cyque.WorkQueue.Task.{Task, File}

find_by_taskid-some :
    (task : Pointer → Task) (taskid p : ℕ) (l : List Pointer)
    → find_by_taskid task taskid l ≡ some p
    → ((task p).taskid ≡ taskid) × (1 ≤ count p l)
unfolding find_by_taskid
find_by_taskid-some task taskid p [] h = absurd (cc)
find_by_taskid-some task taskid p (x ∷ xs) h =
    ground (arith, find_by_taskid-some task taskid p xs, ==_iff x p, ==_iff (task x).taskid taskid)

find_by_taskid-none :
    (task : Pointer → Task) (taskid p : ℕ) (l : List Pointer)
    → find_by_taskid task taskid l ≡ none
    → (task p).taskid ≡ taskid
    → count p l ≡ 0
unfolding find_by_taskid
find_by_taskid-none task taskid p [] h named = refl
find_by_taskid-none task taskid p (x ∷ xs) h named =
    ground (arith, find_by_taskid-none task taskid p xs, ==_iff x p, ==_iff (task x).taskid taskid)

counted-IsSound :
    {q : Queue} {s : Places} (n : ℕ)
    → IsSound q s
    → IsSound (record q { total_tasks_cancelled = n }) s
counted-IsSound {q} n sound =
    Untouched-IsSound
      (Untouched-of q (Alike-refl q.task) (λ x. SameBooks-refl (q.worker x))
        (refl, refl, refl, refl, refl, refl))
      sound

-- What a cancellation by number promises: a live task with the number is cancelled, or there is none and
-- nothing changes.
abbrev pub Cancels : Queue → Places → ℕ → Option Pointer × Queue → Type 0
Cancels q s taskid (found, q') =
    ((found ≡ none)
      × (q' ≡ q)
      × ((p : Pointer) → is_live (s p) ≡ true → (q.task p).taskid ≢ taskid))
    ⊎ ((p : Pointer) × (found ≡ some p)
        × ((q.task p).taskid ≡ taskid)
        × (is_live (s p) ≡ true)
        × IsSound q' (put s p away))

once : (n : ℕ) (b : Bool) → n ≡ number b → 1 ≤ n → n ≡ 1
once n true h on = h
once n false h on = absurd (omega arith)

module _ {q : Queue} {s : Places} (sound : IsSound q s) (taskid : ℕ) where
  on_no_list :
      (p : Pointer)
      → find taskid q.running_tasks ≡ none
      → find taskid q.finished_tasks ≡ none
      → find_by_taskid q.task taskid q.ready_list ≡ none
      → find_by_taskid q.task taskid q.complete_list ≡ none
      → is_live (s p) ≡ true
      → (q.task p).taskid ≢ taskid
  on_no_list p r f a c live named = by_place (s p) refl
    where
      rep : Represents (view q) s
      rep = sound.places

      by_place : (x : Place) → s p ≡ x → ⊥
      by_place Place.away e = let dead = ap is_live e in cc
      by_place Place.ready e =
          let one = rep.ready_once p ∙ ap (λ x. number (is_ready x)) e in
          let zero' = find_by_taskid-none q.task taskid p q.ready_list a named in omega arith
      by_place (Place.running w) e =
          let found =
            ap (λ k. find k q.running_tasks) (sym named)
            ∙ rep.running_tracks.whole p (ap is_running e) in
          cc
      by_place (Place.finished w) e =
          let found =
            ap (λ k. find k q.finished_tasks) (sym named)
            ∙ rep.finished_tracks.whole p (ap is_finished e) in
          cc
      by_place Place.complete e =
          let one = rep.complete_once p ∙ ap (λ x. number (is_complete x)) e in
          let zero' = find_by_taskid-none q.task taskid p q.complete_list c named in omega arith

  cancel_complete-Cancels :
      (o : Option Pointer)
      → find taskid q.running_tasks ≡ none
      → find taskid q.finished_tasks ≡ none
      → find_by_taskid q.task taskid q.ready_list ≡ none
      → find_by_taskid q.task taskid q.complete_list ≡ o
      → Cancels q s taskid (cancel_complete q o)
  unfolding cancel_complete
  cancel_complete-Cancels none r f a e = inl (refl, refl, λ p live. on_no_list p r f a e live)
  cancel_complete-Cancels (some p) r f a e =
      let (named, on) = find_by_taskid-some q.task taskid p q.complete_list e in
      let here = at_complete (s p) (count p q.complete_list) (sound.places.complete_once p) on in
      let one =
        once (count p q.complete_list) (is_complete (s p)) (sound.places.complete_once p) on in
      let off = sound.places.ready_once p ∙ ap (λ x. number (is_ready x)) here in
      inr (
        p,
        refl,
        named,
        ap is_live here,
        counted-IsSound _ (
            relist-IsSound p away q.ready_list (without p q.complete_list) sound (ap is_live here)
              (ap worker_of here) refl (λ x. count_absent p x q.ready_list off)
              (λ x. count-without p x q.complete_list one)),
      )

  cancel_ready-Cancels :
      (o : Option Pointer)
      → find taskid q.running_tasks ≡ none
      → find taskid q.finished_tasks ≡ none
      → find_by_taskid q.task taskid q.ready_list ≡ o
      → Cancels q s taskid (cancel_ready q taskid o)
  unfolding cancel_ready
  cancel_ready-Cancels none r f e = cancel_complete-Cancels _ r f e refl
  cancel_ready-Cancels (some p) r f e =
      let (named, on) = find_by_taskid-some q.task taskid p q.ready_list e in
      let here = at_ready (s p) (count p q.ready_list) (sound.places.ready_once p) on in
      let one = once (count p q.ready_list) (is_ready (s p)) (sound.places.ready_once p) on in
      let off = sound.places.complete_once p ∙ ap (λ x. number (is_complete x)) here in
      inr (
        p,
        refl,
        named,
        ap is_live here,
        counted-IsSound _ (
            relist-IsSound p away (without p q.ready_list) q.complete_list sound (ap is_live here)
              (ap worker_of here) refl (λ x. count-without p x q.ready_list one)
              (λ x. count_absent p x q.complete_list off)),
      )

  module _ (make_cached_name : File → Bytes) where
    abort_task-IsSound :
        (p wp : Pointer)
        → worker_of (s p) ≡ some wp
        → IsSound (abort_task make_cached_name q wp p) (put s p away)
    unfolding abort_task reap_task_from_worker
    abort_task-IsSound p wp at =
        let q' =
          delete_worker_files make_cached_name cache_or_preexist q wp (q.task p).input_files in
        let q'' = delete_worker_files make_cached_name no_flags q' wp (q'.task p).output_files in
        let sound' =
          Untouched-IsSound
            (Untouched-trans
              (delete_worker_files-Untouched make_cached_name cache_or_preexist q wp
                (q.task p).input_files)
              (delete_worker_files-Untouched make_cached_name no_flags q' wp
                (q'.task p).output_files))
            sound in
        let (r, c) = off_lists p wp sound' at in
        released-IsSound p wp away q''.ready_list q''.complete_list sound' at refl
          (λ x. count_absent p x q''.ready_list r) (λ x. count_absent p x q''.complete_list c)

    -- a task that is at a worker is cancelled
    cancel_worked :
        (p wp : Pointer)
        → (q.task p).taskid ≡ taskid
        → worker_of (s p) ≡ some wp
        → Cancels q s taskid (cancel_found make_cached_name q taskid (some p))
    unfolding cancel_found cancel_running_task cancel_at
    cancel_worked p wp named at = rw (sound.places.maps.whole p wp at) (
        inr (
          p,
          refl,
          named,
          worker_live (s p) wp at,
          counted-IsSound ((abort_task make_cached_name q wp p).total_tasks_cancelled + 1)
              (abort_task-IsSound p wp at),
        ))

    cancel_finished :
        (o : Option Pointer)
        → find taskid q.running_tasks ≡ none
        → find taskid q.finished_tasks ≡ o
        → Cancels q s taskid (cancel_found make_cached_name q taskid o)
    unfolding cancel_found
    cancel_finished none r e = cancel_ready-Cancels _ r e refl
    cancel_finished (some p) r e =
        let (named, held) = sound.places.finished_tracks.sound taskid p e in
        let (wp, at) = finished_at (s p) held in cancel_worked p wp named at
      where
        finished_at : (x : Place) → is_finished x ≡ true → (w : Pointer) × (worker_of x ≡ some w)
        finished_at (Place.finished w) h = (w, refl)
        finished_at _ h = absurd (cc)

    cancel_any :
        (o : Option Pointer)
        → find taskid q.running_tasks ≡ o
        → Cancels q s taskid
            (cancel_found make_cached_name q taskid (or_find o taskid q.finished_tasks))
    cancel_any none e = cancel_finished _ e refl
    cancel_any (some p) e =
        let (named, held) = sound.places.running_tracks.sound taskid p e in
        let (wp, at) = running_at (s p) held in cancel_worked p wp named at
      where
        running_at : (x : Place) → is_running x ≡ true → (w : Pointer) × (worker_of x ≡ some w)
        running_at (Place.running w) h = (w, refl)
        running_at _ h = absurd (cc)

    -- If every task of a queue is in its place and every worker accounted for, and a positive number is
    -- cancelled, then either a task that is waiting, at a worker or complete has that number, is
    -- returned and is with the application again, every other task is where it was, and the same holds
    -- behind it; or no such task has that number, none is returned and the queue is as it was.
    pub cancel_by_taskid-Cancels :
        0 < taskid → Cancels q s taskid (cancel_by_taskid make_cached_name q taskid)
    unfolding cancel_by_taskid find_running_task_by_id
    cancel_by_taskid-Cancels positive =
        let test : ltb 0 taskid ≡ true = ground arith in rw test (cancel_any _ refl)
