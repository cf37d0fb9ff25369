-- ===== src/WorkQueue/Release/Sound.antt =====
-- Where the tasks are when workers are sent away.
use mathlib.Core.Path.{subst}
use cyque.Prelude.{
  ℕ, ◌+◌, ◌≡◌, refl, sym, ap, ◌∙◌, ◌⊎◌, inl, inr, true, false, List, [], ◌∷◌, arith, ◌==◌, ==_iff,
  if◌then◌else◌, Bool-cases,
}
use cyque.WorkQueue.Cleanup.{
  ready_again, cleanup_task, cleanup_loop, forget_files, forget_tasks, cleanup_worker,
}
use cyque.WorkQueue.Failure.{without, remove_worker}
use cyque.WorkQueue.Failure.Places.{count_absent}
use cyque.WorkQueue.Failure.Removal.{evicted, remove_worker-IsSound}
use cyque.WorkQueue.Master.{Pointer, Entries, Queue, reap_task_from_worker}
use cyque.WorkQueue.Places.{
  Places, away, ready, worker_of, is_ready, is_complete, is_live, put, count, number,
}
use cyque.WorkQueue.Places.Moves.{eq_true}
use cyque.WorkQueue.Places.Lists.{relist-IsSound}
use cyque.WorkQueue.Places.Sound.{IsSound, IsSound-ext}
use cyque.WorkQueue.Release.{release_worker, release_loop, release_all_workers, reset}
use cyque.WorkQueue.Start.Sound.{head_ready}
use cyque.WorkQueue.Wait.Sound.{rest_count}

-- the tasks of the first worker of a list are ready, those of the others where they were
abbrev pub evicted_first : List Pointer → Places → Places
evicted_first [] s = s
evicted_first (wp ∷ wps) s = evicted wp s

-- the workers behind the first
abbrev pub others : List Pointer → List Pointer
others [] = []
others (wp ∷ wps) = wps

-- the tasks that are ready are with the application
abbrev pub dropped : Places → Places
dropped s p = if is_ready (s p) then away else s p

dropped-put : (s : Places) (p r : Pointer) → s p ≡ ready → dropped (put s p away) r ≡ dropped s r
dropped-put s p r here = elim (Bool-cases (r == p)) [
  | inl e ↦ let same : s r ≡ ready = ap s ((==_iff r p).0 e) ∙ here in rw (e, same) refl
  | inr e ↦ rw e refl
]

-- the tasks of the ready list leave it one by one
drop_ready :
    (l : List Pointer) {q : Queue} {s : Places}
    → IsSound q s
    → q.ready_list ≡ l
    → IsSound (record q { ready_list = [] }) (dropped s)
drop_ready [] {q} {s} sound e = IsSound-ext (λ p. stays p (Bool-cases (is_ready (s p)))) again
  where
    again : IsSound (record q { ready_list = [] }) s
    again = subst (λ (l : List Pointer). IsSound (record q { ready_list = l }) s) e sound

    stays :
        (p : Pointer) → ((is_ready (s p)) ≡ true) ⊎ ((is_ready (s p)) ≡ false) → s p ≡ dropped s p
    stays p (inl on) =
        let one = sound.places.ready_once p ∙ ap number on in
        let none' = ap (count p) e in absurd (omega arith)
    stays p (inr off) = rw off refl
drop_ready (p ∷ l) {q} {s} sound e =
    let (here, once) = head_ready p l sound e in
    let off = sound.places.complete_once p ∙ ap (λ x. number (is_complete x)) here in
    let popped =
      relist-IsSound p away l q.complete_list sound (ap is_live here) (ap worker_of here) refl
        (λ r. rest_count p r l once ∙ ap (λ m. if r == p then 0 else count r m) (sym e))
        (λ r. count_absent p r q.complete_list off) in
    IsSound-ext (λ r. dropped-put s p r here) (drop_ready l popped refl)

-- a worker is cleaned up without the complete list and the table of workers
record Keeps (q q' : Queue) : Type 0 where
  complete : q'.complete_list ≡ q.complete_list
  table : q'.worker_table ≡ q.worker_table

cleanup_loop-Keeps :
    (now : Pointer → ℕ) (es : Entries) (q : Queue) (wp : Pointer)
    → Keeps q (cleanup_loop now q wp es)
unfolding cleanup_loop cleanup_task ready_again reap_task_from_worker
cleanup_loop-Keeps now [] q wp = record { complete = refl; table = refl }
cleanup_loop-Keeps now (e ∷ es) q wp =
    let rest = cleanup_loop-Keeps now es (cleanup_task now q wp e.1) wp in
    record { complete = Keeps.complete rest; table = Keeps.table rest }

module _ (now : Pointer → ℕ) where
  cleaned-Keeps : (q : Queue) (wp : Pointer) → Keeps q (cleanup_worker now q wp)
  unfolding cleanup_worker forget_files forget_tasks
  cleaned-Keeps q wp =
      let rest =
        cleanup_loop-Keeps now ((forget_files q wp).worker wp).current_tasks (forget_files q wp)
          wp in
      record { complete = Keeps.complete rest; table = Keeps.table rest }

  release_loop-IsSound :
      (wps : List Pointer) {q : Queue} {s : Places}
      → IsSound q s
      → q.worker_table ≡ wps
      → IsSound (release_loop now wps q) (evicted_first wps s)
        × ((release_loop now wps q).worker_table ≡ others wps)
        × ((release_loop now wps q).complete_list ≡ q.complete_list)
  unfolding release_loop release_worker remove_worker without
  release_loop-IsSound [] sound e = (sound, e, refl)
  release_loop-IsSound (wp ∷ wps) {q} sound e =
      let counted = record q { total_workers_removed = q.total_workers_removed + 1 } in
      let kept = cleaned-Keeps counted wp in
      let first : without wp (wp ∷ wps) ≡ wps = rw (eq_true wp wp refl) refl in
      (
        remove_worker-IsSound now wp sound,
        ap (without wp) (Keeps.table kept ∙ e) ∙ first,
        Keeps.complete kept,
      )

  -- If every task of a queue is in its place and every worker accounted for, and the queue is reset,
  -- then the same holds behind it, but only the first worker of the table is gone: its tasks are
  -- ready, the other workers are in the table still, with their tasks, and if the tasks are not
  -- kept, every task that is ready is with the application. The complete list is as it was, in either
  -- case.
  pub reset-IsSound :
      {q : Queue} {s : Places} (flags : ℕ)
      → IsSound q s
      → let q' = reset now q flags in
        let s' = evicted_first q.worker_table s in
        IsSound q' (if flags == 1 then s' else dropped s')
        × (q'.worker_table ≡ others q.worker_table)
        × (q'.complete_list ≡ q.complete_list)
  unfolding reset release_all_workers
  reset-IsSound {q} flags sound =
      let (sound', table, complete) = release_loop-IsSound q.worker_table sound refl in
      elim (Bool-cases (flags == 1)) [
        | inl e ↦ rw e (sound', table, complete)
        | inr e ↦ rw e (drop_ready _ sound' refl, table, complete)
      ]
