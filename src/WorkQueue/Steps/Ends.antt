-- ===== src/WorkQueue/Steps/Ends.antt =====
-- The loop of `receive_tasks` ends: each turn takes a task out of the finished ones for good.
use mathlib.Core.Path.{subst}
use cyque.Prelude.{
  ℕ, ◌<◌, ◌≤◌, ◌≡◌, ◌≢◌, refl, sym, ap, ◌∙◌, ◌⊎◌, inl, inr, true, false, some, none, List, [], ◌∷◌,
  arith, ◌==◌, ==_iff, if◌then◌else◌, Bool-cases, Option-cases, length, Bytes,
}
use cyque.Tables.Chain.{find, unlink, Distinct, Distinct-unlink, find-unlink, length-unlink}
use cyque.Tables.Itable.{uint64_key}
use cyque.WorkQueue.Failure.{Result, success, worker_failure, app_failure}
use cyque.WorkQueue.Failure.Removal.{evicted}
use cyque.WorkQueue.Master.{Pointer, Entries, Queue}
use cyque.WorkQueue.Places.{Place, Places, complete, worker_of, is_finished, is_at, holds, put}
use cyque.WorkQueue.Places.Moves.{eq_true, finished_live}
use cyque.WorkQueue.Places.Sound.{IsSound}
use cyque.WorkQueue.Receive.{
  Fetching, fetch_found, fetch_output_from_worker, receive_from, receive_first, receive_turn,
  receive_tasks,
}
use cyque.WorkQueue.Receive.Fetched.{
  delivered, received, fetched_at, fetch_output_from_worker-IsSound,
}
use cyque.WorkQueue.Receive.Names.{fetch_found-SameNames}
use cyque.WorkQueue.Steps.Refine.{fetches-Follows}
use cyque.WorkQueue.Task.{File}

-- a table that another one contains is no longer
length_le :
    (m' m : Entries)
    → Distinct m'
    → Distinct m
    → ((id r : ℕ) → find id m' ≡ some r → find id m ≡ some r)
    → length m' ≤ length m
unfolding find
length_le [] m d' d sub = omega arith
length_le ((k, v) ∷ m') m d' d sub =
    let same : (k == k) ≡ true = eq_true k k refl in
    let there = sub k v (rw same refl) in
    let shorter = length-unlink k v m there in
    let rest =
      length_le m' (unlink k m) d'.1 (Distinct-unlink k m d)
        (λ id r e. kept id r e (Bool-cases (id == k))) in
    omega arith
  where
    kept :
        (id r : ℕ)
        → find id m' ≡ some r
        → ((id == k) ≡ true) ⊎ ((id == k) ≡ false)
        → find id (unlink k m) ≡ some r
    kept id r e (inl eq) =
        let absent : find id m' ≡ none = ap (λ y. find y m') ((==_iff id k).0 eq) ∙ d'.0 in
        absurd (cc)
    kept id r e (inr ne) = let old = sub id r (rw ne e) in find-unlink k id m d ∙ rw ne old

length_lt :
    (k v : ℕ) (m' m : Entries)
    → Distinct m'
    → Distinct m
    → ((id r : ℕ) → find id m' ≡ some r → find id m ≡ some r)
    → find k m ≡ some v
    → find k m' ≡ none
    → length m' < length m
length_lt k v m' m d' d sub there gone =
    let shorter = length-unlink k v m there in
    let rest =
      length_le m' (unlink k m) d' (Distinct-unlink k m d)
        (λ id r e. kept id r e (Bool-cases (id == k))) in
    omega arith
  where
    kept :
        (id r : ℕ)
        → find id m' ≡ some r
        → ((id == k) ≡ true) ⊎ ((id == k) ≡ false)
        → find id (unlink k m) ≡ some r
    kept id r e (inl eq) =
        let absent : find id m' ≡ none = ap (λ y. find y m') ((==_iff id k).0 eq) ∙ gone in
        absurd (cc)
    kept id r e (inr ne) = find-unlink k id m d ∙ rw ne (sub id r e)

-- behind a fetch the task is not finished at a worker, and no other task has become so
fetched-is_finished :
    (s : Places) (result : Result) (p wp r : Pointer)
    → worker_of (s p) ≡ some wp
    → is_finished (delivered result p wp s r) ≡ true
    → (r ≢ p) × (is_finished (s r) ≡ true)
fetched-is_finished s result p wp r at = by_result result
  where
    at_put :
        ((r == p) ≡ true) ⊎ ((r == p) ≡ false)
        → is_finished (put s p complete r) ≡ true
        → (r ≢ p) × (is_finished (s r) ≡ true)
    at_put (inl e) h =
        let off = ap (λ b. is_finished (if b then complete else s r)) e in absurd (cc)
    at_put (inr e) h = (
      λ same. (let on = eq_true r p same in cc),
      sym (ap (λ b. is_finished (if b then complete else s r)) e) ∙ h,
    )

    at_evicted :
        ((is_at wp (s r)) ≡ true) ⊎ ((is_at wp (s r)) ≡ false)
        → is_finished (evicted wp s r) ≡ true
        → (r ≢ p) × (is_finished (s r) ≡ true)
    at_evicted (inl e) h =
        let off = ap (λ b. is_finished (if b then Place.ready else s r)) e in absurd (cc)
    at_evicted (inr e) h = (
      λ same.
          (let on : is_at wp (s r) ≡ true =
              ap (λ y. is_at wp (s y)) same ∙ ap (λ o. holds o wp) at ∙ eq_true wp wp refl in
            cc),
      sym (ap (λ b. is_finished (if b then Place.ready else s r)) e) ∙ h,
    )

    by_result :
        (result : Result)
        → is_finished (delivered result p wp s r) ≡ true
        → (r ≢ p) × (is_finished (s r) ≡ true)
    by_result success h = at_put (Bool-cases (r == p)) h
    by_result app_failure h = at_put (Bool-cases (r == p)) h
    by_result worker_failure h = at_evicted (Bool-cases (is_at wp (s r))) h

finished_at : (x : Place) → is_finished x ≡ true → (w : Pointer) × (worker_of x ≡ some w)
finished_at (Place.finished w) h = (w, refl)
finished_at _ h = absurd (cc)

module _ (make_cached_name : File → Bytes) where
  fetch_shortens :
      (x : Fetching) {q : Queue} {s : Places} (id p wp : ℕ)
      → IsSound q s
      → find id q.finished_tasks ≡ some p
      → worker_of (s p) ≡ some wp
      → length (fetch_output_from_worker make_cached_name x q wp id).finished_tasks
        < length q.finished_tasks
  unfolding fetch_output_from_worker
  fetch_shortens x {q} {s} id p wp sound there at =
      let (named, done) = sound.places.finished_tracks.sound id p there in
      let held =
        (sound.places.current_tracks wp).whole p (ap (λ o. holds o wp) at ∙ eq_true wp wp refl) in
      let entry : find id (q.worker wp).current_tasks ≡ some p =
        ap (λ k. find k (q.worker wp).current_tasks) (sym named) ∙ held in
      by_entry named done entry (fetch_output_from_worker-IsSound make_cached_name x wp id sound)
    where
      by_entry :
          (q.task p).taskid ≡ id
          → is_finished (s p) ≡ true
          → find id (q.worker wp).current_tasks ≡ some p
          → IsSound
              (fetch_found make_cached_name x q wp (find id (q.worker wp).current_tasks))
              (fetched_at make_cached_name x q wp (find id (q.worker wp).current_tasks) s)
          → length
              (fetch_found make_cached_name x q wp
                (find id (q.worker wp).current_tasks)).finished_tasks
            < length q.finished_tasks
      by_entry named done entry = rw entry (λ after.
          let q' = fetch_found make_cached_name x q wp (some p) in
          let names = fetch_found-SameNames make_cached_name x q wp p in
          let old : (k r : ℕ)
              → find k q'.finished_tasks ≡ some r
              → ((q.task r).taskid ≡ k) × (r ≢ p) × (is_finished (s r) ≡ true) =
            λ k r e.
              (let (named', held') = after.places.finished_tracks.sound k r e in
                let (ne, held) =
                  fetched-is_finished s (received make_cached_name x q wp p) p wp r at held' in
                (sym (names r) ∙ named', ne, held)) in
          length_lt id p q'.finished_tasks q.finished_tasks after.places.finished_tracks.distinct
            sound.places.finished_tracks.distinct
            (λ k r e.
              (let (named', ne, held) = old k r e in
                ap (λ y. find y q.finished_tasks) (sym named')
                ∙ sound.places.finished_tracks.whole r held))
            there
            (elim (Option-cases (find id q'.finished_tasks)) [
              | inl e ↦ e
              | inr (r, e) ↦
                  let (named', ne, held) = old id r e in
                  absurd (
                    ne (
                      sound.places.ids r p (finished_live (s r) held) (finished_live (s p) done)
                        (named' ∙ sym named)))
            ]))

  receive_turn_shortens :
      (x : Fetching) {q : Queue} {s : Places} (e : ℕ × Pointer) (rest : Entries)
      → IsSound q s
      → q.finished_tasks ≡ e ∷ rest
      → length (receive_turn make_cached_name x q).finished_tasks < length q.finished_tasks
  unfolding receive_turn receive_first receive_from find
  receive_turn_shortens x {q} {s} (id, p) rest sound h =
      let self = eq_true id id refl in
      let there : find id q.finished_tasks ≡ some p = rw (h, self) refl in
      let (named, done) = sound.places.finished_tracks.sound id p there in
      let (wp, at) = finished_at (s p) done in
      let mapped : find id q.worker_task_map ≡ some wp =
        ap (λ k. find k q.worker_task_map) (sym named) ∙ sound.places.maps.whole p wp at in
      by_turn wp mapped (fetch_shortens x id p wp sound there at)
    where
      by_turn :
          (wp : Pointer)
          → find id q.worker_task_map ≡ some wp
          → length (fetch_output_from_worker make_cached_name x q wp id).finished_tasks
            < length q.finished_tasks
          → length (receive_first make_cached_name x q q.finished_tasks).finished_tasks
            < length q.finished_tasks
      by_turn wp mapped less =
          subst
            (λ (m : Entries).
              length (receive_first make_cached_name x q m).finished_tasks
              < length q.finished_tasks)
            (sym h)
            (subst
              (λ o.
                length (receive_from make_cached_name x q id o).finished_tasks
                < length q.finished_tasks)
              (sym mapped) less)

  -- If every task of a queue is in its place and every worker accounted for, and the loop that fetches
  -- outputs has as many turns as there are finished tasks, or more, then no finished task is left behind
  -- it, whatever the links do.
  pub receive_tasks_total :
      (xs : List Fetching) {q : Queue} {s : Places}
      → IsSound q s
      → length q.finished_tasks ≤ length xs
      → (receive_tasks make_cached_name xs q).finished_tasks ≡ []
  unfolding receive_tasks receive_first receive_turn
  receive_tasks_total [] {q} sound enough = none_left q.finished_tasks enough
    where
      none_left : (m : Entries) → length m ≤ 0 → m ≡ []
      none_left [] h = refl
      none_left (e ∷ m) h = absurd (omega arith)
  receive_tasks_total (x ∷ xs) {q} sound enough =
      let (s', path, sound') = fetches-Follows make_cached_name sound x in
      receive_tasks_total xs sound' (fewer q.finished_tasks refl)
    where
      fewer :
          (m : Entries)
          → q.finished_tasks ≡ m
          → length (receive_turn make_cached_name x q).finished_tasks ≤ length xs
      fewer [] h =
          subst
            (λ (m : Entries).
              length (receive_first make_cached_name x q m).finished_tasks ≤ length xs)
            (sym h) (let short = ap length h in omega arith)
      fewer (e ∷ rest) h = let less = receive_turn_shortens x e rest sound h in omega arith
