-- ===== src/WorkQueue/Submit/Fresh.antt =====
-- What a new number for a task that is with the application leaves as it was.
use cyque.Prelude.{
  ℕ, ◌+◌, ◌≡◌, ◌≢◌, refl, sym, ap, ◌∙◌, ◌⊎◌, inl, inr, Bool, true, false, some, none, List, [], ◌∷◌,
  ◌++◌, arith, ◌==◌, ==_iff, if◌then◌else◌, Bool-cases, Option-cases, All,
}
use cyque.Prelude.Int.{pos}
use cyque.Tables.Chain.{find, Distinct}
use cyque.Tables.Itable.{uint64_key}
use cyque.WorkQueue.Accounting.{Kind, need, needed, IsAccounted, IsAccounted-of}
use cyque.WorkQueue.Master.{Pointer, Entries, Worker}
use cyque.WorkQueue.Places.{
  Place, Places, away, is_running, is_finished, is_live, is_at, count, View, Tracks, Represents,
}
use cyque.WorkQueue.Places.Moves.{eq_true, eq_false, worker_live}
use cyque.WorkQueue.Task.{Task}

count_last :
    (p r : Pointer) (l : List Pointer)
    → count r (l ++ p ∷ []) ≡ count r l + (if p == r then 1 else 0)
count_last p r [] = omega arith
count_last p r (x ∷ xs) = let rest = count_last p r xs in omega arith

pub count-append :
    (p r : Pointer) (l : List Pointer)
    → count p l ≡ 0
    → count r (l ++ p ∷ []) ≡ (if r == p then 1 else count r l)
count-append p r l h = count_last p r l ∙ elim (Bool-cases (r == p)) [
  | inl e ↦
      let same = (==_iff r p).0 e in
      let head = eq_true p r (sym same) in
      rw (e, head) (ap (λ n. n + 1) (ap (λ x. count x l) same ∙ h))
  | inr e ↦
      let other = eq_false p r (λ x. (let same = eq_true r p (sym x) in cc)) in
      rw (e, other) (omega arith)
]

-- what holds of the values of a table holds of its entries
pub All-found :
    (P : Pointer → Type 0) (m : Entries)
    → Distinct m
    → ((id r : ℕ) → find id m ≡ some r → P r)
    → All (λ e. P e.1) m
unfolding find
All-found P [] d h = tt
All-found P ((k, x) ∷ m) d h = (
  h k x (let same = eq_true k k refl in rw same refl),
  All-found P m d.1 (λ id r e. h id r (other id r e (Bool-cases (id == k)))),
)
  where
    other :
        (id r : ℕ)
        → find id m ≡ some r
        → ((id == k) ≡ true) ⊎ ((id == k) ≡ false)
        → find id ((k, x) ∷ m) ≡ some r
    other id r e (inl same) =
        let absent : find id m ≡ none = ap (λ y. find y m) ((==_iff id k).0 same) ∙ d.0 in
        absurd (cc)
    other id r e (inr ne) = rw ne e

needed-same :
    (k : Kind) (task task' : Pointer → Task) (m : Entries)
    → All (λ e. task' e.1 ≡ task e.1) m
    → needed k task' m ≡ needed k task m
unfolding needed
needed-same k task task' [] h = refl
needed-same k task task' ((id, p) ∷ m) h =
    ap (λ t. need k t + needed k task' m) h.0
    ∙ ap (λ n. need k (task p) + n) (needed-same k task task' m h.1)

named-same :
    (task task' : Pointer → Task) (m : Entries)
    → All (λ e. task' e.1 ≡ task e.1) m
    → All (λ e. (task e.1).taskid ≡ e.0) m
    → All (λ e. (task' e.1).taskid ≡ e.0) m
named-same task task' [] h n = tt
named-same task task' ((id, p) ∷ m) h n =
    (ap (λ (t : Task). t.taskid) h.0 ∙ n.0, named-same task task' m h.1 n.1)

pub IsAccounted-same :
    {task task' : Pointer → Task} {w : Worker}
    → All (λ e. task' e.1 ≡ task e.1) w.current_tasks
    → IsAccounted task w
    → IsAccounted task' w
IsAccounted-same {task} {task'} {w} h acc =
    IsAccounted-of w refl
      (λ k. acc.sums k ∙ ap pos (sym (needed-same k task task' w.current_tasks h))) acc.distinct
      (named-same task task' w.current_tasks h acc.named)

-- a table of live tasks does not hold the next number
pub fresh_in :
    {v : View} {s : Places} {m : Entries} {has : Pointer → Bool}
    → Represents v s
    → Tracks v.taskid m has
    → ((r : ℕ) → has r ≡ true → is_live (s r) ≡ true)
    → find v.next_taskid m ≡ none
fresh_in {v} {m} rep t live = elim (Option-cases (find v.next_taskid m)) [
  | inl e ↦ e
  | inr (r, e) ↦
      let (named, held) = t.sound v.next_taskid r e in
      let less = rep.below r (live r held) in absurd (omega arith)
]

pub fresh_in_map :
    {v : View} {s : Places} → Represents v s → find v.next_taskid v.worker_task_map ≡ none
fresh_in_map {v} {s} rep = elim (Option-cases (find v.next_taskid v.worker_task_map)) [
  | inl e ↦ e
  | inr (wp, e) ↦
      let (r, named, at) = rep.maps.sound v.next_taskid wp e in
      let less = rep.below r (worker_live (s r) wp at) in absurd (omega arith)
]

-- the task at `p`, which is with the application, gets the next number
pub renumbered :
    {v : View} {s : Places} (taskid : Pointer → ℕ) (p : Pointer)
    → ((r : ℕ) → r ≢ p → taskid r ≡ v.taskid r)
    → s p ≡ away
    → Represents v s
    → Represents (record v { taskid = taskid; next_taskid = v.next_taskid + 1 }) s
renumbered {v} {s} taskid p others at rep = record {
  ready_once = rep.ready_once;
  complete_once = rep.complete_once;
  running_tracks =
      tracked is_running (λ h. let e = ap is_running at in absurd (cc)) rep.running_tracks;
  finished_tracks =
      tracked is_finished (λ h. let e = ap is_finished at in absurd (cc)) rep.finished_tracks;
  current_tracks = λ wp.
      tracked (is_at wp) (λ h. let e = ap (is_at wp) at in absurd (cc)) (rep.current_tracks wp);
  maps = record {
    distinct = rep.maps.distinct;
    sound = λ id wp e.
        (let (r, named, held) = rep.maps.sound id wp e in
          (r, others r (apart r (worker_live (s r) wp held)) ∙ named, held));
    whole = λ r wp h.
        ap (λ k. find k v.worker_task_map) (others r (apart r (worker_live (s r) wp h)))
        ∙ rep.maps.whole r wp h;
  };
  ids = λ a b ha hb e. rep.ids a b ha hb (sym (others a (apart a ha)) ∙ e ∙ others b (apart b hb));
  below = λ r h. (let old = rep.below r h in let same = others r (apart r h) in omega arith);
}
  where
    apart : (r : ℕ) → is_live (s r) ≡ true → r ≢ p
    apart r h e = let off = ap (λ x. is_live (s x)) e ∙ ap is_live at in cc

    tracked :
        {m : Entries} (f : Place → Bool)
        → (f (s p) ≡ true → ⊥)
        → Tracks v.taskid m (λ r. f (s r))
        → Tracks taskid m (λ r. f (s r))
    tracked {m} f off t = record {
      distinct = t.distinct;
      sound = λ id r e.
          (let (named, held) = t.sound id r e in
            (others r (λ x. off (sym (ap (λ y. f (s y)) x) ∙ held)) ∙ named, held));
      whole = λ r h.
          ap (λ k. find k m) (others r (λ x. off (sym (ap (λ y. f (s y)) x) ∙ h))) ∙ t.whole r h;
    }
