-- ===== src/WorkQueue/Places/Moves.antt =====
-- One task goes to another place: what its tables and lists have to do.
use cyque.Prelude.{
  ℕ, ◌≡◌, ◌≢◌, ◌<◌, refl, sym, ap, ◌∙◌, ◌⊎◌, inl, inr, Bool, true, false, Option, none, some, arith,
  ◌==◌, ==_iff, if◌then◌else◌, Bool-cases,
}
use cyque.Tables.Chain.{find, Distinct}
use cyque.Tables.Itable.{uint64_key}
use cyque.WorkQueue.Master.{Pointer, Entries}
use cyque.WorkQueue.Places.{
  Place, Places, worker_of, is_ready, is_complete, is_running, is_finished, is_live, is_at, put,
  count, number, View, Tracks, Maps, Represents,
}
pub use cyque.WorkQueue.Places.Held.{
  eq_true, eq_false, Sets, Sets-unlink, Sets-table_insert, Distinct-table_insert, Tracks-Sets,
  Maps-Sets,
}

abbrev pub only : Bool → Pointer → Option Pointer
only b p = if b then some p else none

-- What the tables and lists have to do for the task at `p` to go to the place `x`.
pub record Moves (v v' : View) (p : Pointer) (x : Place) : Type 0 where
  pub taskid : (r : ℕ) → v'.taskid r ≡ v.taskid r
  pub next_taskid : v'.next_taskid ≡ v.next_taskid
  pub ready :
      (r : ℕ)
      → count r v'.ready_list ≡ (if r == p then number (is_ready x) else count r v.ready_list)
  pub complete :
      (r : ℕ)
      → count r v'.complete_list
        ≡ (if r == p then number (is_complete x) else count r v.complete_list)
  pub running :
      Distinct v'.running_tasks
      × Sets (v.taskid p) (only (is_running x) p) v.running_tasks v'.running_tasks
  pub finished :
      Distinct v'.finished_tasks
      × Sets (v.taskid p) (only (is_finished x) p) v.finished_tasks v'.finished_tasks
  pub current :
      (wp : ℕ)
      → Distinct (v'.current_tasks wp)
        × Sets (v.taskid p) (only (is_at wp x) p) (v.current_tasks wp) (v'.current_tasks wp)
  pub map :
      Distinct v'.worker_task_map
      × Sets (v.taskid p) (worker_of x) v.worker_task_map v'.worker_task_map

put_self : (s : Places) (p : Pointer) (x : Place) → put s p x p ≡ x
put_self s p x = let e = eq_true p p refl in rw e refl

put_other : (s : Places) (p r : Pointer) (x : Place) → r ≢ p → put s p x r ≡ s r
put_other s p r x ne = let e = eq_false r p ne in rw e refl

Tracks-taskid :
    {taskid taskid' : Pointer → ℕ} {m : Entries} {has : Pointer → Bool}
    → ((r : ℕ) → taskid' r ≡ taskid r)
    → Tracks taskid m has
    → Tracks taskid' m has
Tracks-taskid {m} same t = record {
  distinct = t.distinct;
  sound = λ id p e. (same p ∙ (t.sound id p e).0, (t.sound id p e).1);
  whole = λ p h. ap (λ k. find k m) (same p) ∙ t.whole p h;
}

Maps-taskid :
    {taskid taskid' : Pointer → ℕ} {m : Entries} {at : Pointer → Option Pointer}
    → ((r : ℕ) → taskid' r ≡ taskid r)
    → Maps taskid m at
    → Maps taskid' m at
Maps-taskid {m} same t = record {
  distinct = t.distinct;
  sound = λ id wp e. let (p, n, h) = t.sound id wp e in (p, same p ∙ n, h);
  whole = λ p wp h. ap (λ k. find k m) (same p) ∙ t.whole p wp h;
}

pub running_live : (x : Place) → is_running x ≡ true → is_live x ≡ true
running_live (Place.running wp) h = refl
running_live _ h = absurd (cc)

pub finished_live : (x : Place) → is_finished x ≡ true → is_live x ≡ true
finished_live (Place.finished wp) h = refl
finished_live _ h = absurd (cc)

pub worker_live : (x : Place) (wp : Pointer) → worker_of x ≡ some wp → is_live x ≡ true
worker_live (Place.running w) wp h = refl
worker_live (Place.finished w) wp h = refl
worker_live _ wp h = absurd (cc)

pub at_live : (x : Place) (wp : Pointer) → is_at wp x ≡ true → is_live x ≡ true
at_live (Place.running w) wp h = refl
at_live (Place.finished w) wp h = refl
at_live _ wp h = absurd (cc)

-- A view that moves `p` to `x` has each task in its place behind the move: if no other task has the
-- number of `p`, and it is one that was given out.
pub Moves-Represents :
    {v v' : View} {s : Places} (p : Pointer) (x : Place)
    → Represents v s
    → ((r : ℕ) → r ≢ p → is_live (s r) ≡ true → v.taskid r ≢ v.taskid p)
    → v.taskid p < v.next_taskid
    → Moves v v' p x
    → Represents v' (put s p x)
Moves-Represents {v} {v'} {s} p x rep apart below moves = record {
  ready_once = λ r. moves.ready r ∙ listed is_ready r (rep.ready_once r);
  complete_once = λ r. moves.complete r ∙ listed is_complete r (rep.complete_once r);
  running_tracks = tracked is_running running_live rep.running_tracks moves.running;
  finished_tracks = tracked is_finished finished_live rep.finished_tracks moves.finished;
  current_tracks =
      λ wp. tracked (is_at wp) (λ y h. at_live y wp h) (rep.current_tracks wp) (moves.current wp);
  maps = Maps-taskid moves.taskid (
      Maps-Sets p rep.maps moves.map.0
        (λ id.
          moves.map.1 id
          ∙ ap (λ y. if id == v.taskid p then worker_of y else find id v.worker_task_map)
              (sym (put_self s p x)))
        (λ r ne. ap worker_of (put_other s p r x ne))
        (λ r wp ne h. apart r ne (worker_live (s r) wp h)));
  ids = λ a b ha hb e.
      ids a b ha hb (sym (moves.taskid a) ∙ e ∙ moves.taskid b) (Bool-cases (a == p))
        (Bool-cases (b == p));
  below = λ r h. within r h (Bool-cases (r == p));
}
  where
    listed :
        (f : Place → Bool) (r : ℕ) {n : ℕ}
        → n ≡ number (f (s r))
        → (if r == p then number (f x) else n) ≡ number (f (put s p x r))
    listed f r e = elim (Bool-cases (r == p)) [ inl same ↦ rw same refl | inr other ↦ rw other e ]

    tracked :
        (f : Place → Bool)
        → ((y : Place) → f y ≡ true → is_live y ≡ true)
        → {m m' : Entries} → Tracks v.taskid m (λ r. f (s r))
        → Distinct m' × Sets (v.taskid p) (only (f x) p) m m'
        → Tracks v'.taskid m' (λ r. f (put s p x r))
    tracked f live {m} t (d, sets) = Tracks-taskid moves.taskid (
        Tracks-Sets p t d
          (λ id.
            sets id
            ∙ ap (λ y. if id == v.taskid p then only (f y) p else find id m) (sym (put_self s p x)))
          (λ r ne. ap f (put_other s p r x ne)) (λ r ne h. apart r ne (live (s r) h)))

    ids :
        (a b : ℕ)
        → is_live (put s p x a) ≡ true
        → is_live (put s p x b) ≡ true
        → v.taskid a ≡ v.taskid b
        → ((a == p) ≡ true) ⊎ ((a == p) ≡ false)
        → ((b == p) ≡ true) ⊎ ((b == p) ≡ false)
        → a ≡ b
    ids a b ha hb e (inl ea) (inl eb) = (==_iff a p).0 ea ∙ sym ((==_iff b p).0 eb)
    ids a b ha hb e (inl ea) (inr eb) =
        let ne : b ≢ p = λ z. (let same = eq_true b p z in cc) in
        absurd (
          apart b ne (sym (ap is_live (put_other s p b x ne)) ∙ hb)
            (sym e ∙ ap v.taskid ((==_iff a p).0 ea)))
    ids a b ha hb e (inr ea) (inl eb) =
        let ne : a ≢ p = λ z. (let same = eq_true a p z in cc) in
        absurd (
          apart a ne (sym (ap is_live (put_other s p a x ne)) ∙ ha)
            (e ∙ ap v.taskid ((==_iff b p).0 eb)))
    ids a b ha hb e (inr ea) (inr eb) =
        let na : a ≢ p = λ z. (let same = eq_true a p z in cc) in
        let nb : b ≢ p = λ z. (let same = eq_true b p z in cc) in
        rep.ids a b (sym (ap is_live (put_other s p a x na)) ∙ ha)
          (sym (ap is_live (put_other s p b x nb)) ∙ hb) e

    within :
        (r : ℕ)
        → is_live (put s p x r) ≡ true
        → ((r == p) ≡ true) ⊎ ((r == p) ≡ false)
        → v'.taskid r < v'.next_taskid
    within r h (inl same) =
        let at = ap v.taskid ((==_iff r p).0 same) in
        let a = moves.taskid r in let b = moves.next_taskid in omega arith
    within r h (inr other) =
        let ne : r ≢ p = λ z. (let same = eq_true r p z in cc) in
        let old = rep.below r (sym (ap is_live (put_other s p r x ne)) ∙ h) in
        let a = moves.taskid r in let b = moves.next_taskid in omega arith
