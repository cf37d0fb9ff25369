-- ===== src/Process/Tally/Entries.antt =====
-- Entries of the task tables that are added and removed.
use mathlib.Core.Path.{subst}
use cyque.Prelude.{
  some_inj, ℕ, ◌+◌, ◌≡◌, ◌≤◌, refl, sym, ap, inl, inr, List, [], ◌∷◌, ◌++◌, none, some, arith, ◌==◌,
  ==_iff, if◌then◌else◌, All, Bool-cases,
}
use cyque.Tables.Chain.{find, unlink, Distinct}
use cyque.Tables.Itable.{uint64_key}
use cyque.Process.{TaskInfo, Infos, info_insert}
use cyque.Process.Served.{Amount}
use cyque.Process.Tally.{held_by, held, times, waits}
use cyque.WorkQueue.Task.{Task}

pub held-unlink :
    (k : Amount) (key : ℕ) (ti : TaskInfo) (m : Infos)
    → find key m ≡ some ti
    → held k (unlink key m) + held_by k ti ≡ held k m
unfolding held find unlink
held-unlink k key ti [] h = ground arith
held-unlink k key ti ((j, x) ∷ m) h = elim (Bool-cases (key == j)) [
  | inl e ↦ let same = ap (held_by k) (some_inj x ti (rw e at h)) in rw e (omega arith)
  | inr e ↦ let rest = held-unlink k key ti m (rw e at h) in rw e (omega arith)
]

pub times-unlink :
    (id key : ℕ) (ti : TaskInfo) (m : Infos)
    → find key m ≡ some ti
    → times id (unlink key m) + (if id == ti.taskid then 1 else 0) ≡ times id m
unfolding times find unlink
times-unlink id key ti [] h = ground arith
times-unlink id key ti ((j, x) ∷ m) h = ground (arith, times-unlink id key ti m)

pub All-unlink : (P : ℕ × TaskInfo → Type 0) (key : ℕ) (m : Infos) → All P m → All P (unlink key m)
unfolding unlink
All-unlink P key [] h = tt
All-unlink P key ((j, x) ∷ m) h = elim (Bool-cases (key == j)) [
  | inl e ↦ rw e h.1
  | inr e ↦ rw e (h.0, All-unlink P key m h.1)
]

pub All-find :
    (P : ℕ × TaskInfo → Type 0) (key : ℕ) (ti : TaskInfo) (m : Infos)
    → All P m
    → find key m ≡ some ti
    → P (key, ti)
unfolding find
All-find P key ti [] h e = absurd (ground arith)
All-find P key ti ((j, x) ∷ m) h e = elim (Bool-cases (key == j)) [
  | inl on ↦
      subst (λ k. P (k, ti)) (sym ((==_iff key j).0 on))
        (subst (λ y. P (j, y)) (some_inj x ti (rw on at e)) h.0)
  | inr off ↦ All-find P key ti m h.1 (rw off at e)
]

-- A table that holds no entry of a task has none under its number.
pub times-absent :
    (id : ℕ) (m : Infos) → All (λ e. e.1.taskid ≡ e.0) m → times id m ≡ 0 → find id m ≡ none
unfolding times find
times-absent id [] h e = refl
times-absent id ((j, x) ∷ m) h e = ground (arith, times-absent id m)

pub times-found :
    (id key : ℕ) (ti : TaskInfo) (m : Infos)
    → find key m ≡ some ti
    → ti.taskid ≡ id
    → 1 ≤ times id m
unfolding times find
times-found id key ti [] h e = absurd (ground arith)
times-found id key ti ((j, x) ∷ m) h e = ground (arith, times-found id key ti m)

info_insert-absent :
    (key : ℕ) (ti : TaskInfo) (m : Infos) → find key m ≡ none → info_insert key ti m ≡ (key, ti) ∷ m
unfolding info_insert
info_insert-absent key ti m h = rw h refl

pub waits-append : (id : ℕ) (l r : List Task) → waits id (l ++ r) ≡ waits id l + waits id r
unfolding waits
waits-append id [] r = omega arith
waits-append id (t ∷ l) r = omega (arith, waits-append id l r)

-- a table without the entry of a task, and with it
module _ (key : ℕ) (new : TaskInfo) (m : Infos) (absent : find key m ≡ none) where
  pub held-insert : (k : Amount) → held k (info_insert key new m) ≡ held_by k new + held k m
  unfolding held
  held-insert k = rw (info_insert-absent key new m absent) refl

  pub times-insert :
      (id : ℕ) → times id (info_insert key new m) ≡ (if id == new.taskid then 1 else 0) + times id m
  unfolding times
  times-insert id = rw (info_insert-absent key new m absent) refl

  pub All-insert :
      (P : ℕ × TaskInfo → Type 0) → P (key, new) → All P m → All P (info_insert key new m)
  All-insert P p h = rw (info_insert-absent key new m absent) (p, h)

  pub Distinct-insert : Distinct m → Distinct (info_insert key new m)
  Distinct-insert d = rw (info_insert-absent key new m absent) (absent, d)

  pub find-insert :
      (q : ℕ) → find q (info_insert key new m) ≡ (if q == key then some new else find q m)
  unfolding find
  find-insert q = rw (info_insert-absent key new m absent) refl
