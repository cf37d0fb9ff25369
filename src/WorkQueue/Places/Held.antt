-- ===== src/WorkQueue/Places/Held.antt =====
-- A table under task numbers when one task goes in or out.
use cyque.Prelude.{
  ℕ, ◌≡◌, ◌≢◌, refl, sym, ap, ◌∙◌, ◌⊎◌, inl, inr, Bool, true, false, Option, none, some, arith,
  ◌==◌, ==_iff, if◌then◌else◌, Bool-cases, Option-cases,
}
use cyque.Tables.Chain.{find, unlink, Distinct, Distinct-assign, find-unlink, find-assign}
use cyque.Tables.Itable.{uint64_key}
use cyque.WorkQueue.Master.{Pointer, Entries, table_insert}
use cyque.WorkQueue.Places.{Tracks, Maps}

pub eq_true : (a b : ℕ) → a ≡ b → (a == b) ≡ true
eq_true a b e = (==_iff a b).1 e

pub eq_false : (a b : ℕ) → a ≢ b → (a == b) ≡ false
eq_false a b ne = elim (Bool-cases (a == b)) [ inl e ↦ absurd (ne ((==_iff a b).0 e)) | inr e ↦ e ]

-- what a table holds under `k` when `b` tells whether `p` is in it, and what it did elsewhere
abbrev pub Sets : ℕ → Option ℕ → Entries → Entries → Type 0
Sets k o m m' = (id : ℕ) → find id m' ≡ (if id == k then o else find id m)

pub Sets-unlink : (k : ℕ) (m : Entries) → Distinct m → Sets k none m (unlink k m)
Sets-unlink k m d id = find-unlink k id m d

pub Sets-table_insert : (k p : ℕ) (m : Entries) → Sets k (some p) m (table_insert k p m)
unfolding table_insert
Sets-table_insert k p m id = elim (Option-cases (find k m)) [
  | inl e ↦ rw e (unfold find in refl)
  | inr (old, e) ↦ rw e (find-assign k id p old m e)
]

pub Distinct-table_insert : (k p : ℕ) (m : Entries) → Distinct m → Distinct (table_insert k p m)
unfolding table_insert
Distinct-table_insert k p m d = elim (Option-cases (find k m)) [
  | inl e ↦ rw e (e, d)
  | inr (old, e) ↦ rw e (Distinct-assign k p m d)
]

-- a task goes in or out of a table under its own number, which no other task of the table has
pub Tracks-Sets :
    {taskid : Pointer → ℕ} {m m' : Entries} {has has' : Pointer → Bool} (p : Pointer)
    → Tracks taskid m has
    → Distinct m'
    → Sets (taskid p) (if has' p then some p else none) m m'
    → ((r : ℕ) → r ≢ p → has' r ≡ has r)
    → ((r : ℕ) → r ≢ p → has r ≡ true → taskid r ≢ taskid p)
    → Tracks taskid m' has'
Tracks-Sets {taskid} {m} {m'} {has} {has'} p t d sets others apart = record {
  distinct = d;
  sound = λ id r e. sound id r e (Bool-cases (id == taskid p));
  whole = λ r h. whole r h (Bool-cases (r == p));
}
  where
    here : (r : ℕ) (b : Bool) → (if b then some p else none) ≡ some r → (r ≡ p) × (b ≡ true)
    here r true e = ground arith
    here r false e = ground arith

    sound :
        (id r : ℕ)
        → find id m' ≡ some r
        → ((id == taskid p) ≡ true) ⊎ ((id == taskid p) ≡ false)
        → (taskid r ≡ id) × (has' r ≡ true)
    sound id r e (inl same) =
        let set : (if has' p then some p else none) ≡ some r =
          sym (sets id ∙ ap (λ b. if b then (if has' p then some p else none) else find id m) same)
          ∙ e in
        let (at, held) = here r (has' p) set in
        (ap taskid at ∙ sym ((==_iff id (taskid p)).0 same), ap has' at ∙ held)
    sound id r e (inr other) =
        let old : find id m ≡ some r =
          sym (sets id ∙ ap (λ b. if b then (if has' p then some p else none) else find id m) other)
          ∙ e in
        let (named, held) = t.sound id r old in
        let apart' : r ≢ p =
          λ x. (let yes' = eq_true id (taskid p) (sym named ∙ ap taskid x) in cc) in
        (named, others r apart' ∙ held)

    whole :
        (r : ℕ)
        → has' r ≡ true
        → ((r == p) ≡ true) ⊎ ((r == p) ≡ false)
        → find (taskid r) m' ≡ some r
    whole r h (inl same) =
        let at : r ≡ p = (==_iff r p).0 same in
        let own = eq_true (taskid r) (taskid p) (ap taskid at) in
        let held : has' p ≡ true = ap has' (sym at) ∙ h in
        sets (taskid r) ∙ rw (own, held) (ap some (sym at))
    whole r h (inr other) =
        let ne : r ≢ p = λ e. (let same = eq_true r p e in cc) in
        let held = sym (others r ne) ∙ h in
        let other' = eq_false (taskid r) (taskid p) (apart r ne held) in
        sets (taskid r) ∙ rw other' (t.whole r held)

pub Maps-Sets :
    {taskid : Pointer → ℕ} {m m' : Entries} {at at' : Pointer → Option Pointer} (p : Pointer)
    → Maps taskid m at
    → Distinct m'
    → Sets (taskid p) (at' p) m m'
    → ((r : ℕ) → r ≢ p → at' r ≡ at r)
    → ((r wp : ℕ) → r ≢ p → at r ≡ some wp → taskid r ≢ taskid p)
    → Maps taskid m' at'
Maps-Sets {taskid} {m} {m'} {at} {at'} p t d sets others apart = record {
  distinct = d;
  sound = λ id wp e. sound id wp e (Bool-cases (id == taskid p));
  whole = λ r wp h. whole r wp h (Bool-cases (r == p));
}
  where
    sound :
        (id wp : ℕ)
        → find id m' ≡ some wp
        → ((id == taskid p) ≡ true) ⊎ ((id == taskid p) ≡ false)
        → (r : ℕ) × (taskid r ≡ id) × (at' r ≡ some wp)
    sound id wp e (inl same) =
        let set : at' p ≡ some wp =
          sym (sets id ∙ ap (λ b. if b then at' p else find id m) same) ∙ e in
        (p, sym ((==_iff id (taskid p)).0 same), set)
    sound id wp e (inr other) =
        let old : find id m ≡ some wp =
          sym (sets id ∙ ap (λ b. if b then at' p else find id m) other) ∙ e in
        let (r, named, held) = t.sound id wp old in
        let apart' : r ≢ p =
          λ x. (let yes' = eq_true id (taskid p) (sym named ∙ ap taskid x) in cc) in
        (r, named, others r apart' ∙ held)

    whole :
        (r wp : ℕ)
        → at' r ≡ some wp
        → ((r == p) ≡ true) ⊎ ((r == p) ≡ false)
        → find (taskid r) m' ≡ some wp
    whole r wp h (inl same) =
        let at_p : r ≡ p = (==_iff r p).0 same in
        let own = eq_true (taskid r) (taskid p) (ap taskid at_p) in
        sets (taskid r) ∙ rw own (ap at' (sym at_p) ∙ h)
    whole r wp h (inr other) =
        let ne : r ≢ p = λ e. (let same = eq_true r p e in cc) in
        let held = sym (others r ne) ∙ h in
        let other' = eq_false (taskid r) (taskid p) (apart r wp ne held) in
        sets (taskid r) ∙ rw other' (t.whole r wp held)
