-- ===== src/WorkQueue/Receive/Reports.antt =====
-- How many task reports the master keeps.
use cyque.Prelude.{
  ℕ, ◌-◌, ◌<◌, ◌≤◌, ◌≡◌, refl, ap, ◌∙◌, inl, inr, true, false, List, [], ◌∷◌, ◌++◌, arith, leb,
  if◌then◌else◌, Bool-cases, length,
}
use cyque.WorkQueue.Master.{Pointer, Queue}
use cyque.WorkQueue.Receive.{trim, report_count, add_task_report}

trim_short : (count : ℕ) (l : List (ℕ × ℕ)) → 0 < count → length (trim count l) < count
unfolding trim
trim_short count [] h = h
trim_short count (r ∷ rs) h = elim (Bool-cases (leb count (length (r ∷ rs)))) [
  | inl e ↦ rw e (trim_short count rs h)
  | inr e ↦ rw e (ground arith)
]

-- what is trimmed off is at the head, and no more of it than has to be
trim_suffix :
    (count : ℕ) (l : List (ℕ × ℕ)) → (dropped : List (ℕ × ℕ)) × (l ≡ dropped ++ trim count l)
unfolding trim
trim_suffix count [] = ([], refl)
trim_suffix count (r ∷ rs) = elim (Bool-cases (leb count (length (r ∷ rs)))) [
  | inl e ↦ let (dropped, same) = trim_suffix count rs in rw e (r ∷ dropped, ap (λ l. r ∷ l) same)
  | inr e ↦ rw e ([], refl)
]

trim_none : (count : ℕ) (l : List (ℕ × ℕ)) → leb count (length l) ≡ false → trim count l ≡ l
unfolding trim
trim_none count [] e = refl
trim_none count (r ∷ rs) e = rw e refl

trim_full :
    (count : ℕ) (l : List (ℕ × ℕ))
    → 0 < count
    → count ≤ length l
    → length (trim count l) ≡ count - 1
unfolding trim
trim_full count [] h k = absurd (omega arith)
trim_full count (r ∷ rs) h k =
    let test : leb count (length (r ∷ rs)) ≡ true = ground arith in
    elim (Bool-cases (leb count (length rs))) [
      | inl e ↦ rw test (trim_full count rs h (ground arith))
      | inr e ↦ rw test (ap length (trim_none count rs e) ∙ ground arith)
    ]

length-trim :
    (count : ℕ) (l : List (ℕ × ℕ))
    → 0 < count
    → length (trim count l) ≡ (if leb count (length l) then count - 1 else length l)
length-trim count l h = elim (Bool-cases (leb count (length l))) [
  | inl e ↦ rw e (trim_full count l h (ground arith))
  | inr e ↦ rw e (ap length (trim_none count l e))
]

positive : (q : Queue) → 0 < report_count q
unfolding report_count
positive q = ground arith

-- A report that is added is the last of the reports, behind those that were there less some at the head.
-- Let `count` be the number of workers, or 20 where there are fewer: there are fewer reports than
-- `count`, and `count - 1` of them where there would have been `count` or more, else all.
pub add_task_report-bound :
    (q : Queue) (p : Pointer)
    → let all =
        q.task_reports ++ ((q.task p).total_transfer_time, (q.task p).cmd_execution_time) ∷ [] in
      let reports = (add_task_report q p).task_reports in
      let count = report_count q in
      ((dropped : List (ℕ × ℕ)) × (all ≡ dropped ++ reports))
      × (length reports < count)
      × (length reports ≡ (if leb count (length all) then count - 1 else length all))
unfolding add_task_report
add_task_report-bound q p =
    let all =
      q.task_reports ++ ((q.task p).total_transfer_time, (q.task p).cmd_execution_time) ∷ [] in
    (
      trim_suffix (report_count q) all,
      trim_short (report_count q) all (positive q),
      length-trim (report_count q) all (positive q),
    )
