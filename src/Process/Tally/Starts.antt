-- ===== src/Process/Tally/Starts.antt =====
-- A turn of the loop that starts tasks keeps the invariant.
use cyque.Prelude.{
  ℕ, ◌≡◌, ◌<◌, refl, ap, ◌∙◌, ◌⊎◌, inl, inr, List, [], ◌∷◌, ◌++◌, none, true, false, arith,
  Bool-cases, is_some,
}
use cyque.Prelude.Int.{pos, ltb_ℤ}
use cyque.Tables.Chain.{find}
use cyque.Tables.Itable.{uint64_key}
use cyque.Process.{
  Process, Launch, task_info_create, task_info_execute, charged, check_for_resources, start_task,
  start_or_pass,
}
use cyque.Process.Served.{wanted-charged}
use cyque.Process.Tally.{waits, IsTallied}
use cyque.Process.Tally.Begin.{begun-IsTallied}
use cyque.Process.Tally.Entries.{waits-append}
use cyque.Process.Tally.Flags.{taken_of, Same-IsTallied}
use cyque.WorkQueue.Resources.{Resources}
use cyque.WorkQueue.Task.{Task}

-- What the system promises: the output file of the task is made, and `fork` fails or gives the number
-- of a process that is not the worker's yet.
pub record IsLaunch (w : Process) (l : Launch) : Type 0 where
  pub output : is_some l.mkstemp ≡ true
  pub forked :
      (ltb_ℤ l.fork (pos 0) ≡ true)
      ⊎ ((pid : ℕ) × (l.fork ≡ pos pid) × (0 < pid) × (find pid w.active_tasks ≡ none))

taskid-charged : (r : Resources) (t : Task) → (charged r t).taskid ≡ t.taskid
unfolding charged
taskid-charged r t = ground arith

-- the first waiting task leaves the list
popped-IsTallied :
    (w : Process) (t : Task) (ts : List Task)
    → IsTallied w
    → w.waiting_tasks ≡ t ∷ ts
    → IsTallied (record w { waiting_tasks = ts; abort_flag = true })
unfolding waits
popped-IsTallied w t ts tallied e = record {
  sums = λ k.
      taken_of w (record w { waiting_tasks = ts; abort_flag = true }) refl refl refl refl k
      ∙ IsTallied.sums tallied k;
  once = λ id. let most = IsTallied.once tallied id in let first = ap (waits id) e in omega arith;
  running = IsTallied.running tallied;
  results = IsTallied.results tallied;
  distinct = IsTallied.distinct tallied;
  distinct_stored = IsTallied.distinct_stored tallied;
  stored = IsTallied.stored tallied;
}

start_task-IsTallied :
    (l : Launch) (w : Process) (t : Task) (ts : List Task)
    → IsTallied w
    → w.waiting_tasks ≡ t ∷ ts
    → IsLaunch w l
    → IsTallied (start_task l (record w { waiting_tasks = ts }) t)
unfolding start_task task_info_create task_info_execute
start_task-IsTallied l w t ts tallied e launch = elim (IsLaunch.forked launch) [
  | inl failed ↦ rw (IsLaunch.output launch, failed) (popped-IsTallied w t ts tallied e)
  | inr (pid, forked, positive, new) ↦
      let up : ltb_ℤ l.fork (pos 0) ≡ false = ground arith in
      rw (IsLaunch.output launch, up)
        (begun-IsTallied w tallied t ts _ pid e positive forked new refl
          (λ k. wanted-charged k w.local_resources t) (taskid-charged w.local_resources t))
]

-- a task is passed over
passed-IsTallied :
    (w : Process) (t : Task) (ts : List Task)
    → IsTallied w
    → w.waiting_tasks ≡ t ∷ ts
    → IsTallied (record w { waiting_tasks = ts ++ (t ∷ []) })
unfolding waits
passed-IsTallied w t ts tallied e = record {
  sums = λ k.
      taken_of w (record w { waiting_tasks = ts ++ (t ∷ []) }) refl refl refl refl k
      ∙ IsTallied.sums tallied k;
  once = λ id.
      let most = IsTallied.once tallied id in
      let first = ap (waits id) e in let parts = waits-append id ts (t ∷ []) in omega arith;
  running = IsTallied.running tallied;
  results = IsTallied.results tallied;
  distinct = IsTallied.distinct tallied;
  distinct_stored = IsTallied.distinct_stored tallied;
  stored = IsTallied.stored tallied;
}

module _ (launch : ℕ → Launch) (measure : ℕ → Resources → Resources) where
  turn-IsTallied :
      (n v : ℕ) (w : Process) (l : List Task)
      → IsTallied w
      → IsLaunch w (launch n)
      → w.waiting_tasks ≡ l
      → IsTallied (start_or_pass launch measure n v w l).1
  unfolding start_or_pass
  turn-IsTallied n v w [] tallied good e = tallied
  turn-IsTallied n v w (t ∷ ts) tallied good e =
      elim (Bool-cases (check_for_resources (record w { waiting_tasks = ts }) t)) [
        | inr out ↦ rw out (passed-IsTallied w t ts tallied e)
        | inl ok ↦
            let w' = start_task (launch n) (record w { waiting_tasks = ts }) t in
            let r = measure n w'.local_resources in
            rw ok (
              Same-IsTallied w' (record w' { local_resources = r })
                (record {
                  taken_same = taken_of w' (record w' { local_resources = r }) refl refl refl refl;
                  waiting = refl;
                  active = refl;
                  stored = refl;
                  results = refl;
                })
                (start_task-IsTallied (launch n) w t ts tallied e good))
      ]

  pub start_or_pass-IsTallied :
      (n v : ℕ) (w : Process)
      → IsTallied w
      → IsLaunch w (launch n)
      → IsTallied (start_or_pass launch measure n v w w.waiting_tasks).1
  start_or_pass-IsTallied n v w tallied good =
      turn-IsTallied n v w w.waiting_tasks tallied good refl
