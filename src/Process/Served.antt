-- ===== src/Process/Served.antt =====
-- The loop that starts tasks ends, and leaves no task waiting that could run.
use cyque.Prelude.{ℕ, ◌≡◌, refl, sym, ap, ◌⊎◌, inl, inr, true, false, ◌&&◌, arith, Bool-cases}
use cyque.Prelude.Int.{ℤ, pos, ◌+ℤ◌, ◌≤ℤ◌, ltb_ℤ, int_laws}
use cyque.Process.{
  Process, TaskInfo, Launch, task_info_create, task_info_execute, share, charged, fits,
  check_for_resources, started, start_task,
}
use cyque.WorkQueue.Resources.{Resources}
use cyque.WorkQueue.Task.{Task}

pub data Amount : Type 0 where
  of_cores of_memory of_disk of_gpus : Amount

abbrev pub taken : Amount → Process → ℤ
taken of_cores w = w.cores_allocated
taken of_memory w = w.memory_allocated
taken of_disk w = w.disk_allocated
taken of_gpus w = w.gpus_allocated

abbrev pub wanted : Amount → Task → ℤ
wanted of_cores t = t.cores
wanted of_memory t = t.memory
wanted of_disk t = t.disk
wanted of_gpus t = t.gpus

abbrev pub total : Amount → Resources → ℤ
total of_cores r = r.cores.total
total of_memory r = r.memory.total
total of_disk r = r.disk.total
total of_gpus r = r.gpus.total

share_le : (t w : ℤ) (n : ℕ) → pos 0 ≤ℤ share t w n
unfolding share
share_le t w n = ground arith

pub wanted-charged : (k : Amount) (r : Resources) (t : Task) → pos 0 ≤ℤ wanted k (charged r t)
unfolding charged
wanted-charged of_cores r t = ground (arith, share_le r.cores.total r.workers.total 1)
wanted-charged of_memory r t = ground (arith, share_le r.memory.total r.workers.total 0)
wanted-charged of_disk r t = ground (arith, share_le r.disk.total r.workers.total 0)
wanted-charged of_gpus r t = ground (arith, share_le r.gpus.total r.workers.total 0)

-- A start adds what the task is charged for, or nothing, if `fork` fails.
taken-start_task :
    (k : Amount) (l : Launch) (w : Process) (t : Task)
    → (taken k (start_task l w t) ≡ taken k w)
      ⊎ (taken k (start_task l w t) ≡ taken k w +ℤ wanted k (charged w.local_resources t))
unfolding start_task started
taken-start_task k l w t =
    elim (Bool-cases (ltb_ℤ (task_info_execute l (task_info_create t)).pid (pos 0))) [
      | inl e ↦ inl (rw e (failed k))
      | inr e ↦ inr (rw e (added k _))
    ]
  where
    failed : (k : Amount) → taken k (record w { abort_flag = true }) ≡ taken k w
    failed of_cores = refl
    failed of_memory = refl
    failed of_disk = refl
    failed of_gpus = refl

    added :
        (k : Amount) (ti : TaskInfo)
        → let t' = charged w.local_resources t in
          taken k (started w t' ti) ≡ taken k w +ℤ wanted k t'
    added of_cores ti = refl
    added of_memory ti = refl
    added of_disk ti = refl
    added of_gpus ti = refl

fits_all :
    (a b c d a' b' c' d' : ℤ)
    → (fits a a' && fits b b' && fits c c' && fits d d') ≡ true
    → (a ≤ℤ a') × (b ≤ℤ b') × (c ≤ℤ c') × (d ≤ℤ d')
fits_all a b c d a' b' c' d' h = ground arith

fits_back :
    (a b c d a' b' c' d' : ℤ)
    → a ≤ℤ a'
    → b ≤ℤ b'
    → c ≤ℤ c'
    → d ≤ℤ d'
    → (fits a a' && fits b b' && fits c c' && fits d d') ≡ true
fits_back a b c d a' b' c' d' h i j l = ground arith

-- what a task takes beside what is allocated
abbrev pub with_task : Amount → Process → Task → ℤ
with_task k w t = taken k w +ℤ wanted k (charged w.local_resources t)

-- a task that the check accepts fits, in every amount, and no other does
check_for_resources-fits :
    (w : Process) (t : Task)
    → check_for_resources w t ≡ true
    → (k : Amount) → with_task k w t ≤ℤ total k w.local_resources
unfolding check_for_resources
check_for_resources-fits w t h = by_amount
  where
    u : Task
    u = charged w.local_resources t

    all :
        (w.cores_allocated +ℤ u.cores ≤ℤ w.local_resources.cores.total)
        × (w.memory_allocated +ℤ u.memory ≤ℤ w.local_resources.memory.total)
        × (w.disk_allocated +ℤ u.disk ≤ℤ w.local_resources.disk.total)
        × (w.gpus_allocated +ℤ u.gpus ≤ℤ w.local_resources.gpus.total)
    all =
        fits_all (w.cores_allocated +ℤ u.cores) (w.memory_allocated +ℤ u.memory)
          (w.disk_allocated +ℤ u.disk) (w.gpus_allocated +ℤ u.gpus) w.local_resources.cores.total
          w.local_resources.memory.total w.local_resources.disk.total w.local_resources.gpus.total h

    by_amount : (k : Amount) → with_task k w t ≤ℤ total k w.local_resources
    by_amount of_cores = all.0
    by_amount of_memory = all.1
    by_amount of_disk = all.2
    by_amount of_gpus = all.3

fits-check_for_resources :
    (w : Process) (t : Task)
    → ((k : Amount) → with_task k w t ≤ℤ total k w.local_resources)
    → check_for_resources w t ≡ true
unfolding check_for_resources
fits-check_for_resources w t h =
    let u = charged w.local_resources t in
    fits_back (w.cores_allocated +ℤ u.cores) (w.memory_allocated +ℤ u.memory)
      (w.disk_allocated +ℤ u.disk) (w.gpus_allocated +ℤ u.gpus) w.local_resources.cores.total
      w.local_resources.memory.total w.local_resources.disk.total w.local_resources.gpus.total
      (h of_cores) (h of_memory) (h of_disk) (h of_gpus)

-- If no more is allocated than there is of a resource, and a task that `check_for_resources` accepts
-- is started, then that still holds, whatever the system answers; and nothing that was allocated is
-- given away.
pub start_task-le :
    (l : Launch) (w : Process) (t : Task) (k : Amount)
    → check_for_resources w t ≡ true
    → taken k w ≤ℤ total k w.local_resources
    → (taken k (start_task l w t) ≤ℤ total k w.local_resources)
      × (taken k w ≤ℤ taken k (start_task l w t))
start_task-le l w t k ok below =
    let room = check_for_resources-fits w t ok k in
    let more = wanted-charged k w.local_resources t in
    elim (taken-start_task k l w t) [
      | inl e ↦ rw e (below, omega arith)
      | inr e ↦ rw e (room, omega int_laws)
    ]

smaller_sum : (a a' u' u r' r : ℤ) → a ≤ℤ a' → u' ≡ u → r' ≡ r → a' +ℤ u' ≤ℤ r' → a +ℤ u ≤ℤ r
smaller_sum a a' u' u r' r le e f room =
    let small : a +ℤ u' ≤ℤ r' = omega int_laws in rw (sym e, sym f) small

-- where more is allocated, a task that did not fit does not fit either
pub stays_rejected :
    (w w' : Process) (t : Task)
    → w'.local_resources ≡ w.local_resources
    → ((k : Amount) → taken k w ≤ℤ taken k w')
    → check_for_resources w t ≡ false
    → check_for_resources w' t ≡ false
stays_rejected w w' t same more out = elim (Bool-cases (check_for_resources w' t)) [
  | inr e ↦ e
  | inl e ↦
      let room = check_for_resources-fits w' t e in
      let fit = fits-check_for_resources w t (λ k. smaller k (room k)) in cc
]
  where
    smaller :
        (k : Amount)
        → with_task k w' t ≤ℤ total k w'.local_resources
        → with_task k w t ≤ℤ total k w.local_resources
    smaller k room =
        let le = more k in
        let u = ap (λ r. wanted k (charged r t)) same in
        let top = ap (total k) same in
        smaller_sum (taken k w) (taken k w') (wanted k (charged w'.local_resources t))
          (wanted k (charged w.local_resources t)) (total k w'.local_resources)
          (total k w.local_resources) le u top room
