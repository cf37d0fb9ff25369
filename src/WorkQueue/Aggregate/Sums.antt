-- ===== src/WorkQueue/Aggregate/Sums.antt =====
-- What the sum over workers is: totals add up, the extremes bound every worker, and the ready tasks
-- count as committed.
use mathlib.Core.Path.{subst}
use cyque.Prelude.{◌≡◌, ◌≢◌, refl, sym, ap, ◌∙◌, List, [], ◌∷◌, arith, All, if◌then◌else◌}
use cyque.Prelude.Int.{ℤ, pos, ◌+ℤ◌, ◌≤ℤ◌, max_ℤ, +ℤ_assoc, +ℤ-zero, min_ℤ_bounds, max_ℤ_bounds}
use cyque.WorkQueue.Aggregate.{
  add_all, add_committed, commit_more, aggregate_committed_in_queue, aggregate_workers_resources,
}
use cyque.WorkQueue.Resources.{Resource, Resources, add, add_one}
use cyque.WorkQueue.Task.{Task}

-- The six kinds of resource, and the field of each.
pub data Kind : Type 0 where
  of_workers of_disk of_cores of_memory of_gpus of_unlabeled : Kind

abbrev pub part : Kind → Resources → Resource
part of_workers r = r.workers
part of_disk r = r.disk
part of_cores r = r.cores
part of_memory r = r.memory
part of_gpus r = r.gpus
part of_unlabeled r = r.unlabeled

-- What a ready task will take: a whole worker if it is unlabeled, else what it specifies.
abbrev pub demand : Kind → Task → ℤ
demand of_workers t = pos 0
demand of_disk t = if t.unlabeled then pos 0 else max_ℤ t.disk (pos 0)
demand of_cores t = if t.unlabeled then pos 0 else max_ℤ t.cores (pos 0)
demand of_memory t = if t.unlabeled then pos 0 else max_ℤ t.memory (pos 0)
demand of_gpus t = if t.unlabeled then pos 0 else max_ℤ t.gpus (pos 0)
demand of_unlabeled t = if t.unlabeled then pos 1 else pos 0

part-add : (k : Kind) (a b : Resources) → part k (add a b) ≡ add_one (part k a) (part k b)
unfolding add
part-add of_workers a b = refl
part-add _ a b = refl

module _ {A : Type 0} where
  abbrev pub sum_of : (A → ℤ) → List A → ℤ
  sum_of f [] = pos 0
  sum_of f (x ∷ xs) = f x +ℤ sum_of f xs

-- one worker lies between the extremes of the whole
abbrev pub Within : Resource → Resource → Type 0
Within total r = (total.smallest ≤ℤ r.smallest) × (r.largest ≤ℤ total.largest)

Within-trans : (a b c : Resource) → Within a b → Within b c → Within a c
Within-trans a b c h h' = omega arith

Within-add :
    (k : Kind) (a b : Resources)
    → Within (part k (add a b)) (part k a) × Within (part k (add a b)) (part k b)
unfolding add_one
Within-add k a b =
    let m = min_ℤ_bounds (part k a).smallest (part k b).smallest in
    let x = max_ℤ_bounds (part k a).largest (part k b).largest in
    rw (part-add k a b) ((m.0, x.0), (m.1, x.1))

Within-add_all :
    (k : Kind) (t : Resources) (rs : List Resources) → Within (part k (add_all t rs)) (part k t)
unfolding add_all
Within-add_all k t [] = omega arith
Within-add_all k t (r ∷ rs) =
    Within-trans (part k (add_all (add t r) rs)) (part k (add t r)) (part k t)
      (Within-add_all k (add t r) rs) (Within-add k t r).0

All-add_all :
    (k : Kind) (t : Resources) (rs : List Resources)
    → All (λ r. Within (part k (add_all t rs)) (part k r)) rs
unfolding add_all
All-add_all k t [] = tt
All-add_all k t (r ∷ rs) = (
  Within-trans (part k (add_all (add t r) rs)) (part k (add t r)) (part k r)
      (Within-add_all k (add t r) rs) (Within-add k t r).1,
  All-add_all k (add t r) rs,
)

sums-add_all :
    (k : Kind) (t : Resources) (rs : List Resources)
    → ((part k (add_all t rs)).total ≡ (part k t).total +ℤ sum_of (λ r. (part k r).total) rs)
      × ((part k (add_all t rs)).committed
          ≡ (part k t).committed +ℤ sum_of (λ r. (part k r).committed) rs)
unfolding add_all add_one
sums-add_all k t [] = (sym (+ℤ-zero _), sym (+ℤ-zero _))
sums-add_all k t (r ∷ rs) =
    let s = sums-add_all k (add t r) rs in
    (
      s.0
          ∙ ap (λ (p : Resource). p.total +ℤ sum_of (λ x. (part k x).total) rs) (part-add k t r)
          ∙ +ℤ_assoc _ _ _,
      s.1
          ∙ ap (λ (p : Resource). p.committed +ℤ sum_of (λ x. (part k x).committed) rs)
              (part-add k t r)
          ∙ +ℤ_assoc _ _ _,
    )

part-add_committed :
    (k : Kind) (t : Task) (total : Resources)
    → part k (add_committed t total) ≡ commit_more (part k total) (demand k t)
unfolding add_committed
part-add_committed of_workers t total = ground (arith, +ℤ-zero total.workers.committed)
part-add_committed of_disk t total = ground (arith, +ℤ-zero total.disk.committed)
part-add_committed of_cores t total = ground (arith, +ℤ-zero total.cores.committed)
part-add_committed of_memory t total = ground (arith, +ℤ-zero total.memory.committed)
part-add_committed of_gpus t total = ground (arith, +ℤ-zero total.gpus.committed)
part-add_committed of_unlabeled t total = ground (arith, +ℤ-zero total.unlabeled.committed)

part-aggregate_committed :
    (k : Kind) (ts : List Task) (total : Resources)
    → part k (aggregate_committed_in_queue ts total)
      ≡ commit_more (part k total) (sum_of (demand k) ts)
unfolding aggregate_committed_in_queue
part-aggregate_committed k [] total =
    ap (λ n. record (part k total) { committed = n }) (sym (+ℤ-zero (part k total).committed))
part-aggregate_committed k (t ∷ ts) total =
    part-aggregate_committed k ts (add_committed t total)
    ∙ ap (λ r. commit_more r (sum_of (demand k) ts)) (part-add_committed k t total)
    ∙ ap (λ n. record (part k total) { committed = n })
        (+ℤ_assoc (part k total).committed (demand k t) (sum_of (demand k) ts))

-- For a queue with at least one worker and for each of the six kinds of resource: the aggregate's
-- total is the sum of the workers' totals; its committed is the sum of the workers' committed and of
-- what the ready tasks will take; its smallest is at most, and its largest at least, every worker's.
pub aggregate_workers_resources-sums :
    (k : Kind) (workers : List Resources) (ready : List Task)
    → workers ≢ []
    → let total = part k (aggregate_workers_resources workers ready) in
      (total.total ≡ sum_of (λ r. (part k r).total) workers)
      × (total.committed ≡ sum_of (λ r. (part k r).committed) workers +ℤ sum_of (demand k) ready)
      × All (λ r. Within total (part k r)) workers
unfolding aggregate_workers_resources
aggregate_workers_resources-sums k [] ready ne = absurd (ne refl)
aggregate_workers_resources-sums k (r ∷ rs) ready ne =
    let s = sums-add_all k r rs in
    let e = part-aggregate_committed k ready (add_all r rs) in
    subst
      (λ (p : Resource).
        (p.total ≡ sum_of (λ x. (part k x).total) (r ∷ rs))
        × (p.committed ≡ sum_of (λ x. (part k x).committed) (r ∷ rs) +ℤ sum_of (demand k) ready)
        × All (λ x. Within p (part k x)) (r ∷ rs))
      (sym e)
      (s.0, ap (λ n. n +ℤ sum_of (demand k) ready) s.1, (Within-add_all k r rs, All-add_all k r rs))
