-- ===== src/WorkQueue/Places/Sound.antt =====
-- A sound queue: each task in its place, each worker accounted for. Changes that touch neither.
use mathlib.Core.Path.{subst, fun_ext}
use cyque.Prelude.{ℕ, ◌≡◌, refl, sym, ap, ◌∙◌, Bool, Option, arith}
use cyque.Tables.Itable.{uint64_key}
use cyque.WorkQueue.Accounting.{
  Kind, allocated, IsAccounted, IsAccounted-of, Alike, Alike-IsAccounted,
}
use cyque.WorkQueue.Commit.{AllAccounted}
use cyque.WorkQueue.Master.{Pointer, Entries, Worker, Queue}
use cyque.WorkQueue.Places.{Places, count, view, Tracks, Maps, Represents}
use cyque.WorkQueue.Task.{Task}

pub record IsSound (q : Queue) (s : Places) : Type 0 where
  pub places : Represents (view q) s
  pub accounted : AllAccounted q

-- a worker whose books are the same
pub record SameBooks (w w' : Worker) : Type 0 where
  pub sums : (k : Kind) → allocated k w' ≡ allocated k w
  pub current : w'.current_tasks ≡ w.current_tasks

pub SameBooks-refl : (w : Worker) → SameBooks w w
SameBooks-refl w = record { sums = λ k. refl; current = refl }

pub SameBooks-IsAccounted :
    {task : Pointer → Task} {w w' : Worker}
    → SameBooks w w'
    → IsAccounted task w
    → IsAccounted task w'
SameBooks-IsAccounted {task} {w} {w'} b acc =
    IsAccounted-of w' b.current (λ k. b.sums k ∙ acc.sums k) acc.distinct acc.named

-- All but the lists and tables of tasks and the books may change.
pub record Untouched (q q' : Queue) : Type 0 where
  pub alike : Alike q.task q'.task
  pub books : (x : Pointer) → SameBooks (q.worker x) (q'.worker x)
  pub ready_list : q'.ready_list ≡ q.ready_list
  pub complete_list : q'.complete_list ≡ q.complete_list
  pub running_tasks : q'.running_tasks ≡ q.running_tasks
  pub finished_tasks : q'.finished_tasks ≡ q.finished_tasks
  pub worker_task_map : q'.worker_task_map ≡ q.worker_task_map
  pub next_taskid : q'.next_taskid ≡ q.next_taskid

pub Untouched-trans : {q q' q'' : Queue} → Untouched q q' → Untouched q' q'' → Untouched q q''
Untouched-trans a b = record {
  alike = record {
    needs = λ k p. b.alike.needs k p ∙ a.alike.needs k p;
    names = λ p. b.alike.names p ∙ a.alike.names p;
  };
  books = λ x. record {
    sums = λ k. (b.books x).sums k ∙ (a.books x).sums k;
    current = (b.books x).current ∙ (a.books x).current;
  };
  ready_list = b.ready_list ∙ a.ready_list;
  complete_list = b.complete_list ∙ a.complete_list;
  running_tasks = b.running_tasks ∙ a.running_tasks;
  finished_tasks = b.finished_tasks ∙ a.finished_tasks;
  worker_task_map = b.worker_task_map ∙ a.worker_task_map;
  next_taskid = b.next_taskid ∙ a.next_taskid;
}

Tracks-frame :
    {taskid taskid' : Pointer → ℕ} {m m' : Entries} {has : Pointer → Bool}
    → ((r : ℕ) → taskid' r ≡ taskid r)
    → m' ≡ m
    → Tracks taskid m has
    → Tracks taskid' m' has
Tracks-frame {taskid} {m} {m'} {has} same e t =
    subst (λ f. Tracks f m' has) (sym (fun_ext same)) (subst (λ y. Tracks taskid y has) (sym e) t)

Maps-frame :
    {taskid taskid' : Pointer → ℕ} {m m' : Entries} {at : Pointer → Option Pointer}
    → ((r : ℕ) → taskid' r ≡ taskid r)
    → m' ≡ m
    → Maps taskid m at
    → Maps taskid' m' at
Maps-frame {taskid} {m} {m'} {at} same e t =
    subst (λ f. Maps f m' at) (sym (fun_ext same)) (subst (λ y. Maps taskid y at) (sym e) t)

pub Untouched-IsSound : {q q' : Queue} {s : Places} → Untouched q q' → IsSound q s → IsSound q' s
Untouched-IsSound {q} {q'} {s} u sound =
    let rep = sound.places in
    let named = u.alike.names in
    record {
      places = record {
        ready_once = λ p. ap (count p) u.ready_list ∙ rep.ready_once p;
        complete_once = λ p. ap (count p) u.complete_list ∙ rep.complete_once p;
        running_tracks = Tracks-frame named u.running_tasks rep.running_tracks;
        finished_tracks = Tracks-frame named u.finished_tasks rep.finished_tracks;
        current_tracks = λ wp. Tracks-frame named (u.books wp).current (rep.current_tracks wp);
        maps = Maps-frame named u.worker_task_map rep.maps;
        ids = λ p r hp hr e. rep.ids p r hp hr (sym (named p) ∙ e ∙ named r);
        below = λ p h.
            (let old = rep.below p h in let a = named p in let b = u.next_taskid in omega arith);
      };
      accounted =
          λ x. SameBooks-IsAccounted (u.books x) (Alike-IsAccounted u.alike (sound.accounted x));
    }

-- places that are the same one by one
pub IsSound-ext :
    {q : Queue} {s s' : Places} → ((p : Pointer) → s p ≡ s' p) → IsSound q s → IsSound q s'
IsSound-ext {q} same sound = subst (λ x. IsSound q x) (fun_ext same) sound
