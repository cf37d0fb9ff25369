-- ===== src/WorkQueue/Steps/Counted.antt =====
-- The abstract runs put together, and the tasks that the master has in them: those that the application
-- counts.
use mathlib.Core.Path.{subst}
use cyque.Prelude.{
  ◌≡◌, refl, sym, ap, ◌∙◌, inl, inr, Bool, true, false, Option, some, none, List, [], ◌++◌, ◌==◌,
  ==_iff, if◌then◌else◌, Bool-cases,
}
use cyque.WorkQueue.Master.{Pointer}
use cyque.WorkQueue.Places.{
  Place, Places, away, ready, running, finished, complete, is_live, is_at, put,
}
use cyque.WorkQueue.Places.Moves.{at_live, worker_live}
use cyque.WorkQueue.Steps.{
  Event, takes, gives, add, Goes, submitted, given_back, started, reported, completed, evicts,
  Reaches, stays, then_goes, held,
}

pub add-append : (o : Option Event) (es es' : List Event) → add o (es' ++ es) ≡ add o es' ++ es
add-append none es es' = refl
add-append (some e) es es' = refl

pub Reaches-trans :
    {s s' s'' : Places} {es es' : List Event}
    → Reaches s es s'
    → Reaches s' es' s''
    → Reaches s (es' ++ es) s''
Reaches-trans path stays = path
Reaches-trans {s = s} {s'' = s''} {es = es} path (then_goes {es = es'} {o = o} rest goes) =
    subst (λ l. Reaches s l s'') (add-append o es es') (then_goes (Reaches-trans path rest) goes)

-- the tasks that the master has are those that the application counts
live_put :
    (s : Places) (p r : Pointer) (x : Place) (b : Bool)
    → is_live x ≡ b
    → is_live (put s p x r) ≡ (if r == p then b else is_live (s r))
live_put s p r x b e = elim (Bool-cases (r == p)) [ inl here ↦ rw here e | inr off ↦ rw off refl ]

keeps_put :
    (s : Places) (p r : Pointer) (x : Place)
    → is_live (s p) ≡ true
    → is_live x ≡ true
    → is_live (put s p x r) ≡ is_live (s r)
keeps_put s p r x live live' = elim (Bool-cases (r == p)) [
  | inl here ↦ rw here (live' ∙ sym (ap (λ y. is_live (s y)) ((==_iff r p).0 here) ∙ live))
  | inr off ↦ rw off refl
]

keeps_evicted : (wp : Pointer) (x : Place) → is_live (if is_at wp x then ready else x) ≡ is_live x
keeps_evicted wp x = elim (Bool-cases (is_at wp x)) [
  | inl there ↦ rw there (sym (at_live x wp there))
  | inr off ↦ rw off refl
]

Goes-held :
    {o : Option Event} {s s' : Places}
    → Goes o s s'
    → (r : Pointer) → is_live (s' r) ≡ held (add o []) (λ p. is_live (s p)) r
Goes-held {s = s} (submitted p at) r = live_put s p r ready true refl
Goes-held {s = s} (given_back p live) r = live_put s p r away false refl
Goes-held {s = s} (started p wp at) r = keeps_put s p r (running wp) (ap is_live at) refl
Goes-held {s = s} (reported p wp at) r =
    keeps_put s p r (finished wp) (worker_live (s p) wp at) refl
Goes-held {s = s} (completed p wp at) r = keeps_put s p r complete (worker_live (s p) wp at) refl
Goes-held {s = s} (evicts wp) r = keeps_evicted wp (s r)

held-add :
    (o : Option Event) (es : List Event) (h h' : Pointer → Bool)
    → ((p : Pointer) → h' p ≡ held es h p)
    → (r : Pointer) → held (add o []) h' r ≡ held (add o es) h r
held-add none es h h' same r = same r
held-add (some (takes p)) es h h' same r = ap (λ b. if r == p then true else b) (same r)
held-add (some (gives p)) es h h' same r = ap (λ b. if r == p then false else b) (same r)

pub Reaches-held :
    {es : List Event} {s s' : Places}
    → Reaches s es s'
    → (r : Pointer) → is_live (s' r) ≡ held es (λ p. is_live (s p)) r
Reaches-held stays r = refl
Reaches-held {s = s} (then_goes {es = es} {o = o} path goes) r =
    Goes-held goes r ∙ held-add o es (λ p. is_live (s p)) _ (Reaches-held path) r
