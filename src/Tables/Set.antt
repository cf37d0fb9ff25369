-- ===== src/Tables/Set.antt =====
-- set.c: a set of pointers. An element is an address, and 0 is NULL; `set_insert` always answers 1.
use cyque.Prelude.{
  ℕ, ◌+◌, ◌<◌, ◌≡◌, ◌≢◌, refl, ◌∙◌, sym, ap, length, Bool, true, false, Option, none, some, List,
  [], ◌∷◌, arith, ◌==◌, ==_iff, ltb, if◌then◌else◌, is_some,
}
use mathlib.Core.Option
use cyque.Tables.Chain.{find}
use cyque.Tables.Core
use cyque.Tables.Core.{Table, Policy, Next, stop, item, fault, flatten}
use cyque.Tables.Insert.{IsValid}
use cyque.Tables.Iterate.{Yields, Same, Same-trans, first-Yields}
use cyque.Tables.Itable.{uint64_key}
use cyque.Tables.Move.{IsLoaded, lookup-flatten, insert-Inserts}
use cyque.Tables.Remove.{remove-Removes, remove-IsLoaded, Same-IsValid, Same-lookup}

abbrev pub Set : Type 0
Set = Table ℕ (Unit {0})

-- The loop of a doubling takes the element NULL for the end.
abbrev pub policy : Policy ℕ
policy = record { overwrite = false; strict = false; ends = λ k. k == 0 }

unfoldable pub create : ℕ → Set
create bucket_count = Core.create (if bucket_count == 0 then 127 else bucket_count)

unfoldable pub clear : Set → Set
clear s = Core.clear s

unfoldable pub size : Set → ℕ
size s = s.size

unfoldable pub lookup : Set → ℕ → Bool
lookup s element = is_some (Core.lookup s element)

-- with the answer 1; `none` is a fault
unfoldable pub insert : Set → ℕ → Option (Bool × Set)
insert s element = Option.map (λ r. (true, r.1)) (Core.insert 2 policy s element tt)

unfoldable pub push : Set → ℕ → Option (Bool × Set)
push s element = insert s element

-- the answer tells whether the element was there
unfoldable pub remove : Set → ℕ → Bool × Set
remove s element = let r = Core.remove s element in (is_some r.0, r.1)

unfoldable pub first_element : Set → Set
first_element s = Core.first s

-- the answer of a step: 0 behind the last element; `none` is a fault
unfoldable pub answer : Set → Next ℕ (Unit {0}) → Option (ℕ × Set)
answer s stop = some (0, s)
answer s (item e u) = some (e.0, u)
answer s fault = none

unfoldable pub next_element : Set → Option (ℕ × Set)
unfolding answer
next_element s = answer s (Core.next s)

unfoldable pub pop : Set → Option (ℕ × Set)
pop s = if ltb (size s) 1 then some (0, s) else elim (next_element (first_element s)) [
  | none ↦ none
  | some (element, s') ↦ let r = remove s' element in some (if r.0 then element else 0, r.1)
]

-- What holds of a set between any two calls, as long as `clear` is not called and NULL is not
-- inserted.
pub record IsSetOfPointers (s : Set) : Type 0 where
  pub valid : IsValid s
  pub loaded : IsLoaded s
  pub no_null : lookup s 0 ≡ false

not_some : {A : Type 0} (o : Option A) → is_some o ≡ false → o ≡ none
not_some none h = refl
not_some (some a) h = ground arith

null_absent :
    (s : Set) → Core.lookup s 0 ≡ none → (q : ℕ) → (q == 0) ≡ true → Core.lookup s q ≡ none
null_absent s absent q e = let z : q ≡ 0 = (==_iff q 0).0 e in rw z absent

-- An insertion of an element that is not NULL into a set of such elements ends without a fault and
-- answers 1. The invariant holds after it; the element is in the set, every other is as it was, and
-- the size grows by one exactly if the element was absent.
pub insert-IsSetOfPointers :
    {s : Set} (element : ℕ)
    → IsSetOfPointers s
    → element ≢ 0
    → (s' : Set) × (insert s element ≡ some (true, s'))
      × IsSetOfPointers s'
      × ((q : ℕ) → lookup s' q ≡ (if q == element then true else lookup s q))
      × (size s' ≡ size s + (if lookup s element then 0 else 1))
unfolding insert lookup size
insert-IsSetOfPointers {s} element ok ne =
    let absent = not_some (Core.lookup s 0) ok.no_null in
    let endless = λ (q : ℕ) (e : (q == 0) ≡ true). null_absent s absent q e in
    let (r, run, i) = insert-Inserts 0 policy element tt ok.valid ok.loaded endless in
    (
      r.1,
      rw run refl,
      record { valid = i.valid; loaded = i.loaded; no_null = ground (arith, i.reads 0) },
      λ q. ground (arith, i.reads q),
      ground (arith, i.size, i.found),
    )

-- What a pop of a set that is not empty leaves.
pub record Pops (s : Set) (element : ℕ) (s' : Set) : Type 0 where
  pub was_in : lookup s element ≡ true
  pub not_null : element ≢ 0
  pub ok : IsSetOfPointers s'
  pub reads : (q : ℕ) → lookup s' q ≡ (if q == element then false else lookup s q)
  pub smaller : size s' + 1 ≡ size s

find-cons_self : (k : ℕ) (v : Unit {0}) (es : List (ℕ × Unit {0})) → find k ((k, v) ∷ es) ≡ some v
unfolding find
find-cons_self k v es = ground (arith, ==_iff k k)

pop_run :
    (s u : Set) (e : ℕ × Unit {0})
    → ltb (size s) 1 ≡ false
    → Core.next (first_element s) ≡ item e u
    → is_some (Core.remove u e.0).0 ≡ true
    → pop s ≡ some (e.0, (Core.remove u e.0).1)
unfolding pop next_element remove
pop_run s u e full given there = rw (full, given, there)

pop_step :
    {s : Set} (es : List (ℕ × Unit {0}))
    → IsSetOfPointers s
    → 0 < size s
    → flatten s.buckets ≡ es
    → Yields (first_element s) es
    → Same s (first_element s)
    → (element : ℕ) × (s' : Set) × (pop s ≡ some (element, s')) × Pops s element s'
unfolding size lookup
pop_step [] ok pos e y same = let n = ok.valid.counted ∙ ap length e in absurd (omega arith)
pop_step {s} ((k, v) ∷ es) ok pos e (u, given, su, rest) same =
    let all = Same-trans same su in
    let valid = Same-IsValid ok.valid all in
    let r = remove-Removes valid k in
    let here : Core.lookup s k ≡ some v =
      sym (lookup-flatten ok.valid k) ∙ ap (find k) e ∙ find-cons_self k v es in
    let there : Core.lookup u k ≡ some v = Same-lookup all k ∙ here in
    let full : ltb (size s) 1 ≡ false = ground arith in
    let gone : is_some (Core.remove u k).0 ≡ true = ap is_some (r.returns ∙ there) in
    let load : IsLoaded u = let a = all.size in let b = all.width in ground (arith, ok.loaded) in
    (
      k,
      (Core.remove u k).1,
      pop_run s u (k, v) full given gone,
      record {
        was_in = rw here;
        not_null = λ z. ground (arith, z, here, ok.no_null);
        ok = record {
          valid = r.valid;
          loaded = remove-IsLoaded k valid load;
          no_null = ground (arith, r.reads 0, Same-lookup all 0);
        };
        reads = λ q. ground (arith, r.reads q, Same-lookup all q);
        smaller = ground (arith, r.size, r.returns, there, all.size);
      },
    )

-- Popping a set that is not empty ends without a fault. It gives an element of the set that is not
-- NULL; the invariant holds after it, that element is gone, every other is as it was, and the size is
-- less by one.
pub pop-Pops :
    {s : Set}
    → IsSetOfPointers s
    → 0 < size s
    → (element : ℕ) × (s' : Set) × (pop s ≡ some (element, s')) × Pops s element s'
unfolding first_element
pop-Pops {s} ok pos =
    let (y, same) = first-Yields s in pop_step (flatten s.buckets) ok pos refl y same
