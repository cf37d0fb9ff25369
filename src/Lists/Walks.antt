-- ===== src/Lists/Walks.antt =====
-- Walks along a list in memory: in both directions, for a search, and to give its nodes back.
use mathlib.Core.Path.{subst}
use cyque.Prelude.{
  ℕ, zero, suc, ◌+◌, ◌<◌, ◌≡◌, refl, ap, ◌∙◌, ◌⊎◌, inl, inr, Bool, true, false, none, List, [], ◌∷◌,
  ◌++◌, ◌==◌, arith, if◌then◌else◌, Bool-cases, length, length-append,
}
use cyque.Lists.{Header, list_create, next_item, peek}
use cyque.Lists.Loops.{
  find_loop, list_find, walk_loop, list_iterate, list_iterate_reverse, delete_loop, list_delete,
}
use cyque.Lists.Deque.{items, items-append, Snoc-cases}
use cyque.Lists.Heap.{Pointer, null, Memory, ok, load, write, not_null, load-ok, free-ok}
use cyque.Lists.Linked.{
  Cell, Cells, node_of, has, first, last, Linked, IsList, Linked-frame, last-append, Linked-append,
}

-- the calls of an operator on items, up to the first one that it refuses
abbrev pub called : (ℕ → Bool) → List ℕ → Bool × List ℕ
called f [] = (true, [])
called f (v ∷ vs) = if f v then ((called f vs).0, v ∷ (called f vs).1) else (false, v ∷ [])

abbrev pub backwards : List ℕ → List ℕ
backwards [] = []
backwards (v ∷ vs) = backwards vs ++ (v ∷ [])

backwards-snoc : (vs : List ℕ) (v : ℕ) → backwards (vs ++ (v ∷ [])) ≡ v ∷ backwards vs
backwards-snoc [] v = refl
backwards-snoc (w ∷ vs) v = ap (λ t. t ++ (w ∷ [])) (backwards-snoc vs v)

forward_loop :
    (k : ℕ) (f : ℕ → Bool) (h : Memory) (prev : Pointer) (xs : Cells)
    → Linked h prev xs null
    → length xs < k
    → walk_loop (λ n. n.next) k f (first xs null) h ≡ ok (called f (items xs)) h
unfolding walk_loop first Linked
forward_loop zero f h prev xs is enough = absurd (omega arith)
forward_loop (suc k) f h prev [] is enough = refl
forward_loop (suc k) f h prev (c ∷ xs) (ne, apart, here, rest) enough =
    let n = node_of c (first xs null) prev in
    let there = not_null h c.address n ne here in
    let loaded = load-ok h c.address n ne here in
    let run = forward_loop k f h c.address xs rest (omega arith) in
    elim (Bool-cases (f c.item)) [
      | inl on ↦ rw (there, loaded, on, run) refl
      | inr off ↦ rw (there, loaded, off) refl
    ]

-- the walk back from the last of the first cells
backward_loop :
    (k : ℕ) (f : ℕ → Bool) (h : Memory) (xs : Cells) (stop : Pointer)
    → Linked h null xs stop
    → length xs < k
    → walk_loop (λ n. n.prev) k f (last null xs) h ≡ ok (called f (backwards (items xs))) h
unfolding walk_loop Linked first last
backward_loop zero f h xs stop is enough = absurd (omega arith)
backward_loop (suc k) f h xs stop is enough =
    from_end (λ ys c front less. backward_loop k f h ys c front less) (Snoc-cases xs)
  where
    from_end :
        ((ys : Cells) (p : Pointer)
          → Linked h null ys p
          → length ys < k
          → walk_loop (λ n. n.prev) k f (last null ys) h ≡ ok (called f (backwards (items ys))) h)
        → (xs ≡ []) ⊎ ((ys : Cells) × (c : Cell) × (xs ≡ ys ++ (c ∷ [])))
        → walk_loop (λ n. n.prev) (suc k) f (last null xs) h
          ≡ ok (called f (backwards (items xs))) h
    from_end before (inl e) = rw e refl
    from_end before (inr (ys, c, e)) =
        let is' = subst (λ (zs : Cells). Linked h null zs stop) e is in
        let (front, (ne, apart, here, nothing), out) = Linked-append h null ys (c ∷ []) stop is' in
        let n = node_of c stop (last null ys) in
        let there = not_null h c.address n ne here in
        let loaded = load-ok h c.address n ne here in
        let size = ap length e ∙ length-append ys (c ∷ []) in
        let run = before ys c.address front (omega arith) in
        let end = ap (last null) e ∙ last-append null ys (c ∷ []) in
        let order =
          ap backwards (ap items e ∙ items-append ys (c ∷ [])) ∙ backwards-snoc (items ys) c.item in
        rw (end, order, there, loaded)
          (elim (Bool-cases (f c.item)) [ inl on ↦ rw (on, run) refl | inr off ↦ rw off refl ])

-- On a well-formed list, `list_iterate` and `list_iterate_reverse` end without a fault and change
-- nothing in memory; the one calls the operator on the items from the head, the other from the tail,
-- both up to the first one that it refuses, and they return whether there was none.
pub list_iterate-Calls :
    (h : Memory) (l : Header) (xs : Cells) (operator : ℕ → ℕ → Bool) (arg : ℕ)
    → IsList h l xs
    → let f = λ (item : ℕ). operator item arg in
      (list_iterate l operator arg h ≡ ok (called f (items xs)) h)
      × (list_iterate_reverse l operator arg h ≡ ok (called f (backwards (items xs))) h)
unfolding list_iterate list_iterate_reverse
list_iterate-Calls h l xs operator arg is =
    let f = λ (item : ℕ). operator item arg in
    let fuel = IsList.size is in
    (
      ap (λ p. walk_loop (λ n. n.next) (l.size + 1) f p h) (IsList.head is)
          ∙ forward_loop (l.size + 1) f h null xs (IsList.linked is) (omega arith),
      ap (λ p. walk_loop (λ n. n.prev) (l.size + 1) f p h) (IsList.tail is)
          ∙ backward_loop (l.size + 1) f h xs null (IsList.linked is) (omega arith),
    )

-- the first item that matches, or NULL
abbrev pub first_match : (ℕ → Bool) → List ℕ → ℕ
first_match m [] = 0
first_match m (v ∷ vs) = if m v then v else first_match m vs

find_loop-ok :
    (k : ℕ) (m : ℕ → Bool) (h : Memory) (prev : Pointer) (xs : Cells)
    → Linked h prev xs null
    → length xs < k
    → find_loop k m (first xs null) h ≡ ok (first_match m (items xs)) h
unfolding find_loop first Linked
find_loop-ok zero m h prev xs is enough = absurd (omega arith)
find_loop-ok (suc k) m h prev [] is enough = refl
find_loop-ok (suc k) m h prev (c ∷ xs) (ne, apart, here, rest) enough =
    let n = node_of c (first xs null) prev in
    let there = not_null h c.address n ne here in
    let loaded = load-ok h c.address n ne here in
    let run = find_loop-ok k m h c.address xs rest (omega arith) in
    elim (Bool-cases (m c.item)) [
      | inl on ↦ rw (there, loaded, on) refl
      | inr off ↦ rw (there, loaded, off) run
    ]

list_find-ok :
    (h : Memory) (l : Header) (xs : Cells) (comparator : ℕ → ℕ → Bool) (arg : ℕ)
    → IsList h l xs
    → list_find l comparator arg h ≡ ok (first_match (λ item. comparator item arg) (items xs)) h
unfolding list_find
list_find-ok h l xs comparator arg is =
    let m = λ (item : ℕ). comparator item arg in
    let fuel = IsList.size is in
    ap (λ p. find_loop (l.size + 1) m p h) (IsList.head is)
    ∙ find_loop-ok (l.size + 1) m h null xs (IsList.linked is) (omega arith)

-- the memory without the nodes of the cells
abbrev pub Emptied : Cells → Memory → Memory → Type 0
Emptied xs h g = (a : Pointer) → g a ≡ (if has a xs then none else h a)

delete_loop-ok :
    (k : ℕ) (h : Memory) (prev : Pointer) (xs : Cells)
    → Linked h prev xs null
    → length xs < k
    → (g : Memory) × (delete_loop k (first xs null) h ≡ ok tt g) × Emptied xs h g
unfolding delete_loop first Linked has write
delete_loop-ok zero h prev xs is enough = absurd (omega arith)
delete_loop-ok (suc k) h prev [] is enough = (h, refl, λ a. refl)
delete_loop-ok (suc k) h prev (c ∷ xs) (ne, apart, here, rest) enough =
    let n = node_of c (first xs null) prev in
    let there = not_null h c.address n ne here in
    let loaded = load-ok h c.address n ne here in
    let freed = free-ok h c.address n ne here in
    let m = write h c.address none in
    let (g, run, gone) =
      delete_loop-ok k m c.address xs (Linked-frame h c.address none c.address xs null apart rest)
        (omega arith) in
    (g, rw (there, loaded, freed) run, λ a. ground (arith, gone a))

-- `list_delete` of a well-formed list gives back exactly the nodes of the list, each once.
list_delete-Empties :
    (h : Memory) (l : Header) (xs : Cells)
    → IsList h l xs
    → (g : Memory) × (list_delete l h ≡ ok tt g) × Emptied xs h g
unfolding list_delete
list_delete-Empties h l xs is =
    let fuel = IsList.size is in
    let (g, run, gone) = delete_loop-ok (l.size + 1) h null xs (IsList.linked is) (omega arith) in
    (g, ap (λ p. delete_loop (l.size + 1) p h) (IsList.head is) ∙ run, gone)

-- a new list is empty
list_create-IsList : (h : Memory) → IsList h list_create []
unfolding list_create first last Linked
list_create-IsList h = record { head = refl; tail = refl; size = refl; linked = tt }

-- `list_next_item` at a node gives its item and goes on to the node behind it, or to NULL at the last
next_item-ok :
    (h : Memory) (l : Header) (xs : Cells) (c : Cell) (ys : Cells)
    → IsList h l (xs ++ (c ∷ ys))
    → l.iter ≡ c.address
    → (next_item l h ≡ ok (c.item, record l { iter = first ys null }) h)
      × (peek l.iter h ≡ ok c.item h)
unfolding next_item peek Linked
next_item-ok h l xs c ys is e =
    let (front, (ne, apart, here, rest), out) =
      Linked-append h null xs (c ∷ ys) null (IsList.linked is) in
    let n = node_of c (first ys null) (last null xs) in
    let there : (l.iter == null) ≡ false = rw e (not_null h c.address n ne here) in
    let loaded : load l.iter h ≡ ok n h = rw e (load-ok h c.address n ne here) in
    (rw (there, loaded) refl, rw (there, loaded) refl)
