-- ===== src/Lists/Split.antt =====
-- `list_split` cuts a list before the first node that matches.
use mathlib.Core.Path.{subst}
use cyque.Prelude.{
  ℕ, zero, suc, ◌+◌, ◌-◌, ◌<◌, ◌≡◌, ◌≢◌, refl, sym, ap, ◌∙◌, ◌⊎◌, inl, inr, Bool, true, false, ◌||◌,
  Option, none, some, [], ◌∷◌, ◌++◌, arith, ◌==◌, ltb, if◌then◌else◌, Bool-cases, length,
  length-append,
}
use cyque.Lists.{Header}
use cyque.Lists.Loops.{find_split, cut_at, list_split}
use cyque.Lists.Ends.{first-null, last-null}
use cyque.Lists.Heap.{
  Pointer, null, Memory, ok, pure, Returns, set_next, set_prev, not_null, load-ok,
}
use cyque.Lists.Linked.{
  Cell, Cells, node_of, has, first, last, Linked, IsList, has-append, last-append, Linked-append,
}
use cyque.Lists.Relink.{SameOutside, turn_first, turn_last, Linked-outside, Apart-sym}

-- the cells before the first one that matches, and those from there on
abbrev pub before : (ℕ → Bool) → Cells → Cells
before m [] = []
before m (c ∷ xs) = if m c.item then [] else c ∷ before m xs

abbrev pub from : (ℕ → Bool) → Cells → Cells
from m [] = []
from m (c ∷ xs) = if m c.item then c ∷ xs else from m xs

before-from : (m : ℕ → Bool) (xs : Cells) → before m xs ++ from m xs ≡ xs
before-from m [] = refl
before-from m (c ∷ xs) = elim (Bool-cases (m c.item)) [
  | inl e ↦ rw e refl
  | inr e ↦ rw e (ap (λ ys. c ∷ ys) (before-from m xs))
]

-- the loop finds that cell, and counts those before it
find_split-ok :
    (k : ℕ) (m : ℕ → Bool) (h : Memory) (prev : Pointer) (xs : Cells) (count : ℕ)
    → Linked h prev xs null
    → length xs < k
    → find_split k m (first xs null) count h
      ≡ ok (first (from m xs) null, count + length (before m xs)) h
unfolding find_split first Linked
find_split-ok zero m h prev xs count is enough = absurd (omega arith)
find_split-ok (suc k) m h prev [] count is enough = ap (λ n. ok (null, n) h) (omega arith)
find_split-ok (suc k) m h prev (c ∷ xs) count (ne, apart, here, rest) enough =
    let n = node_of c (first xs null) prev in
    let there = not_null h c.address n ne here in
    let loaded = load-ok h c.address n ne here in
    elim (Bool-cases (m c.item)) [
      | inl hit ↦ rw (there, loaded, hit) (ap (λ n. ok (c.address, n) h) (omega arith))
      | inr miss ↦
          let run = find_split-ok k m h c.address xs (count + 1) rest (omega arith) in
          rw (there, loaded, miss) (run ∙ ap (λ n. ok (first (from m xs) null, n) h) (omega arith))
    ]

or_left : (a b : Bool) → (a || b) ≡ false → a ≡ false
or_left a b e = ground arith

or_right : (a b : Bool) → (a || b) ≡ false → b ≡ false
or_right a b e = ground arith

-- a list is cut between `x ∷ xs` and `y ∷ ys`
cut_at-ok :
    (h : Memory) (l : Header) (x : Cell) (xs : Cells) (y : Cell) (ys : Cells)
    → IsList h l ((x ∷ xs) ++ (y ∷ ys))
    → (nl : Header) × (l' : Header) × (g : Memory) × (cut_at l y.address (length (x ∷ xs)) h
        ≡ ok (some nl, l') g)
      × IsList g l' (x ∷ xs)
      × IsList g nl (y ∷ ys)
      × SameOutside ((x ∷ xs) ++ (y ∷ ys)) h g
unfolding cut_at Linked first last
cut_at-ok h l x xs y ys is =
    let xs' : Cells = x ∷ xs in
    let ys' : Cells = y ∷ ys in
    let (front, back, out) = Linked-append h null xs' ys' null (IsList.linked is) in
    let (ne, alone, here, rest) = back in
    let n = node_of y (first ys null) (last x.address xs) in
    let some_last = last-null h null x xs y.address front in
    let (g1, run1, front1, same1) = turn_last h xs' y.address null front in
    let run1' : set_next (last x.address xs) null h ≡ ok tt g1 = rw some_last at run1 in
    let back1 =
      Linked-outside h g1 xs' (last x.address xs) ys' null (Apart-sym xs' ys' out) same1 back in
    let some_first = not_null h y.address n ne here in
    let (g2, run2, back2, same2) = turn_first g1 (last x.address xs) ys' null back1 in
    let run2' : set_prev y.address null g1 ≡ ok tt g2 = rw some_first at run2 in
    let front2 = Linked-outside g1 g2 ys' null xs' null out same2 front1 in
    let nl : Header = record {
      head = y.address;
      tail = l.tail;
      iter = null;
      size = l.size - length (x ∷ xs);
    } in
    let l' : Header = record l { tail = last x.address xs; size = length (x ∷ xs) } in
    (
      nl,
      l',
      g2,
      rw (load-ok h y.address n ne here, run1', run2') refl,
      record { head = IsList.head is; tail = refl; size = refl; linked = front2 },
      record {
        head = refl;
        tail = IsList.tail is ∙ last-append null xs' ys';
        size = rest_size (IsList.size is);
        linked = back2;
      },
      λ a o. elsewhere g1 g2 same1 same2 a o,
    )
  where
    rest_size : l.size ≡ length ((x ∷ xs) ++ (y ∷ ys)) → l.size - length (x ∷ xs) ≡ length (y ∷ ys)
    rest_size e = omega (arith, length-append {0} (x ∷ xs) (y ∷ ys))

    elsewhere :
        (g1 g2 : Memory)
        → SameOutside (x ∷ xs) h g1
        → SameOutside (y ∷ ys) g1 g2
        → (a : Pointer) → has a ((x ∷ xs) ++ (y ∷ ys)) ≡ false
        → g2 a ≡ h a
    elsewhere g1 g2 same1 same2 a o =
        let both = has-append a (x ∷ xs) (y ∷ ys) in
        let out : has a (x ∷ xs) ≡ false =
          or_left (has a (x ∷ xs)) (has a (y ∷ ys)) (sym both ∙ o) in
        let out' : has a (y ∷ ys) ≡ false =
          or_right (has a (x ∷ xs)) (has a (y ∷ ys)) (sym both ∙ o) in
        same2 a out' ∙ same1 a out

-- What `list_split` makes of the list `xs`: two lists where a node that is not the first one matches,
-- and nothing otherwise.
abbrev pub Splits : Memory → Header → Cells → (ℕ → Bool) → Option Header × Header → Memory → Type 0
Splits h l xs m (none, l') g = (l' ≡ l) × (g ≡ h) × ((before m xs ≡ []) ⊎ (from m xs ≡ []))
Splits h l xs m (some nl, l') g =
    IsList g l' (before m xs)
    × IsList g nl (from m xs)
    × (before m xs ≢ [])
    × (from m xs ≢ [])
    × SameOutside xs h g

or_true : (b : Bool) → (b || true) ≡ true
or_true b = ground arith

nonempty : (c : Cell) (xs : Cells) → c ∷ xs ≢ []
nonempty c xs e = absurd (ground arith)

split_found :
    (h : Memory) (l : Header) (xs : Cells) (m : ℕ → Bool) (ys zs : Cells)
    → IsList h l xs
    → before m xs ≡ ys
    → from m xs ≡ zs
    → let p = first zs null in
      let count = length ys in
      Returns
        (Splits h l xs m)
        ((if p == null || count == 0 then pure (none, l) else cut_at l p count) h)
unfolding first
split_found h l xs m [] zs is e f =
    let no_count : (first zs null == null || 0 == 0) ≡ true = or_true (first zs null == null) in
    ((none, l), h, rw no_count refl, (refl, refl, inl e))
split_found h l xs m (y ∷ ys) [] is e f = ((none, l), h, refl, (refl, refl, inr f))
split_found h l xs m (y ∷ ys) (z ∷ zs) is e f =
    let whole : xs ≡ (y ∷ ys) ++ (z ∷ zs) =
      sym (before-from m xs) ∙ ap (λ b. b ++ from m xs) e ∙ ap (λ b. (y ∷ ys) ++ b) f in
    let is' = subst (λ (b : Cells). IsList h l b) whole is in
    let (front, back, out) = Linked-append h null (y ∷ ys) (z ∷ zs) null (IsList.linked is') in
    let some_first = first-null h (last null (y ∷ ys)) z zs null back in
    let (nl, l', g, run, list', list, same) = cut_at-ok h l y ys z zs is' in
    let on : (z.address == null || length (y ∷ ys) == 0) ≡ false = rw some_first (ground arith) in
    (
      (some nl, l'),
      g,
      rw on run,
      (
        subst (λ (b : Cells). IsList g l' b) (sym e) list',
        subst (λ (b : Cells). IsList g nl b) (sym f) list,
        (λ none_before. nonempty y ys (sym e ∙ none_before)),
        (λ none_behind. nonempty z zs (sym f ∙ none_behind)),
        subst (λ (b : Cells). SameOutside b h g) (sym whole) same,
      ),
    )

short :
    (xs : Cells) (m : ℕ → Bool) → ltb (length xs) 2 ≡ true → (before m xs ≡ []) ⊎ (from m xs ≡ [])
short [] m e = inl refl
short (x ∷ []) m e = elim (Bool-cases (m x.item)) [
  | inl hit ↦ inl (rw hit refl)
  | inr miss ↦ inr (rw miss refl)
]
short (x ∷ y ∷ xs) m e = absurd (ground arith)

-- `list_split` of a well-formed list, with an argument, ends without a fault. If a node matches and the
-- first one does not, then the old list has the nodes before the first match, the new one those from
-- there on, both well formed, and neither is empty; otherwise there is no new list and nothing is
-- changed. No node of another list is touched.
pub list_split-Splits :
    (h : Memory) (l : Header) (xs : Cells) (comparator : ℕ → ℕ → Bool) (arg : ℕ)
    → arg ≢ null
    → IsList h l xs
    → Returns (Splits h l xs (λ item. comparator item arg)) (list_split l comparator arg h)
unfolding list_split
list_split-Splits h l xs comparator arg ne is =
    let m = λ (item : ℕ). comparator item arg in
    let some_arg : (arg == null) ≡ false = ground arith in
    elim (Bool-cases (ltb l.size 2)) [
      | inl few ↦
          let short' = short xs m (ap (λ n. ltb n 2) (sym (IsList.size is)) ∙ few) in
          ((none, l), h, rw (some_arg, few) refl, (refl, refl, short'))
      | inr many ↦
          let fuel = IsList.size is in
          let run =
            ap (λ p. find_split (l.size + 1) m p 0 h) (IsList.head is)
            ∙ find_split-ok (l.size + 1) m h null xs 0 (IsList.linked is) (omega arith) in
          let zero_more : 0 + length (before m xs) ≡ length (before m xs) = omega arith in
          let found = split_found h l xs m (before m xs) (from m xs) is refl refl in
          rw (some_arg, many, run, zero_more) found
    ]
