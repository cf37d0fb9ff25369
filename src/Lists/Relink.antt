-- ===== src/Lists/Relink.antt =====
-- A link is turned: the first node's link back, or the last node's link on.
use cyque.Prelude.{◌≡◌, ◌≢◌, refl, ◌∙◌, false, Option, some, [], ◌∷◌, arith, ◌==◌}
use cyque.Lists.Heap.{
  Pointer, null, Node, Memory, ok, Cmd, set_next, set_prev, unless_null, write, write_self,
  write_other, not_null, set_next-ok, set_prev-ok,
}
use cyque.Lists.Linked.{Cell, Cells, node_of, has, first, last, Linked, Apart}

-- `g` is `h` but for the nodes of the cells
abbrev pub SameOutside : Cells → Memory → Memory → Type 0
SameOutside xs h g = (a : Pointer) → has a xs ≡ false → g a ≡ h a

-- A command turns a link of the cells `xs`: it ends, they are linked as `P` says, and no other node
-- changes.
abbrev pub Turns : Cells → Memory → (Memory → Type 0) → Cmd (Unit {0}) → Type 0
Turns xs h P c = (g : Memory) × (c h ≡ ok tt g) × P g × SameOutside xs h g

pub Linked-outside :
    (h g : Memory) (xs : Cells) (prev : Pointer) (ys : Cells) (stop : Pointer)
    → Apart ys xs
    → SameOutside xs h g
    → Linked h prev ys stop
    → Linked g prev ys stop
unfolding Linked
Linked-outside h g xs prev [] stop out same is = tt
Linked-outside h g xs prev (c ∷ ys) stop (out, outs) same (ne, apart, here, rest) =
    (ne, apart, same c.address out ∙ here, Linked-outside h g xs c.address ys stop outs same rest)

Apart-cons : (x : Cell) (xs ys : Cells) → has x.address ys ≡ false → Apart ys xs → Apart ys (x ∷ xs)
unfolding has
Apart-cons x xs [] out outs = tt
Apart-cons x xs (y ∷ ys) out (o, outs) =
    let other : has y.address (x ∷ xs) ≡ false = ground arith in
    let out' : has x.address ys ≡ false = ground arith in (other, Apart-cons x xs ys out' outs)

Apart-nil : (ys : Cells) → Apart ys []
unfolding has
Apart-nil [] = tt
Apart-nil (y ∷ ys) = (refl, Apart-nil ys)

pub Apart-sym : (xs ys : Cells) → Apart xs ys → Apart ys xs
Apart-sym [] ys out = Apart-nil ys
Apart-sym (x ∷ xs) ys (o, outs) = Apart-cons x xs ys o (Apart-sym xs ys outs)

-- the link back of the first node, if there is one
pub turn_first :
    (h : Memory) (prev : Pointer) (xs : Cells) (p : Pointer)
    → Linked h prev xs null
    → Turns xs h
        (λ g. Linked g p xs null)
        (unless_null (first xs null) (set_prev (first xs null) p))
unfolding Linked first has
turn_first h prev [] p is = (h, refl, tt, λ a out. refl)
turn_first h prev (c ∷ xs) p (ne, apart, here, rest) =
    let n = node_of c (first xs null) p in
    let g = write h c.address (some n) in
    let old = node_of c (first xs null) prev in
    (
      g,
      rw (not_null h c.address old ne here) (set_prev-ok h c.address old ne here p),
      (
        ne,
        apart,
        write_self h c.address (some n),
        Linked-outside h g (c ∷ []) c.address xs null (alone xs apart) (outside c (some n)) rest,
      ),
      λ a out. write_other h c.address a (some n) (away a c xs out),
    )
  where
    away : (a : Pointer) (c : Cell) (xs : Cells) → has a (c ∷ xs) ≡ false → (a == c.address) ≡ false
    away a c xs out = ground arith

    outside : (c : Cell) (m : Option Node) → SameOutside (c ∷ []) h (write h c.address m)
    outside c m a out = write_other h c.address a m (away a c [] out)

    alone : (xs : Cells) → has c.address xs ≡ false → Apart xs (c ∷ [])
    alone [] out = tt
    alone (x ∷ xs) out =
        let one : has x.address (c ∷ []) ≡ false = ground arith in
        let out' : has c.address xs ≡ false = ground arith in (one, alone xs out')

-- the link on of the last one
turn_last_cons :
    (h : Memory) (prev : Pointer) (c : Cell) (xs : Cells) (stop q : Pointer)
    → Linked h prev (c ∷ xs) stop
    → Turns (c ∷ xs) h (λ g. Linked g prev (c ∷ xs) q) (set_next (last c.address xs) q)
      × (last c.address xs ≢ null)
unfolding Linked first last has
turn_last_cons h prev c [] stop q (ne, apart, here, rest) =
    let n = node_of c q prev in
    (
      (
        write h c.address (some n),
        set_next-ok h c.address (node_of c stop prev) ne here q,
        (ne, refl, write_self h c.address (some n), tt),
        λ a out. write_other h c.address a (some n) (away a out),
      ),
      ne,
    )
  where
    away : (a : Pointer) → has a (c ∷ []) ≡ false → (a == c.address) ≡ false
    away a out = ground arith
turn_last_cons h prev c (d ∷ xs) stop q (ne, apart, here, rest) =
    let ((g, run, is, same), some_node) = turn_last_cons h c.address d xs stop q rest in
    (
      (
        g,
        run,
        (ne, apart, same c.address apart ∙ here, is),
        λ a out. let out' : has a (d ∷ xs) ≡ false = ground arith in same a out',
      ),
      some_node,
    )

pub turn_last :
    (h : Memory) (xs : Cells) (stop q : Pointer)
    → Linked h null xs stop
    → Turns xs h (λ g. Linked g null xs q) (unless_null (last null xs) (set_next (last null xs) q))
unfolding Linked last
turn_last h [] stop q is = (h, refl, tt, λ a out. refl)
turn_last h (c ∷ xs) stop q is =
    let ((g, run, is', same), ne) = turn_last_cons h null c xs stop q is in
    let there : (last c.address xs == null) ≡ false = ground arith in (g, rw there run, is', same)
