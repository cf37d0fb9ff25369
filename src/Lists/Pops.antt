-- ===== src/Lists/Pops.antt =====
-- Nodes are taken away at both ends of a list.
use cyque.Prelude.{
  ℕ, ◌-◌, ◌≡◌, refl, ◌∙◌, false, none, [], ◌∷◌, ◌++◌, arith, ◌==◌, if◌then◌else◌, length-append,
}
use cyque.Lists.{Header, pop_head, pop_tail}
use cyque.Lists.Ends.{Becomes, first-null, last-null}
use cyque.Lists.Heap.{
  null, Memory, ok, Returns, write, write_self, write_other, not_null, load-ok, free-ok,
}
use cyque.Lists.Linked.{
  Cell, Cells, node_of, has, first, last, Linked, IsList, Linked-frame, last-append, first-append,
  Linked-append,
}
use cyque.Lists.Relink.{SameOutside, turn_first, turn_last, Apart-sym}

-- The node of the cell `c` is taken away, and given back to the system.
abbrev pub Taken : Memory → Cell → Cells → Cells → ℕ × Header → Memory → Type 0
Taken h c touched ys r g = (r.0 ≡ c.item) × Becomes h touched ys r.1 g × (g c.address ≡ none)

behind_free :
    (h g : Memory) (c : Cell) (xs : Cells)
    → SameOutside xs h g
    → SameOutside (c ∷ xs) h (write g c.address none)
unfolding has
behind_free h g c xs same a out =
    let other : (a == c.address) ≡ false = ground arith in
    let out' : has a xs ≡ false = ground arith in write_other g c.address a none other ∙ same a out'

pub pop_head-cons :
    (h : Memory) (l : Header) (c : Cell) (xs : Cells)
    → IsList h l (c ∷ xs)
    → Returns (Taken h c (c ∷ xs) xs) (pop_head l h)
unfolding pop_head Linked first last has
pop_head-cons h l c xs is =
    let (ne, apart, here, rest) = IsList.linked is in
    let n = node_of c (first xs null) null in
    let head = IsList.head is in
    let (g, run, linked, same) = turn_first h c.address xs null rest in
    let still = same c.address apart ∙ here in
    let m = write g c.address none in
    let l' = record l {
      head = first xs null;
      tail = if first xs null == null then null else l.tail;
      size = l.size - 1;
    } in
    let end : pop_head l h ≡ ok (c.item, l') m =
      rw
        (
          head,
          not_null h c.address n ne here,
          load-ok h c.address n ne here,
          run,
          free-ok g c.address n ne still,
        )
        refl in
    (
      (c.item, l'),
      m,
      end,
      (
        refl,
        (
          record {
            head = refl;
            tail = new_tail xs (IsList.tail is) rest;
            size = let size = IsList.size is in omega arith;
            linked = Linked-frame g c.address none null xs null apart linked;
          },
          behind_free h g c xs same,
        ),
        write_self g c.address none,
      ),
    )
  where
    new_tail :
        (ys : Cells)
        → l.tail ≡ last c.address ys
        → Linked h c.address ys null
        → (if first ys null == null then null else l.tail) ≡ last null ys
    new_tail [] e linked = refl
    new_tail (y ∷ ys) e linked =
        let some_first = first-null h c.address y ys null linked in rw some_first e

pub pop_tail-snoc :
    (h : Memory) (l : Header) (c : Cell) (xs : Cells)
    → IsList h l (xs ++ (c ∷ []))
    → Returns (Taken h c (c ∷ xs) xs) (pop_tail l h)
unfolding pop_tail Linked first last
pop_tail-snoc h l c xs is =
    let (front, (ne, alone, here, nothing), out) =
      Linked-append h null xs (c ∷ []) null (IsList.linked is) in
    let apart = (Apart-sym xs (c ∷ []) out).0 in
    let n = node_of c null (last null xs) in
    let tail = IsList.tail is ∙ last-append null xs (c ∷ []) in
    let (g, run, linked, same) = turn_last h xs c.address null front in
    let still = same c.address apart ∙ here in
    let m = write g c.address none in
    let l' = record l {
      tail = last null xs;
      head = if last null xs == null then null else l.head;
      size = l.size - 1;
    } in
    let end : pop_tail l h ≡ ok (c.item, l') m =
      rw
        (
          tail,
          not_null h c.address n ne here,
          load-ok h c.address n ne here,
          run,
          free-ok g c.address n ne still,
        )
        refl in
    (
      (c.item, l'),
      m,
      end,
      (
        refl,
        (
          record {
            head = new_head xs front (IsList.head is ∙ first-append xs (c ∷ []) null);
            tail = refl;
            size =
                let size = IsList.size is in
                let parts = length-append {0} xs (c ∷ []) in omega arith;
            linked = Linked-frame g c.address none null xs null apart linked;
          },
          behind_free h g c xs same,
        ),
        write_self g c.address none,
      ),
    )
  where
    new_head :
        (ys : Cells)
        → Linked h null ys c.address
        → l.head ≡ first ys c.address
        → (if last null ys == null then null else l.head) ≡ first ys null
    new_head [] linked e = refl
    new_head (y ∷ ys) linked e =
        let some_last = last-null h null y ys c.address linked in rw some_last e

-- an empty list gives NULL
pub pop_nil :
    (h : Memory) (l : Header)
    → IsList h l []
    → (pop_head l h ≡ ok (0, l) h) × (pop_tail l h ≡ ok (0, l) h)
unfolding pop_head pop_tail first last
pop_nil h l is = (rw (IsList.head is) refl, rw (IsList.tail is) refl)
