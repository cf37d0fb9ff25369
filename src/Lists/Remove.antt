-- ===== src/Lists/Remove.antt =====
-- `list_remove`: the first node that holds a value is unlinked, wherever it stands.
use mathlib.Core.Path.{subst}
use cyque.Prelude.{
  ℕ, zero, suc, ◌+◌, ◌-◌, ◌<◌, ◌≡◌, ◌≢◌, refl, sym, ap, ◌∙◌, inl, inr, Bool, true, false, ◌||◌,
  none, [], ◌∷◌, ◌++◌, append_assoc, append-nil, arith, ◌==◌, ==_iff, if◌then◌else◌, Bool-cases,
  length, length-append,
}
use cyque.Lists.{Header, unlink_node, remove_loop, list_remove}
use cyque.Lists.Ends.{Becomes}
use cyque.Lists.Heap.{
  Pointer, null, Memory, ok, Returns, write, write_self, write_other, not_null, load-ok, free-ok,
}
use cyque.Lists.Linked.{
  Cell, Cells, node_of, has, first, last, Linked, IsList, Apart, Linked-frame, has-append,
  last-append, Linked-append, append-Linked,
}
use cyque.Lists.Pops.{Taken}
use cyque.Lists.Relink.{SameOutside, turn_first, turn_last, Linked-outside, Apart-sym}

pub has-last : (c : Cell) (xs : Cells) → has (last c.address xs) (c ∷ xs) ≡ true
unfolding has last
has-last c [] = let same = (==_iff c.address c.address).1 refl in rw same refl
has-last c (d ∷ xs) = let rest = has-last d xs in ground arith

Apart-tail :
    (xs : Cells) (c : Cell) (ys : Cells) → Apart xs (c ∷ ys) → Apart xs ys × Apart xs (c ∷ [])
unfolding has
Apart-tail [] c ys out = (tt, tt)
Apart-tail (x ∷ xs) c ys (o, outs) =
    let (rest, alone) = Apart-tail xs c ys outs in
    let out : has x.address ys ≡ false = ground arith in
    let out' : has x.address (c ∷ []) ≡ false = ground arith in ((out, rest), (out', alone))

module _ (h : Memory) (l : Header) (xs : Cells) (c : Cell) (ys : Cells)
    (is : IsList h l (xs ++ (c ∷ ys))) (apart : has c.address xs ≡ false)
    (apart' : has c.address ys ≡ false) where
  new_head : (if c.address == l.head then first ys null else l.head) ≡ first (xs ++ ys) null
  unfolding first has
  new_head = by_front xs (IsList.head is) apart
    where
      by_front :
          (zs : Cells)
          → l.head ≡ first (zs ++ (c ∷ ys)) null
          → has c.address zs ≡ false
          → (if c.address == l.head then first ys null else l.head) ≡ first (zs ++ ys) null
      by_front [] e out =
          let same : (c.address == l.head) ≡ true = (==_iff c.address l.head).1 (sym e) in
          rw same refl
      by_front (z ∷ zs) e out =
          let other : (c.address == l.head) ≡ false = ground arith in rw other e

  new_tail : (if c.address == l.tail then last null xs else l.tail) ≡ last null (xs ++ ys)
  unfolding last has
  new_tail = by_back ys (IsList.tail is ∙ last-append null xs (c ∷ ys)) apart'
    where
      by_back :
          (zs : Cells)
          → l.tail ≡ last c.address zs
          → has c.address zs ≡ false
          → (if c.address == l.tail then last null xs else l.tail) ≡ last null (xs ++ zs)
      by_back [] e out =
          let same : (c.address == l.tail) ≡ true = (==_iff c.address l.tail).1 (sym e) in
          rw same (ap (last null) (sym (append-nil xs)))
      by_back (z ∷ zs) e out =
          let member = has-last z zs in
          elim (Bool-cases (c.address == l.tail)) [
            | inr other ↦ rw other (e ∙ sym (last-append null xs (z ∷ zs)))
            | inl same ↦
                let eq = (==_iff c.address l.tail).0 same ∙ e in
                let both : false ≡ true = sym out ∙ ap (λ p. has p (z ∷ zs)) eq ∙ member in
                absurd (cc)
          ]

three :
    (a : Pointer) (xs : Cells) (c : Cell) (ys : Cells)
    → has a (xs ++ (c ∷ ys)) ≡ false
    → (has a xs ≡ false) × ((a == c.address) ≡ false) × (has a ys ≡ false)
unfolding has
three a xs c ys o = let both = has-append a xs (c ∷ ys) in ground arith

-- a node in the middle is unlinked
unlink_node-ok :
    (h : Memory) (l : Header) (xs : Cells) (c : Cell) (ys : Cells)
    → IsList h l (xs ++ (c ∷ ys))
    → Returns
        (Taken h c (xs ++ (c ∷ ys)) (xs ++ ys))
        (unlink_node l c.address (node_of c (first ys null) (last null xs)) h)
unfolding unlink_node Linked
unlink_node-ok h l xs c ys is =
    let (front, (ne, apart', here, rest), out) =
      Linked-append h null xs (c ∷ ys) null (IsList.linked is) in
    let (out_ys, out_c) = Apart-tail xs c ys out in
    let apart = (Apart-sym xs (c ∷ []) out_c).0 in
    let n = node_of c (first ys null) (last null xs) in
    let (g1, run1, back1, same1) = turn_first h c.address ys (last null xs) rest in
    let front1 = Linked-outside h g1 ys null xs c.address out_ys same1 front in
    let (g2, run2, front2, same2) = turn_last g1 xs c.address (first ys null) front1 in
    let back2 =
      Linked-outside g1 g2 xs (last null xs) ys null (Apart-sym xs ys out_ys) same2 back1 in
    let still = same2 c.address apart ∙ same1 c.address apart' ∙ here in
    let m = write g2 c.address none in
    let l' = record l {
      head = if c.address == l.head then first ys null else l.head;
      tail = if c.address == l.tail then last null xs else l.tail;
      size = l.size - 1;
    } in
    let end : unlink_node l c.address n h ≡ ok (c.item, l') m =
      rw (run1, run2, free-ok g2 c.address n ne still) refl in
    (
      (c.item, l'),
      m,
      end,
      (
        refl,
        (
          record {
            head = new_head h l xs c ys is apart apart';
            tail = new_tail h l xs c ys is apart apart';
            size = one_less (IsList.size is);
            linked =
                Linked-frame g2 c.address none null (xs ++ ys) null (neither apart apart')
                  (append-Linked g2 null xs ys null front2 back2 out_ys);
          },
          λ a o. elsewhere g1 g2 same1 same2 a o,
        ),
        write_self g2 c.address none,
      ),
    )
  where
    one_less : l.size ≡ length (xs ++ (c ∷ ys)) → l.size - 1 ≡ length (xs ++ ys)
    one_less e = omega (arith, length-append {0} xs (c ∷ ys), length-append {0} xs ys)

    neither : has c.address xs ≡ false → has c.address ys ≡ false → has c.address (xs ++ ys) ≡ false
    neither e f = let both = has-append c.address xs ys in ground arith

    elsewhere :
        (g1 g2 : Memory)
        → SameOutside ys h g1
        → SameOutside xs g1 g2
        → (a : Pointer) → has a (xs ++ (c ∷ ys)) ≡ false
        → write g2 c.address none a ≡ h a
    elsewhere g1 g2 same1 same2 a o =
        let (out, other, out') = three a xs c ys o in
        write_other g2 c.address a none other ∙ same2 a out ∙ same1 a out'

-- whether an item is among the cells, and the cells without the first one that holds it
abbrev pub holds : ℕ → Cells → Bool
holds v [] = false
holds v (c ∷ xs) = v == c.item || holds v xs

abbrev pub without_item : ℕ → Cells → Cells
without_item v [] = []
without_item v (c ∷ xs) = if v == c.item then xs else c ∷ without_item v xs

-- what the loop leaves of `xs ++ ys`, having passed `xs`
Removed : Memory → ℕ → Cells → Cells → ℕ × Header → Memory → Type 0
Removed h v xs ys r g =
    (r.0 ≡ (if holds v ys then v else 0)) × Becomes h (xs ++ ys) (xs ++ without_item v ys) r.1 g

remove_loop-Removed :
    (k : ℕ) (h : Memory) (l : Header) (v : ℕ) (xs ys : Cells)
    → IsList h l (xs ++ ys)
    → length ys < k
    → Returns (Removed h v xs ys) (remove_loop k l v (first ys null) h)
unfolding remove_loop first Removed Linked
remove_loop-Removed zero h l v xs ys is enough = absurd (omega arith)
remove_loop-Removed (suc k) h l v xs [] is enough = ((0, l), h, refl, (refl, (is, λ a o. refl)))
remove_loop-Removed (suc k) h l v xs (c ∷ ys) is enough =
    let (front, (ne, apart, here, rest), out) =
      Linked-append h null xs (c ∷ ys) null (IsList.linked is) in
    let n = node_of c (first ys null) (last null xs) in
    let there = not_null h c.address n ne here in
    let loaded = load-ok h c.address n ne here in
    elim (Bool-cases (v == c.item)) [
      | inl hit ↦
          let (r, g, run, (item, becomes, freed)) = unlink_node-ok h l xs c ys is in
          (
            r,
            g,
            rw (there, loaded, hit) run,
            rw hit (item ∙ sym ((==_iff v c.item).0 hit), becomes),
          )
      | inr miss ↦
          let is' = subst (λ (zs : Cells). IsList h l zs) (sym (append_assoc xs (c ∷ []) ys)) is in
          let (r, g, run, found) =
            remove_loop-Removed k h l v (xs ++ (c ∷ [])) ys is' (omega arith) in
          (r, g, rw (there, loaded, miss) run, rw miss (regroup g r found))
    ]
  where
    regroup :
        (g : Memory) (r : ℕ × Header)
        → Removed h v (xs ++ (c ∷ [])) ys r g
        → (r.0 ≡ (if holds v ys then v else 0))
          × Becomes h (xs ++ (c ∷ ys)) (xs ++ (c ∷ without_item v ys)) r.1 g
    regroup g r (item, (list, same)) = (
      item,
      (
        subst (λ (zs : Cells). IsList g r.1 zs) (append_assoc xs (c ∷ []) (without_item v ys)) list,
        subst (λ (zs : Cells). SameOutside zs h g) (append_assoc xs (c ∷ []) ys) same,
      ),
    )

-- On a well-formed list in memory, `list_remove` of a value other than NULL ends without a fault; it
-- returns the value if some node holds it and NULL otherwise; the list behind it is well formed in both
-- directions and has the nodes of before but for the first one with the value; and no node of another
-- list is touched.
pub list_remove-Removed :
    (h : Memory) (l : Header) (v : ℕ) (xs : Cells)
    → v ≢ null
    → IsList h l xs
    → Returns
        (λ r g. (r.0 ≡ (if holds v xs then v else 0)) × Becomes h xs (without_item v xs) r.1 g)
        (list_remove l v h)
unfolding list_remove
list_remove-Removed h l v xs ne is =
    let some_value : (v == null) ≡ false = ground arith in
    let fuel = IsList.size is in
    let (r, g, run, found) = remove_loop-Removed (l.size + 1) h l v [] xs is (omega arith) in
    (
      r,
      g,
      rw some_value (ap (λ p. remove_loop (l.size + 1) l v p h) (IsList.head is) ∙ run),
      unfold Removed in found,
    )
