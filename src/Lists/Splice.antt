-- ===== src/Lists/Splice.antt =====
-- `list_splice` links two lists forwards, but not backwards.
use cyque.Prelude.{
  ◌+◌, ◌≡◌, ◌≢◌, refl, sym, ap, ◌∙◌, inl, inr, true, false, some, [], ◌∷◌, ◌++◌, arith, ◌==◌,
  ==_iff, Bool-cases, length, some_inj,
}
use cyque.Lists.{Header, list_splice}
use cyque.Lists.Ends.{first-null, last-null}
use cyque.Lists.Heap.{Pointer, null, Memory, ok, Returns, set_next, write, write_self, set_prev-ok}
use cyque.Lists.Linked.{
  Cell, Cells, node_of, has, first, last, Linked, IsList, Apart, Linked-append,
}
use cyque.Lists.Relink.{turn_last, Apart-sym}
use cyque.Lists.Remove.{has-last}

-- a node of the one list is none of the other
has-Apart : (p : Pointer) (zs ws : Cells) → has p zs ≡ true → Apart zs ws → has p ws ≡ false
unfolding has
has-Apart p [] ws e out = absurd (ground arith)
has-Apart p (z ∷ zs) ws e (o, outs) = elim (Bool-cases (p == z.address)) [
  | inl same ↦ ap (λ a. has a ws) ((==_iff p z.address).0 same) ∙ o
  | inr other ↦ has-Apart p zs ws (rw other at e) outs
]

-- the last nodes of two lists that share none differ
last-Apart :
    (x : Cell) (xs : Cells) (y : Cell) (ys : Cells)
    → Apart (x ∷ xs) (y ∷ ys)
    → last y.address ys ≢ last x.address xs
last-Apart x xs y ys out same =
    let no = has-Apart (last x.address xs) (x ∷ xs) (y ∷ ys) (has-last x xs) out in
    let yes' = ap (λ p. has p (y ∷ ys)) (sym same) ∙ has-last y ys in
    let both : false ≡ true = sym no ∙ yes' in absurd (cc)

module _ (h : Memory) (top bottom : Header) (x : Cell) (xs : Cells) (y : Cell) (ys : Cells)
    (is : IsList h top (x ∷ xs)) (is' : IsList h bottom (y ∷ ys))
    (apart : Apart (x ∷ xs) (y ∷ ys)) where
  -- If two lists share no node and neither is empty, then `list_splice` ends without a fault, with the
  -- head of the one, the tail of the other and the sum of the sizes; but the first node of the second
  -- list is linked back to the last node of its own list, not to the last node of the first one: what
  -- is returned is no well-formed list of the nodes of both.
  pub list_splice-Unlinked :
      Returns
        (λ l g.
          (l.head ≡ x.address)
          × (l.tail ≡ last y.address ys)
          × (l.size ≡ length (x ∷ xs) + length (y ∷ ys))
          × (g y.address ≡ some (node_of y (first ys null) (last y.address ys)))
          × ¬ IsList g l ((x ∷ xs) ++ (y ∷ ys)))
        (list_splice top bottom h)
  unfolding list_splice Linked first last
  list_splice-Unlinked =
      let head = IsList.head is in
      let head' = IsList.head is' in
      let tail = IsList.tail is in
      let tail' = IsList.tail is' in
      let (ne, alone, here, rest) = IsList.linked is' in
      let some_first = first-null h null x xs null (IsList.linked is) in
      let some_first' = first-null h null y ys null (IsList.linked is') in
      let some_last = last-null h null x xs null (IsList.linked is) in
      let (g, run, linked, same) = turn_last h (x ∷ xs) null y.address (IsList.linked is) in
      let run' : set_next (last x.address xs) y.address h ≡ ok tt g = rw some_last at run in
      let still = same y.address (Apart-sym (x ∷ xs) (y ∷ ys) apart).0 ∙ here in
      let n = node_of y (first ys null) null in
      let n' = node_of y (first ys null) (last y.address ys) in
      let m = write g y.address (some n') in
      let l = record top { tail = bottom.tail; size = top.size + bottom.size; iter = null } in
      let back = set_prev-ok g y.address n ne still (last y.address ys) in
      let end : list_splice top bottom h ≡ ok l m =
        rw (head, head', tail, tail', some_first, some_first', run', back) refl in
      (
        l,
        m,
        end,
        (
          head,
          tail',
          (let size = IsList.size is in let size' = IsList.size is' in omega arith),
          write_self g y.address (some n'),
          λ list.
              let (front, (ne', alone', here', rest'), out) =
                Linked-append m null (x ∷ xs) (y ∷ ys) null (IsList.linked list) in
              let nodes = some_inj _ _ (sym (write_self g y.address (some n')) ∙ here') in
              last-Apart x xs y ys apart (ap (λ k. k.prev) nodes),
        ),
      )
