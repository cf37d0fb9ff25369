-- ===== src/Lists/Ends.antt =====
-- Nodes are added and taken away at both ends of a list.
use cyque.Prelude.{
  ℕ, ◌+◌, ◌≡◌, ◌≢◌, refl, sym, ap, ◌∙◌, inl, inr, false, Option, none, some, [], ◌∷◌, ◌++◌, arith,
  ◌==◌, ==_iff, if◌then◌else◌, Bool-cases, length-append,
}
use cyque.Prelude.Int.{pos}
use cyque.Lists.{Header, new_node, push_head, push_tail}
use cyque.Lists.Heap.{
  Pointer, null, Node, Memory, ok, and_then, Returns, write, write_self, write_other,
}
use cyque.Lists.Linked.{
  Cell, Cells, node_of, has, first, last, Linked, IsList, Apart, Linked-frame, last-append,
  append-Linked,
}
use cyque.Lists.Relink.{SameOutside, turn_first, turn_last}

-- an address without a node is no cell's
not_has :
    (h : Memory) (p prev : Pointer) (xs : Cells) (stop : Pointer)
    → h p ≡ none
    → Linked h prev xs stop
    → has p xs ≡ false
unfolding Linked has
not_has h p prev [] stop out is = refl
not_has h p prev (c ∷ xs) stop out (ne, apart, here, rest) =
    let rest' = not_has h p c.address xs stop out rest in
    elim (Bool-cases (p == c.address)) [
      | inr e ↦ rw (e, rest') refl
      | inl e ↦
          let both : none ≡ some (node_of c (first xs stop) prev) =
            sym out ∙ ap h ((==_iff p c.address).0 e) ∙ here in
          absurd (ground arith)
    ]

abbrev pub cell : Pointer → ℕ → Cell
cell p item = record { address = p; item = item; priority = pos 0 }

Apart-one : (p : Pointer) (item : ℕ) (xs : Cells) → has p xs ≡ false → Apart xs (cell p item ∷ [])
unfolding has
Apart-one p item [] out = tt
Apart-one p item (x ∷ xs) out =
    let one : has x.address (cell p item ∷ []) ≡ false = ground arith in
    let out' : has p xs ≡ false = ground arith in (one, Apart-one p item xs out')

-- `malloc` gives an address of its own
pub record IsFresh (h : Memory) (p : Pointer) : Type 0 where
  pub some_node : p ≢ null
  pub unused : h p ≡ none

module _ (h : Memory) (p : Pointer) (item : ℕ) (fresh : IsFresh h p) (xs : Cells)
    (is : Linked h null xs null) where
  elsewhere :
      (a : Pointer) (n : Option Node) (g : Memory)
      → SameOutside xs (write h p n) g
      → has a (cell p item ∷ xs) ≡ false
      → g a ≡ h a
  unfolding has
  elsewhere a n g same o =
      let other : (a == p) ≡ false = ground arith in
      let o' : has a xs ≡ false = ground arith in same a o' ∙ write_other h p a n other

  new_first :
      Returns
        (λ _ g. Linked g null (cell p item ∷ xs) null × SameOutside (cell p item ∷ xs) h g)
        (new_node p item null (first xs null) h)
  unfolding new_node Linked first has
  new_first =
      let n = some (node_of (cell p item) (first xs null) null) in
      let h1 = write h p n in
      let out = not_has h p null xs null (IsFresh.unused fresh) is in
      let (g, run, is', same) = turn_first h1 null xs p (Linked-frame h p n null xs null out is) in
      (
        tt,
        g,
        ap (λ r. and_then r (λ _. ok tt)) run,
        (
          (IsFresh.some_node fresh, out, same p out ∙ write_self h p n, is'),
          λ a o. elsewhere a n g same o,
        ),
      )

  new_last :
      Returns
        (λ _ g. Linked g null (xs ++ (cell p item ∷ [])) null × SameOutside (cell p item ∷ xs) h g)
        (new_node p item (last null xs) null h)
  unfolding new_node Linked first has
  new_last =
      let n = some (node_of (cell p item) null (last null xs)) in
      let h1 = write h p n in
      let out = not_has h p null xs null (IsFresh.unused fresh) is in
      let (g, run, is', same) = turn_last h1 xs null p (Linked-frame h p n null xs null out is) in
      (
        tt,
        g,
        run,
        (
          append-Linked g null xs (cell p item ∷ []) null is'
              (IsFresh.some_node fresh, refl, same p out ∙ write_self h p n, tt)
              (Apart-one p item xs out),
          λ a o. elsewhere a n g same o,
        ),
      )

-- What an operation on the list `xs` makes: a list of the cells `ys`, and nothing else in memory is
-- touched but the nodes of `xs` and the new one.
abbrev pub Becomes : Memory → Cells → Cells → Header → Memory → Type 0
Becomes h touched ys l g = IsList g l ys × SameOutside touched h g

pub first-null :
    (h : Memory) (prev : Pointer) (c : Cell) (xs : Cells) (stop : Pointer)
    → Linked h prev (c ∷ xs) stop
    → (c.address == null) ≡ false
unfolding Linked
first-null h prev c xs stop (ne, apart, here, rest) = ground arith

pub last-null :
    (h : Memory) (prev : Pointer) (c : Cell) (xs : Cells) (stop : Pointer)
    → Linked h prev (c ∷ xs) stop
    → (last c.address xs == null) ≡ false
unfolding Linked last
last-null h prev c [] stop (ne, apart, here, rest) = ground arith
last-null h prev c (d ∷ xs) stop (ne, apart, here, rest) = last-null h c.address d xs stop rest

module _ (h : Memory) (p : Pointer) (item : ℕ) (l : Header) (xs : Cells) (fresh : IsFresh h p)
    (is : IsList h l xs) where
  pub push_head-cons :
      Returns (Becomes h (cell p item ∷ xs) (cell p item ∷ xs)) (push_head p l item h)
  unfolding push_head first last
  push_head-cons =
      let (u, g, run, (linked, same)) = new_first h p item fresh xs (IsList.linked is) in
      let l' = record l {
        head = p;
        tail = if l.tail == null then p else l.tail;
        size = l.size + 1;
      } in
      (
        l',
        g,
        ap (λ q. and_then (new_node p item null q h) (λ _. ok l')) (IsList.head is)
            ∙ ap (λ r. and_then r (λ _. ok l')) run,
        (
          record {
            head = refl;
            tail = new_tail xs (IsList.tail is) (IsList.linked is);
            size = ap suc_of (IsList.size is) ∙ omega arith;
            linked = linked;
          },
          same,
        ),
      )
    where
      suc_of : ℕ → ℕ
      suc_of n = n + 1

      new_tail :
          (ys : Cells)
          → l.tail ≡ last null ys
          → Linked h null ys null
          → (if l.tail == null then p else l.tail) ≡ last p ys
      new_tail [] e linked = rw e refl
      new_tail (y ∷ ys) e linked =
          let some_last = last-null h null y ys null linked in rw (e, some_last) refl

  pub push_tail-snoc :
      Returns (Becomes h (cell p item ∷ xs) (xs ++ (cell p item ∷ []))) (push_tail p l item h)
  unfolding push_tail first last
  push_tail-snoc =
      let (u, g, run, (linked, same)) = new_last h p item fresh xs (IsList.linked is) in
      let l' = record l {
        tail = p;
        head = if l.head == null then p else l.head;
        size = l.size + 1;
      } in
      (
        l',
        g,
        ap (λ q. and_then (new_node p item q null h) (λ _. ok l')) (IsList.tail is)
            ∙ ap (λ r. and_then r (λ _. ok l')) run,
        (
          record {
            head = new_head xs (IsList.head is) (IsList.linked is);
            tail = sym (last-append null xs (cell p item ∷ []));
            size =
                let size = IsList.size is in omega (arith, length-append {0} xs (cell p item ∷ []));
            linked = linked;
          },
          same,
        ),
      )
    where
      new_head :
          (ys : Cells)
          → l.head ≡ first ys null
          → Linked h null ys null
          → (if l.head == null then p else l.head) ≡ first (ys ++ (cell p item ∷ [])) null
      new_head [] e linked = rw e refl
      new_head (y ∷ ys) e linked =
          let some_first = first-null h null y ys null linked in rw (e, some_first) refl
