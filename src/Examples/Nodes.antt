-- ===== src/Examples/Nodes.antt =====
-- Lists of list.c in memory, and the theorems at them.
use cyque.Prelude.{
  ℕ, ◌+◌, ◌≡◌, refl, arith, Bool, false, not, none, some, List, [], ◌∷◌, ◌++◌, ◌==◌, if◌then◌else◌,
}
use cyque.Prelude.Int.{pos}
use cyque.Lists.{
  Header, new_node, push_head, push_tail, pop_tail, list_remove, list_splice, remove_loop,
}
use cyque.Lists.Deque.{
  Call, at_head, at_tail, from_tail, removes, calls, plain_calls, Holds, calls-Plain,
}
use cyque.Lists.Ends.{Becomes}
use cyque.Lists.Heap.{Pointer, Memory, Returns, ok, load, set_next, set_prev, free, write}
use cyque.Lists.Linked.{Cell, Cells, node_of, has, first, last, Linked, IsList}
use cyque.Lists.Loops.{list_split, list_iterate, list_iterate_reverse}
use cyque.Lists.Walks.{list_iterate-Calls}
use cyque.Lists.Remove.{list_remove-Removed}
use cyque.Lists.Splice.{list_splice-Unlinked}
use cyque.Lists.Split.{Splits, list_split-Splits}

abbrev at : Pointer → ℕ → Cell
at p item = record { address = p; item = item; priority = pos 0 }

-- the items 50 and 60 at 1 and 2, and 70 at 3
abbrev nodes : Memory
nodes a =
    if a == 1
    then some (node_of (at 1 50) 2 0)
    else if a == 2
    then some (node_of (at 2 60) 0 1)
    else if a == 3
    then some (node_of (at 3 70) 0 0)
    else none

abbrev two : Header
two = record { head = 1; tail = 2; iter = 0; size = 2 }

abbrev one : Header
one = record { head = 3; tail = 3; iter = 0; size = 1 }

abbrev two_cells : Cells
two_cells = at 1 50 ∷ at 2 60 ∷ []

abbrev one_cell : Cells
one_cell = at 3 70 ∷ []

two-IsList : IsList nodes two two_cells
unfolding Linked first last has
two-IsList = record {
  head = refl;
  tail = refl;
  size = refl;
  linked = (ground arith, refl, refl, (ground arith, refl, refl, tt));
}

one-IsList : IsList nodes one one_cell
unfolding Linked first last has
one-IsList = record {
  head = refl;
  tail = refl;
  size = refl;
  linked = (ground arith, refl, refl, tt);
}

-- two pushes at new addresses, a removal, and a node from the tail
abbrev some_calls : List Call
some_calls = at_tail 4 80 ∷ at_head 5 40 ∷ removes 60 ∷ from_tail ∷ []

calls_result : plain_calls some_calls (50 ∷ 60 ∷ []) ≡ (1 ∷ 1 ∷ 60 ∷ 80 ∷ [], 40 ∷ 50 ∷ [])
calls_result = refl

calls-Plain_example :
    Returns
      (λ r g. (r.0 ≡ 1 ∷ 1 ∷ 60 ∷ 80 ∷ []) × Holds (40 ∷ 50 ∷ []) r.1 g)
      (calls some_calls two nodes)
unfolding push_tail push_head new_node list_remove remove_loop pop_tail load set_next set_prev free
    write
calls-Plain_example = calls-Plain some_calls nodes two two_cells two-IsList (
  record { some_node = ground arith; unused = refl },
  (record { some_node = ground arith; unused = refl }, (tt, (tt, tt))),
)

list_remove-Removed_example :
    Returns
      (λ r g. (r.0 ≡ 60) × Becomes nodes two_cells (at 1 50 ∷ []) r.1 g)
      (list_remove two 60 nodes)
list_remove-Removed_example = list_remove-Removed nodes two 60 two_cells (ground arith) two-IsList

list_splice-Unlinked_example :
    Returns
      (λ l g.
        (l.head ≡ 1)
        × (l.tail ≡ 3)
        × (l.size ≡ 2 + 1)
        × (g 3 ≡ some (node_of (at 3 70) 0 3))
        × ¬ IsList g l (two_cells ++ one_cell))
      (list_splice two one nodes)
unfolding has first last
list_splice-Unlinked_example =
    list_splice-Unlinked nodes two one (at 1 50) (at 2 60 ∷ []) (at 3 70) [] two-IsList one-IsList
      (refl, (refl, tt))

abbrev same_item : ℕ → ℕ → Bool
same_item a b = a == b

list_split-Splits_example :
    Returns
      (Splits nodes two two_cells (λ item. same_item item 60))
      (list_split two same_item 60 nodes)
list_split-Splits_example =
    list_split-Splits nodes two two_cells same_item 60 (ground arith) two-IsList

abbrev not_item : ℕ → ℕ → Bool
not_item a b = not (a == b)

-- the walk back stops at the first item, which the operator refuses
list_iterate-Calls_example :
    (list_iterate two not_item 50 nodes ≡ ok (false, 50 ∷ []) nodes)
    × (list_iterate_reverse two not_item 50 nodes ≡ ok (false, 60 ∷ 50 ∷ []) nodes)
list_iterate-Calls_example = list_iterate-Calls nodes two two_cells not_item 50 two-IsList
