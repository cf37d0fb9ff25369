-- ===== src/Lists/Loops.antt =====
-- The functions of list.c that walk along a list: `list_split`, `list_find`, `list_iterate`,
-- `list_iterate_reverse` and `list_delete`.
use cyque.Prelude.{
  ℕ, zero, suc, ◌+◌, ◌-◌, Bool, true, false, ◌||◌, not, Option, none, some, List, [], ◌∷◌, ◌==◌,
  ltb, if◌then◌else◌,
}
use cyque.Lists.{Header}
use cyque.Lists.Heap.{
  Pointer, null, Node, out_of_fuel, Cmd, pure, ◌>>=◌, ◌>>◌, load, set_next, set_prev, free,
}

-- the loop of `list_split`: the node at which it breaks, or NULL, and `count`
unfoldable pub find_split : ℕ → (ℕ → Bool) → Pointer → ℕ → Cmd (Pointer × ℕ)
find_split zero matches p count = λ _. out_of_fuel
find_split (suc k) matches p count = if p == null then pure (p, count) else do
  n ← load p
  if matches n.item then pure (p, count) else find_split k matches n.next (count + 1)

-- the rest of it, at a node that is not the first one
unfoldable pub cut_at : Header → Pointer → ℕ → Cmd (Option Header × Header)
cut_at l p count = do
  n ← load p
  set_next n.prev null
  set_prev p null
  pure (
    some (record { head = p; tail = l.tail; iter = null; size = l.size - count }),
    record l { tail = n.prev; size = count },
  )

-- `list_split` with a comparator and its argument: the new list, if there is one, and the old one
unfoldable pub list_split : Header → (ℕ → ℕ → Bool) → ℕ → Cmd (Option Header × Header)
list_split l comparator arg = if arg == null || ltb l.size 2 then pure (none, l) else do
  (p, count) ← find_split (l.size + 1) (λ item. comparator item arg) l.head 0
  if p == null || count == 0 then pure (none, l) else cut_at l p count

unfoldable pub find_loop : ℕ → (ℕ → Bool) → Pointer → Cmd ℕ
find_loop zero matches p = λ _. out_of_fuel
find_loop (suc k) matches p =
    if p == null
    then pure 0
    else do n ← load p; if matches n.item then pure n.item else find_loop k matches n.next

unfoldable pub list_find : Header → (ℕ → ℕ → Bool) → ℕ → Cmd ℕ
list_find l comparator arg = find_loop (l.size + 1) (λ item. comparator item arg) l.head

-- The walks of `list_iterate` and `list_iterate_reverse`, along `follow`: what they return, and the
-- items that they call the operator on.
unfoldable pub walk_loop : (Node → Pointer) → ℕ → (ℕ → Bool) → Pointer → Cmd (Bool × List ℕ)
walk_loop follow zero operator p = λ _. out_of_fuel
walk_loop follow (suc k) operator p = if p == null then pure (true, []) else do
  n ← load p
  if not (operator n.item) then pure (false, n.item ∷ []) else do
    (alltheway, called) ← walk_loop follow k operator (follow n)
    pure (alltheway, n.item ∷ called)

unfoldable pub list_iterate : Header → (ℕ → ℕ → Bool) → ℕ → Cmd (Bool × List ℕ)
list_iterate l operator arg =
    walk_loop (λ n. n.next) (l.size + 1) (λ item. operator item arg) l.head

unfoldable pub list_iterate_reverse : Header → (ℕ → ℕ → Bool) → ℕ → Cmd (Bool × List ℕ)
list_iterate_reverse l operator arg =
    walk_loop (λ n. n.prev) (l.size + 1) (λ item. operator item arg) l.tail

-- `list_delete`: every node is given back, and then the header
unfoldable pub delete_loop : ℕ → Pointer → Cmd (Unit {0})
delete_loop zero p = λ _. out_of_fuel
delete_loop (suc k) p = if p == null then pure tt else do n ← load p; free p; delete_loop k n.next

unfoldable pub list_delete : Header → Cmd (Unit {0})
list_delete l = delete_loop (l.size + 1) l.head
