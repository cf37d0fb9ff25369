-- ===== src/Lists.antt =====
-- The doubly linked lists of dttools/src/list.c, as nodes in memory. The `struct list` is outside that
-- memory, so a function that changes one returns it; `malloc` returns the address `fresh`. The `size`
-- counts nodes, and each loop has as many rounds as the size and one more.
pub mod Deque
pub mod Ends
pub mod Heap
pub mod Pops
pub mod Linked
pub mod Loops
pub mod Relink
pub mod Remove
pub mod Splice
pub mod Split
pub mod Walks
use cyque.Prelude.{
  ℕ, zero, suc, ◌+◌, ◌-◌, Bool, true, false, ◌||◌, not, Option, none, some, List, [], ◌∷◌, ◌==◌,
  ltb, if◌then◌else◌,
}
use cyque.Prelude.Int.{ℤ, pos, ltb_ℤ}
use cyque.Lists.Heap.{
  Pointer, null, Node, Memory, Run, ok, fault, out_of_fuel, Cmd, pure, ◌>>=◌, ◌>>◌, put_node, load,
  set_next, set_prev, free, unless_null,
}

-- `struct list`
pub record Header : Type 0 where
  pub head : Pointer
  pub tail : Pointer
  pub iter : Pointer
  pub size : ℕ

unfoldable pub list_create : Header
list_create = record { head = null; tail = null; iter = null; size = 0 }

unfoldable pub new_node : Pointer → ℕ → Pointer → Pointer → Cmd (Unit {0})
new_node fresh item prev next = do
  put_node fresh (some (record { item = item; next = next; prev = prev; priority = pos 0 }))
  unless_null next (set_prev next fresh)
  unless_null prev (set_next prev fresh)

unfoldable pub push_head : Pointer → Header → ℕ → Cmd Header
push_head fresh l item = do
  new_node fresh item null l.head
  pure (record l {
    head = fresh;
    tail = if l.tail == null then fresh else l.tail;
    size = l.size + 1;
  })

unfoldable pub push_tail : Pointer → Header → ℕ → Cmd Header
push_tail fresh l item = do
  new_node fresh item l.tail null
  pure (record l {
    tail = fresh;
    head = if l.head == null then fresh else l.head;
    size = l.size + 1;
  })

unfoldable pub pop_head : Header → Cmd (ℕ × Header)
pop_head l = if l.head == null then pure (0, l) else do
  n ← load l.head
  unless_null n.next (set_prev n.next null)
  free l.head
  pure (
    n.item,
    record l { head = n.next; tail = if n.next == null then null else l.tail; size = l.size - 1 },
  )

unfoldable pub pop_tail : Header → Cmd (ℕ × Header)
pop_tail l = if l.tail == null then pure (0, l) else do
  n ← load l.tail
  unless_null n.prev (set_next n.prev null)
  free l.tail
  pure (
    n.item,
    record l { tail = n.prev; head = if n.prev == null then null else l.head; size = l.size - 1 },
  )

-- `list_peek_head`, `list_peek_tail` and `list_peek_current`
unfoldable pub peek : Pointer → Cmd ℕ
peek p = if p == null then pure 0 else do n ← load p; pure n.item

unfoldable pub next_item : Header → Cmd (ℕ × Header)
next_item l =
    if l.iter == null
    then pure (0, l)
    else do n ← load l.iter; pure (n.item, record l { iter = n.next })

-- what `list_remove` does at the node that it looked for
unfoldable pub unlink_node : Header → Pointer → Node → Cmd (ℕ × Header)
unlink_node l p n = do
  unless_null n.next (set_prev n.next n.prev)
  unless_null n.prev (set_next n.prev n.next)
  free p
  pure (
    n.item,
    record l {
      head = if p == l.head then n.next else l.head;
      tail = if p == l.tail then n.prev else l.tail;
      size = l.size - 1;
    },
  )

unfoldable pub remove_loop : ℕ → Header → ℕ → Pointer → Cmd (ℕ × Header)
unfolding unlink_node
remove_loop zero l value p = λ _. out_of_fuel
remove_loop (suc k) l value p =
    if p == null
    then pure (0, l)
    else do n ← load p; if value == n.item then unlink_node l p n else remove_loop k l value n.next

unfoldable pub list_remove : Header → ℕ → Cmd (ℕ × Header)
list_remove l value = if value == null then pure (0, l) else remove_loop (l.size + 1) l value l.head

-- `list_splice`; the header that is deleted has no nodes left
unfoldable pub list_splice : Header → Header → Cmd Header
list_splice top bottom =
    if top.head == null then pure bottom else if bottom.head == null then pure top else do
      set_next top.tail bottom.head
      set_prev bottom.head bottom.tail
      pure (record top { tail = bottom.tail; size = top.size + bottom.size; iter = null })
