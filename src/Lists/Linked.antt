-- ===== src/Lists/Linked.antt =====
-- Nodes that are linked in both directions, and what a `struct list` stands for.
use cyque.Prelude.{
  ℕ, ◌≡◌, ◌≢◌, refl, sym, ap, ◌∙◌, Bool, false, ◌||◌, Option, some, List, [], ◌∷◌, ◌++◌, arith,
  ◌==◌, length, All,
}
use cyque.Prelude.Int.{ℤ}
use cyque.Lists.{Header}
use cyque.Lists.Heap.{Pointer, null, Node, Memory, write, write_other}

-- a node's address, and what it holds for the user of the list
pub record Cell : Type 0 where
  pub address : Pointer
  pub item : ℕ
  pub priority : ℤ

abbrev pub Cells : Type 0
Cells = List Cell

abbrev pub node_of : Cell → Pointer → Pointer → Node
node_of c next prev = record { item = c.item; next = next; prev = prev; priority = c.priority }

-- whether a node of the cells is at the address
unfoldable pub has : Pointer → Cells → Bool
has a [] = false
has a (c ∷ xs) = a == c.address || has a xs

-- the first node's address, or what is behind the cells; and the last one's, or what is before them
unfoldable pub first : Cells → Pointer → Pointer
first [] stop = stop
first (c ∷ xs) stop = c.address

unfoldable pub last : Pointer → Cells → Pointer
last prev [] = prev
last prev (c ∷ xs) = last c.address xs

-- The cells are linked to each other, to `prev` before them and to `stop` behind them.
unfoldable pub Linked : Memory → Pointer → Cells → Pointer → Type 0
unfolding first
Linked h prev [] stop = Unit
Linked h prev (c ∷ xs) stop =
    (c.address ≢ null)
    × (has c.address xs ≡ false)
    × (h c.address ≡ some (node_of c (first xs stop) prev))
    × Linked h c.address xs stop

pub record IsList (h : Memory) (l : Header) (xs : Cells) : Type 0 where
  pub head : l.head ≡ first xs null
  pub tail : l.tail ≡ last null xs
  pub size : l.size ≡ length xs
  pub linked : Linked h null xs null

-- no cell is at an address of the other cells
abbrev pub Apart : Cells → Cells → Type 0
Apart xs ys = All (λ c. has c.address ys ≡ false) xs

pub Linked-frame :
    (h : Memory) (p : Pointer) (n : Option Node) (prev : Pointer) (xs : Cells) (stop : Pointer)
    → has p xs ≡ false
    → Linked h prev xs stop
    → Linked (write h p n) prev xs stop
unfolding Linked has
Linked-frame h p n prev [] stop out is = tt
Linked-frame h p n prev (c ∷ xs) stop out (ne, apart, here, rest) =
    let other : (c.address == p) ≡ false = ground arith in
    let out' : has p xs ≡ false = ground arith in
    (
      ne,
      apart,
      write_other h p c.address n other ∙ here,
      Linked-frame h p n c.address xs stop out' rest,
    )

pub has-append : (a : Pointer) (xs ys : Cells) → has a (xs ++ ys) ≡ (has a xs || has a ys)
unfolding has
has-append a [] ys = refl
has-append a (c ∷ xs) ys = ground (arith, has-append a xs ys)

pub first-append :
    (xs ys : Cells) (stop : Pointer) → first (xs ++ ys) stop ≡ first xs (first ys stop)
unfolding first
first-append [] ys stop = refl
first-append (c ∷ xs) ys stop = refl

pub last-append : (prev : Pointer) (xs ys : Cells) → last prev (xs ++ ys) ≡ last (last prev xs) ys
unfolding last
last-append prev [] ys = refl
last-append prev (c ∷ xs) ys = last-append c.address xs ys

-- linked cells are cut in two
pub Linked-append :
    (h : Memory) (prev : Pointer) (xs ys : Cells) (stop : Pointer)
    → Linked h prev (xs ++ ys) stop
    → Linked h prev xs (first ys stop) × Linked h (last prev xs) ys stop × Apart xs ys
unfolding Linked last
Linked-append h prev [] ys stop is = (tt, is, tt)
Linked-append h prev (c ∷ xs) ys stop (ne, apart, here, rest) =
    let (front, back, out) = Linked-append h c.address xs ys stop rest in
    let both = has-append c.address xs ys in
    let out_front : has c.address xs ≡ false = ground arith in
    let out_back : has c.address ys ≡ false = ground arith in
    (
      (ne, out_front, here ∙ ap (λ q. some (node_of c q prev)) (first-append xs ys stop), front),
      back,
      (out_back, out),
    )

-- and put together
pub append-Linked :
    (h : Memory) (prev : Pointer) (xs ys : Cells) (stop : Pointer)
    → Linked h prev xs (first ys stop)
    → Linked h (last prev xs) ys stop
    → Apart xs ys
    → Linked h prev (xs ++ ys) stop
unfolding Linked last
append-Linked h prev [] ys stop front back out = back
append-Linked h prev (c ∷ xs) ys stop (ne, apart, here, rest) back (out, outs) =
    let both = has-append c.address xs ys in
    let out_all : has c.address (xs ++ ys) ≡ false = ground arith in
    (
      ne,
      out_all,
      here ∙ ap (λ q. some (node_of c q prev)) (sym (first-append xs ys stop)),
      append-Linked h c.address xs ys stop rest back outs,
    )
