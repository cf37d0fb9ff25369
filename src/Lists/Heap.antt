-- ===== src/Lists/Heap.antt =====
-- Nodes at addresses, and the commands that read and write them.
use cyque.Prelude.{ℕ, ◌≡◌, ◌≢◌, refl, false, Option, none, some, arith, ◌==◌, ==_iff, if◌then◌else◌}
use cyque.Prelude.Int.{ℤ}

abbrev pub Pointer : Type 0
Pointer = ℕ

abbrev pub null : Pointer
null = 0

-- `struct list_node`; an item is a pointer too
pub record Node : Type 0 where
  pub item : ℕ
  pub next : Pointer
  pub prev : Pointer
  pub priority : ℤ

abbrev pub Memory : Type 0
Memory = Pointer → Option Node

unfoldable pub write : Memory → Pointer → Option Node → Memory
write h p c a = if a == p then c else h a

-- `fault` stands for a read or write through a pointer to no node.
pub data Run (A : Type 0) : Type 0 where
  ok : A → Memory → Run A
  fault : Run A
  out_of_fuel : Run A

abbrev pub Cmd : Type 0 → Type 0
Cmd A = Memory → Run A

abbrev pub pure : {A : Type 0} → A → Cmd A
pure = ok

module _ {A B : Type 0} where
  abbrev pub and_then : Run A → (A → Cmd B) → Run B
  and_then (ok a h) next = next a h
  and_then fault next = fault
  and_then out_of_fuel next = out_of_fuel

  infixl 5 ◌>>=◌ ◌>>◌
  abbrev pub ◌>>=◌ : Cmd A → (A → Cmd B) → Cmd B
  c >>= next = λ h. and_then (c h) next

  abbrev pub ◌>>◌ : Cmd A → Cmd B → Cmd B
  c >> d = c >>= λ _. d

abbrev pub put_node : Pointer → Option Node → Cmd (Unit {0})
put_node p c h = ok tt (write h p c)

unfoldable pub load : Pointer → Cmd Node
load p h = if p == null then fault else elim (h p) [ none ↦ fault | some n ↦ ok n h ]

unfoldable pub set_next : Pointer → Pointer → Cmd (Unit {0})
set_next p q = do n ← load p; put_node p (some (record n { next = q }))

unfoldable pub set_prev : Pointer → Pointer → Cmd (Unit {0})
set_prev p q = do n ← load p; put_node p (some (record n { prev = q }))

unfoldable pub free : Pointer → Cmd (Unit {0})
free p = load p >> put_node p none

-- `if(p) ...`
abbrev pub unless_null : Pointer → Cmd (Unit {0}) → Cmd (Unit {0})
unless_null p c = if p == null then pure tt else c

-- A run ends with a result and a memory for which `P` holds.
abbrev pub Returns : {A : Type 0} → (A → Memory → Type 0) → Run A → Type 0
Returns {A} P r = (a : A) × (g : Memory) × (r ≡ ok a g) × P a g

module _ (h : Memory) (p : Pointer) (n : Node) (ne : p ≢ null) (here : h p ≡ some n) where
  pub not_null : (p == null) ≡ false
  not_null = ground arith

  pub load-ok : load p h ≡ ok n h
  unfolding load
  load-ok = rw (not_null, here) refl

  pub set_next-ok :
      (q : Pointer) → set_next p q h ≡ ok tt (write h p (some (record n { next = q })))
  unfolding set_next
  set_next-ok q = rw load-ok refl

  pub set_prev-ok :
      (q : Pointer) → set_prev p q h ≡ ok tt (write h p (some (record n { prev = q })))
  unfolding set_prev
  set_prev-ok q = rw load-ok refl

  pub free-ok : free p h ≡ ok tt (write h p none)
  unfolding free
  free-ok = rw load-ok refl

pub write_self : (h : Memory) (p : Pointer) (c : Option Node) → write h p c p ≡ c
unfolding write
write_self h p c = let same = (==_iff p p).1 refl in rw same refl

pub write_other :
    (h : Memory) (p a : Pointer) (c : Option Node) → (a == p) ≡ false → write h p c a ≡ h a
unfolding write
write_other h p a c ne = rw ne refl
