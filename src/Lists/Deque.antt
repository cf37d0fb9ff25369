-- ===== src/Lists/Deque.antt =====
-- Any sequence of operations on a list in memory does what it would do to a plain sequence of items.
use mathlib.Core.Path.{subst}
use cyque.Prelude.{
  ℕ, ◌≡◌, ◌≢◌, refl, sym, ap, ◌∙◌, ◌⊎◌, inl, inr, Bool, true, false, ◌||◌, List, [], ◌∷◌, ◌++◌,
  arith, ◌==◌, if◌then◌else◌, Bool-cases,
}
use cyque.Lists.{Header, push_head, push_tail, pop_head, pop_tail, list_remove}
use cyque.Lists.Ends.{IsFresh, cell, push_head-cons, push_tail-snoc}
use cyque.Lists.Heap.{Pointer, null, Memory, Run, ok, fault, out_of_fuel, Cmd, pure, ◌>>=◌, Returns}
use cyque.Lists.Linked.{Cell, Cells, IsList}
use cyque.Lists.Pops.{pop_head-cons, pop_tail-snoc, pop_nil}
use cyque.Lists.Remove.{holds, without_item, list_remove-Removed}

-- The calls, a push with the address that `malloc` returns for its node.
pub data Call : Type 0 where
  at_head at_tail : Pointer → ℕ → Call
  from_head from_tail : Call
  removes : ℕ → Call

abbrev pub call : Call → Header → Cmd (ℕ × Header)
call (at_head p item) l = do l ← push_head p l item; pure (1, l)
call (at_tail p item) l = do l ← push_tail p l item; pure (1, l)
call from_head l = pop_head l
call from_tail l = pop_tail l
call (removes v) l = list_remove l v

-- the calls one behind the other, and what each returns
pub calls : List Call → Header → Cmd (List ℕ × Header)
calls [] l = pure ([], l)
calls (c ∷ cs) l = do (v, l) ← call c l; (vs, l) ← calls cs l; pure (v ∷ vs, l)

-- the same on a plain sequence
abbrev pub last_item : List ℕ → ℕ
last_item [] = 0
last_item (v ∷ []) = v
last_item (v ∷ w ∷ vs) = last_item (w ∷ vs)

abbrev pub but_last : List ℕ → List ℕ
but_last [] = []
but_last (v ∷ []) = []
but_last (v ∷ w ∷ vs) = v ∷ but_last (w ∷ vs)

abbrev pub among : ℕ → List ℕ → Bool
among v [] = false
among v (w ∷ ws) = v == w || among v ws

abbrev pub drop_first : ℕ → List ℕ → List ℕ
drop_first v [] = []
drop_first v (w ∷ ws) = if v == w then ws else w ∷ drop_first v ws

abbrev pub first_out : List ℕ → ℕ × List ℕ
first_out [] = (0, [])
first_out (v ∷ vs) = (v, vs)

abbrev pub plain : Call → List ℕ → ℕ × List ℕ
plain (at_head p item) vs = (1, item ∷ vs)
plain (at_tail p item) vs = (1, vs ++ (item ∷ []))
plain from_head vs = first_out vs
plain from_tail vs = (last_item vs, but_last vs)
plain (removes v) vs = if v == 0 then (0, vs) else (if among v vs then v else 0, drop_first v vs)

abbrev pub plain_calls : List Call → List ℕ → List ℕ × List ℕ
plain_calls [] vs = ([], vs)
plain_calls (c ∷ cs) vs =
    let (w, vs') = plain c vs in let (ws, vs'') = plain_calls cs vs' in (w ∷ ws, vs'')

-- `malloc` gives an address that no node is at
abbrev pub FreshFor : Call → Memory → Type 0
FreshFor (at_head p item) h = IsFresh h p
FreshFor (at_tail p item) h = IsFresh h p
FreshFor _ h = Unit

abbrev Behind : (Header → Memory → Type 0) → Run (ℕ × Header) → Type 0
Behind P (ok r g) = P r.1 g
Behind P fault = Unit
Behind P out_of_fuel = Unit

-- at every call of the sequence
abbrev pub AllFresh : List Call → Header → Memory → Type 0
AllFresh [] l h = Unit
AllFresh (c ∷ cs) l h = FreshFor c h × Behind (AllFresh cs) (call c l h)

abbrev pub items : Cells → List ℕ
items [] = []
items (c ∷ xs) = c.item ∷ items xs

pub items-append : (xs ys : Cells) → items (xs ++ ys) ≡ items xs ++ items ys
items-append [] ys = refl
items-append (c ∷ xs) ys = ap (λ vs. c.item ∷ vs) (items-append xs ys)

last_item-snoc : (vs : List ℕ) (v : ℕ) → last_item (vs ++ (v ∷ [])) ≡ v
last_item-snoc [] v = refl
last_item-snoc (w ∷ []) v = refl
last_item-snoc (w ∷ u ∷ vs) v = last_item-snoc (u ∷ vs) v

but_last-snoc : (vs : List ℕ) (v : ℕ) → but_last (vs ++ (v ∷ [])) ≡ vs
but_last-snoc [] v = refl
but_last-snoc (w ∷ []) v = refl
but_last-snoc (w ∷ u ∷ vs) v = ap (λ t. w ∷ t) (but_last-snoc (u ∷ vs) v)

among-items : (v : ℕ) (xs : Cells) → holds v xs ≡ among v (items xs)
among-items v [] = refl
among-items v (c ∷ xs) = ap (λ b. v == c.item || b) (among-items v xs)

items-without_item : (v : ℕ) (xs : Cells) → items (without_item v xs) ≡ drop_first v (items xs)
items-without_item v [] = refl
items-without_item v (c ∷ xs) = elim (Bool-cases (v == c.item)) [
  | inl e ↦ rw e refl
  | inr e ↦ rw e (ap (λ t. c.item ∷ t) (items-without_item v xs))
]

pub Snoc-cases : (xs : Cells) → (xs ≡ []) ⊎ ((ys : Cells) × (c : Cell) × (xs ≡ ys ++ (c ∷ [])))
Snoc-cases [] = inl refl
Snoc-cases (x ∷ xs) = by_rest (Snoc-cases xs)
  where
    by_rest :
        (xs ≡ []) ⊎ ((ys : Cells) × (c : Cell) × (xs ≡ ys ++ (c ∷ [])))
        → (x ∷ xs ≡ []) ⊎ ((ys : Cells) × (c : Cell) × (x ∷ xs ≡ ys ++ (c ∷ [])))
    by_rest (inl e) = inr ([], x, ap (λ t. x ∷ t) e)
    by_rest (inr (ys, c, e)) = inr (x ∷ ys, c, ap (λ t. x ∷ t) e)

remove_null : (v : ℕ) (l : Header) (h : Memory) → (v == 0) ≡ true → list_remove l v h ≡ ok (0, l) h
unfolding list_remove
remove_null v l h e = rw e refl

-- a list in memory that holds the items `vs`
abbrev pub Holds : List ℕ → Header → Memory → Type 0
Holds vs l g = (xs : Cells) × IsList g l xs × (items xs ≡ vs)

-- a call does on the list what it does on a plain sequence
abbrev Does : Call → List ℕ → ℕ × Header → Memory → Type 0
Does c vs r g = (r.0 ≡ (plain c vs).0) × Holds (plain c vs).1 r.1 g

call-Does :
    (c : Call) (h : Memory) (l : Header) (xs : Cells)
    → FreshFor c h
    → IsList h l xs
    → Returns (Does c (items xs)) (call c l h)
call-Does (at_head p item) h l xs fresh is =
    let (l', g, run, (list, same)) = push_head-cons h p item l xs fresh is in
    ((1, l'), g, rw run refl, (refl, (cell p item ∷ xs, list, refl)))
call-Does (at_tail p item) h l xs fresh is =
    let (l', g, run, (list, same)) = push_tail-snoc h p item l xs fresh is in
    ((1, l'), g, rw run refl, (refl, (xs ++ (cell p item ∷ []), list, items-append xs _)))
call-Does from_head h l [] fresh is = ((0, l), h, (pop_nil h l is).0, (refl, ([], is, refl)))
call-Does from_head h l (c ∷ xs) fresh is =
    let (r, g, run, (item, (list, same), freed)) = pop_head-cons h l c xs is in
    (r, g, run, (item, (xs, list, refl)))
call-Does from_tail h l xs fresh is = from_end (Snoc-cases xs)
  where
    from_end :
        (xs ≡ []) ⊎ ((ys : Cells) × (c : Cell) × (xs ≡ ys ++ (c ∷ [])))
        → Returns (Does from_tail (items xs)) (pop_tail l h)
    from_end (inl e) =
        let is' = subst (λ (zs : Cells). IsList h l zs) e is in
        ((0, l), h, (pop_nil h l is').1, rw e (refl, ([], is', refl)))
    from_end (inr (ys, c, e)) =
        let is' = subst (λ (zs : Cells). IsList h l zs) e is in
        let (r, g, run, (item, (list, same), freed)) = pop_tail-snoc h l c ys is' in
        let all = ap items e ∙ items-append ys (c ∷ []) in
        (
          r,
          g,
          run,
          (
            item ∙ sym (ap last_item all ∙ last_item-snoc (items ys) c.item),
            (ys, list, sym (ap but_last all ∙ but_last-snoc (items ys) c.item)),
          ),
        )
call-Does (removes v) h l xs fresh is = elim (Bool-cases (v == 0)) [
  | inl null' ↦ rw null' ((0, l), h, remove_null v l h null', (refl, (xs, is, refl)))
  | inr some_value ↦
      let ne : v ≢ null = ground arith in
      let (r, g, run, (value, (list, same))) = list_remove-Removed h l v xs ne is in
      (
        r,
        g,
        run,
        rw some_value (
          value ∙ ap (λ b. if b then v else 0) (among-items v xs),
          (without_item v xs, list, items-without_item v xs),
        ),
      )
]

-- If each push is given an address that no node is at when it is made, then any sequence of
-- `list_push_head`, `list_push_tail`, `list_pop_head`, `list_pop_tail` and `list_remove` on a
-- well-formed list ends without a fault, every call returns what it returns on a plain sequence of
-- items, and the list behind them is well formed and holds the items that are left, in their order.
pub calls-Plain :
    (cs : List Call) (h : Memory) (l : Header) (xs : Cells)
    → IsList h l xs
    → AllFresh cs l h
    → Returns
        (λ r g. (r.0 ≡ (plain_calls cs (items xs)).0) × Holds (plain_calls cs (items xs)).1 r.1 g)
        (calls cs l h)
unfolding calls
calls-Plain [] h l xs is fresh = (([], l), h, refl, (refl, (xs, is, refl)))
calls-Plain (c ∷ cs) h l xs is (now, later) =
    let (r, g, run, (value, (ys, list, left))) = call-Does c h l xs now is in
    let later' = subst (λ x. Behind (AllFresh cs) x) run later in
    let (r', g', run', (values, (zs, list', left'))) = calls-Plain cs g r.1 ys list later' in
    (
      (r.0 ∷ r'.0, r'.1),
      g',
      rw (run, run') refl,
      (
        ap (λ w. w ∷ r'.0) value
            ∙ ap (λ ws. (plain c (items xs)).0 ∷ ws)
                (values ∙ ap (λ vs. (plain_calls cs vs).0) left),
        (zs, list', left' ∙ ap (λ vs. (plain_calls cs vs).1) left),
      ),
    )
