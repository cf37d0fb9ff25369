-- ===== src/Tables/Chain.antt =====
-- One chain of entries, linked by `next`: the walks that the tables make over it.
use mathlib.Core.Option.{or_else}
use cyque.Prelude.{
  suc, ◌≡◌, refl, Option, none, some, List, [], ◌∷◌, ◌++◌, arith, if◌then◌else◌, length, All,
}
use cyque.Tables.Key.{Key, ◌=?◌}

abbrev pub Chain : Type 0 → Type 0 → Type 0
Chain K V = List (K × V)

module _ {K V : Type 0} ⦃key : Key K⦄ where
  -- the walk of a lookup
  unfoldable pub find : K → Chain K V → Option V
  find q [] = none
  find q ((j, w) ∷ rest) = if q =? j then some w else find q rest

  -- no key occurs twice
  abbrev pub Distinct : Chain K V → Type 0
  Distinct [] = Unit
  Distinct ((k, v) ∷ c) = (find k c ≡ none) × Distinct c

  -- the first entry under `q` is unlinked
  unfoldable pub unlink : K → Chain K V → Chain K V
  unlink q [] = []
  unlink q ((j, w) ∷ rest) = if q =? j then rest else (j, w) ∷ unlink q rest

  -- `e->value = value` at the first entry under `q`
  unfoldable pub assign : K → V → Chain K V → Chain K V
  assign q new [] = []
  assign q new ((j, w) ∷ rest) = if q =? j then (j, new) ∷ rest else (j, w) ∷ assign q new rest

  module _ (k q : K) where
    pub find-assign :
        (v old : V) (c : Chain K V)
        → find k c ≡ some old
        → find q (assign k v c) ≡ (if q =? k then some v else find q c)
    unfolding find assign
    find-assign v old [] h = ground arith
    find-assign v old ((j, w) ∷ c) h =
        ground (arith, find-assign v old c, key.equal_iff k j, key.equal_iff q j, key.equal_iff q k)

    pub find-assign-none : (v : V) (c : Chain K V) → find q c ≡ none → find q (assign k v c) ≡ none
    unfolding find assign
    find-assign-none v [] h = refl
    find-assign-none v ((j, w) ∷ c) h = ground (arith, find-assign-none v c)

    pub find-unlink :
        (c : Chain K V) → Distinct c → find q (unlink k c) ≡ (if q =? k then none else find q c)
    unfolding find unlink
    find-unlink [] d = ground arith
    find-unlink ((j, w) ∷ c) d =
        ground (arith, find-unlink c, key.equal_iff k j, key.equal_iff q j, key.equal_iff q k)

    pub find-unlink-none : (c : Chain K V) → find q c ≡ none → find q (unlink k c) ≡ none
    unfolding find unlink
    find-unlink-none [] h = refl
    find-unlink-none ((j, w) ∷ c) h = ground (arith, find-unlink-none c)

  pub Distinct-assign : (k : K) (v : V) (c : Chain K V) → Distinct c → Distinct (assign k v c)
  unfolding find assign
  Distinct-assign k v [] d = tt
  Distinct-assign k v ((j, w) ∷ c) d =
      ground (arith, Distinct-assign k v c, find-assign-none k j v c)

  pub Distinct-unlink : (k : K) (c : Chain K V) → Distinct c → Distinct (unlink k c)
  unfolding find unlink
  Distinct-unlink k [] d = tt
  Distinct-unlink k ((j, w) ∷ c) d = ground (arith, Distinct-unlink k c, find-unlink-none k j c)

  pub length-assign :
      (q : K) (new : V) (entries : Chain K V) → length (assign q new entries) ≡ length entries
  unfolding assign
  length-assign q new [] = refl
  length-assign q new (e ∷ rest) = ground (arith, length-assign q new rest)

  pub length-unlink :
      (k : K) (old : V) (c : Chain K V) → find k c ≡ some old → length c ≡ suc (length (unlink k c))
  unfolding find unlink
  length-unlink k old [] h = ground arith
  length-unlink k old ((j, w) ∷ c) h = ground (arith, length-unlink k old c)

  pub unlink-absent : (k : K) (c : Chain K V) → find k c ≡ none → unlink k c ≡ c
  unfolding find unlink
  unlink-absent k [] h = refl
  unlink-absent k ((j, w) ∷ c) h = ground (arith, unlink-absent k c)

  pub find-append :
      (k : K) (before behind : Chain K V)
      → find k (before ++ behind) ≡ or_else (find k before) (find k behind)
  unfolding find or_else
  find-append k [] behind = refl
  find-append k (e ∷ before) behind = rw (find-append k before behind) (ground arith)

  -- no entry of `a` has its key in `b`
  abbrev pub Apart : Chain K V → Chain K V → Type 0
  Apart a b = All (λ e. find e.0 b ≡ none) a

  pub Distinct-append : (a b : Chain K V) → Distinct a → Distinct b → Apart a b → Distinct (a ++ b)
  unfolding or_else
  Distinct-append [] b da db out = db
  Distinct-append ((j, w) ∷ a) b da db out =
      (rw (find-append j a b, da.0, out.0), Distinct-append a b da.1 db out.1)
