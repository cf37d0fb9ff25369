-- ===== src/Tables/Itable.antt =====
-- itable.c: values under 64-bit integer keys. `none` for a value stands for NULL, so a stored value
-- is not NULL; every insertion answers 1.
use mathlib.Core.Option
use cyque.Prelude.{
  ℕ, ◌+◌, ◌<◌, ◌≡◌, refl, Bool, true, false, Option, none, some, List, ◌∷◌, arith, ◌==◌, ==_iff,
  if◌then◌else◌, is_some, get_or-replicate,
}
use cyque.Tables.Chain.{find, Distinct}
use cyque.Tables.Core
use cyque.Tables.Core.{Table, Policy, Next, item, flatten}
use cyque.Tables.Insert.{IsValid, create-IsValid, lookup-create}
use cyque.Tables.Iterate.{Yields, Same, first-Yields}
use cyque.Tables.Key.{Key}
use cyque.Tables.Move.{IsLoaded, lookup-flatten, insert-Inserts}
use cyque.Tables.Placed.{Distinct-flatten}
use cyque.Tables.Remove.{Going, remove-Removes, remove-IsLoaded, next-remove}

instance abbrev pub uint64_key : Key ℕ
uint64_key = record { equal = ◌==◌; hash = λ k. k; equal_iff = ==_iff }

abbrev pub Itable : Type 0 → Type 0
Itable V = Table ℕ V

-- `itable_insert` writes the value of a present key.
abbrev pub policy : Policy ℕ
policy = record { overwrite = true; strict = false; ends = λ k. false }

unfoldable pub create : {V : Type 0} → ℕ → Itable V
create bucket_count = Core.create (if bucket_count == 0 then 127 else bucket_count)

unfoldable pub clear : {V : Type 0} → Itable V → Itable V
clear t = Core.clear t

unfoldable pub size : {V : Type 0} → Itable V → ℕ
size t = t.size

unfoldable pub lookup : {V : Type 0} → Itable V → ℕ → Option V
lookup t k = Core.lookup t k

-- with the answer 1; `none` is a fault
unfoldable pub insert : {V : Type 0} → Itable V → ℕ → V → Option (Bool × Itable V)
insert t k v = Option.map (λ r. (true, r.1)) (Core.insert 2 policy t k v)

unfoldable pub remove : {V : Type 0} → Itable V → ℕ → Option V × Itable V
remove t k = Core.remove t k

unfoldable pub firstkey : {V : Type 0} → Itable V → Itable V
firstkey t = Core.first t

unfoldable pub nextkey : {V : Type 0} → Itable V → Next ℕ V
nextkey t = Core.next t

-- What holds of a table between any two calls, as long as `clear` is not called.
pub record IsItable {V : Type 0} (t : Itable V) : Type 0 where
  pub valid : IsValid t
  pub loaded : IsLoaded t

module _ {V : Type 0} where
  -- A new table satisfies the invariant, whatever count was asked for, and holds nothing.
  pub create-IsItable :
      (n : ℕ) → IsItable (create {V = V} n) × ((q : ℕ) → lookup (create {V = V} n) q ≡ none)
  unfolding create lookup Core.create
  create-IsItable n =
      let pos : 0 < (if n == 0 then 127 else n) = ground arith in
      (
        record { valid = create-IsValid _ pos; loaded = omega arith },
        λ q. lookup-create (if n == 0 then 127 else n) q,
      )

  -- On a table that satisfies the invariant an insertion ends without a fault and answers 1. The
  -- invariant holds after it; the key has the new value and every other key what it had; the size
  -- grows by one exactly if the key was absent. So it is across a doubling of the buckets too.
  pub lookup-insert :
      {t : Itable V} (k : ℕ) (v : V)
      → IsItable t
      → (t' : Itable V) × (insert t k v ≡ some (true, t'))
        × IsItable t'
        × ((q : ℕ) → lookup t' q ≡ (if q == k then some v else lookup t q))
        × (size t' ≡ size t + (if is_some (lookup t k) then 0 else 1))
  unfolding insert lookup size
  lookup-insert {t} k v valid =
      let (r, run, i) = insert-Inserts 0 policy k v valid.valid valid.loaded (λ q e. cc) in
      (
        r.1,
        rw run refl,
        record { valid = i.valid; loaded = i.loaded },
        λ q. ground (arith, i.reads q),
        ground (arith, i.size, i.found),
      )

  -- A removal answers what a lookup of the key finds. The invariant holds after it; the key is gone
  -- and every other key has what it had; the size falls by one exactly if the key was there.
  pub lookup-remove :
      {t : Itable V} (k : ℕ)
      → IsItable t
      → ((remove t k).0 ≡ lookup t k)
        × IsItable (remove t k).1
        × ((q : ℕ) → lookup (remove t k).1 q ≡ (if q == k then none else lookup t q))
        × (size (remove t k).1 + (if is_some (lookup t k) then 1 else 0) ≡ size t)
  unfolding remove lookup size
  lookup-remove {t} k valid =
      let r = remove-Removes valid.valid k in
      (
        r.returns,
        record { valid = r.valid; loaded = remove-IsLoaded k valid.valid valid.loaded },
        r.reads,
        ground (arith, r.size, r.returns),
      )

  -- Removing the key that `nextkey` has just given lets the iteration go on: from a table where the
  -- entries `(k, v) ∷ es` are still to come, with no key twice, `nextkey` gives `(k, v)`, and after
  -- the removal of `k` the entries of `es` are still to come.
  pub nextkey-remove :
      {t : Itable V} {k : ℕ} {v : V} {es : List (ℕ × V)}
      → Going t ((k, v) ∷ es)
      → Distinct ((k, v) ∷ es)
      → (u : Itable V) × (nextkey t ≡ item (k, v) u) × Going (remove u k).1 es
  unfolding nextkey remove
  nextkey-remove g d = let (u, e, _, g') = next-remove g d in (u, e, g')

  -- A walk by `firstkey` and `nextkey` gives all the entries of the table, bucket by bucket, and
  -- then ends; the entries have different keys, and a lookup of a key finds the entry's value.
  pub firstkey-Yields :
      {t : Itable V}
      → IsItable t
      → Yields (firstkey t) (flatten t.buckets)
        × Distinct (flatten t.buckets)
        × ((q : ℕ) → find q (flatten t.buckets) ≡ lookup t q)
        × Same t (firstkey t)
  unfolding firstkey lookup
  firstkey-Yields {t} valid =
      let (y, s) = first-Yields t in
      (
        y,
        Distinct-flatten t.bucket_count 0 t.buckets valid.valid.placed,
        lookup-flatten valid.valid,
        s,
      )

  -- `itable_clear` empties the table and does not reset its size: no key is found behind it, while
  -- `itable_size` answers what it did.
  pub size-clear :
      (t : Itable V) → ((q : ℕ) → lookup (clear t) q ≡ none) × (size (clear t) ≡ size t)
  unfolding clear lookup size Core.clear Core.lookup find
  size-clear t = (λ q. rw get_or-replicate, refl)
