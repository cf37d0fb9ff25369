-- ===== src/Tables/HashTable.antt =====
-- hash_table.c: values under texts. The key of an entry is its text with the hash of it; the hash
-- function is the one given to `hash_table_create`, or `hash_string`.
use mathlib.Core.Option
use mathlib.Core.Option.{get_or}
use cyque.Prelude.{
  ℕ, ◌+◌, ◌<◌, ◌≡◌, refl, ◌↔◌, ◌≢◌, Bool, true, false, ◌&&◌, not, Option, none, some, List, ◌∷◌,
  arith, ◌==◌, ltb, if◌then◌else◌, is_some, Bytes, same_text, same_text_iff,
}
use cyque.Tables.Chain.{Distinct}
use cyque.Tables.Core
use cyque.Tables.Core.{Table, Policy, Next, item, flatten}
use cyque.Tables.Insert.{IsValid, create-IsValid, lookup-create}
use cyque.Tables.Key.{Key}
use cyque.Tables.Move.{IsLoaded, insert-Inserts}
use cyque.Tables.Remove.{Going, remove-Removes, remove-IsLoaded, next-remove}

-- `key` and `hash` of an entry
pub record TextKey : Type 0 where
  pub hash : ℕ
  pub text : Bytes

-- `hash == e->hash && !strcmp(key, e->key)`
unfoldable pub same_key : TextKey → TextKey → Bool
same_key a b = a.hash == b.hash && same_text a.text b.text

pub same_key_iff : (a b : TextKey) → (same_key a b ≡ true) ↔ (a ≡ b)
unfolding same_key
same_key_iff a b = (
  λ h. ground (arith, same_text_iff a.text b.text),
  λ e. ground (arith, same_text_iff a.text b.text),
)

instance abbrev pub text_key : Key TextKey
text_key = record { equal = same_key; hash = λ k. k.hash; equal_iff = same_key_iff }

abbrev pub HashTable : Type 0 → Type 0
HashTable V = Table TextKey V

-- `hash_table_insert` refuses a present key.
abbrev pub policy : Policy TextKey
policy = record { overwrite = false; strict = true; ends = λ k. false }

unfoldable pub create : {V : Type 0} → ℕ → HashTable V
create bucket_count = Core.create (if ltb bucket_count 1 then 127 else bucket_count)

unfoldable pub clear : {V : Type 0} → HashTable V → HashTable V
clear t = Core.clear t

unfoldable pub size : {V : Type 0} → HashTable V → ℕ
size t = t.size

unfoldable pub firstkey : {V : Type 0} → HashTable V → HashTable V
firstkey t = Core.first t

unfoldable pub nextkey : {V : Type 0} → HashTable V → Next TextKey V
nextkey t = Core.next t

-- `hash = h->hash_func(key)` and the key
abbrev pub hashed : (Bytes → ℕ) → Bytes → TextKey
hashed hash_func s = record { hash = hash_func s; text = s }

-- The operations take the hash function of the table.
module _ {V : Type 0} (hash_func : Bytes → ℕ) where
  unfoldable pub lookup : HashTable V → Bytes → Option V
  lookup t s = Core.lookup t (hashed hash_func s)

  unfoldable pub insert : HashTable V → Bytes → V → Option (Bool × HashTable V)
  insert t s v = Option.map (λ r. (not r.0, r.1)) (Core.insert 2 policy t (hashed hash_func s) v)

  unfoldable pub remove : HashTable V → Bytes → Option V × HashTable V
  remove t s = Core.remove t (hashed hash_func s)

-- What holds of a table between any two calls, as long as `clear` is not called.
pub record IsHashTable {V : Type 0} (t : HashTable V) : Type 0 where
  pub valid : IsValid t
  pub loaded : IsLoaded t

module _ {V : Type 0} (hash_func : Bytes → ℕ) where
  -- A new table satisfies the invariant, whatever count was asked for, and no text is found in it.
  pub create-IsHashTable :
      (n : ℕ)
      → IsHashTable (create {V = V} n)
        × ((q : Bytes) → lookup hash_func (create {V = V} n) q ≡ none)
  unfolding create lookup Core.create
  create-IsHashTable n =
      let pos : 0 < (if ltb n 1 then 127 else n) = ground arith in
      (
        record { valid = create-IsValid _ pos; loaded = omega arith },
        λ q. lookup-create (if ltb n 1 then 127 else n) (hashed hash_func q),
      )

  -- On a table that satisfies the invariant an insertion ends without a fault, whatever the hash
  -- function is. It answers 1 exactly if the text was absent. The invariant holds after it; the text
  -- then has the new value if it was absent and its old one if it was present, every other text has
  -- what it had, and the size grows by one exactly if the answer is 1.
  pub insert-IsHashTable :
      {t : HashTable V} (k : Bytes) (v : V)
      → IsHashTable t
      → (t' : HashTable V) × (insert hash_func t k v
          ≡ some (not (is_some (lookup hash_func t k)), t'))
        × IsHashTable t'
        × (lookup hash_func t' k ≡ some (get_or (lookup hash_func t k) v))
        × ((q : Bytes) → q ≢ k → lookup hash_func t' q ≡ lookup hash_func t q)
        × (size t' ≡ size t + (if is_some (lookup hash_func t k) then 0 else 1))
  unfolding insert lookup size
  insert-IsHashTable {t} k v valid =
      let (r, run, i) =
        insert-Inserts 0 policy (hashed hash_func k) v valid.valid valid.loaded (λ q e. cc) in
      let same = text_key.equal_iff (hashed hash_func k) (hashed hash_func k) in
      (
        r.1,
        rw (run, i.found) refl,
        record { valid = i.valid; loaded = i.loaded },
        ground (arith, i.reads (hashed hash_func k), same),
        λ q ne. ground (
          arith,
          i.reads (hashed hash_func q),
          text_key.equal_iff (hashed hash_func q) (hashed hash_func k),
        ),
        ground (arith, i.size, i.found),
      )

  -- A removal answers what a lookup of the text finds. The invariant holds after it; the text is gone
  -- and every other text has what it had; the size falls by one exactly if the text was there.
  pub remove-IsHashTable :
      {t : HashTable V} (k : Bytes)
      → IsHashTable t
      → ((remove hash_func t k).0 ≡ lookup hash_func t k)
        × IsHashTable (remove hash_func t k).1
        × (lookup hash_func (remove hash_func t k).1 k ≡ none)
        × ((q : Bytes) → q ≢ k → lookup hash_func (remove hash_func t k).1 q ≡ lookup hash_func t q)
        × (size (remove hash_func t k).1 + (if is_some (lookup hash_func t k) then 1 else 0)
            ≡ size t)
  unfolding remove lookup size
  remove-IsHashTable {t} k valid =
      let r = remove-Removes valid.valid (hashed hash_func k) in
      let same = text_key.equal_iff (hashed hash_func k) (hashed hash_func k) in
      (
        r.returns,
        record { valid = r.valid; loaded = remove-IsLoaded _ valid.valid valid.loaded },
        ground (arith, r.reads (hashed hash_func k), same),
        λ q ne. ground (
          arith,
          r.reads (hashed hash_func q),
          text_key.equal_iff (hashed hash_func q) (hashed hash_func k),
        ),
        ground (arith, r.size, r.returns),
      )

  -- Removing the text that `hash_table_nextkey` has just given lets the iteration go on: from a table
  -- where the entries `(hashed k, v) ∷ es` are still to come, with no key twice, `nextkey` gives that
  -- entry, and after the removal of `k` the entries of `es` are still to come.
  pub nextkey-remove_text :
      {t : HashTable V} (k : Bytes) {v : V} {es : List (TextKey × V)}
      → Going t ((hashed hash_func k, v) ∷ es)
      → Distinct ((hashed hash_func k, v) ∷ es)
      → (u : HashTable V) × (nextkey t ≡ item (hashed hash_func k, v) u)
        × Going (remove hash_func u k).1 es
  unfolding nextkey remove
  nextkey-remove_text k g d = let (u, e, _, g') = next-remove g d in (u, e, g')
