-- ===== src/Tables/Core.antt =====
-- The struct of a table and its operations, over the entry's key and value. An entry of set.c has
-- no value; the key of hash_table.c is the text with its hash.
-- Every malloc, calloc and strdup is taken to succeed. `int` counters are numbers: a table has
-- fewer than 2^22 buckets, where the float test of the load is exact and nothing overflows.
use cyque.Prelude.{
  ℕ, zero, suc, ◌+◌, ◌-◌, ◌*◌, ◌%◌, Bool, true, false, ◌&&◌, Option, none, some, List, [], ◌∷◌,
  ◌++◌, ltb, if◌then◌else◌, length, get_or, set, replicate,
}
use cyque.Tables.Chain.{Chain, find, assign, unlink}
use cyque.Tables.Key.{Key, ◌=?◌}

-- `ientry`: NULL, a live entry with what its `next` leads to, or a pointer to no entry.
pub data Cursor (E : Type 0) : Type 0 where
  null : Cursor E
  at : E → List E → Cursor E
  dangling : Cursor E

pub record Table (K V : Type 0) : Type 0 where
  pub size : ℕ
  pub bucket_count : ℕ
  pub buckets : List (Chain K V)
  pub ibucket : ℕ
  pub ientry : Cursor (K × V)

-- All the entries, bucket by bucket.
unfoldable pub flatten : {E : Type 0} → List (List E) → List E
flatten [] = []
flatten (c ∷ cs) = c ++ flatten cs

-- The iteration fields are uninitialised memory.
unfoldable pub create : {K V : Type 0} → ℕ → Table K V
create bucket_count = record {
  size = 0;
  bucket_count = bucket_count;
  buckets = replicate bucket_count [];
  ibucket = 0;
  ientry = dangling;
}

-- a pointer to an entry when every entry is freed
unfoldable pub freed : {E : Type 0} → Cursor E → Cursor E
freed null = null
freed (at e rest) = dangling
freed dangling = dangling

-- `size` keeps its value
unfoldable pub clear : {K V : Type 0} → Table K V → Table K V
unfolding freed
clear t = record t { buckets = replicate t.bucket_count []; ientry = freed t.ientry }

-- the first entry of the buckets from `i` on, with its bucket; `i` is the last value of `ibucket`
unfoldable pub scan : {E : Type 0} → ℕ → List (List E) → ℕ × Cursor E
scan i [] = (i, null)
scan i ([] ∷ cs) = scan (suc i) cs
scan i ((e ∷ rest) ∷ cs) = (i, at e rest)

unfoldable pub drop_buckets : {E : Type 0} → ℕ → List (List E) → List (List E)
drop_buckets zero cs = cs
drop_buckets (suc n) [] = []
drop_buckets (suc n) (c ∷ cs) = drop_buckets n cs

unfoldable pub first : {K V : Type 0} → Table K V → Table K V
unfolding scan
first t = let r = scan 0 t.buckets in record t { ibucket = r.0; ientry = r.1 }

-- The cursor behind an entry whose `next` leads to `rest`.
unfoldable pub advance : {K V : Type 0} → List (K × V) → Table K V → Table K V
unfolding scan drop_buckets
advance [] t =
    let r = scan (suc t.ibucket) (drop_buckets (suc t.ibucket) t.buckets) in
    record t { ibucket = r.0; ientry = r.1 }
advance (e ∷ rest) t = record t { ientry = at e rest }

-- Where the three files differ: `overwrite`, a present key takes the new value (itable.c);
-- `strict`, inserting a present key fails (hash_table.c); `ends`, the entries that end the loop of
-- a doubling, which set.c tells from the end of the table by the element alone.
pub record Policy (K : Type 0) : Type 0 where
  pub overwrite : Bool
  pub strict : Bool
  pub ends : K → Bool

-- How the loop of a doubling ends: all entries are moved, an insertion failed (the old table is
-- kept), or a pointer was bad.
pub data Moved (K V : Type 0) : Type 0 where
  moved : Table K V → Table K V → Moved K V
  refused : Table K V → Moved K V
  broken : Moved K V

-- What a step of an iteration gives: the end, an entry, or a read through a bad pointer.
pub data Next (K V : Type 0) : Type 0 where
  stop : Next K V
  item : K × V → Table K V → Next K V
  fault : Next K V

unfoldable pub next_from : {K V : Type 0} → Cursor (K × V) → Table K V → Next K V
unfolding advance
next_from null t = stop
next_from dangling t = fault
next_from (at e rest) t = item e (advance rest t)

unfoldable pub next : {K V : Type 0} → Table K V → Next K V
unfolding next_from
next t = next_from t.ientry t

module _ {K V : Type 0} ⦃key : Key K⦄ where
  -- `key % bucket_count`
  unfoldable pub index : Table K V → K → ℕ
  index t k = key.hash k % t.bucket_count

  abbrev pub chain_of : Table K V → K → Chain K V
  chain_of t k = get_or t.buckets (index t k) []

  unfoldable pub lookup : Table K V → K → Option V
  unfolding index
  lookup t k = find k (chain_of t k)

  -- the cursor when the first entry under `k` is freed, or its value written
  unfoldable pub cursor_unlink : K → Cursor (K × V) → Cursor (K × V)
  cursor_unlink k null = null
  cursor_unlink k dangling = dangling
  cursor_unlink k (at e rest) = if k =? e.0 then dangling else at e (unlink k rest)

  unfoldable pub cursor_assign : K → V → Cursor (K × V) → Cursor (K × V)
  cursor_assign k v null = null
  cursor_assign k v dangling = dangling
  cursor_assign k v (at e rest) = if k =? e.0 then at (e.0, v) rest else at e (assign k v rest)

  unfoldable pub remove : Table K V → K → Option V × Table K V
  unfolding cursor_unlink index
  remove t k = elim (find k (chain_of t k)) [
    | none ↦ (none, t)
    | some old ↦ (
      some old,
      record t {
        size = t.size - 1;
        buckets = set t.buckets (index t k) (unlink k (chain_of t k));
        ientry = cursor_unlink k t.ientry;
      },
    )
  ]

  -- `insert` behind the test of the load. The result tells whether the key was there.
  unfoldable pub put : Policy K → Table K V → K → V → Bool × Table K V
  unfolding cursor_assign index
  put p t k v = elim (find k (chain_of t k)) [
    | some old ↦ (
      true,
      if p.overwrite
          then record t {
            buckets = set t.buckets (index t k) (assign k v (chain_of t k));
            ientry = cursor_assign k v t.ientry;
          }
          else t,
    )
    | none ↦ (
      false,
      record t { size = t.size + 1; buckets = set t.buckets (index t k) ((k, v) ∷ chain_of t k) },
    )
  ]

  -- `(float) size / bucket_count > 0.75`
  unfoldable pub overloaded : Table K V → Bool
  overloaded t = ltb (3 * t.bucket_count) (4 * t.size)

  -- `while(next(h)) if(!insert(hn)) …`; the fuel counts the rounds
  unfoldable pub move :
      Policy K
      → (Table K V → K → V → Option (Bool × Table K V))
      → ℕ
      → Table K V
      → Table K V
      → Moved K V
  unfolding next
  move p insert zero t tn = broken
  move p insert (suc fuel) t tn = elim (next t) [
    | stop ↦ moved t tn
    | fault ↦ broken
    | item e t' ↦ if p.ends e.0 then moved t' tn else elim (insert tn e.0 e.1) [
      | none ↦ broken
      | some r ↦ if p.strict && r.0 then refused t' else move p insert fuel t' r.1
    ]
  ]

  -- The old entries are freed and the struct takes over the new buckets.
  unfoldable pub take_over : Moved K V → Option (Table K V)
  unfolding freed
  take_over (moved old new) = some (record {
    size = new.size;
    bucket_count = new.bucket_count;
    buckets = new.buckets;
    ibucket = old.ibucket;
    ientry = freed old.ientry;
  })
  take_over (refused old) = some old
  take_over broken = none

  unfoldable pub double_buckets :
      Policy K → (Table K V → K → V → Option (Bool × Table K V)) → Table K V → Option (Table K V)
  unfolding first move create flatten take_over
  double_buckets p insert t =
      take_over
        (move p insert (suc (length (flatten t.buckets))) (first t) (create (2 * t.bucket_count)))

  -- The first argument bounds how deep doublings nest; `none` is a fault or the end of fuel.
  unfoldable pub insert : ℕ → Policy K → Table K V → K → V → Option (Bool × Table K V)
  unfolding double_buckets overloaded put
  insert zero p t k v = none
  insert (suc depth) p t k v =
      if overloaded t
      then elim (double_buckets p (insert depth p) t) [
        | none ↦ none
        | some t' ↦ some (put p t' k v)
      ]
      else some (put p t k v)
