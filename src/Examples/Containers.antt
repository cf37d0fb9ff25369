-- ===== src/Examples/Containers.antt =====
-- Runs of itable.c, hash_table.c and set.c.
use mathlib.Core.Option.{get_or}
use cyque.Prelude.{
  ℕ, ◌+◌, ◌≡◌, ◌≢◌, refl, true, not, none, some, [], ◌∷◌, arith, ◌==◌, if◌then◌else◌, is_some,
  Bytes, codes, same_text,
}
use cyque.Tables.Chain.{find, Distinct}
use cyque.Tables.Core
use cyque.Tables.Core.{at, item, flatten, drop_buckets}
use cyque.Tables.HashTable
use cyque.Tables.HashTable.{HashTable, IsHashTable, TextKey, text_key, hashed}
use cyque.Tables.Iterate.{Yields, Same, pending}
use cyque.Tables.Itable
use cyque.Tables.Itable.{Itable, IsItable, uint64_key}
use cyque.Tables.Remove.{Going}
use cyque.Tables.Set
use cyque.Tables.Set.{Set, Pops, IsSetOfPointers}

-- Two entries in two buckets, the cursor at the first: an insertion doubles the buckets.
abbrev full : Itable ℕ
full = record {
  size = 2;
  bucket_count = 2;
  buckets = ((4, 40) ∷ []) ∷ ((7, 70) ∷ []) ∷ [];
  ibucket = 0;
  ientry = at (4, 40) [];
}

full-IsItable : IsItable full
full-IsItable = record {
  valid = record {
    wide = omega arith;
    width = refl;
    placed = unfold find in ((refl, tt), (refl, tt), ((refl, tt), (refl, tt), tt));
    counted = unfold flatten in refl;
  };
  loaded = omega arith;
}

lookup-insert_example :
    (t' : Itable ℕ) × (Itable.insert full 9 90 ≡ some (true, t'))
    × IsItable t'
    × ((q : ℕ) → Itable.lookup t' q ≡ (if q == 9 then some 90 else Itable.lookup full q))
    × (Itable.size t' ≡ Itable.size full + (if is_some (Itable.lookup full 9) then 0 else 1))
lookup-insert_example = Itable.lookup-insert 9 90 full-IsItable

lookup-remove_example :
    ((Itable.remove full 7).0 ≡ Itable.lookup full 7)
    × IsItable (Itable.remove full 7).1
    × ((q : ℕ)
        → Itable.lookup (Itable.remove full 7).1 q
          ≡ (if q == 7 then none else Itable.lookup full q))
    × (Itable.size (Itable.remove full 7).1 + (if is_some (Itable.lookup full 7) then 1 else 0)
        ≡ Itable.size full)
lookup-remove_example = Itable.lookup-remove 7 full-IsItable

firstkey-Yields_example :
    Yields (Itable.firstkey full) (flatten full.buckets)
    × Distinct (flatten full.buckets)
    × ((q : ℕ) → find q (flatten full.buckets) ≡ Itable.lookup full q)
    × Same full (Itable.firstkey full)
firstkey-Yields_example = Itable.firstkey-Yields full-IsItable

full-Going : Going full ((4, 40) ∷ (7, 70) ∷ [])
full-Going = unfold pending flatten drop_buckets in record { live = tt; ahead = refl }

nextkey-remove_example :
    (u : Itable ℕ) × (Itable.nextkey full ≡ item (4, 40) u)
    × Going (Itable.remove u 4).1 ((7, 70) ∷ [])
nextkey-remove_example = Itable.nextkey-remove full-Going (unfold find in (refl, (refl, tt)))

size-clear_example :
    ((q : ℕ) → Itable.lookup (Itable.clear full) q ≡ none)
    × (Itable.size (Itable.clear full) ≡ Itable.size full)
size-clear_example = Itable.size-clear full

-- Every text has the same hash.
abbrev same_hash : Bytes → ℕ
same_hash s = 3

abbrev named : HashTable ℕ
named = record {
  size = 2;
  bucket_count = 2;
  buckets =
      [] ∷ ((hashed same_hash (codes "w1"), 1) ∷ (hashed same_hash (codes "w2"), 2) ∷ []) ∷ [];
  ibucket = 1;
  ientry = at (hashed same_hash (codes "w1"), 1) ((hashed same_hash (codes "w2"), 2) ∷ []);
}

named-IsHashTable : IsHashTable named
named-IsHashTable = record {
  valid = record {
    wide = omega arith;
    width = refl;
    placed =
        unfold find HashTable.same_key same_text in
        (tt, tt, ((refl, (refl, tt)), (refl, (refl, tt)), tt));
    counted = unfold flatten in refl;
  };
  loaded = omega arith;
}

insert-IsHashTable_example :
    (t' : HashTable ℕ) × (HashTable.insert same_hash named (codes "w3") 3
      ≡ some (not (is_some (HashTable.lookup same_hash named (codes "w3"))), t'))
    × IsHashTable t'
    × (HashTable.lookup same_hash t' (codes "w3")
        ≡ some (get_or (HashTable.lookup same_hash named (codes "w3")) 3))
    × ((q : Bytes)
        → q ≢ codes "w3"
        → HashTable.lookup same_hash t' q ≡ HashTable.lookup same_hash named q)
    × (HashTable.size t'
        ≡ HashTable.size named
          + (if is_some (HashTable.lookup same_hash named (codes "w3")) then 0 else 1))
insert-IsHashTable_example = HashTable.insert-IsHashTable same_hash (codes "w3") 3 named-IsHashTable

remove-IsHashTable_example :
    let r = HashTable.remove same_hash named (codes "w1") in
    (r.0 ≡ HashTable.lookup same_hash named (codes "w1"))
    × IsHashTable r.1
    × (HashTable.lookup same_hash r.1 (codes "w1") ≡ none)
    × ((q : Bytes)
        → q ≢ codes "w1"
        → HashTable.lookup same_hash r.1 q ≡ HashTable.lookup same_hash named q)
    × (HashTable.size r.1
          + (if is_some (HashTable.lookup same_hash named (codes "w1")) then 1 else 0)
        ≡ HashTable.size named)
remove-IsHashTable_example = HashTable.remove-IsHashTable same_hash (codes "w1") named-IsHashTable

named-Going :
    Going named ((hashed same_hash (codes "w1"), 1) ∷ (hashed same_hash (codes "w2"), 2) ∷ [])
named-Going = unfold pending flatten drop_buckets in record { live = tt; ahead = refl }

-- three pointers
abbrev pointers : Set
pointers = record {
  size = 3;
  bucket_count = 3;
  buckets = ((9, tt) ∷ (6, tt) ∷ []) ∷ ((4, tt) ∷ []) ∷ [] ∷ [];
  ibucket = 0;
  ientry = at (6, tt) [];
}

pointers-IsSetOfPointers : IsSetOfPointers pointers
pointers-IsSetOfPointers = record {
  valid = record {
    wide = omega arith;
    width = refl;
    placed =
        unfold find in
        ((refl, (refl, tt)), (refl, (refl, tt)), ((refl, tt), (refl, tt), (tt, tt, tt)));
    counted = unfold flatten in refl;
  };
  loaded = omega arith;
  no_null = unfold Set.lookup Core.lookup Core.index find in refl;
}

pop-Pops_example :
    (element : ℕ) × (s' : Set) × (Set.pop pointers ≡ some (element, s')) × Pops pointers element s'
pop-Pops_example = Set.pop-Pops pointers-IsSetOfPointers (unfold Set.size in omega arith)
