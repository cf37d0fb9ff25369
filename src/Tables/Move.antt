-- ===== src/Tables/Move.antt =====
-- Doubling: the loop that moves every entry to the new buckets, and the whole insertion.
use mathlib.Core.Option.{or_else}
use cyque.Prelude.{
  ℕ, zero, suc, ◌+◌, ◌*◌, ◌≤◌, ◌<◌, ◌≡◌, refl, ◌∙◌, ap, Bool, true, false, Option, none, some, List,
  [], ◌∷◌, arith, if◌then◌else◌, Bool-cases, length, is_some, All, All_of, inl, inr,
}
use cyque.Tables.Chain.{find, Distinct}
use cyque.Tables.Core.{
  Table, Policy, moved, flatten, first, create, freed, index, lookup, put, overloaded, move,
  take_over, double_buckets, insert,
}
use cyque.Tables.Insert.{IsValid, put-Puts, stored, create-IsValid, lookup-create}
use cyque.Tables.Iterate.{Same, Same-refl, Same-trans, Yields, first-Yields}
use cyque.Tables.Key.{Key, ◌=?◌}
use cyque.Tables.Placed.{find-flatten, Distinct-flatten}

module _ {K V : Type 0} ⦃key : Key K⦄ where
  -- `size` is at most three quarters of `bucket_count`, and one
  abbrev pub IsLoaded : Table K V → Type 0
  IsLoaded t = 4 * t.size ≤ 3 * t.bucket_count + 4

  -- no entry ends the loop of a doubling
  abbrev pub Endless : Policy K → Table K V → Type 0
  Endless p t = (q : K) → p.ends q ≡ true → lookup t q ≡ none

  -- The end of the loop: `u` is the old table, `w` the new one, `es` what was moved to `tn`.
  pub record MovedTo (t tn : Table K V) (es : List (K × V)) (u w : Table K V) : Type 0 where
    pub same : Same t u
    pub valid : IsValid w
    pub size : w.size ≡ tn.size + length es
    pub width : w.bucket_count ≡ tn.bucket_count
    pub reads : (q : K) → lookup w q ≡ or_else (find q es) (lookup tn q)

  still_absent :
      (k : K) (es : List (K × V)) (tn w : Table K V) (x : Option V)
      → ((q : K) → lookup w q ≡ (if q =? k then x else lookup tn q))
      → find k es ≡ none
      → All (λ e. lookup tn e.0 ≡ none) es
      → All (λ e. lookup w e.0 ≡ none) es
  unfolding find
  still_absent k [] tn w x reads out f = tt
  still_absent k ((j, v) ∷ es) tn w x reads out f = (
    ground (arith, reads j, key.equal_iff j k, key.equal_iff k j),
    still_absent k es tn w x reads (ground arith) f.1,
  )

  module _ (p : Policy K) (ins : Table K V → K → V → Option (Bool × Table K V))
      (plain : (t : Table K V) (k : K) (v : V)
        → overloaded t ≡ false
        → ins t k v ≡ some (put p t k v)) where
    move-MovedTo :
        (es : List (K × V)) (fuel : ℕ) (t tn : Table K V)
        → length es < fuel
        → Yields t es
        → Distinct es
        → All (λ e. p.ends e.0 ≡ false) es
        → All (λ e. lookup tn e.0 ≡ none) es
        → IsValid tn
        → 4 * (tn.size + length es) ≤ 3 * tn.bucket_count + 4
        → (u : Table K V) × (w : Table K V) × (move p ins fuel t tn ≡ moved u w)
          × MovedTo t tn es u w
    unfolding move find or_else
    move-MovedTo es zero t tn lt y d a f valid room = absurd (omega arith)
    move-MovedTo [] (suc fuel) t tn lt y d a f valid room = (
      t,
      tn,
      rw (y, move),
      record {
        same = Same-refl t;
        valid = valid;
        size = omega arith;
        width = refl;
        reads = λ q. refl;
      },
    )
    move-MovedTo ((k, v) ∷ es) (suc fuel) t tn lt (t', e, s, y) d a f valid room =
        let light : overloaded tn ≡ false = unfold overloaded in ground arith in
        let puts = put-Puts p valid k v in
        let fresh : (put p tn k v).0 ≡ false = puts.found ∙ ap is_some f.0 in
        let absent = still_absent k es tn (put p tn k v).1 _ puts.reads d.0 f.1 in
        let (u, w, run, m) =
          move-MovedTo es fuel t' (put p tn k v).1 (omega arith) y d.1 a.1 absent puts.valid
            (ground (arith, puts.size, puts.width)) in
        let here : move p ins (suc fuel) t tn ≡ move p ins fuel t' (put p tn k v).1 =
          rw (e, move, plain tn k v light, fresh) (ground arith) in
        (
          u,
          w,
          here ∙ run,
          record {
            same = Same-trans s m.same;
            valid = m.valid;
            size = ground (arith, m.size, puts.size);
            width = m.width ∙ puts.width;
            reads = λ q. ground (arith, m.reads q, puts.reads q, key.equal_iff q k);
          },
        )

  ends_flatten :
      (p : Policy K) (es : List (K × V))
      → ((q : K) → p.ends q ≡ true → find q es ≡ none)
      → All (λ e. p.ends e.0 ≡ false) es
  unfolding find
  ends_flatten p [] h = tt
  ends_flatten p ((k, v) ∷ es) h =
      let here : p.ends k ≡ false = ground (arith, h k, key.equal_iff k k) in
      (here, ends_flatten p es (λ q a. ground (arith, h q a)))

  pub lookup-flatten :
      {t : Table K V} → IsValid t → (q : K) → find q (flatten t.buckets) ≡ lookup t q
  unfolding lookup index
  lookup-flatten {t} valid q =
      find-flatten t.bucket_count 0 (index t q) q t.buckets valid.placed (omega arith)

  moved-reads :
      {t u w : Table K V} (n : ℕ)
      → IsValid t
      → MovedTo (first t) (create n) (flatten t.buckets) u w
      → (q : K) → lookup w q ≡ lookup t q
  unfolding or_else
  moved-reads n valid m q =
      ground (arith, m.reads q, lookup-create {V = V} n q, lookup-flatten valid q)

  -- A table with twice the buckets and the same entries.
  pub record Doubles (t w : Table K V) : Type 0 where
    pub valid : IsValid w
    pub size : w.size ≡ t.size
    pub width : w.bucket_count ≡ 2 * t.bucket_count
    pub reads : (q : K) → lookup w q ≡ lookup t q

  module _ (p : Policy K) (ins : Table K V → K → V → Option (Bool × Table K V))
      (plain : (t : Table K V) (k : K) (v : V)
        → overloaded t ≡ false
        → ins t k v ≡ some (put p t k v)) where
    pub double_buckets-Doubles :
        {t : Table K V}
        → IsValid t
        → IsLoaded t
        → Endless p t
        → (w : Table K V) × (double_buckets p ins t ≡ some w) × Doubles t w
    unfolding double_buckets create lookup index
    double_buckets-Doubles {t} valid load endless =
        let es = flatten t.buckets in
        let start = first-Yields t in
        let empty : Table K V = create (2 * t.bucket_count) in
        let ended = ends_flatten p es (λ q a. lookup-flatten valid q ∙ endless q a) in
        let (u, w, run, m) =
          move-MovedTo p ins plain es (suc (length es)) (first t) empty (omega arith) start.0
            (Distinct-flatten t.bucket_count 0 t.buckets valid.placed) ended
            (All_of _ (λ e. lookup-create (2 * t.bucket_count) e.0) es)
            (create-IsValid (2 * t.bucket_count) (ground (arith, valid.wide)))
            (ground (arith, valid.counted)) in
        (
          record {
            size = w.size;
            bucket_count = w.bucket_count;
            buckets = w.buckets;
            ibucket = u.ibucket;
            ientry = freed u.ientry;
          },
          rw (run, double_buckets, take_over) refl,
          record {
            valid = record {
              wide = m.valid.wide;
              width = m.valid.width;
              placed = m.valid.placed;
              counted = m.valid.counted;
            };
            size = ground (arith, m.size, valid.counted);
            width = m.width;
            reads = moved-reads (2 * t.bucket_count) valid m;
          },
        )

  -- What an insertion does, for a result `r`.
  pub record Inserts (p : Policy K) (t : Table K V) (k : K) (v : V) (r : Bool × Table K V)
      : Type 0 where
    pub found : r.0 ≡ is_some (lookup t k)
    pub valid : IsValid r.1
    pub loaded : IsLoaded r.1
    pub size : r.1.size ≡ t.size + (if r.0 then 0 else 1)
    pub reads : (q : K) → lookup r.1 q ≡ (if q =? k then stored p (lookup t k) v else lookup t q)

  module _ (depth : ℕ) (p : Policy K) (t : Table K V) (k : K) (v : V) where
    insert_light : overloaded t ≡ false → insert (suc depth) p t k v ≡ some (put p t k v)
    unfolding insert
    insert_light light = rw light

    insert_heavy :
        (w : Table K V)
        → overloaded t ≡ true
        → double_buckets p (insert depth p) t ≡ some w
        → insert (suc depth) p t k v ≡ some (put p w k v)
    unfolding insert
    insert_heavy w heavy run = rw (heavy, run)

  light_room : (t : Table K V) → overloaded t ≡ false → 4 * t.size ≤ 3 * t.bucket_count
  unfolding overloaded
  light_room t h = ground arith

  -- An insertion ends with depth two, and keeps the invariant and the load.
  pub insert-Inserts :
      (depth : ℕ) (p : Policy K) {t : Table K V} (k : K) (v : V)
      → IsValid t
      → IsLoaded t
      → Endless p t
      → (r : Bool × Table K V) × (insert (suc (suc depth)) p t k v ≡ some r) × Inserts p t k v r
  insert-Inserts depth p {t} k v valid load endless = elim (Bool-cases (overloaded t)) [
    | inl heavy ↦
        let (w, run, d) =
          double_buckets-Doubles p (insert (suc depth) p) (λ tn j x. insert_light depth p tn j x)
            valid load endless in
        let puts = put-Puts p d.valid k v in
        (
          put p w k v,
          insert_heavy (suc depth) p t k v w heavy run,
          record {
            found = puts.found ∙ ap is_some (d.reads k);
            valid = puts.valid;
            loaded = ground (arith, puts.size, puts.width, d.size, d.width, valid.wide);
            size = ground (arith, puts.size, d.size);
            reads = λ q. ground (arith, puts.reads q, d.reads q, d.reads k);
          },
        )
    | inr light ↦
        let puts = put-Puts p valid k v in
        (
          put p t k v,
          insert_light (suc depth) p t k v light,
          record {
            found = puts.found;
            valid = puts.valid;
            loaded = ground (arith, puts.size, puts.width, light_room t light);
            size = puts.size;
            reads = puts.reads;
          },
        )
  ]
