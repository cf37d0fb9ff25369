-- ===== src/Tables/Insert.antt =====
-- The invariant of a table, and what `put` and an insertion that needs no doubling do to it.
use cyque.Prelude.{
  ℕ, ◌+◌, ◌<◌, ◌≡◌, refl, Bool, true, false, Option, none, some, [], ◌∷◌, arith, if◌then◌else◌,
  Option-cases, Bool-cases, inl, inr, sym, ap, length-replicate, get_or-replicate, length, get_or,
  set, length-set, get_or-set, is_some,
}
use cyque.Tables.Chain.{Chain, find, assign, Distinct, find-assign, Distinct-assign, length-assign}
use cyque.Tables.Core.{Table, Policy, flatten, index, chain_of, lookup, put, create}
use cyque.Tables.Key.{Key, ◌=?◌}
use cyque.Tables.Placed.{
  Home, Placed, Placed-get_or, Placed-set, Home-assign, Placed-replicate, length-flatten-set,
  flatten-replicate,
}

module _ {K V : Type 0} ⦃key : Key K⦄ where
  pub record IsValid (t : Table K V) : Type 0 where
    pub wide : 0 < t.bucket_count
    pub width : length t.buckets ≡ t.bucket_count
    pub placed : Placed t.bucket_count 0 t.buckets
    pub counted : t.size ≡ length (flatten t.buckets)

  -- what a lookup finds behind an insertion
  abbrev pub stored : Policy K → Option V → V → Option V
  stored p none v = some v
  stored p (some old) v = if p.overwrite then some v else some old

  module _ {t : Table K V} (valid : IsValid t) (k : K) where
    pub index-lt : index t k < length t.buckets
    unfolding index
    index-lt = let w = valid.wide in let e = valid.width in omega arith

    pub chain_Distinct : Distinct (chain_of t k)
    chain_Distinct = (Placed-get_or t.bucket_count 0 (index t k) t.buckets valid.placed).0

    pub chain_Home : Home t.bucket_count (index t k) (chain_of t k)
    chain_Home =
        let h = (Placed-get_or t.bucket_count 0 (index t k) t.buckets valid.placed).1 in
        let e : 0 + index t k ≡ index t k = omega arith in rw e at h

    module _ (c : Chain K V) (d : Distinct c) (h : Home t.bucket_count (index t k) c) where
      -- the chain of `k` is replaced
      pub Placed-replace : Placed t.bucket_count 0 (set t.buckets (index t k) c)
      Placed-replace =
          let e : index t k ≡ 0 + index t k = omega arith in
          Placed-set t.bucket_count 0 (index t k) t.buckets c valid.placed d (rw e at h)

      pub find-replace :
          (w : Option V)
          → ((q : K) → find q c ≡ (if q =? k then w else find q (chain_of t k)))
          → (q : K)
          → find q (get_or (set t.buckets (index t k) c) (index t q) [])
            ≡ (if q =? k then w else lookup t q)
      unfolding lookup index
      find-replace w reads q = ground (
        arith,
        get_or-set t.buckets (index t k) (index t q) c [] index-lt,
        reads q,
        key.equal_iff q k,
      )

  -- What `put` does, for a result `r`.
  pub record Puts (p : Policy K) (t : Table K V) (k : K) (v : V) (r : Bool × Table K V)
      : Type 0 where
    pub found : r.0 ≡ is_some (lookup t k)
    pub valid : IsValid r.1
    pub size : r.1.size ≡ t.size + (if r.0 then 0 else 1)
    pub width : r.1.bucket_count ≡ t.bucket_count
    pub reads : (q : K) → lookup r.1 q ≡ (if q =? k then stored p (lookup t k) v else lookup t q)

  module _ (p : Policy K) {t : Table K V} (valid : IsValid t) (k : K) (v : V) where
    put_absent : find k (chain_of t k) ≡ none → Puts p t k v (put p t k v)
    unfolding put lookup index find
    put_absent e =
        let c : Chain K V = (k, v) ∷ chain_of t k in
        let d : Distinct c = (e, chain_Distinct valid k) in
        let h : Home t.bucket_count (index t k) c = (refl, chain_Home valid k) in
        rw (e, put)
          (record {
            found = ap is_some (sym e);
            valid = record {
              wide = valid.wide;
              width = rw length-set valid.width;
              placed = Placed-replace valid k c d h;
              counted = omega (
                arith,
                length-flatten-set t.buckets (index t k) c (index-lt valid k),
                valid.counted,
              );
            };
            size = refl;
            width = refl;
            reads = λ q. ground (arith, find-replace valid k c d h (some v) (λ j. refl) q, e);
          })

    -- the value is written
    put_over :
        (old : V)
        → find k (chain_of t k) ≡ some old
        → p.overwrite ≡ true
        → Puts p t k v (put p t k v)
    unfolding put lookup index
    put_over old e over =
        let c = assign k v (chain_of t k) in
        let d = Distinct-assign k v (chain_of t k) (chain_Distinct valid k) in
        let h = Home-assign t.bucket_count (index t k) k v (chain_of t k) (chain_Home valid k) in
        let reads = λ (q : K). find-assign k q v old (chain_of t k) e in
        rw (e, put, over)
          (record {
            found = ap is_some (sym e);
            valid = record {
              wide = valid.wide;
              width = rw length-set valid.width;
              placed = Placed-replace valid k c d h;
              counted = omega (
                arith,
                length-flatten-set t.buckets (index t k) c (index-lt valid k),
                length-assign k v (chain_of t k),
                valid.counted,
              );
            };
            size = omega arith;
            width = refl;
            reads = λ q. ground (arith, find-replace valid k c d h (some v) reads q, e);
          })

    -- the present value stays
    put_kept :
        (old : V)
        → find k (chain_of t k) ≡ some old
        → p.overwrite ≡ false
        → Puts p t k v (put p t k v)
    unfolding put lookup index
    put_kept old e over =
        rw (e, put, over)
          (record {
            found = ap is_some (sym e);
            valid = valid;
            size = omega arith;
            width = refl;
            reads = λ q. ground (arith, key.equal_iff q k, e);
          })

    pub put-Puts : Puts p t k v (put p t k v)
    put-Puts = elim (Option-cases (find k (chain_of t k))) [
      | inl e ↦ put_absent e
      | inr (old, e) ↦ elim (Bool-cases p.overwrite) [
        | inl over ↦ put_over old e over
        | inr over ↦ put_kept old e over
      ]
    ]

  pub create-IsValid : (n : ℕ) → 0 < n → IsValid (create {K = K} {V = V} n)
  unfolding create
  create-IsValid n h = record {
    wide = h;
    width = length-replicate n [];
    placed = Placed-replicate K V n n 0;
    counted = rw (flatten-replicate n);
  }

  pub lookup-create : (n : ℕ) (q : K) → lookup (create {V = V} n) q ≡ none
  unfolding create lookup find
  lookup-create n q = rw get_or-replicate
