-- ===== src/Tables/Remove.antt =====
-- Removal: the table that it leaves, and iterations that go on across it.
use mathlib.Core.Option.{or_else}
use cyque.Prelude.{
  ℕ, zero, suc, ◌+◌, ◌≡◌, refl, sym, ap, ◌∙◌, false, Option, none, some, List, [], ◌∷◌, ◌++◌, arith,
  if◌then◌else◌, Option-cases, get_or, set, length-set, is_some, inl, inr,
}
use cyque.Tables.Chain.{
  Chain, find, unlink, Distinct, find-unlink, Distinct-unlink, length-unlink, unlink-absent,
  find-append,
}
use cyque.Tables.Core.{
  Table, Cursor, null, at, dangling, item, flatten, drop_buckets, advance, next, next_from, index,
  chain_of, lookup, remove, cursor_unlink,
}
use cyque.Tables.Insert.{
  IsValid, index-lt, chain_Distinct, chain_Home, Placed-replace, find-replace,
}
use cyque.Tables.Iterate.{Live, pending, advance-pending, Same}
use cyque.Tables.Key.{Key, ◌=?◌}
use cyque.Tables.Move.{IsLoaded}
use cyque.Tables.Placed.{Home-unlink, length-flatten-set}

module _ {K V : Type 0} ⦃key : Key K⦄ where
  -- What a removal does, for a result `r`.
  pub record Removes (t : Table K V) (k : K) (r : Option V × Table K V) : Type 0 where
    pub returns : r.0 ≡ lookup t k
    pub valid : IsValid r.1
    pub size : r.1.size + (if is_some r.0 then 1 else 0) ≡ t.size
    pub width : r.1.bucket_count ≡ t.bucket_count
    pub reads : (q : K) → lookup r.1 q ≡ (if q =? k then none else lookup t q)

  module _ {t : Table K V} (valid : IsValid t) (k : K) where
    remove_absent : find k (chain_of t k) ≡ none → Removes t k (remove t k)
    unfolding remove lookup index
    remove_absent e =
        rw (e, remove)
          (record {
            returns = sym e;
            valid = valid;
            size = omega arith;
            width = refl;
            reads = λ q. ground (arith, key.equal_iff q k, e);
          })

    remove_present : (old : V) → find k (chain_of t k) ≡ some old → Removes t k (remove t k)
    unfolding remove lookup index
    remove_present old e =
        let c = unlink k (chain_of t k) in
        let d = Distinct-unlink k (chain_of t k) (chain_Distinct valid k) in
        let h = Home-unlink t.bucket_count (index t k) k (chain_of t k) (chain_Home valid k) in
        let reads = λ (q : K). find-unlink k q (chain_of t k) (chain_Distinct valid k) in
        let count = length-flatten-set t.buckets (index t k) c (index-lt valid k) in
        let shorter = length-unlink k old (chain_of t k) e in
        rw (e, remove)
          (record {
            returns = sym e;
            valid = record {
              wide = valid.wide;
              width = rw length-set valid.width;
              placed = Placed-replace valid k c d h;
              counted = omega (arith, count, shorter, valid.counted);
            };
            size = omega (arith, count, shorter, valid.counted);
            width = refl;
            reads = λ q. find-replace valid k c d h none reads q;
          })

    pub remove-Removes : Removes t k (remove t k)
    remove-Removes = elim (Option-cases (find k (chain_of t k))) [
      | inl e ↦ remove_absent e
      | inr (old, e) ↦ remove_present old e
    ]

  pub remove-IsLoaded : {t : Table K V} (k : K) → IsValid t → IsLoaded t → IsLoaded (remove t k).1
  remove-IsLoaded k valid load = let r = remove-Removes valid k in ground (arith, r.size, r.width)

  -- An iteration is at a live pointer, and the entries of `es` are still to come.
  pub record Going (t : Table K V) (es : List (K × V)) : Type 0 where
    pub live : Live t.ientry
    pub ahead : pending t.ientry t.ibucket t.buckets ≡ es

  flatten-unlink :
      (k : K) (i : ℕ) (bs : List (Chain K V))
      → find k (flatten bs) ≡ none
      → flatten (set bs i (unlink k (get_or bs i []))) ≡ flatten bs
  unfolding flatten or_else
  flatten-unlink k i [] h = refl
  flatten-unlink k zero (c ∷ cs) h =
      let e : find k c ≡ none = ground (arith, find-append k c (flatten cs)) in
      rw (unlink-absent k c e)
  flatten-unlink k (suc i) (c ∷ cs) h =
      let e : find k (flatten cs) ≡ none = ground (arith, find-append k c (flatten cs)) in
      rw (flatten-unlink k i cs e)

  -- the buckets from number `j` on hold no entry under `k`, and lose none
  drop_buckets-unlink :
      (k : K) (i j : ℕ) (bs : List (Chain K V))
      → find k (flatten (drop_buckets j bs)) ≡ none
      → flatten (drop_buckets j (set bs i (unlink k (get_or bs i []))))
        ≡ flatten (drop_buckets j bs)
  unfolding drop_buckets
  drop_buckets-unlink k i zero bs h = flatten-unlink k i bs h
  drop_buckets-unlink k i (suc j) [] h = refl
  drop_buckets-unlink k zero (suc j) (c ∷ cs) h = refl
  drop_buckets-unlink k (suc i) (suc j) (c ∷ cs) h = drop_buckets-unlink k i j cs h

  cursor_unlink-pending :
      (k : K) (i j : ℕ) (c : Cursor (K × V)) (bs : List (Chain K V)) (es : List (K × V))
      → Live c
      → pending c j bs ≡ es
      → find k es ≡ none
      → Live (cursor_unlink k c)
        × (pending (cursor_unlink k c) j (set bs i (unlink k (get_or bs i []))) ≡ es)
  unfolding cursor_unlink pending find or_else
  cursor_unlink-pending k i j null bs es l h out = (tt, h)
  cursor_unlink-pending k i j dangling bs es l h out = absurd l
  cursor_unlink-pending k i j (at e rest) bs es l h out =
      let all = flatten (drop_buckets (suc j) bs) in
      let out' : find k (e ∷ (rest ++ all)) ≡ none = ap (find k) h ∙ out in
      let here : (k =? e.0) ≡ false = ground arith in
      let there : find k rest ≡ none = ground (arith, find-append k rest all) in
      let beyond : find k all ≡ none = ground (arith, find-append k rest all) in
      rw (here, unlink-absent k rest there, drop_buckets-unlink k i (suc j) bs beyond) (tt, h)

  -- A removal of a key that is not still to come does not disturb an iteration.
  pub remove-Going :
      {t : Table K V} (k : K) {es : List (K × V)}
      → Going t es
      → find k es ≡ none
      → Going (remove t k).1 es
  unfolding remove index
  remove-Going {t} k {es} g out = elim (Option-cases (find k (chain_of t k))) [
    | inl e ↦ rw (e, remove) g
    | inr (old, e) ↦
        let (l, a) =
          cursor_unlink-pending k (index t k) t.ibucket t.ientry t.buckets es g.live g.ahead out in
        rw (e, remove) (record { live = l; ahead = a })
  ]

  next_item :
      (c : Cursor (K × V)) (e : K × V) (t : Table K V) {es : List (K × V)}
      → t.ientry ≡ c
      → Live c
      → pending c t.ibucket t.buckets ≡ e ∷ es
      → (u : Table K V) × (next t ≡ item e u) × Going u es × Same t u
  unfolding next next_from pending
  next_item null e t same l h = ground arith
  next_item dangling e t same l h = absurd l
  next_item (at y rest) e t {es} same l h =
      let same_head : y ≡ e = cc in
      let same_tail : rest ++ flatten (drop_buckets (suc t.ibucket) t.buckets) ≡ es = cc in
      let u = advance rest t in
      let (l', p', s) = advance-pending rest t in
      let ahead : pending u.ientry u.ibucket u.buckets ≡ es = rw s.buckets (p' ∙ same_tail) in
      (
        u,
        ap (λ c. next_from c t) same ∙ ap (λ z. item z u) same_head,
        record { live = l'; ahead = ahead },
        s,
      )

  -- The entry that `next` has just given may be removed: the iteration then goes on with the
  -- entries that were still to come.
  pub next-remove :
      {t : Table K V} {k : K} {v : V} {es : List (K × V)}
      → Going t ((k, v) ∷ es)
      → Distinct ((k, v) ∷ es)
      → (u : Table K V) × (next t ≡ item (k, v) u) × Going u es × Going (remove u k).1 es
  next-remove {t} {k} {v} g d =
      let (u, e, g', s) = next_item t.ientry (k, v) t refl g.live g.ahead in
      (u, e, g', remove-Going k g' d.0)

  -- What reads no iteration field is the same.
  pub Same-IsValid : {t u : Table K V} → IsValid t → Same t u → IsValid u
  Same-IsValid valid s = record {
    wide = rw s.width valid.wide;
    width = rw (s.width, s.buckets) valid.width;
    placed = rw (s.width, s.buckets) valid.placed;
    counted = rw (s.size, s.buckets) valid.counted;
  }

  pub Same-lookup : {t u : Table K V} → Same t u → (q : K) → lookup u q ≡ lookup t q
  unfolding lookup index
  Same-lookup s q = rw (s.width, s.buckets)
