-- ===== src/Tables/Iterate.antt =====
-- The iteration of `first` and `next`: which entries it gives, and in which order.
use cyque.Prelude.{ℕ, zero, suc, ◌≡◌, refl, ap, ◌∙◌, List, [], ◌∷◌, ◌++◌, arith}
use cyque.Tables.Chain.{Chain}
use cyque.Tables.Core.{
  Table, Cursor, null, at, dangling, item, stop, flatten, scan, drop_buckets, first, advance, next,
  next_from,
}

-- A pointer that may be read.
abbrev pub Live : {E : Type 0} → Cursor E → Type 0
Live null = Unit
Live (at e rest) = Unit
Live dangling = ⊥

-- The entries that are still to come.
unfoldable pub pending : {E : Type 0} → Cursor E → ℕ → List (List E) → List E
pending null i bs = []
pending dangling i bs = []
pending (at e rest) i bs = e ∷ (rest ++ flatten (drop_buckets (suc i) bs))

drop_buckets-suc :
    {E : Type 0} (i : ℕ) (bs : List (List E)) {c : List E} {cs : List (List E)}
    → drop_buckets i bs ≡ c ∷ cs
    → drop_buckets (suc i) bs ≡ cs
unfolding drop_buckets
drop_buckets-suc zero [] h = ground arith
drop_buckets-suc zero (b ∷ bs) h = ground arith
drop_buckets-suc (suc i) [] h = ground arith
drop_buckets-suc (suc i) (b ∷ bs) h = drop_buckets-suc i bs h

scan-pending :
    {E : Type 0} (i : ℕ) (cs bs : List (List E))
    → drop_buckets i bs ≡ cs
    → Live (scan i cs).1 × (pending (scan i cs).1 (scan i cs).0 bs ≡ flatten cs)
unfolding scan pending flatten
scan-pending i [] bs h = (tt, refl)
scan-pending i ([] ∷ cs) bs h = scan-pending (suc i) cs bs (drop_buckets-suc i bs h)
scan-pending i ((e ∷ rest) ∷ cs) bs h = (tt, rw (drop_buckets-suc i bs h))

module _ {K V : Type 0} where
  -- All but the iteration fields is the same.
  pub record Same (t u : Table K V) : Type 0 where
    pub size : u.size ≡ t.size
    pub width : u.bucket_count ≡ t.bucket_count
    pub buckets : u.buckets ≡ t.buckets

  pub Same-refl : (t : Table K V) → Same t t
  Same-refl t = record { size = refl; width = refl; buckets = refl }

  pub Same-trans : {t u w : Table K V} → Same t u → Same u w → Same t w
  Same-trans a b = record {
    size = b.size ∙ a.size;
    width = b.width ∙ a.width;
    buckets = b.buckets ∙ a.buckets;
  }

  -- Calls of `next` give the entries of the list, one by one, and then the end.
  abbrev pub Yields : Table K V → List (K × V) → Type 0
  Yields t [] = next t ≡ stop
  Yields t (e ∷ es) = (u : Table K V) × (next t ≡ item e u) × Same t u × Yields u es

  pub advance-pending :
      (rest : Chain K V) (t : Table K V)
      → Live (advance rest t).ientry
        × (pending (advance rest t).ientry (advance rest t).ibucket t.buckets
            ≡ rest ++ flatten (drop_buckets (suc t.ibucket) t.buckets))
        × Same t (advance rest t)
  unfolding advance pending
  advance-pending [] t =
      let (l, e) = scan-pending (suc t.ibucket) _ t.buckets refl in
      (l, e, record { size = refl; width = refl; buckets = refl })
  advance-pending (e ∷ rest) t = (tt, refl, record { size = refl; width = refl; buckets = refl })

  Yields-of :
      (es : List (K × V)) (c : Cursor (K × V)) (t : Table K V)
      → t.ientry ≡ c
      → Live c
      → pending c t.ibucket t.buckets ≡ es
      → Yields t es
  unfolding next next_from pending
  Yields-of [] null t e l h = rw e refl
  Yields-of (x ∷ es) null t e l h = ground arith
  Yields-of es dangling t e l h = absurd l
  Yields-of [] (at y rest) t e l h = ground arith
  Yields-of (x ∷ es) (at y rest) t e l h =
      let (l', p', s) = advance-pending rest t in
      let same_head : y ≡ x = cc in
      let same_tail : rest ++ flatten (drop_buckets (suc t.ibucket) t.buckets) ≡ es = cc in
      let u = advance rest t in
      let here : next t ≡ item x u = ap (λ c. next_from c t) e ∙ ap (λ z. item z u) same_head in
      let tails : pending u.ientry u.ibucket u.buckets ≡ es = rw s.buckets (p' ∙ same_tail) in
      (u, here, s, Yields-of es u.ientry u refl l' tails)

  -- After `first` the calls of `next` give every entry of the table once, in the order of the
  -- buckets.
  pub first-Yields : (t : Table K V) → Yields (first t) (flatten t.buckets) × Same t (first t)
  unfolding first drop_buckets
  first-Yields t =
      let (l, e) = scan-pending 0 t.buckets t.buckets refl in
      (
        Yields-of (flatten t.buckets) _ (first t) refl l e,
        record { size = refl; width = refl; buckets = refl },
      )
