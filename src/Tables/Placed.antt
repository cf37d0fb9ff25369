-- ===== src/Tables/Placed.antt =====
-- Where the entries of a table stand: every entry in the bucket of its hash, no key twice in a
-- chain. What this says of one bucket, and of all the entries in a row.
use mathlib.Core.Option.{or_else}
use cyque.Prelude.{
  ℕ, zero, suc, ◌+◌, ◌%◌, ◌<◌, ◌≡◌, ◌≢◌, refl, none, List, [], ◌∷◌, arith, length, get_or, set,
  replicate, length-append, All,
}
use cyque.Tables.Chain.{Chain, find, unlink, assign, Distinct, Distinct-append, find-append, Apart}
use cyque.Tables.Core.{flatten}
use cyque.Tables.Key.{Key}

module _ {K V : Type 0} ⦃key : Key K⦄ (n : ℕ) where
  -- every key of the chain belongs to bucket `i` of `n`
  abbrev pub Home : ℕ → Chain K V → Type 0
  Home i = All (λ e. key.hash e.0 % n ≡ i)

  -- the buckets from number `i` on
  abbrev pub Placed : ℕ → List (Chain K V) → Type 0
  Placed i [] = Unit
  Placed i (c ∷ cs) = Distinct c × Home i c × Placed (suc i) cs

  pub find-Home : (i : ℕ) (q : K) (c : Chain K V) → Home i c → key.hash q % n ≢ i → find q c ≡ none
  unfolding find
  find-Home i q [] h ne = refl
  find-Home i q ((k, v) ∷ c) h ne = ground (arith, find-Home i q c, key.equal_iff q k)

  pub Home-assign : (i : ℕ) (k : K) (v : V) (c : Chain K V) → Home i c → Home i (assign k v c)
  unfolding assign
  Home-assign i k v [] h = tt
  Home-assign i k v ((j, w) ∷ c) h = ground (arith, Home-assign i k v c)

  pub Home-unlink : (i : ℕ) (k : K) (c : Chain K V) → Home i c → Home i (unlink k c)
  unfolding unlink
  Home-unlink i k [] h = tt
  Home-unlink i k ((j, w) ∷ c) h = ground (arith, Home-unlink i k c)

  -- the bucket number `j` of those from `i` on
  pub Placed-get_or :
      (i j : ℕ) (bs : List (Chain K V))
      → Placed i bs
      → Distinct (get_or bs j []) × Home (i + j) (get_or bs j [])
  Placed-get_or i j [] h = (tt, tt)
  Placed-get_or i zero (c ∷ cs) h = let e : i + 0 ≡ i = omega arith in rw e (h.0, h.1)
  Placed-get_or i (suc j) (c ∷ cs) h =
      let e : i + suc j ≡ suc i + j = omega arith in rw e (Placed-get_or (suc i) j cs h.2)

  pub Placed-set :
      (i j : ℕ) (bs : List (Chain K V)) (c : Chain K V)
      → Placed i bs
      → Distinct c
      → Home (i + j) c
      → Placed i (set bs j c)
  Placed-set i j [] c h d o = tt
  Placed-set i zero (b ∷ bs) c h d o = let e : i + 0 ≡ i = omega arith in (d, rw e at o, h.2)
  Placed-set i (suc j) (b ∷ bs) c h d o =
      let e : i + suc j ≡ suc i + j = omega arith in
      (h.0, h.1, Placed-set (suc i) j bs c h.2 d (rw e at o))

  find-flatten_before :
      (i : ℕ) (q : K) (bs : List (Chain K V))
      → Placed i bs
      → key.hash q % n < i
      → find q (flatten bs) ≡ none
  unfolding flatten find or_else
  find-flatten_before i q [] h lt = refl
  find-flatten_before i q (c ∷ cs) h lt = rw (
    find-append,
    find-Home i q c h.1 (omega arith),
    find-flatten_before (suc i) q cs h.2 (omega arith),
  )

  -- A walk over all the entries finds what a walk over the key's own bucket finds.
  pub find-flatten :
      (i j : ℕ) (q : K) (bs : List (Chain K V))
      → Placed i bs
      → i + j ≡ key.hash q % n
      → find q (flatten bs) ≡ find q (get_or bs j [])
  unfolding flatten find or_else
  find-flatten i j q [] h e = refl
  find-flatten i zero q (c ∷ cs) h e =
      rw (find-append, find-flatten_before (suc i) q cs h.2 (omega arith)) (ground arith)
  find-flatten i (suc j) q (c ∷ cs) h e = rw (
    find-append,
    find-Home i q c h.1 (omega arith),
    find-flatten (suc i) j q cs h.2 (omega arith),
  )

  Apart-flatten :
      (i : ℕ) (c : Chain K V) (cs : List (Chain K V))
      → Home i c
      → Placed (suc i) cs
      → Apart c (flatten cs)
  Apart-flatten i [] cs h p = tt
  Apart-flatten i ((k, v) ∷ c) cs h p =
      (find-flatten_before (suc i) k cs p (omega arith), Apart-flatten i c cs h.1 p)

  pub Distinct-flatten : (i : ℕ) (bs : List (Chain K V)) → Placed i bs → Distinct (flatten bs)
  unfolding flatten
  Distinct-flatten i [] h = tt
  Distinct-flatten i (c ∷ cs) h =
      Distinct-append c (flatten cs) h.0 (Distinct-flatten (suc i) cs h.2)
        (Apart-flatten i c cs h.1 h.2)

pub Placed-replicate :
    (K V : Type 0) ⦃key : Key K⦄ (n m i : ℕ) → Placed n i (replicate {A = Chain K V} m [])
Placed-replicate K V n zero i = tt
Placed-replicate K V n (suc m) i = (tt, tt, Placed-replicate K V n m (suc i))

pub flatten-replicate : {E : Type 0} (m : ℕ) → flatten {E = E} (replicate m []) ≡ []
unfolding flatten
flatten-replicate zero = refl
flatten-replicate (suc m) = flatten-replicate m

-- A write to one bucket changes the number of entries by the change of that chain.
pub length-flatten-set :
    {E : Type 0} (bs : List (List E)) (i : ℕ) (c : List E)
    → i < length bs
    → length (flatten (set bs i c)) + length (get_or bs i []) ≡ length (flatten bs) + length c
unfolding flatten
length-flatten-set [] i c h = absurd (omega arith)
length-flatten-set (b ∷ bs) zero c h = omega (arith, length-append {0})
length-flatten-set (b ∷ bs) (suc i) c h =
    omega (arith, length-append {0}, length-flatten-set bs i c)
