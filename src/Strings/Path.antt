-- ===== src/Strings/Path.antt =====
-- path.c: `path_split`, `path_split_multi` and `path_remove_trailing_slashes`. The buffers that the
-- caller gives are large enough.
use cyque.Prelude.{
  ℕ, suc, ◌≡◌, refl, ◌∙◌, ap, ◌⊎◌, inl, inr, Bool, true, false, ◌||◌, [], ◌∷◌, ◌++◌, ◌==◌, ==_iff,
  if◌then◌else◌, Bool-cases, Bytes, replicate, All,
}

-- '/' and '@'
abbrev pub slash : ℕ
slash = 47

abbrev pub at_sign : ℕ
at_sign = 64

-- `while(*input == '/') input++`
unfoldable pub skip_slashes : Bytes → Bytes
skip_slashes [] = []
skip_slashes (c ∷ s) = if c == slash then skip_slashes s else c ∷ s

-- `while(*input && …) *first++ = *input++`: what is copied, and what is left
unfoldable pub copy_until : (ℕ → Bool) → Bytes → Bytes × Bytes
copy_until ends [] = ([], [])
copy_until ends (c ∷ s) =
    let r = copy_until ends s in if ends c then ([], c ∷ s) else (c ∷ r.0, r.1)

-- `if(…) *rest++ = '/'`, and the copy of what is left
unfoldable pub start_rest : (ℕ → Bool) → Bytes → Bytes
start_rest ends [] = slash ∷ []
start_rest ends (c ∷ s) = if ends c then c ∷ s else slash ∷ c ∷ s

abbrev pub is_slash : ℕ → Bool
is_slash c = c == slash

abbrev pub is_slash_or_at : ℕ → Bool
is_slash_or_at c = c == slash || c == at_sign

-- `first` and `rest`
unfoldable pub path_split : Bytes → Bytes × Bytes
unfolding skip_slashes copy_until start_rest
path_split input =
    let r = copy_until is_slash (skip_slashes input) in (r.0, start_rest is_slash r.1)

unfoldable pub path_split_multi : Bytes → Bytes × Bytes
unfolding skip_slashes copy_until start_rest
path_split_multi input =
    let r = copy_until is_slash_or_at (skip_slashes input) in (r.0, start_rest is_slash_or_at r.1)

-- a byte before what is kept; the loop runs from the end
unfoldable pub keep : ℕ → Bytes → Bytes
keep c [] = if c == slash then [] else c ∷ []
keep c (d ∷ t) = c ∷ d ∷ t

unfoldable pub strip : Bytes → Bytes
unfolding keep
strip [] = []
strip (c ∷ s) = keep c (strip s)

-- on the empty path `path + strlen(path) - 1` is before it, and the loop does not run
unfoldable pub path_remove_trailing_slashes : Bytes → Bytes
unfolding strip
path_remove_trailing_slashes [] = []
path_remove_trailing_slashes (c ∷ s) = c ∷ strip s

-- How `input` is cut: slashes, a first part without a byte that ends it, and what follows. The rest
-- is what follows, or a slash if nothing does.
pub record Splits (ends : ℕ → Bool) (input first rest : Bytes) : Type 0 where
  pub slashes : ℕ
  pub after : Bytes
  pub whole : input ≡ replicate slashes slash ++ (first ++ after)
  pub inside : All (λ c. ends c ≡ false) first
  pub behind :
      ((after ≡ []) × (rest ≡ slash ∷ []))
      ⊎ ((c : ℕ) × (s : Bytes) × (after ≡ c ∷ s) × (ends c ≡ true) × (rest ≡ after))

skip_slashes-replicate : (s : Bytes) → (n : ℕ) × (s ≡ replicate n slash ++ skip_slashes s)
unfolding skip_slashes
skip_slashes-replicate [] = (0, refl)
skip_slashes-replicate (c ∷ s) = elim (Bool-cases (c == slash)) [
  | inl e ↦
      let (n, h) = skip_slashes-replicate s in
      let same : c ≡ slash = (==_iff c slash).0 e in
      (suc n, rw e (ap (λ x. x ∷ s) same ∙ ap (λ x. slash ∷ x) h))
  | inr e ↦ (0, rw e refl)
]

module _ (ends : ℕ → Bool) where
  copy_until-append : (s : Bytes) → s ≡ (copy_until ends s).0 ++ (copy_until ends s).1
  unfolding copy_until
  copy_until-append [] = refl
  copy_until-append (c ∷ s) = elim (Bool-cases (ends c)) [
    | inl e ↦ rw e refl
    | inr e ↦ rw e (ap (λ x. c ∷ x) (copy_until-append s))
  ]

  copy_until-All : (s : Bytes) → All (λ c. ends c ≡ false) (copy_until ends s).0
  unfolding copy_until
  copy_until-All [] = tt
  copy_until-All (c ∷ s) = elim (Bool-cases (ends c)) [
    | inl e ↦ rw e tt
    | inr e ↦ rw e (e, copy_until-All s)
  ]

  copy_until_after :
      (s : Bytes)
      → ((copy_until ends s).1 ≡ [])
        ⊎ ((c : ℕ) × (t : Bytes) × ((copy_until ends s).1 ≡ c ∷ t) × (ends c ≡ true))
  unfolding copy_until
  copy_until_after [] = inl refl
  copy_until_after (c ∷ s) = elim (Bool-cases (ends c)) [
    | inl e ↦ inr (c, s, rw e refl, e)
    | inr e ↦ rw e (copy_until_after s)
  ]

  start_rest_behind :
      (after : Bytes)
      → ((after ≡ []) ⊎ ((c : ℕ) × (t : Bytes) × (after ≡ c ∷ t) × (ends c ≡ true)))
      → ((after ≡ []) × (start_rest ends after ≡ slash ∷ []))
        ⊎ ((c : ℕ) × (t : Bytes) × (after ≡ c ∷ t)
            × (ends c ≡ true)
            × (start_rest ends after ≡ after))
  unfolding start_rest
  start_rest_behind after (inl e) = inl (e, rw e refl)
  start_rest_behind after (inr (c, t, e, h)) = inr (c, t, e, h, rw (e, h) refl)

  split-Splits :
      (input : Bytes)
      → let r = copy_until ends (skip_slashes input) in Splits ends input r.0 (start_rest ends r.1)
  split-Splits input =
      let (n, e) = skip_slashes-replicate input in
      let s = skip_slashes input in
      record {
        slashes = n;
        after = (copy_until ends s).1;
        whole = e ∙ ap (λ x. replicate n slash ++ x) (copy_until-append s);
        inside = copy_until-All s;
        behind = start_rest_behind (copy_until ends s).1 (copy_until_after s);
      }

-- `path_split` cuts its input in leading slashes, a first part without a slash, and what follows,
-- which is empty or starts with a slash. It answers the first part, and for the rest what follows, or
-- "/" if that is empty.
pub path_split-Splits :
    (input : Bytes) → Splits is_slash input (path_split input).0 (path_split input).1
unfolding path_split
path_split-Splits input = split-Splits is_slash input

-- `path_split_multi` cuts its input in leading slashes, a first part with neither a slash nor an '@',
-- and what follows, which is empty or starts with one of these. It answers the first part, and for the
-- rest what follows, or "/" if that is empty.
pub path_split_multi-Splits :
    (input : Bytes)
    → Splits is_slash_or_at input (path_split_multi input).0 (path_split_multi input).1
unfolding path_split_multi
path_split_multi-Splits input = split-Splits is_slash_or_at input

-- The text does not end in a slash.
abbrev pub EndsWell : Bytes → Type 0
EndsWell [] = Unit
EndsWell (c ∷ []) = (c == slash) ≡ false
EndsWell (c ∷ d ∷ s) = EndsWell (d ∷ s)

keep-EndsWell :
    (c : ℕ) (r s : Bytes) (n : ℕ)
    → EndsWell r
    → s ≡ r ++ replicate n slash
    → EndsWell (keep c r) × (n : ℕ) × (c ∷ s ≡ keep c r ++ replicate n slash)
unfolding keep
keep-EndsWell c (d ∷ u) s n w e = (w, n, ap (λ x. c ∷ x) e)
keep-EndsWell c [] s n w e = elim (Bool-cases (c == slash)) [
  | inl b ↦
      let same : c ≡ slash = (==_iff c slash).0 b in
      rw b (tt, suc n, ap (λ x. c ∷ x) e ∙ ap (λ x. x ∷ replicate n slash) same)
  | inr b ↦ rw b (b, n, ap (λ x. c ∷ x) e)
]

strip-EndsWell : (s : Bytes) → EndsWell (strip s) × (n : ℕ) × (s ≡ strip s ++ replicate n slash)
unfolding strip
strip-EndsWell [] = (tt, 0, refl)
strip-EndsWell (c ∷ s) = let (w, n, e) = strip-EndsWell s in keep-EndsWell c (strip s) s n w e

-- What `path_remove_trailing_slashes` takes off a path that is not empty is a run of slashes at its
-- end, and behind the first byte, which it keeps, the result does not end in a slash.
pub path_remove_trailing_slashes-EndsWell :
    (c : ℕ) (s : Bytes)
    → (t : Bytes) × (path_remove_trailing_slashes (c ∷ s) ≡ c ∷ t)
      × EndsWell t
      × (n : ℕ) × (c ∷ s ≡ (c ∷ t) ++ replicate n slash)
unfolding path_remove_trailing_slashes
path_remove_trailing_slashes-EndsWell c s =
    let (w, n, e) = strip-EndsWell s in (strip s, refl, w, n, ap (λ x. c ∷ x) e)
