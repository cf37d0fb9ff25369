-- ===== src/Strings/Search.antt =====
-- `strpos`, `strrpos` and `string_prefix_is` of stringtools.c. The texts are not NULL; a text is its
-- bytes without the terminating 0, and its length is an `int`.
use cyque.Prelude.{
  ℕ, zero, suc, ◌+◌, ◌≤◌, ◌<◌, ◌≡◌, ◌↔◌, ◌≢◌, refl, ap, ◌∙◌, Bool, true, false, [], ◌∷◌, ◌++◌,
  arith, ◌==◌, ==_iff, if◌then◌else◌, Bool-cases, inl, inr, Bytes, length, get_or,
}
use cyque.Prelude.Int.{ℤ, pos, negsuc}
use cyque.Strings.Match.{starts_with, starts_with-append, starts_with_rest}

module _ (str : Bytes) (c : ℕ) where
  -- `str[i] == c`
  abbrev pub is_at : ℕ → Bool
  is_at i = get_or str i 0 == c

  -- the loop from `i` on, with `n` bytes left
  unfoldable pub strpos_loop : ℕ → ℕ → ℤ
  strpos_loop zero i = negsuc 0
  strpos_loop (suc n) i = let rest = strpos_loop n (i + 1) in if is_at i then pos i else rest

  unfoldable pub strpos : ℤ
  unfolding strpos_loop
  strpos = strpos_loop (length str) 0

  -- the loop from the byte before number `n` down
  unfoldable pub strrpos_loop : ℕ → ℤ
  strrpos_loop zero = negsuc 0
  strrpos_loop (suc i) = let rest = strrpos_loop i in if is_at i then pos i else rest

  unfoldable pub strrpos : ℤ
  unfolding strrpos_loop
  strrpos = strrpos_loop (length str)

  -- the first place of `c` from `low` on and before `high`; a negative number if there is none
  abbrev pub IsFirst : ℕ → ℕ → ℤ → Type 0
  IsFirst low high (pos k) =
      (low ≤ k) × (k < high) × (is_at k ≡ true) × ((j : ℕ) → low ≤ j → j < k → is_at j ≡ false)
  IsFirst low high (negsuc n) = (j : ℕ) → low ≤ j → j < high → is_at j ≡ false

  -- the last place of `c` before `high`; a negative number if there is none
  abbrev pub IsLast : ℕ → ℤ → Type 0
  IsLast high (pos k) =
      (k < high) × (is_at k ≡ true) × ((j : ℕ) → k < j → j < high → is_at j ≡ false)
  IsLast high (negsuc n) = (j : ℕ) → j < high → is_at j ≡ false

  -- an absent byte at `i` is no exception to absence elsewhere
  absent_at : (i j : ℕ) → is_at i ≡ false → ((j == i) ≡ false → is_at j ≡ false) → is_at j ≡ false
  absent_at i j out others = elim (Bool-cases (j == i)) [
    | inl same ↦ ap is_at ((==_iff j i).0 same) ∙ out
    | inr other ↦ others other
  ]

  IsFirst-later : (i high : ℕ) (r : ℤ) → is_at i ≡ false → IsFirst (i + 1) high r → IsFirst i high r
  IsFirst-later i high (pos k) out h =
      (omega arith, h.1, h.2, λ j x y. absent_at i j out (λ other. h.3 j (ground arith) y))
  IsFirst-later i high (negsuc n) out h = λ j x y. absent_at i j out (λ other. h j (ground arith) y)

  strpos_loop-IsFirst : (n i high : ℕ) → i + n ≡ high → IsFirst i high (strpos_loop n i)
  unfolding strpos_loop
  strpos_loop-IsFirst zero i high e = λ j x y. absurd (omega arith)
  strpos_loop-IsFirst (suc n) i high e = elim (Bool-cases (is_at i)) [
    | inl here ↦ rw here (omega arith, omega arith, here, λ j x y. absurd (omega arith))
    | inr absent ↦ rw absent (
        IsFirst-later i high (strpos_loop n (i + 1)) absent
          (strpos_loop-IsFirst n (i + 1) high (omega arith)))
  ]

  -- `strpos` answers the first place of the byte in the text, and -1 if it is nowhere in it.
  pub strpos-IsFirst : IsFirst 0 (length str) strpos
  unfolding strpos
  strpos-IsFirst = strpos_loop-IsFirst (length str) 0 (length str) (omega arith)

  IsLast-earlier : (i : ℕ) (r : ℤ) → is_at i ≡ false → IsLast i r → IsLast (suc i) r
  IsLast-earlier i (pos k) out h =
      (omega arith, h.1, λ j x y. absent_at i j out (λ other. h.2 j x (ground arith)))
  IsLast-earlier i (negsuc n) out h = λ j y. absent_at i j out (λ other. h j (ground arith))

  strrpos_loop-IsLast : (n : ℕ) → IsLast n (strrpos_loop n)
  unfolding strrpos_loop
  strrpos_loop-IsLast zero = λ j y. absurd (omega arith)
  strrpos_loop-IsLast (suc i) = elim (Bool-cases (is_at i)) [
    | inl here ↦ rw here (omega arith, here, λ j x y. absurd (omega arith))
    | inr absent ↦ rw absent (IsLast-earlier i (strrpos_loop i) absent (strrpos_loop-IsLast i))
  ]

  -- `strrpos` answers the last place of the byte in the text, and -1 if it is nowhere in it.
  pub strrpos-IsLast : IsLast (length str) strrpos
  unfolding strrpos
  strrpos-IsLast = strrpos_loop-IsLast (length str)

-- with `strlen(prefix) == 0` the answer is 0
unfoldable pub string_prefix_is : Bytes → Bytes → Bool
unfolding starts_with
string_prefix_is string [] = false
string_prefix_is string (c ∷ prefix) = starts_with (c ∷ prefix) string

-- `string_prefix_is` accepts a prefix that is not empty exactly if the text is the prefix and some
-- bytes behind it; the empty prefix it accepts for no text.
pub string_prefix_is_iff :
    (string prefix : Bytes)
    → (string_prefix_is string prefix ≡ true)
      ↔ ((prefix ≢ []) × (r : Bytes) × (string ≡ prefix ++ r))
unfolding string_prefix_is
string_prefix_is_iff string [] = (λ h. absurd (cc), λ found. absurd (found.0 refl))
string_prefix_is_iff string (c ∷ prefix) = (
  λ h. let more = starts_with_rest (c ∷ prefix) string h in ((λ e. cc), more.0, more.1),
  λ found. ap (starts_with (c ∷ prefix)) found.2 ∙ starts_with-append (c ∷ prefix) found.1,
)
