-- ===== src/Strings/Match.antt =====
-- `string_match` of stringtools.c: patterns with a wildcard, and the contract of a pattern with one.
use cyque.Prelude.{
  ℕ, zero, suc, ◌+◌, ◌-◌, ◌≤◌, ◌≡◌, ◌↔◌, refl, sym, ap, ◌∙◌, inl, inr, Bool, true, false, ◌&&◌,
  Option, none, some, [], ◌∷◌, ◌++◌, arith, ◌==◌, ==_iff, ltb, if◌then◌else◌, Bool-cases, Bytes,
  length, length-append, take, drop, All, same_text, same_text_iff,
}

abbrev pub wildcard : ℕ
wildcard = 42

abbrev pub before : ℕ → Option (Bytes × Bytes) → Option (Bytes × Bytes)
before c none = none
before c (some r) = some (c ∷ r.0, r.1)

-- `strchr(pattern, '*')`: what is before the wildcard and what is behind it
unfoldable pub split_at_wildcard : Bytes → Option (Bytes × Bytes)
split_at_wildcard [] = none
split_at_wildcard (c ∷ s) = if c == wildcard then some ([], s) else before c (split_at_wildcard s)

-- `!strncmp(pattern, text, headlen)` for the `headlen` bytes of `head`
unfoldable pub starts_with : Bytes → Bytes → Bool
starts_with [] text = true
starts_with (c ∷ head) [] = false
starts_with (c ∷ head) (d ∷ text) = c == d && starts_with head text

-- behind the test of the head; the end of a text shorter than the tail would start before it: a fault
unfoldable pub match_tail : Bytes → Bytes → Option Bool
match_tail tail text =
    if ltb (length text) (length tail)
    then none
    else some (same_text tail (drop (length text - length tail) text))

unfoldable pub match_parts : Option (Bytes × Bytes) → Bytes → Bytes → Option Bool
unfolding starts_with match_tail
match_parts none pattern text = some (same_text pattern text)
match_parts (some (head, tail)) pattern text =
    if starts_with head text then match_tail tail text else some false

unfoldable pub string_match : Bytes → Bytes → Option Bool
unfolding split_at_wildcard match_parts
string_match pattern text = match_parts (split_at_wildcard pattern) pattern text

split_at_wildcard-append :
    (head tail : Bytes)
    → All (λ c. (c == wildcard) ≡ false) head
    → split_at_wildcard (head ++ (wildcard ∷ tail)) ≡ some (head, tail)
unfolding split_at_wildcard
split_at_wildcard-append [] tail plain = refl
split_at_wildcard-append (c ∷ head) tail plain =
    rw (plain.0, split_at_wildcard-append head tail plain.1) refl

pub starts_with-append : (head r : Bytes) → starts_with head (head ++ r) ≡ true
unfolding starts_with
starts_with-append [] r = refl
starts_with-append (c ∷ head) r = ground (arith, starts_with-append head r)

pub starts_with_rest :
    (head text : Bytes) → starts_with head text ≡ true → (r : Bytes) × (text ≡ head ++ r)
unfolding starts_with
starts_with_rest [] text h = (text, refl)
starts_with_rest (c ∷ head) [] h = absurd (cc)
starts_with_rest (c ∷ head) (d ∷ text) h = elim (Bool-cases (c == d)) [
  | inl e ↦
      let (r, more) = starts_with_rest head text (ground arith) in
      (r, ap (λ x. x ∷ text) (sym ((==_iff c d).0 e)) ∙ ap (λ x. c ∷ x) more)
  | inr e ↦ absurd (ground arith)
]

drop-append : (n : ℕ) (head r : Bytes) → drop (length head + n) (head ++ r) ≡ drop n r
drop-append n [] r = ap (λ k. drop k r) (omega arith)
drop-append n (c ∷ head) r =
    let e : suc (length head) + n ≡ suc (length head + n) = omega arith in
    ap (λ k. drop k (c ∷ (head ++ r))) e ∙ drop-append n head r

take-drop : (n : ℕ) (r : Bytes) → r ≡ take n r ++ drop n r
take-drop zero r = refl
take-drop (suc n) [] = refl
take-drop (suc n) (c ∷ r) = ap (λ x. c ∷ x) (take-drop n r)

match_tail-append : (head mid tail : Bytes) → match_tail tail (head ++ (mid ++ tail)) ≡ some true
unfolding match_tail
match_tail-append head mid tail =
    let l = length-append head (mid ++ tail) in
    let l' = length-append mid tail in
    let fits : ltb (length (head ++ (mid ++ tail))) (length tail) ≡ false = ground arith in
    let cut : length (head ++ (mid ++ tail)) - length tail ≡ length head + (length mid + 0) =
      omega arith in
    let same : drop (length (head ++ (mid ++ tail)) - length tail) (head ++ (mid ++ tail)) ≡ tail =
      ap (λ k. drop k (head ++ (mid ++ tail))) cut
      ∙ drop-append (length mid + 0) head (mid ++ tail)
      ∙ drop-append 0 mid tail in
    let equal = (same_text_iff tail tail).1 refl in rw (fits, same, equal) refl

match_tail_fits :
    (tail text : Bytes)
    → length tail ≤ length text
    → match_tail tail text ≡ some true
    → tail ≡ drop (length text - length tail) text
unfolding match_tail
match_tail_fits tail text fits h =
    let enough : ltb (length text) (length tail) ≡ false = ground arith in
    let matched : some (same_text tail (drop (length text - length tail) text)) ≡ some true =
      rw enough at h in
    (same_text_iff tail (drop (length text - length tail) text)).0 (cc)

match_parts-append :
    (head mid tail pattern : Bytes)
    → match_parts (some (head, tail)) pattern (head ++ (mid ++ tail)) ≡ some true
unfolding match_parts
match_parts-append head mid tail pattern =
    let starts = starts_with-append head (mid ++ tail) in
    rw (starts, match_tail-append head mid tail) refl

match_parts_between :
    (head tail pattern text : Bytes)
    → length head + length tail ≤ length text
    → match_parts (some (head, tail)) pattern text ≡ some true
    → (mid : Bytes) × (text ≡ head ++ (mid ++ tail))
unfolding match_parts
match_parts_between head tail pattern text fits h = elim (Bool-cases (starts_with head text)) [
  | inr e ↦ absurd (let no : some false ≡ some true = rw e at h in ground arith)
  | inl e ↦
      let (r, whole) = starts_with_rest head text e in
      let end = match_tail_fits tail text (omega arith) (rw e at h) in
      let l : length text ≡ length head + length r = ap length whole ∙ length-append head r in
      let n = length r - length tail in
      let cut : length text - length tail ≡ length head + n = omega arith in
      let last : tail ≡ drop n r =
        end
        ∙ ap (λ k. drop k text) cut
        ∙ ap (drop (length head + n)) whole
        ∙ drop-append n head r in
      let middle : r ≡ take n r ++ tail = take-drop n r ∙ ap (λ x. take n r ++ x) (sym last) in
      (take n r, whole ∙ ap (λ x. head ++ x) middle)
]

-- For a pattern with a wildcard between a head without one and any tail, and a text that is long
-- enough to hold both: `string_match` accepts the text exactly if it is the head, some bytes, and the
-- tail.
pub string_match-append :
    (head tail text : Bytes)
    → All (λ c. (c == wildcard) ≡ false) head
    → length head + length tail ≤ length text
    → (string_match (head ++ (wildcard ∷ tail)) text ≡ some true)
      ↔ ((mid : Bytes) × (text ≡ head ++ (mid ++ tail)))
unfolding string_match
string_match-append head tail text plain fits =
    let pattern = head ++ (wildcard ∷ tail) in
    let parts = split_at_wildcard-append head tail plain in
    let run = ap (λ p. match_parts p pattern text) parts in
    (
      λ h. match_parts_between head tail pattern text fits (sym run ∙ h),
      λ found.
          run
          ∙ ap (λ x. match_parts (some (head, tail)) pattern x) found.1
          ∙ match_parts-append head found.0 tail pattern,
    )
