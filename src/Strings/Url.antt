-- ===== src/Strings/Url.antt =====
-- url_encode.c. A text is its bytes, 1 to 255, without the terminating 0; `char` is signed, and
-- `unsigned int` has 32 bits. `sscanf(…, "%2x", …)` is a parameter of decoding.
use cyque.Prelude.{
  ℕ, ◌+◌, ◌-◌, ◌*◌, ◌/◌, ◌%◌, ◌<◌, ◌≤◌, ◌≡◌, refl, Bool, true, false, ◌||◌, Option, none, some, [],
  ◌∷◌, ◌++◌, arith, ◌==◌, ltb, leb, if◌then◌else◌, Bool-cases, inl, inr, Bytes, length, All,
}

abbrev pub percent : ℕ
percent = 37

-- a digit of "%X"
abbrev pub hex : ℕ → ℕ
hex n = if ltb n 10 then 48 + n else 55 + n

-- `*s <= 32 || …`; as a signed `char` a byte of 128 or more is negative
unfoldable pub must_encode : ℕ → Bool
must_encode c =
    leb 128 c
    || leb c 32
    || c == percent
    || c == 92
    || c == 60
    || c == 62
    || c == 39
    || c == 34
    || ltb 122 c

-- The three bytes that stay of what `snprintf(t, length, "%%%2X", *s)` writes: "%2X" pads with a
-- space, and of a negative `char` it writes eight digits, of which the first two are F.
unfoldable pub encoded : ℕ → Bytes
encoded c =
    if leb 128 c
    then percent ∷ 70 ∷ 70 ∷ []
    else percent ∷ (if ltb c 16 then 32 else hex (c / 16)) ∷ hex (c % 16) ∷ []

-- what is written to `t`
unfoldable pub url_encode : Bytes → ℕ → Bytes
unfolding must_encode encoded
url_encode [] length = []
url_encode (c ∷ s) length =
    let escaped = url_encode s (length - 3) in
    let copied = url_encode s (length - 1) in
    if ltb 1 length
    then (if must_encode c then (if ltb 3 length then encoded c ++ escaped else []) else c ∷ copied)
    else []

abbrev pub push : ℕ → Option Bytes → Option Bytes
push c none = none
push c (some s) = some (c ∷ s)

-- What is written to `t`: `scan_2x` is what `sscanf(s, "%2x", &x)` stores. With fewer than two bytes
-- behind a percent sign `s += 3` leaves the text, and the next read is a fault.
unfoldable pub url_decode : (Bytes → ℕ) → Bytes → ℕ → Option Bytes
url_decode scan_2x [] length = some []
url_decode scan_2x (c ∷ []) length =
    if ltb 1 length then (if c == percent then none else some (c ∷ [])) else some []
url_decode scan_2x (c ∷ a ∷ []) length =
    let rest = url_decode scan_2x (a ∷ []) (length - 1) in
    if ltb 1 length then (if c == percent then none else push c rest) else some []
url_decode scan_2x (c ∷ a ∷ b ∷ s) length =
    let behind = url_decode scan_2x s (length - 1) in
    let rest = url_decode scan_2x (a ∷ b ∷ s) (length - 1) in
    if ltb 1 length
    then (if c == percent then push (scan_2x (a ∷ b ∷ s) % 256) behind else push c rest)
    else some []

-- a byte that two digits of "%X" stand for
abbrev pub IsPlain : ℕ → Type 0
IsPlain c = (16 ≤ c) × (c < 128)

copied_not_percent : (c : ℕ) → must_encode c ≡ false → (c == percent) ≡ false
unfolding must_encode
copied_not_percent c h = ground arith

module _ (scan_2x : Bytes → ℕ) where
  decode_copied :
      (c : ℕ) (r : Bytes) (m : ℕ)
      → (c == percent) ≡ false
      → 1 < m
      → url_decode scan_2x (c ∷ r) m ≡ push c (url_decode scan_2x r (m - 1))
  unfolding url_decode
  decode_copied c [] m e h = ground arith
  decode_copied c (a ∷ []) m e h = ground arith
  decode_copied c (a ∷ b ∷ r) m e h = ground arith

  module _
      (scans : (a b : ℕ) (rest : Bytes)
        → a < 16
        → b < 16
        → scan_2x (hex a ∷ hex b ∷ rest) ≡ 16 * a + b) where
    decode_escaped :
        (c : ℕ) (r : Bytes) (m : ℕ)
        → IsPlain c
        → 1 < m
        → url_decode scan_2x (encoded c ++ r) m ≡ push c (url_decode scan_2x r (m - 1))
    unfolding url_decode encoded
    decode_escaped c r m plain h =
        let low : leb 128 c ≡ false = ground arith in
        let wide : ltb c 16 ≡ false = ground arith in
        let long : ltb 1 m ≡ true = ground arith in
        let value : scan_2x (hex (c / 16) ∷ hex (c % 16) ∷ r) % 256 ≡ c =
          omega (arith, scans (c / 16) (c % 16) r (omega arith) (omega arith)) in
        rw (low, wide, long, value) refl

    -- If `sscanf` reads two digits of "%X" as the number they stand for, then decoding what
    -- `url_encode` wrote gives the text again: for every text of bytes from 16 to 127, when each buffer
    -- is large enough (encoding needs three bytes for each byte, and both one more).
    pub url_decode-url_encode :
        (s : Bytes) (l m : ℕ)
        → All IsPlain s
        → 3 * length s < l
        → length s < m
        → url_decode scan_2x (url_encode s l) m ≡ some s
    unfolding url_encode
    url_decode-url_encode [] l m plain hl hm = unfold url_decode in refl
    url_decode-url_encode (c ∷ s) l m plain hl hm =
        let long : ltb 1 l ≡ true = ground arith in
        let wide : ltb 3 l ≡ true = ground arith in
        elim (Bool-cases (must_encode c)) [
          | inl e ↦
              let rest =
                url_decode-url_encode s (l - 3) (m - 1) plain.1 (omega arith) (omega arith) in
              rw
                (
                  long,
                  e,
                  wide,
                  decode_escaped c (url_encode s (l - 3)) m plain.0 (omega arith),
                  rest,
                )
                refl
          | inr e ↦
              let rest =
                url_decode-url_encode s (l - 1) (m - 1) plain.1 (omega arith) (omega arith) in
              let other = copied_not_percent c e in
              rw (long, e, decode_copied c (url_encode s (l - 1)) m other (omega arith), rest) refl
        ]
