-- ===== src/Tables/Jenkins.antt =====
-- `hash_string` of hash_table.c. `ub4` is `unsigned long`, of 64 bits where a `long` has them; the
-- result is cut to an `unsigned` of 32.
use Prim.Native.Nat.{bit_xor}
use cyque.Prelude.{
  ℕ, ◌+◌, ◌-◌, ◌*◌, ◌/◌, ◌%◌, ◌^◌, ◌<◌, ◌≡◌, refl, List, ◌∷◌, arith, Bytes, codes, leb,
  if◌then◌else◌, length, get_or,
}

-- The three words of the hash.
pub record Words : Type 0 where
  pub a : ℕ
  pub b : ℕ
  pub c : ℕ

unfoldable pub word : ℕ → ℕ
word x = x % 2 ^ 64

-- `x -= y; x -= z` on unsigned words
unfoldable pub sub_two : ℕ → ℕ → ℕ → ℕ
sub_two x y z = (x + 2 ^ 64 - y + 2 ^ 64 - z) % 2 ^ 64

-- `x ^= y >> n`
unfoldable pub xor_right : ℕ → ℕ → ℕ → ℕ
xor_right x y n = bit_xor x (y / 2 ^ n)

-- `x ^= y << n`
unfoldable pub xor_left : ℕ → ℕ → ℕ → ℕ
unfolding word
xor_left x y n = bit_xor x (word (y * 2 ^ n))

-- one of the three rows of `mix`, with the shifts of its line
unfoldable pub mix_row : ℕ → ℕ → ℕ → Words → Words
unfolding sub_two xor_right xor_left
mix_row i j k w =
    let a = xor_right (sub_two w.a w.b w.c) w.c i in
    let b = xor_left (sub_two w.b w.c a) a j in
    let c = xor_right (sub_two w.c a b) b k in record { a = a; b = b; c = c }

unfoldable pub mix : Words → Words
unfolding mix_row
mix w = mix_row 3 10 15 (mix_row 12 16 5 (mix_row 13 8 13 w))

-- four bytes, the lowest first
abbrev pub quad : ℕ → ℕ → ℕ → ℕ → ℕ
quad k0 k1 k2 k3 = k0 + k1 * 2 ^ 8 + k2 * 2 ^ 16 + k3 * 2 ^ 24

-- `case n:` of the switch, which falls through from every length of at least `n`
abbrev pub fall : ℕ → ℕ → ℕ → ℕ
fall n len x = if leb n len then x else 0

-- behind the loop: the last 11 bytes and the length
unfoldable pub finish : ℕ → List ℕ → Words → ℕ
unfolding mix word
finish total k w =
    let len = length k in
    let c = word (
      w.c
      + total
      + fall 11 len (get_or k 10 0 * 2 ^ 24)
      + fall 10 len (get_or k 9 0 * 2 ^ 16)
      + fall 9 len (get_or k 8 0 * 2 ^ 8)) in
    let b = word (
      w.b
      + fall 8 len (get_or k 7 0 * 2 ^ 24)
      + fall 7 len (get_or k 6 0 * 2 ^ 16)
      + fall 6 len (get_or k 5 0 * 2 ^ 8)
      + fall 5 len (get_or k 4 0)) in
    let a = word (
      w.a
      + fall 4 len (get_or k 3 0 * 2 ^ 24)
      + fall 3 len (get_or k 2 0 * 2 ^ 16)
      + fall 2 len (get_or k 1 0 * 2 ^ 8)
      + fall 1 len (get_or k 0 0)) in
    (mix (record { a = a; b = b; c = c })).c

-- `while(len >= 12)`, and what follows the loop
unfoldable pub blocks : ℕ → List ℕ → Words → ℕ
unfolding finish mix word
blocks total (k0 ∷ k1 ∷ k2 ∷ k3 ∷ k4 ∷ k5 ∷ k6 ∷ k7 ∷ k8 ∷ k9 ∷ k10 ∷ k11 ∷ k) w = blocks total k (
    mix (record {
      a = word (w.a + quad k0 k1 k2 k3);
      b = word (w.b + quad k4 k5 k6 k7);
      c = word (w.c + quad k8 k9 k10 k11);
    }))
blocks total k w = finish total k w

unfoldable pub jenkins_hash : List ℕ → ℕ → ℕ
unfolding blocks
jenkins_hash k initval =
    blocks (length k) k (record { a = 0x9e3779b9; b = 0x9e3779b9; c = initval })

unfoldable pub hash_string : Bytes → ℕ
unfolding jenkins_hash
hash_string s = jenkins_hash s 0 % 2 ^ 32

-- A hash is an `unsigned` of 32 bits.
hash_string-lt : (s : Bytes) → hash_string s < 2 ^ 32
unfolding hash_string
hash_string-lt s = let h = jenkins_hash s 0 in omega arith

one_block : hash_string (codes "worker") ≡ 1276632264
unfolding hash_string
one_block = refl

three_blocks : hash_string (codes "a longer worker name, of many bytes") ≡ 1992397073
unfolding hash_string
three_blocks = refl
