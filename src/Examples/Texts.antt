-- ===== src/Examples/Texts.antt =====
-- Runs of path.c, url_encode.c and stringtools.c.
use cyque.Prelude.{
  ℕ, ◌+◌, ◌-◌, ◌*◌, ◌<◌, ◌≡◌, refl, Bool, some, [], ◌∷◌, arith, ◌==◌, ltb, if◌then◌else◌, Bytes,
  codes, true, none, same_text,
}
use cyque.Prelude.Int.{pos}
use cyque.Strings.Match.{string_match}
use cyque.Strings.Path.{path_split}
use cyque.Strings.Quotes.{
  string_split_quotes, string_split_quotes-command_line, command_line, split_loop, skip_spaces,
  token_loop,
}
use cyque.Strings.Search.{strpos, strrpos}
use cyque.Strings.Url.{hex, url_encode, url_decode, url_decode-url_encode}

usr_bin : path_split (codes "//usr/bin") ≡ (codes "usr", codes "/bin")
unfolding path_split
usr_bin = refl

-- the value of a digit
abbrev unhex : ℕ → ℕ
unhex c = if ltb c 58 then c - 48 else c - 55

abbrev scan_2x : Bytes → ℕ
scan_2x (a ∷ b ∷ rest) = 16 * unhex a + unhex b
scan_2x _ = 0

scan_2x-hex :
    (a b : ℕ) (rest : Bytes) → a < 16 → b < 16 → scan_2x (hex a ∷ hex b ∷ rest) ≡ 16 * a + b
scan_2x-hex a b rest ha hb = ground arith

url_decode-url_encode_example :
    url_decode scan_2x (url_encode (codes "a b%c") 20) 10 ≡ some (codes "a b%c")
url_decode-url_encode_example =
    url_decode-url_encode scan_2x scan_2x-hex (codes "a b%c") 20 10
      (
        (omega arith, omega arith),
        (
          (omega arith, omega arith),
          (
            (omega arith, omega arith),
            ((omega arith, omega arith), ((omega arith, omega arith), tt)),
          ),
        ),
      )
      (omega arith) (omega arith)

-- A byte of 128 or more does not come back.
high_byte_lost : url_decode scan_2x (url_encode (200 ∷ []) 20) 10 ≡ some (255 ∷ [])
unfolding url_decode url_encode
high_byte_lost = refl

abbrev is_blank : ℕ → Bool
is_blank c = c == 32

-- `memcpy` that moves the bytes down by one
abbrev moved_down : Bytes → Bytes
moved_down [] = []
moved_down (c ∷ s) = s

quoted_argument :
    string_split_quotes is_blank moved_down (codes " a 'b c'd ")
    ≡ some (codes "a" ∷ codes "b cd" ∷ [])
unfolding string_split_quotes split_loop skip_spaces token_loop
quoted_argument = refl

string_split_quotes-command_line_example :
    string_split_quotes is_blank moved_down (command_line 32 (codes "a b" ∷ codes "\\" ∷ []))
    ≡ some (codes "a b" ∷ codes "\\" ∷ [])
string_split_quotes-command_line_example =
    string_split_quotes-command_line is_blank moved_down (λ c s. refl) 32 refl refl
      (codes "a b" ∷ codes "\\" ∷ []) ((λ e. cc), ((λ e. cc), tt))

-- Head and tail overlap in a text that is shorter than both; a text shorter than the tail is a fault.
overlap_accepted : string_match (codes "ab*ba") (codes "aba") ≡ some true
unfolding string_match same_text
overlap_accepted = refl

short_text_faults : string_match (codes "*ba") (codes "a") ≡ none
unfolding string_match
short_text_faults = refl

first_dot : strpos (codes "a.b.c") 46 ≡ pos 1
unfolding strpos
first_dot = refl

last_dot : strrpos (codes "a.b.c") 46 ≡ pos 3
unfolding strrpos
last_dot = refl
