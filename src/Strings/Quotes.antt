-- ===== src/Strings/Quotes.antt =====
-- `string_split_quotes` of stringtools.c: a command line cut into arguments. A text is its bytes,
-- 1 to 255, without the terminating 0. `isspace` is a parameter, and so is `shift`, the text that
-- `memcpy(str, str + 1, strlen(str))` leaves at `str`: the regions overlap.
use cyque.Prelude.{
  ℕ, zero, suc, ◌≤◌, ◌≡◌, ◌≢◌, refl, ap, ◌∙◌, inl, inr, Bool, true, false, ◌||◌, Option, none, some,
  List, [], ◌∷◌, ◌++◌, arith, ◌==◌, ==_iff, length-append, if◌then◌else◌, Bool-cases, Bytes, length,
  All,
}

abbrev pub backwhack : ℕ
backwhack = 92

-- `'\''` and `'\"'`
abbrev pub is_quote : ℕ → Bool
is_quote c = c == 39 || c == 34

abbrev pub matches : Option ℕ → ℕ → Bool
matches none c = false
matches (some quote) c = c == quote

-- every byte behind a backwhack
abbrev pub escape : Bytes → Bytes
escape [] = []
escape (c ∷ s) = backwhack ∷ c ∷ escape s

-- arguments made a command line: escaped, with `space` behind each
abbrev pub command_line : ℕ → List Bytes → Bytes
command_line space [] = []
command_line space (a ∷ args) = escape a ++ (space ∷ command_line space args)

module _ (isspace : ℕ → Bool) (shift : Bytes → Bytes) where
  unfoldable pub skip_spaces : Bytes → Bytes
  skip_spaces [] = []
  skip_spaces (c ∷ s) = if isspace c then skip_spaces s else c ∷ s

  abbrev pub prefix : ℕ → Bytes × Bytes → Bytes × Bytes
  prefix c r = (c ∷ r.0, r.1)

  -- The loops over an argument, in a quote or not: the bytes that are left of it, and what is behind
  -- it. The fuel counts the bytes.
  unfoldable pub token_loop : ℕ → Option ℕ → Bytes → Bytes × Bytes
  token_loop fuel quote [] = ([], [])
  token_loop zero quote (c ∷ s) = ([], [])
  token_loop (suc fuel) quote (c ∷ s) =
      let opened = token_loop fuel (some c) (shift (c ∷ s)) in
      let closed = token_loop fuel none (shift (c ∷ s)) in
      let on = token_loop fuel quote s in
      if c == backwhack
      then elim (shift (c ∷ s)) [ [] ↦ ([], []) | d ∷ t ↦ prefix d (token_loop fuel quote t) ]
      else elim quote [
        | none ↦ (if isspace c then ([], s) else if is_quote c then opened else prefix c on)
        | some q ↦ (if c == q then closed else prefix c on)
      ]

  -- the same where the bytes move down by one
  unfoldable pub token : Option ℕ → Bytes → Bytes × Bytes
  token quote [] = ([], [])
  token quote (c ∷ []) = if c == backwhack then ([], []) else elim quote [
    | none ↦ (if isspace c then ([], []) else if is_quote c then ([], []) else (c ∷ [], []))
    | some q ↦ (if c == q then ([], []) else (c ∷ [], []))
  ]
  token quote (c ∷ d ∷ s) =
      let skipped = token quote s in
      let opened = token (some c) (d ∷ s) in
      let closed = token none (d ∷ s) in
      let on = token quote (d ∷ s) in
      if c == backwhack then prefix d skipped else elim quote [
        | none ↦ (if isspace c then ([], d ∷ s) else if is_quote c then opened else prefix c on)
        | some q ↦ (if c == q then closed else prefix c on)
      ]

  abbrev pub add_argument : Bytes → Option (List Bytes) → Option (List Bytes)
  add_argument a none = none
  add_argument a (some args) = some (a ∷ args)

  -- `while(*str)`; the fuel counts the arguments
  unfoldable pub split_loop : ℕ → Bytes → Option (List Bytes)
  split_loop fuel [] = some []
  split_loop zero (c ∷ s) = none
  split_loop (suc fuel) (c ∷ s) = elim (skip_spaces (c ∷ s)) [
    | [] ↦ some []
    | d ∷ t ↦
        let r = token_loop (length (d ∷ t)) none (d ∷ t) in add_argument r.0 (split_loop fuel r.1)
  ]

  unfoldable pub string_split_quotes : Bytes → Option (List Bytes)
  string_split_quotes str = split_loop (length str) str

  module _ (moves : (c : ℕ) (s : Bytes) → shift (c ∷ s) ≡ s) where
    token_loop-token :
        (fuel : ℕ) (quote : Option ℕ) (s : Bytes)
        → length s ≤ fuel
        → token_loop fuel quote s ≡ token quote s
    unfolding token_loop token
    token_loop-token fuel quote [] h = refl
    token_loop-token zero quote (c ∷ s) h = absurd (omega arith)
    token_loop-token (suc fuel) none (c ∷ []) h = rw (moves c []) refl
    token_loop-token (suc fuel) (some q) (c ∷ []) h = rw (moves c []) refl
    token_loop-token (suc fuel) none (c ∷ d ∷ s) h =
        rw
          (
            moves c (d ∷ s),
            token_loop-token fuel none s (omega arith),
            token_loop-token fuel (some c) (d ∷ s) (omega arith),
            token_loop-token fuel none (d ∷ s) (omega arith),
          )
          refl
    token_loop-token (suc fuel) (some q) (c ∷ d ∷ s) h =
        rw
          (
            moves c (d ∷ s),
            token_loop-token fuel (some q) s (omega arith),
            token_loop-token fuel none (d ∷ s) (omega arith),
            token_loop-token fuel (some q) (d ∷ s) (omega arith),
          )
          refl

    -- a round, once the spaces are skipped
    abbrev after_spaces : ℕ → Bytes → Option (List Bytes)
    after_spaces fuel [] = some []
    after_spaces fuel (d ∷ t) =
        add_argument (token none (d ∷ t)).0 (split_loop fuel (token none (d ∷ t)).1)

    split_loop-suc :
        (fuel c : ℕ) (s x : Bytes)
        → skip_spaces (c ∷ s) ≡ x
        → split_loop (suc fuel) (c ∷ s) ≡ after_spaces fuel x
    unfolding split_loop
    split_loop-suc fuel c s x e =
        ap
          (λ y. elim y as (λ z. Option (List Bytes)) [
            | [] ↦ some []
            | d ∷ t ↦
                let r = token_loop (length (d ∷ t)) none (d ∷ t) in
                add_argument r.0 (split_loop fuel r.1)
          ])
          e
        ∙ same x
      where
        same :
            (y : Bytes)
            → (elim y as (λ z. Option (List Bytes)) [
              | [] ↦ some []
              | d ∷ t ↦
                  let r = token_loop (length (d ∷ t)) none (d ∷ t) in
                  add_argument r.0 (split_loop fuel r.1)
            ])
              ≡ after_spaces fuel y
        same [] = refl
        same (d ∷ t) =
            ap (λ r. add_argument r.0 (split_loop fuel r.1))
              (token_loop-token (length (d ∷ t)) none (d ∷ t) (omega arith))

    module _ (space : ℕ) (is_space : isspace space ≡ true)
        (no_space : isspace backwhack ≡ false) where
      space_plain : (space == backwhack) ≡ false
      space_plain = elim (Bool-cases (space == backwhack)) [
        | inl e ↦
            let same : space ≡ backwhack = (==_iff space backwhack).0 e in
            absurd (let both : isspace space ≡ false = ap isspace same ∙ no_space in cc)
        | inr e ↦ e
      ]

      token-space : (rest : Bytes) → token none (space ∷ rest) ≡ ([], rest)
      unfolding token
      token-space [] = rw (space_plain, is_space) refl
      token-space (d ∷ s) = rw (space_plain, is_space) refl

      token-escape : (a rest : Bytes) → token none (escape a ++ (space ∷ rest)) ≡ (a, rest)
      unfolding token
      token-escape [] rest = token-space rest
      token-escape (c ∷ a) rest = ap (prefix c) (token-escape a rest)

      split_loop-command_line :
          (fuel : ℕ) (args : List Bytes)
          → All (λ a. a ≢ []) args
          → length (command_line space args) ≤ fuel
          → split_loop fuel (command_line space args) ≡ some args
      unfolding split_loop
      split_loop-command_line fuel [] full h = refl
      split_loop-command_line fuel ([] ∷ args) full h = absurd (full.0 refl)
      split_loop-command_line zero ((c ∷ a) ∷ args) full h = absurd (omega arith)
      split_loop-command_line (suc fuel) ((c ∷ a) ∷ args) full h =
          let line = escape a ++ (space ∷ command_line space args) in
          let start : skip_spaces (backwhack ∷ c ∷ line) ≡ backwhack ∷ c ∷ line =
            unfold skip_spaces in rw no_space refl in
          let cut : token none (backwhack ∷ c ∷ line) ≡ (c ∷ a, command_line space args) =
            unfold token in ap (prefix c) (token-escape a (command_line space args)) in
          let long = length-append (escape a) (space ∷ command_line space args) in
          let rest = split_loop-command_line fuel args full.1 (omega arith) in
          split_loop-suc fuel backwhack (c ∷ line) (backwhack ∷ c ∷ line) start
          ∙ ap (λ r. add_argument r.0 (split_loop fuel r.1)) cut
          ∙ ap (add_argument (c ∷ a)) rest

      -- If `memcpy(str, str + 1, strlen(str))` moves the bytes down by one as `memmove` does - the C
      -- standard leaves it open, since they overlap - and `isspace` takes some byte for a space and a
      -- backwhack for none: the arguments of a list without empty ones, each with a backwhack before
      -- every byte and that space behind it, are what `string_split_quotes` cuts the line into,
      -- whatever bytes they hold.
      pub string_split_quotes-command_line :
          (args : List Bytes)
          → All (λ a. a ≢ []) args
          → string_split_quotes (command_line space args) ≡ some args
      unfolding string_split_quotes
      string_split_quotes-command_line args full =
          split_loop-command_line (length (command_line space args)) args full (omega arith)
