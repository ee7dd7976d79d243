-- ===== src/Csv/Tokens.antt =====
-- The tokenizer of csv.hpp. Characters are their codes.
use cl_kmeans.Prelude.{
  ℕ, zero, suc, Bool, ◌&&◌, ◌||◌, List, [], ◌∷◌, Option, none, some, ltb, ◌==◌, if◌then◌else◌,
  ◌>>=◌, length, modify,
}

abbrev pub newline : ℕ
newline = 10

-- A pointer into the mapped file is the list of the characters from there to the end of the
-- mapping. A token is a pointer and a size.
abbrev pub Token : Type 0
Token = List ℕ × ℕ

-- The state of the loop of `tokenize`: the pointers `&buffer[offset]` and `&buffer[begin_offset]`,
-- the offset and its distance from the begin of the token.
pub record Scan : Type 0 where
  pub here : List ℕ
  pub begin : List ℕ
  pub offset : ℕ
  pub size : ℕ
  pub t : ℕ
  pub tokens : List Token

abbrev pub is_end : (delimiter c : ℕ) → Bool
is_end delimiter c = (c == delimiter) || (c == newline)

-- One round of the loop. A read past the mapping is undefined.
unfoldable pub scan_char : (delimiter : ℕ) → Scan → Option Scan
scan_char delimiter s = elim s.here [
  | [] ↦ none
  | c ∷ rest ↦ some (
      if is_end delimiter c
      then record {
        here = rest;
        begin = rest;
        offset = suc s.offset;
        size = 0;
        t = suc s.t;
        tokens = modify s.tokens s.t (λ _. (s.begin, s.size));
      }
      else record s { here = rest; offset = suc s.offset; size = suc s.size })
]

-- The loop, where `n` characters of the buffer are left.
unfoldable pub scan : (delimiter num_tokens n : ℕ) → Scan → Option Scan
scan delimiter num_tokens zero s = some s
scan delimiter num_tokens (suc n) s =
    let rest = (do s' ← scan_char delimiter s; scan delimiter num_tokens n s') in
    if ltb s.t num_tokens then rest else some s

-- What comes after the loop: the token that the end of the buffer ends is stored and not counted.
unfoldable pub last_token : (buffer_size num_tokens : ℕ) → Scan → Scan
last_token buffer_size num_tokens s =
    if (s.offset == buffer_size) && ltb s.t num_tokens
    then record s { tokens = modify s.tokens s.t (λ _. (s.begin, s.size)) }
    else s

unfoldable pub tokenize_loop :
    (delimiter num_tokens : ℕ) → (buffer : List ℕ) → (buffer_size : ℕ) → List Token → Option Scan
tokenize_loop delimiter num_tokens buffer buffer_size tokens = do
  s ←
      scan delimiter num_tokens buffer_size
        (record { here = buffer; begin = buffer; offset = 0; size = 0; t = 0; tokens = tokens })
  some (last_token buffer_size num_tokens s)

-- `tokenize` into an array of `num_tokens` tokens, with its assertion: the tokens, and the number
-- of characters.
unfoldable pub tokenize :
    (buffer : List ℕ)
    → (buffer_size : ℕ) → List Token
    → (num_tokens delimiter : ℕ) → Option (List Token × ℕ)
tokenize buffer buffer_size tokens num_tokens delimiter = do
  s ← tokenize_loop delimiter num_tokens buffer buffer_size tokens
  (if (s.t == num_tokens) || (s.t == 0) then some (s.tokens, s.offset) else none)

-- `tokenize` into a vector of tokens: the tokens, their number, and that of the characters.
unfoldable pub tokenize_vector :
    (buffer : List ℕ)
    → (buffer_size : ℕ) → List Token
    → (delimiter : ℕ) → Option (List Token × ℕ × ℕ)
tokenize_vector buffer buffer_size tokens delimiter = do
  s ← tokenize_loop delimiter (length tokens) buffer buffer_size tokens
  some (s.tokens, s.t, s.offset)

-- The number of columns of the first line.
unfoldable pub line_size : (buffer : List ℕ) → (buffer_size delimiter : ℕ) → Option ℕ
line_size buffer zero delimiter = some 0
line_size [] (suc n) delimiter = none
line_size (c ∷ buffer) (suc n) delimiter =
    let rest = line_size buffer n delimiter in
    if c == delimiter then (do k ← rest; some (suc k)) else if c == newline then some 1 else rest
