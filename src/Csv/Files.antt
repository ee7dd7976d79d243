-- ===== src/Csv/Files.antt =====
-- `parse_line` and `read_csv` of csv.hpp.
use cl_kmeans.Prelude.{
  ℕ, zero, suc, ◌+◌, ◌%◌, Bool, true, List, [], ◌∷◌, ◌++◌, Option, none, some, ltb, ◌==◌, ◌&&◌,
  if◌then◌else◌, ◌>>=◌, length, get_elem?, modify, replicate, leb,
}
use cl_kmeans.Kmeans.Matrix.{Matrix, assign, resize, resize_vector}
use cl_kmeans.Csv.Tokens.{Token, tokenize, tokenize_vector, line_size}

-- The characters of a token.
unfoldable pub text_of : (begin : List ℕ) → (size : ℕ) → Option (List ℕ)
text_of begin zero = some []
text_of [] (suc size) = none
text_of (c ∷ begin) (suc size) = do cs ← text_of begin size; some (c ∷ cs)

abbrev pub drop : ℕ → List ℕ → List ℕ
drop zero cs = cs
drop (suc n) [] = []
drop (suc n) (c ∷ cs) = drop n cs

-- A token that was not set.
abbrev pub null_token : Token
null_token = ([], 0)

-- `parse depth` makes a value of column `depth` of the characters of a token.
module _ {V : Type 0} (parse : (depth : ℕ) → List ℕ → V) where
  -- `parse_line` on an array of tokens, one for each vector.
  unfoldable pub parse_line :
      (depth : ℕ) → List Token → (vectors : List (List V)) → Option (List (List V))
  parse_line depth tokens [] = some []
  parse_line depth tokens (vec ∷ other) = do
    token ← get_elem? tokens depth
    text ← text_of token.0 token.1
    rest ← parse_line (suc depth) tokens other
    some ((vec ++ parse depth text ∷ []) ∷ rest)

  -- The loop of `read_csv` over the lines, of at most `fuel` tests of its condition.
  unfoldable pub read_lines :
      (delimiter fuel file_size file_offset : ℕ)
      → (here : List ℕ) → List Token
      → List (List V)
      → Option (List (List V))
  read_lines delimiter zero file_size file_offset here tokens vectors = none
  read_lines delimiter (suc fuel) file_size file_offset here tokens vectors =
      let rest = (do
        r ← tokenize here file_size tokens (length vectors) delimiter
        let parsed = parse_line 0 r.0 vectors
        vectors' ← (if r.1 == 0 then some vectors else parsed)
        read_lines delimiter fuel file_size (file_offset + r.1) (drop r.1 here) r.0 vectors') in
      if ltb file_offset file_size then rest else some vectors

  -- `read_csv` into some vectors. Each round but the last takes a character, at least.
  unfoldable pub read_csv :
      (delimiter : ℕ) → (file : List ℕ) → List (List V) → Option (List (List V))
  read_csv delimiter file vectors =
      read_lines delimiter (suc (length file)) (length file) 0 file
        (replicate (length vectors) null_token) vectors

-- `value` makes an element of the characters of a token.
module _ {V : Type 0} (value : List ℕ → V) where
  -- `parse_line` on the first `n` tokens of a vector, and the next column.
  unfoldable pub parse_tokens :
      (n : ℕ)
      → List Token
      → (vectors : List (List V)) → (current_column : ℕ) → Option (List (List V) × ℕ)
  parse_tokens zero tokens vectors current_column = some (vectors, current_column)
  parse_tokens (suc n) [] vectors current_column = none
  parse_tokens (suc n) (token ∷ tokens) vectors current_column = do
    text ← text_of token.0 token.1
    let next =
        parse_tokens n tokens (modify vectors current_column (λ vec. vec ++ value text ∷ []))
          ((current_column + 1) % length vectors)
    (if leb (length vectors) current_column then none else next)

  unfoldable pub read_batches :
      (delimiter fuel file_size file_offset : ℕ)
      → (here : List ℕ) → List Token
      → List (List V)
      → (current_column : ℕ) → Option (List (List V))
  read_batches delimiter zero file_size file_offset here tokens vectors current_column = none
  read_batches delimiter (suc fuel) file_size file_offset here tokens vectors current_column =
      let rest = (do
        (tokens', tokens_tokenized, chars_tokenized) ←
            tokenize_vector here file_size tokens delimiter
        (vectors', column) ← parse_tokens tokens_tokenized tokens' vectors current_column
        read_batches delimiter fuel file_size (file_offset + chars_tokenized)
            (drop chars_tokenized here) tokens' vectors' column) in
      if ltb file_offset file_size then rest else some vectors

  unfoldable pub same_length : (common_length : ℕ) → List (List V) → Bool
  same_length common_length [] = true
  same_length common_length (v ∷ vectors) =
      (length v == common_length) && same_length common_length vectors

  -- `read_csv` into a vector of vectors. A division by no columns is undefined, and a failed
  -- assertion ends the program.
  unfoldable pub read_csv_vectors :
      (delimiter : ℕ) → (file : List ℕ) → (batch_size : ℕ) → List (List V) → Option (List (List V))
  read_csv_vectors delimiter file batch_size vectors = do
    num_columns ← line_size file (length file) delimiter
    let read =
        read_batches delimiter (suc (length file)) (length file) 0 file
          (replicate batch_size null_token) (resize_vector [] num_columns vectors) 0
    result ← (if num_columns == 0 then none else read)
    first ← get_elem? result 0
    (if same_length (length first) result then some result else none)

  unfoldable pub fill_column : (y x : ℕ) → List V → Matrix V → Option (Matrix V)
  fill_column y x [] matrix = some matrix
  fill_column y x (v ∷ vs) matrix = do
    matrix' ← assign matrix x y v
    fill_column y (suc x) vs matrix'

  unfoldable pub fill_columns : (y : ℕ) → List (List V) → Matrix V → Option (Matrix V)
  fill_columns y [] matrix = some matrix
  fill_columns y (column ∷ columns) matrix = do
    matrix' ← fill_column y 0 column matrix
    fill_columns (suc y) columns matrix'

  -- `read_csv` into a matrix with `size_t` indices.
  unfoldable pub read_csv_matrix :
      (default : V)
      → (delimiter : ℕ) → (file : List ℕ) → (batch_size : ℕ) → Matrix V
      → Option (Matrix V)
  read_csv_matrix default delimiter file batch_size matrix = do
    tmp_data ← read_csv_vectors delimiter file batch_size []
    first ← get_elem? tmp_data 0
    fill_columns 0 tmp_data (resize default (length first) (length tmp_data) matrix)
