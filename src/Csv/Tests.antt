-- ===== src/Csv/Tests.antt =====
-- Small files, and instances of the theorems on them.
use cl_kmeans.Prelude.{
  ℕ, ◌+◌, ◌*◌, ◌-◌, List, [], ◌∷◌, ◌++◌, none, some, ◌≡◌, refl, arith, length, replicate,
}
use cl_kmeans.Kmeans.Matrix.{resize, resize_vector, assign, position}
use cl_kmeans.Csv.Tokens.{
  scan_char, scan, last_token, tokenize_loop, tokenize, tokenize_vector, line_size,
}
use cl_kmeans.Csv.Files.{
  null_token, text_of, parse_line, parse_tokens, read_lines, read_csv, read_batches, same_length,
  read_csv_vectors, fill_column, fill_columns, read_csv_matrix,
}
use cl_kmeans.Csv.Scanning.{Line, tokens_from, text_from}
use cl_kmeans.Csv.Lines.{tokenize-line}
use cl_kmeans.Csv.RoundTrip.{AllLines, file_of, push_lines, read_csv-file_of}

abbrev comma : ℕ
comma = 44

-- The digit 0 has the code 48.
abbrev decimal : List ℕ → ℕ → ℕ
decimal [] acc = acc
decimal (c ∷ cs) acc = decimal cs (acc * 10 + (c - 48))

abbrev value : List ℕ → ℕ
value cs = decimal cs 0

abbrev at_depth : ℕ → List ℕ → ℕ
at_depth depth cs = value cs

-- The lines "12,3" and "4,56".
abbrev two_lines : List Line
two_lines =
    record { first = 49 ∷ 50 ∷ []; others = (51 ∷ []) ∷ [] }
    ∷ record { first = 52 ∷ []; others = (53 ∷ 54 ∷ []) ∷ [] }
    ∷ []

abbrev two_vectors : List (List ℕ)
two_vectors = [] ∷ [] ∷ []

two_lines-AllLines : AllLines comma 2 two_lines
two_lines-AllLines = (
  (refl, (refl, (refl, tt)), ((refl, tt), tt)),
  ((refl, (refl, tt), ((refl, (refl, tt)), tt)), tt),
)

read_csv-file_of_example :
    read_csv at_depth comma (file_of comma two_lines) two_vectors
    ≡ some (push_lines comma at_depth two_vectors two_lines)
read_csv-file_of_example = read_csv-file_of comma at_depth two_lines two_vectors two_lines-AllLines

-- The first line, which the second one follows.
tokenize-line_example :
    tokenize
      (text_from comma (49 ∷ 50 ∷ []) ((51 ∷ []) ∷ []) ++ (52 ∷ 10 ∷ []))
      20
      (replicate 2 null_token)
      2
      comma
    ≡ some (
      tokens_from comma (49 ∷ 50 ∷ []) ((51 ∷ []) ∷ []) (52 ∷ 10 ∷ []),
      length (text_from comma (49 ∷ 50 ∷ []) ((51 ∷ []) ∷ [])),
    )
tokenize-line_example =
    tokenize-line comma (49 ∷ 50 ∷ []) ((51 ∷ []) ∷ []) (52 ∷ 10 ∷ []) 20 (replicate 2 null_token)
      (refl, (refl, tt)) ((refl, tt), tt) refl (omega arith)

abbrev file : List ℕ
file = 49 ∷ 50 ∷ 44 ∷ 51 ∷ 10 ∷ 52 ∷ 44 ∷ 53 ∷ 54 ∷ 10 ∷ []

two-values : read_csv at_depth comma file two_vectors ≡ some ((12 ∷ 4 ∷ []) ∷ (3 ∷ 56 ∷ []) ∷ [])
unfolding read_csv read_lines tokenize tokenize_loop last_token scan scan_char parse_line text_of
two-values = refl

-- With a newline missing at the end, the second line is read past the mapping.
without-newline : read_csv at_depth comma (49 ∷ 44 ∷ 51 ∷ 10 ∷ 52 ∷ 44 ∷ 53 ∷ []) two_vectors ≡ none
unfolding read_csv read_lines tokenize tokenize_loop last_token scan scan_char parse_line text_of
without-newline = refl

-- The four tokens in one batch, and in batches of three, of which the second is not full.
one-batch :
    read_csv_matrix value 0 comma file 10 (record { raw = []; x_dim = 0; y_dim = 0 })
    ≡ some (record { raw = 12 ∷ 4 ∷ 3 ∷ 56 ∷ []; x_dim = 2; y_dim = 2 })
unfolding read_csv_matrix read_csv_vectors read_batches tokenize_vector tokenize_loop last_token
    scan scan_char parse_tokens text_of line_size same_length fill_columns fill_column resize
    resize_vector assign position
one-batch = refl

two-batches : read_csv_vectors value comma file 3 [] ≡ none
unfolding read_csv_vectors read_batches tokenize_vector tokenize_loop last_token scan scan_char
    parse_tokens text_of line_size same_length resize_vector
two-batches = refl
