-- ===== src/Csv/RoundTrip.antt =====
-- `read_csv` of a file of lines of equally many fields.
use cl_kmeans.Prelude.{
  ℕ, zero, suc, ◌+◌, ◌<◌, true, false, List, [], ◌∷◌, ◌++◌, some, ◌≡◌, refl, ◌∙◌, ap, sym, subst,
  arith, ltb, ◌==◌, length, length-append, length-replicate, replicate,
}
use cl_kmeans.Csv.Tokens.{Token, tokenize}
use cl_kmeans.Csv.Files.{drop, null_token, parse_line, read_lines, read_csv}
use cl_kmeans.Csv.Scanning.{Line, fields, IsClean, AllClean, text_from, tokens_from}
use cl_kmeans.Csv.Lines.{tokenize-line, push_fields, parse_line-tokens}

drop-append : (cs rest : List ℕ) → drop (length cs) (cs ++ rest) ≡ rest
drop-append [] rest = refl
drop-append (c ∷ cs) rest = drop-append cs rest

length-tokens_from :
    (delimiter : ℕ) (f : List ℕ) (fs : List (List ℕ)) (rest : List ℕ)
    → length (tokens_from delimiter f fs rest) ≡ suc (length fs)
length-tokens_from delimiter f [] rest = refl
length-tokens_from delimiter f (g ∷ gs) rest = ap suc (length-tokens_from delimiter g gs rest)

text_from-some :
    (delimiter : ℕ) (f : List ℕ) (fs : List (List ℕ)) → 0 < length (text_from delimiter f fs)
text_from-some delimiter f [] = omega (arith, length-append f (10 ∷ []))
text_from-some delimiter f (g ∷ gs) =
    omega (arith, length-append f (delimiter ∷ text_from delimiter g gs))

module _ (delimiter : ℕ) where
  -- The characters of a file.
  unfoldable pub file_of : List Line → List ℕ
  file_of [] = []
  file_of (l ∷ ls) = text_from delimiter l.first l.others ++ file_of ls

  -- Lines of `n` fields without delimiters and newlines.
  abbrev pub AllLines : (n : ℕ) → List Line → Type 0
  AllLines n [] = Unit
  AllLines n (l ∷ ls) =
      ((suc (length l.others) ≡ n) × IsClean delimiter l.first × AllClean delimiter l.others)
      × AllLines n ls

  module _ {V : Type 0} (parse : (depth : ℕ) → List ℕ → V) where
    -- The vectors with the values of the lines, line by line.
    unfoldable pub push_lines : List (List V) → List Line → List (List V)
    push_lines vectors [] = vectors
    push_lines vectors (l ∷ ls) = push_lines (push_fields parse 0 vectors (fields l)) ls

    length-push_fields :
        (depth : ℕ) (vectors : List (List V)) (fs : List (List ℕ))
        → length (push_fields parse depth vectors fs) ≡ length vectors
    unfolding push_fields
    length-push_fields depth [] fs = refl
    length-push_fields depth (vec ∷ vectors) [] = refl
    length-push_fields depth (vec ∷ vectors) (f ∷ fs) =
        ap suc (length-push_fields (suc depth) vectors fs)

    read_lines_lem :
        (ls : List Line) (fuel file_size file_offset : ℕ) (tokens : List Token)
        (vectors : List (List V))
        → AllLines (length vectors) ls
        → length (file_of ls) < fuel
        → file_offset + length (file_of ls) ≡ file_size
        → length tokens ≡ length vectors
        → read_lines parse delimiter fuel file_size file_offset (file_of ls) tokens vectors
          ≡ some (push_lines vectors ls)
    unfolding read_lines file_of push_lines
    read_lines_lem ls zero file_size file_offset tokens vectors clean more here room =
        absurd (omega (arith, more))
    read_lines_lem [] (suc fuel) file_size file_offset tokens vectors clean more here room =
        let done : ltb file_offset file_size ≡ false = ground (arith, here) in rw done refl
    read_lines_lem (l ∷ ls) (suc fuel) file_size file_offset tokens vectors ((n, c, cs), clean) more
          here room =
        let line : List ℕ = text_from delimiter l.first l.others in
        let rest : List ℕ = file_of ls in
        let long : length (line ++ rest) ≡ length line + length rest = length-append line rest in
        let some_char : 0 < length line = text_from-some delimiter l.first l.others in
        let going : ltb file_offset file_size ≡ true = ground (arith, here, long, some_char) in
        let taken : (length line == 0) ≡ false = ground (arith, some_char) in
        let tokenized : tokenize (line ++ rest) file_size tokens (length vectors) delimiter
            ≡ some (tokens_from delimiter l.first l.others rest, length line) =
          ap (λ k. tokenize (line ++ rest) file_size tokens k delimiter) (sym n)
          ∙ tokenize-line delimiter l.first l.others rest file_size tokens c cs (room ∙ sym n)
              (omega (arith, here, long)) in
        let parsed : parse_line parse 0 (tokens_from delimiter l.first l.others rest) vectors
            ≡ some (push_fields parse 0 vectors (fields l)) =
          parse_line-tokens parse delimiter l.first l.others rest vectors (sym n) in
        let same : length (push_fields parse 0 vectors (fields l)) ≡ length vectors =
          length-push_fields 0 vectors (fields l) in
        rw going (
          rw tokenized (
            rw taken (
              rw parsed (
                rw (drop-append line rest) (
                  read_lines_lem ls fuel file_size (file_offset + length line)
                    (tokens_from delimiter l.first l.others rest)
                    (push_fields parse 0 vectors (fields l))
                    (subst (λ k. AllLines k ls) (sym same) clean)
                    (omega (arith, more, long, some_char)) (omega (arith, here, long))
                    (length-tokens_from delimiter l.first l.others rest ∙ n ∙ sym same))))))

    -- Where each line has as many fields as there are vectors, none of them with the delimiter or
    -- a newline, and each line ends with a newline: `read_csv` of the file ends and puts the value
    -- of each field at the end of its vector, line by line.
    pub read_csv-file_of :
        (ls : List Line) (vectors : List (List V))
        → AllLines (length vectors) ls
        → read_csv parse delimiter (file_of ls) vectors ≡ some (push_lines vectors ls)
    unfolding read_csv
    read_csv-file_of ls vectors clean =
        read_lines_lem ls (suc (length (file_of ls))) (length (file_of ls)) 0
          (replicate (length vectors) null_token) vectors clean (omega arith) (omega arith)
          (length-replicate (length vectors) null_token)
