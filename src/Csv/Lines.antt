-- ===== src/Csv/Lines.antt =====
-- One line through `tokenize` and `parse_line` of csv.hpp.
use cl_kmeans.Prelude.{
  ℕ, ◌-◌, zero, suc, ◌+◌, ◌≤◌, true, false, List, [], ◌∷◌, ◌++◌, some, ◌≡◌, refl, Bool-cases, inl,
  inr, ◌∙◌, ap, sym, arith, ltb, ◌==◌, length, length-append, append_assoc, get_elem?,
}
use cl_kmeans.Csv.Tokens.{newline, Token, Scan, last_token, tokenize_loop, tokenize}
use cl_kmeans.Csv.Files.{text_of, parse_line}
use cl_kmeans.Csv.Scanning.{IsClean, AllClean, text_from, tokens_from, at_begin, scan_line}

last_token_full : (buffer_size num : ℕ) (s : Scan) → num ≤ s.t → last_token buffer_size num s ≡ s
unfolding last_token
last_token_full buffer_size num s h =
    let full : ltb s.t num ≡ false = ground (arith, h) in
    elim (Bool-cases (s.offset == buffer_size)) [ inl e ↦ rw (e, full) refl | inr e ↦ rw e refl ]

-- `tokenize` of a line whose fields are without delimiters and newlines, in a buffer that is at
-- least as long and into as many tokens as there are fields, makes a token of each field, and takes
-- the line's characters.
pub tokenize-line :
    (delimiter : ℕ) (f : List ℕ) (fs : List (List ℕ)) (rest : List ℕ) (buffer_size : ℕ)
    (tokens : List Token)
    → IsClean delimiter f
    → AllClean delimiter fs
    → length tokens ≡ suc (length fs)
    → length (text_from delimiter f fs) ≤ buffer_size
    → tokenize (text_from delimiter f fs ++ rest) buffer_size tokens (suc (length fs)) delimiter
      ≡ some (tokens_from delimiter f fs rest, length (text_from delimiter f fs))
unfolding tokenize tokenize_loop
tokenize-line delimiter f fs rest buffer_size tokens clean cleans room fits =
    let counted : (suc (length fs) == suc (length fs)) ≡ true = ground arith in
    rw
      (scan_line delimiter (suc (length fs)) f fs rest buffer_size
        (buffer_size - length (text_from delimiter f fs)) 0 0 [] tokens clean cleans (omega arith)
        refl room (omega (arith, fits)))
      (rw
        (last_token_full buffer_size (suc (length fs))
          (at_begin delimiter rest (0 + length (text_from delimiter f fs)) (suc (length fs))
            (tokens_from delimiter f fs rest))
          (omega arith))
        (rw counted (ap (λ k. some (tokens_from delimiter f fs rest, k)) (omega arith))))

-- The characters of a token that the field begins.
pub text_of-append : (f rest : List ℕ) → text_of (f ++ rest) (length f) ≡ some f
unfolding text_of
text_of-append [] rest = refl
text_of-append (c ∷ f) rest = rw (text_of-append f rest) refl

get_elem?_middle {ℓ} :
    {A : Type ℓ} (us vs : List A) (v : A) (n : ℕ)
    → length us ≡ n
    → get_elem? (us ++ v ∷ vs) n ≡ some v
get_elem?_middle [] vs v zero e = refl
get_elem?_middle [] vs v (suc n) e = absurd (omega (arith, e))
get_elem?_middle (u ∷ us) vs v zero e = absurd (omega (arith, e))
get_elem?_middle (u ∷ us) vs v (suc n) e = get_elem?_middle us vs v n (omega (arith, e))

text_of-text_from :
    (delimiter : ℕ) (f : List ℕ) (fs : List (List ℕ)) (rest : List ℕ)
    → text_of (text_from delimiter f fs ++ rest) (length f) ≡ some f
text_of-text_from delimiter f [] rest =
    rw (append_assoc f (newline ∷ []) rest) (text_of-append f (newline ∷ rest))
text_of-text_from delimiter f (g ∷ gs) rest =
    rw (append_assoc f (delimiter ∷ text_from delimiter g gs) rest)
      (text_of-append f (delimiter ∷ (text_from delimiter g gs ++ rest)))

module _ {V : Type 0} (parse : (depth : ℕ) → List ℕ → V) where
  -- The values of a line's fields, each at the end of its vector.
  unfoldable pub push_fields : (depth : ℕ) → List (List V) → List (List ℕ) → List (List V)
  push_fields depth [] fs = []
  push_fields depth (vec ∷ vectors) [] = vec ∷ vectors
  push_fields depth (vec ∷ vectors) (f ∷ fs) =
      (vec ++ parse depth f ∷ []) ∷ push_fields (suc depth) vectors fs

  parse_line_from :
      (delimiter depth : ℕ) (f : List ℕ) (fs : List (List ℕ)) (rest : List ℕ) (done : List Token)
      (vectors : List (List V))
      → length done ≡ depth
      → length vectors ≡ suc (length fs)
      → parse_line parse depth (done ++ tokens_from delimiter f fs rest) vectors
        ≡ some (push_fields depth vectors (f ∷ fs))
  unfolding parse_line push_fields
  parse_line_from delimiter depth f fs rest done [] count size = absurd (omega (arith, size))
  parse_line_from delimiter depth f [] rest done (vec ∷ vec' ∷ vs) count size =
      absurd (omega (arith, size))
  parse_line_from delimiter depth f [] rest done (vec ∷ []) count size =
      let token : Token = (text_from delimiter f [] ++ rest, length f) in
      rw (get_elem?_middle done [] token depth count)
        (rw (text_of-text_from delimiter f [] rest) refl)
  parse_line_from delimiter depth f (g ∷ gs) rest done (vec ∷ vectors) count size =
      let token : Token = (text_from delimiter f (g ∷ gs) ++ rest, length f) in
      let next : parse_line parse (suc depth) (done ++ tokens_from delimiter f (g ∷ gs) rest)
            vectors
          ≡ some (push_fields (suc depth) vectors (g ∷ gs)) =
        ap (λ ts. parse_line parse (suc depth) ts vectors)
          (sym (append_assoc done (token ∷ []) (tokens_from delimiter g gs rest)))
        ∙ parse_line_from delimiter (suc depth) g gs rest (done ++ token ∷ []) vectors
            (length-append done (token ∷ []) ∙ omega (arith, count)) (omega (arith, size)) in
      rw (get_elem?_middle done (tokens_from delimiter g gs rest) token depth count)
        (rw (text_of-text_from delimiter f (g ∷ gs) rest) (rw next refl))

  -- `parse_line` of the tokens of a line.
  pub parse_line-tokens :
      (delimiter : ℕ) (f : List ℕ) (fs : List (List ℕ)) (rest : List ℕ) (vectors : List (List V))
      → length vectors ≡ suc (length fs)
      → parse_line parse 0 (tokens_from delimiter f fs rest) vectors
        ≡ some (push_fields 0 vectors (f ∷ fs))
  parse_line-tokens delimiter f fs rest vectors size =
      parse_line_from delimiter 0 f fs rest [] vectors refl size
