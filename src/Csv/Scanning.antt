-- ===== src/Csv/Scanning.antt =====
-- The loop of `tokenize` over the characters of a line.
use cl_kmeans.Prelude.{
  ℕ, zero, suc, ◌+◌, ◌≤◌, ◌<◌, true, false, List, [], ◌∷◌, ◌++◌, some, ◌≡◌, refl, ◌∙◌, ap, sym,
  arith, ltb, length, length-append, append_assoc, append-nil, modify, modify_middle,
}
use cl_kmeans.Csv.Tokens.{newline, Token, Scan, is_end, scan_char, scan}

-- A line of at least one field.
pub record Line : Type 0 where
  pub first : List ℕ
  pub others : List (List ℕ)

abbrev pub fields : Line → List (List ℕ)
fields l = l.first ∷ l.others

module _ (delimiter : ℕ) where
  -- Without delimiters and newlines.
  abbrev pub IsClean : List ℕ → Type 0
  IsClean [] = Unit
  IsClean (c ∷ cs) = (is_end delimiter c ≡ false) × IsClean cs

  abbrev pub AllClean : List (List ℕ) → Type 0
  AllClean [] = Unit
  AllClean (f ∷ fs) = IsClean f × AllClean fs

  -- The characters of a line.
  abbrev pub text_from : List ℕ → List (List ℕ) → List ℕ
  text_from f [] = f ++ newline ∷ []
  text_from f (g ∷ gs) = f ++ delimiter ∷ text_from g gs

  -- The tokens of a line that `rest` follows.
  abbrev pub tokens_from : List ℕ → List (List ℕ) → (rest : List ℕ) → List Token
  tokens_from f [] rest = (text_from f [] ++ rest, length f) ∷ []
  tokens_from f (g ∷ gs) rest = (text_from f (g ∷ gs) ++ rest, length f) ∷ tokens_from g gs rest

  -- At the begin of a token.
  abbrev pub at_begin : List ℕ → (offset t : ℕ) → List Token → Scan
  at_begin cs offset t tokens = record {
    here = cs;
    begin = cs;
    offset = offset;
    size = 0;
    t = t;
    tokens = tokens;
  }

  module _ (num : ℕ) where
    scan_full : (n : ℕ) (s : Scan) → num ≤ s.t → scan delimiter num n s ≡ some s
    unfolding scan
    scan_full zero s h = refl
    scan_full (suc n) s h = let full : ltb s.t num ≡ false = ground (arith, h) in rw full refl

    scan_field :
        (f cur begin : List ℕ) (n m offset size t : ℕ) (tokens : List Token)
        → IsClean f
        → t < num
        → n ≡ length f + m
        → scan delimiter num n (record {
          here = f ++ cur;
          begin = begin;
          offset = offset;
          size = size;
          t = t;
          tokens = tokens;
        })
          ≡ scan delimiter num m (record {
            here = cur;
            begin = begin;
            offset = offset + length f;
            size = size + length f;
            t = t;
            tokens = tokens;
          })
    unfolding scan scan_char
    scan_field [] cur begin n m offset size t tokens clean h e = λ i.
        scan delimiter num (count i) (record {
          here = cur;
          begin = begin;
          offset = plus_zero offset i;
          size = plus_zero size i;
          t = t;
          tokens = tokens;
        })
      where
        count : n ≡ m
        count = omega (arith, e)

        plus_zero : (k : ℕ) → k ≡ k + 0
        plus_zero k = omega arith
    scan_field (c ∷ f) cur begin zero m offset size t tokens clean h e = absurd (omega (arith, e))
    scan_field (c ∷ f) cur begin (suc n) m offset size t tokens (clean, cleans) h e =
        let going : ltb t num ≡ true = ground (arith, h) in
        rw (going, clean)
          (scan_field f cur begin n m (suc offset) (suc size) t tokens cleans h (omega (arith, e))
            ∙ (λ i. scan delimiter num m (record {
              here = cur;
              begin = begin;
              offset = shift offset i;
              size = shift size i;
              t = t;
              tokens = tokens;
            })))
      where
        shift : (k : ℕ) → suc k + length f ≡ k + suc (length f)
        shift k = omega arith

    scan_end :
        (c : ℕ) (cur begin : List ℕ) (m offset size t : ℕ) (tokens : List Token)
        → is_end delimiter c ≡ true
        → t < num
        → scan delimiter num (suc m) (record {
          here = c ∷ cur;
          begin = begin;
          offset = offset;
          size = size;
          t = t;
          tokens = tokens;
        })
          ≡ scan delimiter num m (record {
            here = cur;
            begin = cur;
            offset = suc offset;
            size = 0;
            t = suc t;
            tokens = modify tokens t (λ _. (begin, size));
          })
    unfolding scan scan_char
    scan_end c cur begin m offset size t tokens h l =
        let going : ltb t num ≡ true = ground (arith, l) in rw (going, h) refl

    -- A field and the character that ends it.
    scan_token :
        (c : ℕ) (f cur begin : List ℕ) (n m offset t : ℕ) (done : List Token) (o : Token)
        (old : List Token)
        → is_end delimiter c ≡ true
        → IsClean f
        → t < num
        → length done ≡ t
        → n ≡ length f + suc m
        → scan delimiter num n (record {
          here = f ++ c ∷ cur;
          begin = begin;
          offset = offset;
          size = 0;
          t = t;
          tokens = done ++ o ∷ old;
        })
          ≡ scan delimiter num m (record {
            here = cur;
            begin = cur;
            offset = offset + suc (length f);
            size = 0;
            t = suc t;
            tokens = (done ++ (begin, length f) ∷ []) ++ old;
          })
    scan_token c f cur begin n m offset t done o old ends clean h count e =
        scan_field f (c ∷ cur) begin n (suc m) offset 0 t (done ++ o ∷ old) clean h e
        ∙ scan_end c cur begin m (offset + length f) (0 + length f) t (done ++ o ∷ old) ends h
        ∙ (λ i. scan delimiter num m (record {
          here = cur;
          begin = cur;
          offset = next i;
          size = 0;
          t = suc t;
          tokens = stored i;
        }))
      where
        next : suc (offset + length f) ≡ offset + suc (length f)
        next = omega arith

        size : 0 + length f ≡ length f
        size = omega arith

        stored :
            modify (done ++ o ∷ old) t (λ _. (begin, 0 + length f))
            ≡ (done ++ (begin, length f) ∷ []) ++ old
        stored =
            ap (λ k. modify (done ++ o ∷ old) t (λ _. (begin, k))) size
            ∙ ap (λ k. modify (done ++ o ∷ old) k (λ _. (begin, length f))) (sym count)
            ∙ modify_middle done old o (begin, length f)
            ∙ sym (append_assoc done ((begin, length f) ∷ []) old)

    newline_ends : is_end delimiter newline ≡ true
    newline_ends = ground arith

    delimiter_ends : is_end delimiter delimiter ≡ true
    delimiter_ends = ground arith

    regroup :
        (begin : List ℕ) (n offset t : ℕ) (tokens : List Token) {cs cs' : List ℕ}
        → cs ≡ cs'
        → scan delimiter num n
            (record { here = cs; begin = begin; offset = offset; size = 0; t = t; tokens = tokens })
          ≡ scan delimiter num n (record {
            here = cs';
            begin = begin;
            offset = offset;
            size = 0;
            t = t;
            tokens = tokens;
          })
    regroup begin n offset t tokens e = λ i.
        scan delimiter num n
          (record { here = e i; begin = begin; offset = offset; size = 0; t = t; tokens = tokens })

    scanned :
        (rest : List ℕ) {offset offset' t t' : ℕ} {tokens tokens' : List Token}
        → offset ≡ offset'
        → t ≡ t'
        → tokens ≡ tokens'
        → some (at_begin rest offset t tokens) ≡ some (at_begin rest offset' t' tokens')
    scanned rest o e k = λ i. some (at_begin rest (o i) (e i) (k i))

    pub scan_line :
        (f : List ℕ) (fs : List (List ℕ)) (rest : List ℕ) (n m offset t : ℕ) (done old : List Token)
        → IsClean f
        → AllClean fs
        → t + suc (length fs) ≡ num
        → length done ≡ t
        → length old ≡ suc (length fs)
        → n ≡ length (text_from f fs) + m
        → scan delimiter num n (record {
          here = text_from f fs ++ rest;
          begin = text_from f fs ++ rest;
          offset = offset;
          size = 0;
          t = t;
          tokens = done ++ old;
        })
          ≡ some (record {
            here = rest;
            begin = rest;
            offset = offset + length (text_from f fs);
            size = 0;
            t = num;
            tokens = done ++ tokens_from f fs rest;
          })
    scan_line f fs rest n m offset t done [] clean cleans h count room e =
        absurd (omega (arith, room))
    scan_line f [] rest n m offset t done (o ∷ o' ∷ old) clean cleans h count room e =
        absurd (omega (arith, room))
    scan_line f [] rest n m offset t done (o ∷ []) clean cleans h count room e =
        let long : length (f ++ newline ∷ []) ≡ length f + 1 = length-append f (newline ∷ []) in
        let begin = text_from f [] ++ rest in
        regroup begin n offset t (done ++ o ∷ []) (append_assoc f (newline ∷ []) rest)
        ∙ scan_token newline f rest begin n m offset t done o [] newline_ends clean
            (omega (arith, h)) count (omega (arith, e, long))
        ∙ scan_full m _ (omega (arith, h))
        ∙ scanned rest (omega (arith, long)) (omega (arith, h))
            (append-nil (done ++ (begin, length f) ∷ []))
    scan_line f (g ∷ gs) rest n m offset t done (o ∷ old) clean (cl, cls) h count room e =
        let long : length (f ++ delimiter ∷ text_from g gs)
            ≡ length f + suc (length (text_from g gs)) =
          length-append f (delimiter ∷ text_from g gs) in
        let begin = text_from f (g ∷ gs) ++ rest in
        regroup begin n offset t (done ++ o ∷ old)
          (append_assoc f (delimiter ∷ text_from g gs) rest)
        ∙ scan_token delimiter f (text_from g gs ++ rest) begin n (length (text_from g gs) + m)
            offset t done o old delimiter_ends clean (omega (arith, h)) count
            (omega (arith, e, long))
        ∙ scan_line g gs rest (length (text_from g gs) + m) m (offset + suc (length f)) (suc t)
            (done ++ (begin, length f) ∷ []) old cl cls (omega (arith, h))
            (length-append done ((begin, length f) ∷ []) ∙ omega (arith, count))
            (omega (arith, room)) refl
        ∙ scanned rest (omega (arith, long)) refl
            (append_assoc done ((begin, length f) ∷ []) (tokens_from g gs rest))
