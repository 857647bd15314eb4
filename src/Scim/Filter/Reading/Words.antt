-- ===== src/Scim/Filter/Reading/Words.antt =====
-- What the lexer reads off the front of a printed text: names, operators and keywords.
use oad.Base.{ℕ, suc, ◌+◌, ◌≡◌, refl, ◌∙◌, true, false, [], ◌∷◌, ◌++◌, length, All, arith, ◌==◌, ok}
use oad.Scim.Text.{Text, text, is_letter, is_digit}
use oad.Scim.Lexer.{
  CompareOp, eq, ne, co, sw, ew, LogicOp, logic_and, logic_or, Token, ident, pr, op, token_at,
  keyword, lex,
}
use oad.Scim.Filter.Print.{is_ident_part, Ends, IsName, op_text, logic_text}
use oad.Scim.Filter.Reading.{
  Stops, ident-Stops, letter-not-space, read, read-lex, scan_while-append,
}

letter-no-mark :
    (c : ℕ)
    → is_letter c ≡ true
    → ((c == 40) ≡ false) × ((c == 41) ≡ false) × ((c == 46) ≡ false) × ((c == 34) ≡ false)
unfolding is_letter
letter-no-mark c h = (ground arith, ground arith, ground arith, ground arith)

lex-word :
    (c : ℕ) (s rest : Text) (pos : ℕ)
    → is_letter c ≡ true
    → All (λ d. is_ident_part d ≡ true) s
    → Stops is_ident_part rest
    → lex (c ∷ (s ++ rest)) pos ≡ ok (token_at pos (keyword (c ∷ s)) rest (pos + length (c ∷ s)))
unfolding lex
lex-word c s rest pos hc hs hr =
    let t = letter-no-mark c hc in
    let e : pos + 1 + length s ≡ pos + suc (length s) = omega arith in
    rw (t.0, t.1, t.2, t.3, hc, scan_while-append is_ident_part s rest (pos + 1) hs hr, e)

read-word :
    (c : ℕ) (s rest : Text) (pos : ℕ)
    → is_letter c ≡ true
    → All (λ d. is_ident_part d ≡ true) s
    → Stops is_ident_part rest
    → read (c ∷ (s ++ rest)) pos ≡ ok (token_at pos (keyword (c ∷ s)) rest (pos + length (c ∷ s)))
read-word c s rest pos hc hs hr =
    read-lex c (s ++ rest) pos (letter-not-space c hc) ∙ lex-word c s rest pos hc hs hr

-- A name is read whole, also before a dot.
pub read-IsName :
    (s rest : Text) (pos : ℕ)
    → IsName s
    → Stops is_ident_part rest
    → read (s ++ rest) pos ≡ ok (token_at pos (ident s) rest (pos + length s))
read-IsName s rest pos h k =
    let e = h.parts in
    let w = read-word h.head h.tail rest pos h.letter h.rest k in
    let p : keyword (h.head ∷ h.tail) ≡ ident s = rw (← e) h.plain in rw e (w ∙ rw p (rw e))

pub read-op :
    (o : CompareOp) (rest : Text) (pos : ℕ)
    → Ends rest
    → read (op_text o ++ rest) pos ≡ ok (token_at pos (op o) rest (pos + length (op_text o)))
unfolding keyword is_letter is_digit
read-op eq rest pos h = read-word 101 (113 ∷ []) rest pos refl (refl, tt) (ident-Stops rest h)
read-op ne rest pos h = read-word 110 (101 ∷ []) rest pos refl (refl, tt) (ident-Stops rest h)
read-op co rest pos h = read-word 99 (111 ∷ []) rest pos refl (refl, tt) (ident-Stops rest h)
read-op sw rest pos h = read-word 115 (119 ∷ []) rest pos refl (refl, tt) (ident-Stops rest h)
read-op ew rest pos h = read-word 101 (119 ∷ []) rest pos refl (refl, tt) (ident-Stops rest h)

pub read-logic :
    (o : LogicOp) (rest : Text) (pos : ℕ)
    → Ends rest
    → read (logic_text o ++ rest) pos
      ≡ ok (token_at pos (Token.logic o) rest (pos + length (logic_text o)))
unfolding keyword is_letter is_digit
read-logic logic_and rest pos h =
    read-word 97 (110 ∷ 100 ∷ []) rest pos refl (refl, (refl, tt)) (ident-Stops rest h)
read-logic logic_or rest pos h =
    read-word 111 (114 ∷ []) rest pos refl (refl, tt) (ident-Stops rest h)

pub read-pr :
    (rest : Text) (pos : ℕ)
    → Ends rest
    → read (text "pr" ++ rest) pos ≡ ok (token_at pos pr rest (pos + 2))
unfolding keyword is_letter is_digit
read-pr rest pos h = read-word 112 (114 ∷ []) rest pos refl (refl, tt) (ident-Stops rest h)

pub read-bool-true :
    (rest : Text) (pos : ℕ)
    → Ends rest
    → read (text "true" ++ rest) pos ≡ ok (token_at pos (Token.bool true) rest (pos + 4))
unfolding keyword is_letter is_digit
read-bool-true rest pos h =
    read-word 116 (114 ∷ 117 ∷ 101 ∷ []) rest pos refl (refl, (refl, (refl, tt)))
      (ident-Stops rest h)

pub read-bool-false :
    (rest : Text) (pos : ℕ)
    → Ends rest
    → read (text "false" ++ rest) pos ≡ ok (token_at pos (Token.bool false) rest (pos + 5))
unfolding keyword is_letter is_digit
read-bool-false rest pos h =
    read-word 102 (97 ∷ 108 ∷ 115 ∷ 101 ∷ []) rest pos refl (refl, (refl, (refl, (refl, tt))))
      (ident-Stops rest h)

pub read-null :
    (rest : Text) (pos : ℕ)
    → Ends rest
    → read (text "null" ++ rest) pos ≡ ok (token_at pos Token.null rest (pos + 4))
unfolding keyword is_letter is_digit
read-null rest pos h =
    read-word 110 (117 ∷ 108 ∷ 108 ∷ []) rest pos refl (refl, (refl, (refl, tt)))
      (ident-Stops rest h)
