-- ===== src/Scim/Filter/Reading.antt =====
-- What the lexer reads off the front of a printed text: single characters and the ends of tokens.
pub mod Words
pub mod Strings
pub mod Numbers
use oad.Base.{
  ==_iff, ℕ, suc, ◌+◌, ◌≡◌, ◌≢◌, refl, ◌∙◌, Bool, true, false, ◌||◌, ◌&&◌, [], ◌∷◌, ◌++◌, length,
  All, arith, ◌==◌, Result, ok, Bool-cases, inl, inr,
}
use oad.Scim.Text.{Text, text, same, is_letter, is_digit, is_space}
use oad.Scim.Lexer.{
  CompareOp, eq, ne, co, sw, ew, LogicOp, logic_and, logic_or, Token, eof, lparen, rparen, dot,
  ident, pr, op, number, Fault, Lexer, push_to, token_at, scan_while, read_string, read_number,
  keyword, lex, next,
}
use oad.Scim.Filter.Print.{
  is_ident_part, is_number_char, Ends, IsName, IsNumber, escape, op_text, logic_text,
}

-- `next`, from the text that is left.
abbrev pub read : Text → ℕ → Result Fault Lexer
read cs pos = next (record { rest = cs; pos = pos; tok = eof; tok_pos = 0 })

pub next-eq-read : (l : Lexer) → next l ≡ read l.rest l.pos
unfolding next
next-eq-read l = refl

pub read-space : (cs : Text) (pos : ℕ) → read (32 ∷ cs) pos ≡ read cs (pos + 1)
unfolding next
read-space cs pos = refl

abbrev pub Stops : (ℕ → Bool) → Text → Type 0
Stops p [] = Unit
Stops p (c ∷ s) = p c ≡ false

pub scan_while-append :
    (p : ℕ → Bool) (s rest : Text) (pos : ℕ)
    → All (λ c. p c ≡ true) s
    → Stops p rest
    → scan_while p (s ++ rest) pos ≡ record { value = s; rest = rest; pos = pos + length s }
unfolding scan_while
scan_while-append p [] [] pos h k = ground arith
scan_while-append p [] (c ∷ rest) pos h k = ground arith
scan_while-append p (c ∷ s) rest pos h k =
    ground (arith, scan_while-append p s rest (pos + 1) h.1 k)

-- A token that starts with `c` is read where no white space precedes it.
pub read-lex :
    (c : ℕ) (cs : Text) (pos : ℕ) → is_space c ≡ false → read (c ∷ cs) pos ≡ lex (c ∷ cs) pos
unfolding next scan_while
read-lex c cs pos h = rw h

pub letter-not-space : (c : ℕ) → is_letter c ≡ true → is_space c ≡ false
unfolding is_letter is_space
letter-not-space c h = ground arith

pub read-lparen : (cs : Text) (pos : ℕ) → read (40 ∷ cs) pos ≡ ok (token_at pos lparen cs (pos + 1))
unfolding next
read-lparen cs pos = refl

pub read-rparen : (cs : Text) (pos : ℕ) → read (41 ∷ cs) pos ≡ ok (token_at pos rparen cs (pos + 1))
unfolding next
read-rparen cs pos = refl

pub read-dot : (cs : Text) (pos : ℕ) → read (46 ∷ cs) pos ≡ ok (token_at pos dot cs (pos + 1))
unfolding next
read-dot cs pos = refl

pub space-Ends : (rest : Text) → Ends (32 ∷ rest)
unfolding is_letter is_digit
space-Ends rest = (refl, refl)

pub rparen-Ends : (rest : Text) → Ends (41 ∷ rest)
unfolding is_letter is_digit
rparen-Ends rest = (refl, refl)

pub dot-Stops : (rest : Text) → Stops is_ident_part (46 ∷ rest)
unfolding is_letter is_digit
dot-Stops rest = refl

pub ident-Stops : (rest : Text) → Ends rest → Stops is_ident_part rest
ident-Stops [] h = tt
ident-Stops (c ∷ s) h = h.0

pub number-Stops : (rest : Text) → Ends rest → Stops is_number_char rest
number-Stops [] h = tt
number-Stops (c ∷ s) h = h.1
