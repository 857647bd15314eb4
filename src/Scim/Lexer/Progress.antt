-- ===== src/Scim/Lexer/Progress.antt =====
-- Each call of the lexer consumes input: the measure on which the parser's loops end.
use oad.Base.{
  ℕ, ◌+◌, ◌≤◌, ◌≡◌, ◌≢◌, Bool, [], ◌∷◌, length, arith, ◌==◌, ◌||◌, Result, ok, err, ◌>>=◌,
}
use oad.Scim.Text.{Text, is_letter, is_digit, is_space}
use oad.Scim.Lexer.{
  Token, eof, Fault, invalid, out_of_fuel, Lexer, Scan, scan_while, read_string, read_number,
  keyword, lex, next,
}

-- What is left to read, the current token included.
abbrev pub ahead : Token → ℕ
ahead eof = 0
ahead _ = 1

abbrev pub measure : Lexer → ℕ
measure l = length l.rest + ahead l.tok

-- The call did not run out of fuel, and what it returns satisfies `P`.
abbrev pub Ensures {ℓ} : {A : Type ℓ} → (A → Type 0) → Result Fault A → Type 0
Ensures P (ok a) = P a
Ensures P (err (invalid pos m)) = Unit
Ensures P (err out_of_fuel) = ⊥

module _ {ℓ} {A : Type ℓ} (P : A → Type 0) where
  pub Ensures-mono :
      (Q : A → Type 0) (r : Result Fault A) → Ensures P r → ((a : A) → P a → Q a) → Ensures Q r
  Ensures-mono Q (ok a) h f = f a h
  Ensures-mono Q (err (invalid pos m)) h f = tt
  Ensures-mono Q (err out_of_fuel) h f = elim h [ ]

  pub Ensures-bind {κ} :
      {B : Type κ} (Q : B → Type 0) (r : Result Fault A) (k : A → Result Fault B)
      → Ensures P r
      → ((a : A) → P a → Ensures Q (k a))
      → Ensures Q (r >>= k)
  Ensures-bind Q (ok a) k h f = f a h
  Ensures-bind Q (err (invalid pos m)) k h f = tt
  Ensures-bind Q (err out_of_fuel) k h f = elim h [ ]

  pub Ensures-ok : (r : Result Fault A) {a : A} → Ensures P r → r ≡ ok a → P a
  Ensures-ok r h e = rw e at h

  pub Ensures-ne : (r : Result Fault A) → Ensures P r → r ≢ err out_of_fuel
  Ensures-ne (ok a) h = cc
  Ensures-ne (err (invalid pos m)) h = cc
  Ensures-ne (err out_of_fuel) h = elim h [ ]

scan_while-le : (p : ℕ → Bool) (cs : Text) (pos : ℕ) → length (scan_while p cs pos).rest ≤ length cs
unfolding scan_while
scan_while-le p [] pos = omega arith
scan_while-le p (c ∷ cs) pos = ground (arith, scan_while-le p cs (pos + 1))

read_string-Ensures :
    (start : ℕ) (cs : Text) (pos : ℕ)
    → Ensures (λ (s : Scan). length s.rest ≤ length cs) (read_string start cs pos)
unfolding read_string
read_string-Ensures start [] pos = tt
read_string-Ensures start (c ∷ []) pos = ground arith
read_string-Ensures start (c ∷ d ∷ cs) pos = ground (
  arith,
  read_string-Ensures start (d ∷ cs) (pos + 1),
  read_string-Ensures start cs (pos + 1 + 1),
)

read_number-Ensures :
    (c : ℕ) (cs : Text) (pos : ℕ)
    → Ensures (λ (s : Scan). length s.rest ≤ length cs) (read_number c cs pos)
unfolding read_number
read_number-Ensures c cs pos =
    ground (arith, scan_while-le (λ d. is_digit d || (d == b'.')) cs (pos + 1))

ahead-le : (t : Token) → ahead t ≤ 1
ahead-le eof = omega arith
ahead-le _ = omega arith

lex-Ensures : (cs : Text) (pos : ℕ) → Ensures (λ (l : Lexer). measure l ≤ length cs) (lex cs pos)
unfolding lex
lex-Ensures [] pos = omega arith
lex-Ensures (c ∷ cs) pos = ground (
  arith,
  read_string-Ensures pos cs (pos + 1),
  read_number-Ensures c cs pos,
  scan_while-le (λ d. is_letter d || (is_digit d || (d == b'_'))) cs (pos + 1),
  ahead-le (
      keyword
        (c ∷ (scan_while (λ d. is_letter d || (is_digit d || (d == b'_'))) cs (pos + 1)).value)),
)

-- A call of `next` needs no fuel, and leaves less than the input that was unread.
pub next-Ensures : (l : Lexer) → Ensures (λ (l' : Lexer). measure l' ≤ length l.rest) (next l)
unfolding next
next-Ensures l =
    let s = scan_while is_space l.rest l.pos in
    Ensures-mono (λ l'. measure l' ≤ length s.rest) _ (lex s.rest s.pos) (lex-Ensures s.rest s.pos)
      (λ l' h. omega (arith, scan_while-le is_space l.rest l.pos))
