-- ===== src/Scim/Filter/RoundTrip.antt =====
-- What the printer has written, the parser of internal/scim/parser/filter.go reads back.
mod Comparisons
mod Joins
use oad.Base.{
  ℕ, zero, suc, ◌+◌, ◌≤◌, ◌<◌, ◌≡◌, refl, sym, ap, ◌∙◌, Bool, true, false, Option, [], ◌∷◌, ◌++◌,
  append_assoc, append-nil, length, length-append, arith, Result, ok, err, ◌>>=◌, >>=-assoc,
  >>=-congr, if◌then◌else◌,
}
use oad.Scim.Text.{Text, text}
use oad.Scim.Lexer.{
  LogicOp, logic_and, logic_or, Token, ident, Fault, Lexer, token_at, next, invalid,
  expected_rparen, trailing_tokens, eof,
}
use oad.Scim.Lexer.Progress.{measure}
use oad.Scim.Filter.{
  Expr, compare, present, logic, Parser, is_logic, is_lparen, is_rparen, is_eof, join, advance,
  comparison, atom, parse_or, parse,
}
use oad.Scim.Filter.Total.{join-Consumes, atom-Consumes, parse_or-Consumes}
use oad.Scim.Filter.Print.{
  Ends, IsAttr, name, path, Level, at_or, at_and, at_atom, parens, joined, print_at, print,
  IsPrintable,
}
use oad.Scim.Filter.Reading.{
  read, next-eq-read, read-space, read-lparen, read-rparen, space-Ends, rparen-Ends, dot-Stops,
}
use oad.Scim.Filter.Reading.Words.{read-IsName, read-logic}
use Comparisons.{read_compare, read_present}
use Joins.{loop, loop-stops, loop-step}

attr_not_lparen :
    (a rest : Text) (pos : ℕ) (l : Lexer)
    → IsAttr a
    → read (a ++ (32 ∷ rest)) pos ≡ ok l
    → is_lparen l.tok ≡ false
attr_not_lparen a rest pos l (name {s} h) e =
    ground (arith, read-IsName s (32 ∷ rest) pos h (space-Ends rest).0)
attr_not_lparen a rest pos l (path {s} {t} hs ht) e = ground (
  arith,
  append_assoc s (46 ∷ t) (32 ∷ rest),
  read-IsName s (46 ∷ (t ++ (32 ∷ rest))) pos hs (dot-Stops (t ++ (32 ∷ rest))),
)

-- No "and" comes next.
abbrev Follows : Text → Type 0
Follows rest = (pos : ℕ) (l : Lexer) → read rest pos ≡ ok l → is_logic logic_and l.tok ≡ false

or-Follows : (rest : Text) → Follows (32 ∷ (text "or" ++ (32 ∷ rest)))
or-Follows rest pos l e = ground (
  arith,
  read-space (text "or" ++ (32 ∷ rest)) pos,
  read-logic logic_or (32 ∷ rest) (pos + 1) (space-Ends rest),
)

rparen-Follows : (rest : Text) → Follows (41 ∷ rest)
rparen-Follows rest pos l e = ground (arith, read-rparen rest pos)

nil-Follows : Follows []
unfolding next
nil-Follows pos l e = ground arith

module _ {F : Type 0} (parse_float : Text → Option F) where
  abbrev atom_at : ℕ → Parser (Expr F)
  atom_at n = atom parse_float (parse_or parse_float n)

  abbrev and_at : ℕ → Parser (Expr F)
  and_at n = join logic_and (atom_at n)

  -- The printed text `s` is read as `e`, before any `rest` that may follow it.
  abbrev ReadsAtom : Text → Expr F → Type 0
  ReadsAtom s e =
      (n : ℕ) (rest : Text) (pos : ℕ)
      → Ends rest
      → length (s ++ rest) ≤ n
      → (read (s ++ rest) pos >>= atom_at n) ≡ (read rest (pos + length s) >>= λ l. ok (e, l))

  abbrev ReadsAnd : Text → Expr F → Type 0
  ReadsAnd s e =
      (n : ℕ) (rest : Text) (pos : ℕ)
      → Ends rest
      → length (s ++ rest) ≤ n
      → (read (s ++ rest) pos >>= and_at n)
        ≡ (read rest (pos + length s) >>= loop logic_and (atom_at n) e)

  abbrev ReadsOr : Text → Expr F → Type 0
  ReadsOr s e =
      (n : ℕ) (rest : Text) (pos : ℕ)
      → Ends rest
      → Follows rest
      → length (s ++ rest) ≤ n
      → (read (s ++ rest) pos >>= join logic_or (and_at n))
        ≡ (read rest (pos + length s) >>= loop logic_or (and_at n) e)

  and_of_atom : (s : Text) (e : Expr F) → ReadsAtom s e → ReadsAnd s e
  unfolding join
  and_of_atom s e h n rest pos hr b =
      let then_loop : Expr F × Lexer → Result Fault (Expr F × Lexer) =
        λ (left, l). loop logic_and (atom_at n) left l in
      sym (>>=-assoc (read (s ++ rest) pos) (atom_at n) then_loop)
      ∙ ap (λ r. r >>= then_loop) (h n rest pos hr b)
      ∙ >>=-assoc (read rest (pos + length s)) (λ l. ok (e, l)) then_loop

  or_of_and : (s : Text) (e : Expr F) → ReadsAnd s e → ReadsOr s e
  unfolding join
  or_of_and s e h n rest pos hr hf b =
      let then_loop : Expr F × Lexer → Result Fault (Expr F × Lexer) =
        λ (left, l). loop logic_or (and_at n) left l in
      sym (>>=-assoc (read (s ++ rest) pos) (and_at n) then_loop)
      ∙ ap (λ r. r >>= then_loop) (h n rest pos hr b)
      ∙ >>=-assoc (read rest (pos + length s)) (loop logic_and (atom_at n) e) then_loop
      ∙ >>=-congr (read rest (pos + length s)) _ _
          (λ l k. rw (loop-stops logic_and (atom_at n) e l (hf (pos + length s) l k)))

  atom_of_or : (s : Text) (e : Expr F) → ReadsOr s e → ReadsAtom (parens s) e
  unfolding atom parse_or
  atom_of_or s e h zero rest pos hr b = absurd (omega arith)
  atom_of_or s e h (suc n) rest pos hr b =
      let close : Expr F × Lexer → Result Fault (Expr F × Lexer) = λ (x, l).
        if is_rparen l.tok then advance x l else err (invalid l.tok_pos expected_rparen) in
      let inner = join logic_or (and_at n) in
      let p : pos + 1 + length s + 1 ≡ pos + length (parens s) =
        omega (arith, length-append s (41 ∷ [])) in
      let k = ap length (append_assoc s (41 ∷ []) rest) in
      rw (append_assoc, read-lparen, next-eq-read)
        (sym (>>=-assoc (read (s ++ (41 ∷ rest)) (pos + 1)) inner close)
          ∙ ap (λ r. r >>= close)
              (h n (41 ∷ rest) (pos + 1) (rparen-Ends rest) (rparen-Follows rest) (omega arith))
          ∙ rw (read-rparen, next-eq-read, p))

  and_node :
      (s t : Text) (l r : Expr F)
      → ReadsAnd s l
      → ReadsAtom t r
      → ReadsAnd (joined logic_and s t) (logic logic_and l r)
  and_node s t l r hl ht n rest pos hr b =
      let word = text "and" ++ (32 ∷ (t ++ rest)) in
      let tail = 32 ∷ word in
      let e : joined logic_and s t ++ rest ≡ s ++ tail = simp append_assoc in
      let k = ap length e in
      let p : pos + length s + length (32 ∷ (text "and" ++ (32 ∷ t)))
          ≡ pos + length (joined logic_and s t) =
        omega (arith, length-append s (32 ∷ (text "and" ++ (32 ∷ t)))) in
      rw e (
        hl n tail pos (space-Ends word) (omega arith)
        ∙ loop-step logic_and (atom_at n) n
            (atom-Consumes parse_float (parse_or parse_float n) n (parse_or-Consumes parse_float n))
            l r t rest (pos + length s) (omega (arith, length-append s tail))
            (λ q. ht n rest q hr (omega (arith, length-append s tail)))
        ∙ rw p)

  or_node :
      (s t : Text) (l r : Expr F)
      → ReadsOr s l
      → ReadsAnd t r
      → ReadsOr (joined logic_or s t) (logic logic_or l r)
  or_node s t l r hl ht n rest pos hr hf b =
      let word = text "or" ++ (32 ∷ (t ++ rest)) in
      let tail = 32 ∷ word in
      let e : joined logic_or s t ++ rest ≡ s ++ tail = simp append_assoc in
      let k = ap length e in
      let p : pos + length s + length (32 ∷ (text "or" ++ (32 ∷ t)))
          ≡ pos + length (joined logic_or s t) =
        omega (arith, length-append s (32 ∷ (text "or" ++ (32 ∷ t)))) in
      rw e (
        hl n tail pos (space-Ends word) (or-Follows (t ++ rest)) (omega arith)
        ∙ loop-step logic_or (and_at n) n
            (join-Consumes logic_and (atom_at n) n (
              atom-Consumes parse_float (parse_or parse_float n) n
                (parse_or-Consumes parse_float n)))
            l r t rest (pos + length s) (omega (arith, length-append s tail))
            (λ q.
              ht n rest q hr (omega (arith, length-append s tail))
              ∙ >>=-congr (read rest (q + length t)) _ _
                  (λ l' k'. loop-stops logic_and (atom_at n) r l' (hf (q + length t) l' k')))
        ∙ rw p)

  record Reads (print_float : F → Text) (e : Expr F) : Type 0 where
    alone : ReadsOr (print_at print_float at_or e) e
    in_and : ReadsAnd (print_at print_float at_and e) e
    in_atom : ReadsAtom (print_at print_float at_atom e) e

  Reads-of_atom :
      (print_float : F → Text) (e : Expr F) (s : Text)
      → ((v : Level) → print_at print_float v e ≡ s)
      → ReadsAtom s e
      → Reads print_float e
  Reads-of_atom print_float e s same_text h = record {
    alone = rw (same_text at_or) (or_of_and s e (and_of_atom s e h));
    in_and = rw (same_text at_and) (and_of_atom s e h);
    in_atom = rw (same_text at_atom) h;
  }

  atom_of_comparison :
      (a s : Text) (e : Expr F)
      → IsAttr a
      → ((rest : Text) (pos : ℕ)
          → Ends rest
          → (read ((a ++ (32 ∷ s)) ++ rest) pos >>= λ l. comparison parse_float l.tok l)
            ≡ (read rest (pos + length (a ++ (32 ∷ s))) >>= λ l. ok (e, l)))
      → ReadsAtom (a ++ (32 ∷ s)) e
  unfolding atom
  atom_of_comparison a s e ha h n rest pos hr b =
      >>=-congr (read ((a ++ (32 ∷ s)) ++ rest) pos) _ _
        (λ l k. rw (attr_not_lparen a (s ++ rest) pos l ha (rw append_assoc at k)))
      ∙ h rest pos hr

  module _ (print_float : F → Text) where
    print-Reads : (e : Expr F) → IsPrintable print_float parse_float e → Reads print_float e
    unfolding print_at
    print-Reads (compare a o x) (ha, hx) =
        Reads-of_atom print_float (compare a o x) _ (λ v. refl)
          (atom_of_comparison a _ (compare a o x) ha
            (λ rest pos k. read_compare print_float parse_float a o x rest pos ha hx k))
    print-Reads (present a) ha =
        Reads-of_atom print_float (present a) _ (λ v. refl)
          (atom_of_comparison a _ (present a) ha
            (λ rest pos k. read_present print_float parse_float a rest pos ha k))
    print-Reads (logic logic_and l r) (hl, hr) =
        let node = and_node _ _ l r (print-Reads l hl).in_and (print-Reads r hr).in_atom in
        record {
          alone = or_of_and _ _ node;
          in_and = node;
          in_atom = atom_of_or _ _ (or_of_and _ _ node);
        }
    print-Reads (logic logic_or l r) (hl, hr) =
        let node = or_node _ _ l r (print-Reads l hl).alone (print-Reads r hr).in_and in
        let shown =
          joined logic_or (print_at print_float at_or l) (print_at print_float at_and r) in
        let closed = atom_of_or _ _ node in
        record {
          alone = node;
          in_and = and_of_atom (parens shown) (logic logic_or l r) closed;
          in_atom = closed;
        }

    -- If the names of a filter are lower-case identifiers that are no keywords, and ParseFloat reads its
    -- printed numbers back, then the printed filter parses to the filter that was printed.
    pub parse-print :
        (e : Expr F)
        → IsPrintable print_float parse_float e
        → parse parse_float (print print_float e) ≡ ok e
    unfolding parse print next
    parse-print e h =
        let shown = print print_float e in
        let n = length shown in
        let finish : Expr F × Lexer → Result Fault (Expr F) =
          λ (x, l). if is_eof l.tok then ok x else err (invalid l.tok_pos trailing_tokens) in
        let whole =
          (print-Reads e h).alone n [] 0 tt nil-Follows (omega (arith, length-append shown [])) in
        let whole' : (read shown 0 >>= join logic_or (and_at n))
            ≡ ok (e, token_at (0 + n) eof [] (0 + n)) =
          rw append-nil at whole in
        sym (>>=-assoc (read shown 0) (join logic_or (and_at n)) finish)
        ∙ ap (λ r. r >>= finish) whole'
