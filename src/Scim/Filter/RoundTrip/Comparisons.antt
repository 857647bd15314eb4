-- ===== src/Scim/Filter/RoundTrip/Comparisons.antt =====
-- A printed comparison is read back: attribute paths, operators and values.
use oad.Base.{
  ℕ, suc, ◌+◌, ◌≡◌, ◌≢◌, refl, sym, ap, ◌∙◌, true, false, Option, [], ◌∷◌, ◌++◌, append_assoc,
  length, length-append, arith, Result, ok, ◌>>=◌, >>=-assoc,
}
use oad.Scim.Text.{Text, text}
use oad.Scim.Lexer.{CompareOp, dot, Token, Fault, Lexer}
use oad.Scim.Filter.{
  Value, string, float, bool, null, Expr, compare, present, named, sub_attribute, parse_value,
  operator, comparison,
}
use oad.Scim.Filter.Print.{
  Ends, IsName, IsAttr, name, path, escape, op_text, print_value, IsPrintableValue,
}
use oad.Scim.Filter.Reading.{read, next-eq-read, read-space, read-dot, space-Ends, dot-Stops}
use oad.Scim.Filter.Reading.Numbers.{read-IsNumber}
use oad.Scim.Filter.Reading.Strings.{read-string}
use oad.Scim.Filter.Reading.Words.{
  read-IsName, read-op, read-pr, read-bool-true, read-bool-false, read-null,
}

sub_attribute-plain :
    (attr : Text) (t : Token) (l : Lexer) → t ≢ dot → sub_attribute attr t l ≡ ok (attr, l)
unfolding sub_attribute
sub_attribute-plain attr dot l h = absurd (h refl)
sub_attribute-plain attr _ l h = refl

module _ {F : Type 0} (print_float : F → Text) (parse_float : Text → Option F) where
  read_value :
      (x : Value F) (rest : Text) (pos : ℕ)
      → IsPrintableValue print_float parse_float x
      → Ends rest
      → (read (print_value print_float x ++ rest) pos >>= λ l. parse_value parse_float l.tok l)
        ≡ (read rest (pos + length (print_value print_float x)) >>= λ l. ok (x, l))
  unfolding parse_value
  read_value (string s) rest pos h k =
      let e : suc (length (escape s ++ 34 ∷ [])) ≡ length (escape s) + 2 =
        omega (arith, length-append (escape s) (34 ∷ [])) in
      rw (append_assoc, read-string s rest pos, next-eq-read, e)
  read_value (float f) rest pos h k =
      rw (read-IsNumber (print_float f) rest pos h.0 k, h.1, next-eq-read)
  read_value (bool true) rest pos h k = rw (read-bool-true rest pos k, next-eq-read)
  read_value (bool false) rest pos h k = rw (read-bool-false rest pos k, next-eq-read)
  read_value null rest pos h k = rw (read-null rest pos k, next-eq-read)

  read_name :
      (s rest : Text) (pos : ℕ) (l : Lexer)
      → IsName s
      → read (32 ∷ rest) (pos + length s) ≡ ok l
      → l.tok ≢ dot
      → (read (s ++ (32 ∷ rest)) pos >>= λ l₀. comparison parse_float l₀.tok l₀)
        ≡ operator parse_float s l.tok l
  unfolding comparison
  read_name s rest pos l h e k = rw (
    read-IsName s (32 ∷ rest) pos h (space-Ends rest).0,
    next-eq-read,
    e,
    h.lowered,
    sub_attribute-plain s l.tok l k,
  )

  read_path :
      (s t rest : Text) (pos : ℕ) (l : Lexer)
      → IsName s
      → IsName t
      → read (32 ∷ rest) (pos + length (s ++ (46 ∷ t))) ≡ ok l
      → (read ((s ++ (46 ∷ t)) ++ (32 ∷ rest)) pos >>= λ l₀. comparison parse_float l₀.tok l₀)
        ≡ operator parse_float (s ++ (46 ∷ t)) l.tok l
  unfolding comparison named
  read_path s t rest pos l hs ht e =
      let p : pos + length s + 1 + length t ≡ pos + length (s ++ (46 ∷ t)) =
        omega (arith, length-append s (46 ∷ t)) in
      rw (
        append_assoc,
        read-IsName s (46 ∷ (t ++ (32 ∷ rest))) pos hs (dot-Stops (t ++ (32 ∷ rest))),
        next-eq-read,
        read-dot,
        next-eq-read,
        read-IsName t (32 ∷ rest) (pos + length s + 1) ht (space-Ends rest).0,
        p,
        next-eq-read,
        e,
        hs.lowered,
        ht.lowered,
      )

  read_attr :
      (a rest : Text) (pos : ℕ) (l : Lexer)
      → IsAttr a
      → read (32 ∷ rest) (pos + length a) ≡ ok l
      → l.tok ≢ dot
      → (read (a ++ (32 ∷ rest)) pos >>= λ l₀. comparison parse_float l₀.tok l₀)
        ≡ operator parse_float a l.tok l
  read_attr a rest pos l (name {s} h) e k = read_name s rest pos l h e k
  read_attr a rest pos l (path {s} {t} hs ht) e k = read_path s t rest pos l hs ht e

  pub read_compare :
      (a : Text) (o : CompareOp) (x : Value F) (rest : Text) (pos : ℕ)
      → IsAttr a
      → IsPrintableValue print_float parse_float x
      → Ends rest
      → (read ((a ++ (32 ∷ (op_text o ++ (32 ∷ print_value print_float x)))) ++ rest) pos >>= λ l.
          comparison parse_float l.tok l)
        ≡ (read rest (pos + length (a ++ (32 ∷ (op_text o ++ (32 ∷ print_value print_float x)))))
            >>= λ l. ok (compare a o x, l))
  unfolding operator
  read_compare a o x rest pos ha hx k =
      let shown = print_value print_float x in
      let q = pos + length a + 1 + length (op_text o) + 1 in
      let p : q + length shown ≡ pos + length (a ++ (32 ∷ (op_text o ++ (32 ∷ shown)))) = omega (
        arith,
        length-append a (32 ∷ (op_text o ++ (32 ∷ shown))),
        length-append (op_text o) (32 ∷ shown),
      ) in
      let operand = λ (l : Lexer). parse_value parse_float l.tok l in
      let build : Value F × Lexer → Result Fault (Expr F × Lexer) =
        λ (v, l). ok (compare a o v, l) in
      let e : (a ++ (32 ∷ (op_text o ++ (32 ∷ shown)))) ++ rest
          ≡ a ++ (32 ∷ (op_text o ++ (32 ∷ (shown ++ rest)))) =
        simp append_assoc in
      rw e (
        read_attr a (op_text o ++ (32 ∷ (shown ++ rest))) pos _ ha
          (read-space _ (pos + length a)
            ∙ read-op o (32 ∷ (shown ++ rest)) (pos + length a + 1) (space-Ends (shown ++ rest)))
          (cc)
        ∙ rw (next-eq-read, read-space)
            (sym (>>=-assoc (read (shown ++ rest) q) operand build)
              ∙ ap (λ m. m >>= build) (read_value x rest q hx k)
              ∙ rw p (>>=-assoc (read rest _) (λ l. ok (x, l)) build)))

  pub read_present :
      (a rest : Text) (pos : ℕ)
      → IsAttr a
      → Ends rest
      → (read ((a ++ text " pr") ++ rest) pos >>= λ l. comparison parse_float l.tok l)
        ≡ (read rest (pos + length (a ++ text " pr")) >>= λ l. ok (present a, l))
  unfolding operator
  read_present a rest pos ha k =
      let p : pos + length a + 1 + 2 ≡ pos + length (a ++ text " pr") =
        omega (arith, length-append a (text " pr")) in
      rw append_assoc (
        read_attr a (text "pr" ++ rest) pos _ ha
          (read-space (text "pr" ++ rest) (pos + length a) ∙ read-pr rest (pos + length a + 1) k)
          (cc)
        ∙ rw (next-eq-read, p))
