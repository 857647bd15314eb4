-- ===== src/Scim/Filter.antt =====
-- internal/scim/parser/filter.go: the syntax tree and the recursive-descent parser.
pub mod Total
pub mod Print
pub mod Reading
pub mod RoundTrip
mod Tests
use oad.Base.{
  ℕ, zero, suc, ◌+◌, Bool, true, false, Option, none, some, [], ◌∷◌, ◌++◌, length, if◌then◌else◌,
  Result, ok, err, ◌>>=◌, ◌>>◌,
}
use oad.Scim.Text.{Text, text, lower}
use oad.Scim.Lexer.{
  CompareOp, LogicOp, logic_and, logic_or, Token, eof, lparen, rparen, dot, ident, number, pr, op,
  trailing_tokens, expected_rparen, expected_attribute, expected_sub_attribute, expected_operator,
  invalid_float, expected_value, Fault, invalid, out_of_fuel, Lexer, next,
}
use oad.Scim.Lexer.Progress.{measure}

-- AtomExpr.Value; `F` is the type of 64-bit floats.
pub data Value (F : Type 0) : Type 0 where
  string : Text → Value F
  float : F → Value F
  bool : Bool → Value F
  null : Value F

-- `present a` is the AtomExpr with Op == OpPr, whose Value is nil.
pub data Expr (F : Type 0) : Type 0 where
  compare : Text → CompareOp → Value F → Expr F
  present : Text → Expr F
  logic : LogicOp → Expr F → Expr F → Expr F

abbrev pub Parser : Type 0 → Type 0
Parser A = Lexer → Result Fault (A × Lexer)

-- `p.l.tok.kind == tokLogic && p.l.tok.value == o`
abbrev pub is_logic : LogicOp → Token → Bool
is_logic logic_and (Token.logic logic_and) = true
is_logic logic_or (Token.logic logic_or) = true
is_logic _ _ = false

abbrev pub is_eof : Token → Bool
is_eof eof = true
is_eof _ = false

abbrev pub is_rparen : Token → Bool
is_rparen rparen = true
is_rparen _ = false

abbrev pub is_lparen : Token → Bool
is_lparen lparen = true
is_lparen _ = false

-- The loop that parseOr and parseAnd share: operands joined to the left by `o`.
module _ {F : Type 0} (o : LogicOp) (operand : Parser (Expr F)) where
  unfoldable pub join_from : ℕ → Expr F → Parser (Expr F)
  join_from zero left l = err out_of_fuel
  join_from (suc n) left l =
      let more = do l₁ ← next l; (right, l₂) ← operand l₁; join_from n (logic o left right) l₂
      in if is_logic o l.tok then more else ok (left, l)

  -- Each round consumes a token, so what is ahead bounds the rounds.
  unfoldable pub join : Parser (Expr F)
  unfolding join_from
  join l = do (left, l') ← operand l; join_from (suc (measure l')) left l'

-- `p.l.next()` after the parser has what it returns.
abbrev pub advance {ℓ} : {A : Type ℓ} → A → Lexer → Result Fault (A × Lexer)
advance a l = do l' ← next l; ok (a, l')

-- The token after the '.' of an attribute path.
unfoldable pub named : Text → Token → Parser Text
named attr (ident sub) l = advance (attr ++ (text "." ++ lower sub)) l
named attr _ l = err (invalid l.tok_pos expected_sub_attribute)

-- The optional sub-attribute of parseComparison.
unfoldable pub sub_attribute : Text → Token → Parser Text
unfolding named
sub_attribute attr dot l = do l' ← next l; named attr l'.tok l'
sub_attribute attr _ l = ok (attr, l)

-- strconv.ParseFloat on the text of a number; `none` is its error.
module _ {F : Type 0} (parse_float : Text → Option F) where
  unfoldable pub converted : Option F → Parser (Value F)
  converted none l = err (invalid l.tok_pos invalid_float)
  converted (some f) l = advance (float f) l

  -- parseValue, at the current token.
  unfoldable pub parse_value : Token → Parser (Value F)
  unfolding converted
  parse_value (Token.string s) l = advance (string s) l
  parse_value (number s) l = converted (parse_float s) l
  parse_value (Token.bool b) l = advance (bool b) l
  parse_value Token.null l = advance null l
  parse_value _ l = err (invalid l.tok_pos expected_value)

  -- The operator of parseComparison and what follows it.
  unfoldable pub operator : Text → Token → Parser (Expr F)
  unfolding parse_value
  operator attr pr l = advance (present attr) l
  operator attr (op o) l = do
    l₁ ← next l
    (v, l₂) ← parse_value l₁.tok l₁
    ok (compare attr o v, l₂)
  operator attr _ l = err (invalid l.tok_pos expected_operator)

  -- parseComparison, at the current token.
  unfoldable pub comparison : Token → Parser (Expr F)
  unfolding sub_attribute operator
  comparison (ident name) l = do
    l₁ ← next l
    (attr, l₂) ← sub_attribute (lower name) l₁.tok l₁
    operator attr l₂.tok l₂
  comparison _ l = err (invalid l.tok_pos expected_attribute)

  -- parseAtom; `inner` is parseOr.
  unfoldable pub atom : Parser (Expr F) → Parser (Expr F)
  unfolding comparison
  atom inner l =
      let parenthesised = do
        l₁ ← next l
        (e, l₂) ← inner l₁
        if is_rparen l₂.tok then advance e l₂ else err (invalid l₂.tok_pos expected_rparen)
      in if is_lparen l.tok then parenthesised else comparison l.tok l

  -- parseOr over parseAnd over parseAtom. The fuel bounds the depth of parentheses.
  unfoldable pub parse_or : ℕ → Parser (Expr F)
  unfolding atom join
  parse_or zero l = err out_of_fuel
  parse_or (suc n) l = join logic_or (join logic_and (atom (parse_or n))) l

  -- Parse: a parenthesis is consumed at each level, so the length of the input is enough fuel.
  unfoldable pub parse : Text → Result Fault (Expr F)
  unfolding parse_or
  parse input = do
    l ← next (record { rest = input; pos = 0; tok = eof; tok_pos = 0 })
    (e, l') ← parse_or (suc (length input)) l
    if is_eof l'.tok then ok e else err (invalid l'.tok_pos trailing_tokens)
