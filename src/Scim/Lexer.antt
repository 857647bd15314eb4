-- ===== src/Scim/Lexer.antt =====
-- internal/scim/parser/filter.go: tokens and the lexer. `src[pos:]` is the field `rest`.
pub mod Progress
use oad.Base.{
  ℕ, ◌+◌, Bool, true, false, ◌&&◌, ◌||◌, [], ◌∷◌, ◌==◌, if◌then◌else◌, Result, ok, err, ◌>>=◌,
}
use oad.Scim.Text.{Text, text, same, is_letter, is_digit, is_space, lower}

-- OpEq … OpEw; OpPr is a token of its own.
pub data CompareOp : Type 0 where
  eq ne co sw ew : CompareOp

pub data LogicOp : Type 0 where
  logic_and logic_or : LogicOp

-- tokenKind with the value that the parser reads.
pub data Token : Type 0 where
  eof lparen rparen dot : Token
  ident string number : Text → Token
  bool : Bool → Token
  null pr : Token
  op : CompareOp → Token
  logic : LogicOp → Token

pub data Message : Type 0 where
  unexpected_character invalid_escape : ℕ → Message
  unterminated_escape unterminated_string invalid_number trailing_tokens : Message
  expected_rparen expected_attribute expected_sub_attribute expected_operator : Message
  invalid_float expected_value : Message

-- `invalid` is an InvalidFilterError; `out_of_fuel` has no counterpart in the program.
pub data Fault : Type 0 where
  invalid : ℕ → Message → Fault
  out_of_fuel : Fault

pub record Lexer : Type 0 where
  pub rest : Text
  pub pos : ℕ
  pub tok : Token
  pub tok_pos : ℕ

-- What a scan has read, what is left, and the new position.
pub record Scan : Type 0 where
  pub value : Text
  pub rest : Text
  pub pos : ℕ

abbrev push : ℕ → Scan → Scan
push c s = record s { value = c ∷ s.value }

-- `for l.pos < len(l.src) && p(l.src[l.pos]) { l.pos++ }`
unfoldable pub scan_while : (ℕ → Bool) → Text → ℕ → Scan
scan_while p [] pos = record { value = []; rest = []; pos = pos }
scan_while p (c ∷ cs) pos =
    let more = push c (scan_while p cs (pos + 1)) in
    if p c then more else record { value = []; rest = c ∷ cs; pos = pos }

unfoldable unescape : ℕ → ℕ → Result Fault ℕ
unescape pos c =
    if (c == b'"') || ((c == 92) || (c == b'/'))
    then ok c
    else if c == b'b'
    then ok 8
    else if c == b'f'
    then ok 12
    else if c == b'n'
    then ok 10
    else if c == b'r'
    then ok 13
    else if c == b't'
    then ok 9
    else err (invalid pos (invalid_escape c))

abbrev pub push_to : ℕ → Result Fault Scan → Result Fault Scan
push_to c r = r >>= λ s. ok (push c s)

-- The loop of readString, after the opening quote at `start`.
unfoldable pub read_string : ℕ → Text → ℕ → Result Fault Scan
unfolding unescape
read_string start [] pos = err (invalid start unterminated_string)
read_string start (c ∷ []) pos =
    if c == b'"'
    then ok (record { value = []; rest = []; pos = pos + 1 })
    else if c == 92
    then err (invalid (pos + 1) unterminated_escape)
    else err (invalid start unterminated_string)
read_string start (c ∷ d ∷ cs) pos =
    let plain = push_to c (read_string start (d ∷ cs) (pos + 1)) in
    let escaped = unescape (pos + 1) d >>= λ e. push_to e (read_string start cs (pos + 1 + 1)) in
    if c == b'"'
    then ok (record { value = []; rest = d ∷ cs; pos = pos + 1 })
    else if c == 92
    then escaped
    else plain

abbrev is_number_char : ℕ → Bool
is_number_char c = is_digit c || (c == b'.')

abbrev digits : Text → ℕ → Scan
digits cs pos = scan_while is_number_char cs pos

-- readNumber on `c ∷ cs`, where `c` is a digit or '-': only a lone '-' is refused.
unfoldable pub read_number : ℕ → Text → ℕ → Result Fault Scan
unfolding scan_while is_digit
read_number c cs pos =
    let s = digits cs (pos + 1) in
    if (c == b'-') && same s.value [] then err (invalid pos invalid_number) else ok (push c s)

abbrev is_ident_part : ℕ → Bool
is_ident_part c = is_letter c || (is_digit c || (c == b'_'))

-- The switch of readIdentOrKeyword.
unfoldable pub keyword : Text → Token
unfolding lower same
keyword raw =
    let w = lower raw in
    if same w (text "true")
    then bool true
    else if same w (text "false")
    then bool false
    else if same w (text "null")
    then null
    else if same w (text "eq")
    then op eq
    else if same w (text "ne")
    then op ne
    else if same w (text "co")
    then op co
    else if same w (text "sw")
    then op sw
    else if same w (text "ew")
    then op ew
    else if same w (text "pr")
    then pr
    else if same w (text "and")
    then logic logic_and
    else if same w (text "or")
    then logic logic_or
    else ident raw

abbrev pub token_at : ℕ → Token → Text → ℕ → Lexer
token_at start t rest pos = record { rest = rest; pos = pos; tok = t; tok_pos = start }

abbrev scanned : ℕ → Token → Scan → Lexer
scanned start t s = token_at start t s.rest s.pos

-- `next`, after the white space.
unfoldable pub lex : Text → ℕ → Result Fault Lexer
unfolding read_string read_number keyword scan_while is_letter is_digit
lex [] pos = ok (token_at pos eof [] pos)
lex (c ∷ cs) pos =
    if c == b'('
    then ok (token_at pos lparen cs (pos + 1))
    else if c == b')'
    then ok (token_at pos rparen cs (pos + 1))
    else if c == b'.'
    then ok (token_at pos dot cs (pos + 1))
    else if c == b'"'
    then (read_string pos cs (pos + 1) >>= λ s. ok (scanned pos (string s.value) s))
    else if is_letter c
    then (let s = push c (scan_while is_ident_part cs (pos + 1)) in
        ok (scanned pos (keyword s.value) s))
    else if is_digit c || (c == b'-')
    then (read_number c cs pos >>= λ s. ok (scanned pos (number s.value) s))
    else err (invalid pos (unexpected_character c))

unfoldable skip_ws : Text → ℕ → Scan
unfolding scan_while is_space
skip_ws = scan_while is_space

unfoldable pub next : Lexer → Result Fault Lexer
unfolding lex skip_ws
next l = let s = skip_ws l.rest l.pos in lex s.rest s.pos
