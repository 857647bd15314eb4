-- ===== src/Scim/Path.antt =====
-- internal/scim/parser/path.go: the paths of PATCH operations. Strings are lists of code points;
-- positions count bytes, as in the program.
pub mod Quoting
pub mod RoundTrip
mod Tests
use oad.Base.{
  ℕ, ◌+◌, Bool, true, false, ◌&&◌, ◌||◌, not, Option, none, some, [], ◌∷◌, leb, ltb, ◌==◌,
  if◌then◌else◌, Result, ok, err, ◌>>=◌,
}
use oad.Scim.Text.{Text, same, lower, is_space}
use oad.Scim.Lexer.{Fault, Scan, scan_while}
use oad.Scim.Filter.{Expr, parse}

pub record AttrPath (F : Type 0) : Type 0 where
  pub attr : Text
  pub sub_attr : Text
  pub filter : Option (Expr F)

pub data PathMessage : Type 0 where
  expected_attribute unterminated_filter expected_sub_attribute trailing_tokens : PathMessage
  invalid_filter : Fault → PathMessage

-- InvalidPathError
pub record PathError : Type 0 where
  pub pos : ℕ
  msg : PathMessage

abbrev pub at : ℕ → PathMessage → PathError
at pos msg = record { pos = pos; msg = msg }

-- The bytes of a code point in UTF-8, and of a string.
abbrev utf8_width : ℕ → ℕ
utf8_width c = if ltb c 0x80 then 1 else if ltb c 0x800 then 2 else if ltb c 0x10000 then 3 else 4

abbrev pub byte_length : Text → ℕ
byte_length [] = 0
byte_length (c ∷ s) = utf8_width c + byte_length s

-- isIdentChar
unfoldable pub is_ident_char : ℕ → Bool
is_ident_char c =
    (leb b'a' c && leb c b'z')
    || ((leb b'A' c && leb c b'Z') || ((leb b'0' c && leb c b'9') || ((c == b'_') || (c == b'-'))))

-- strings.TrimSpace
unfoldable pub trim_left : Text → Text
trim_left [] = []
trim_left (c ∷ s) = let rest = trim_left s in if is_space c then rest else c ∷ s

unfoldable pub trim_right : Text → Text
unfolding same
trim_right [] = []
trim_right (c ∷ s) = let rest = trim_right s in if is_space c && same rest [] then [] else c ∷ rest

unfoldable pub trim_space : Text → Text
unfolding trim_left trim_right is_space
trim_space s = trim_right (trim_left s)

abbrev pub keep : ℕ → Option (Text × Text) → Option (Text × Text)
keep c none = none
keep c (some (before, after)) = some (c ∷ before, after)

-- indexUnquoted, as the text before the first `ch` outside of a quoted string and the text after it.
unfoldable pub cut_unquoted : ℕ → Bool → Text → Option (Text × Text)
cut_unquoted ch in_str [] = none
cut_unquoted ch true (c ∷ []) = none
cut_unquoted ch true (c ∷ d ∷ s) =
    let escaped = keep c (keep d (cut_unquoted ch true s)) in
    let plain = keep c (cut_unquoted ch (not (c == b'"')) (d ∷ s)) in
    if c == 92 then escaped else plain
cut_unquoted ch false (c ∷ s) =
    let quoted = keep c (cut_unquoted ch true s) in
    let plain = keep c (cut_unquoted ch false s) in
    if c == b'"' then quoted else if c == ch then some ([], s) else plain

-- The optional sub-attribute: what is left, and the bytes consumed.
unfoldable pub sub_attribute : Text → ℕ → Result PathError Scan
unfolding is_ident_char same
sub_attribute (c ∷ s) pos =
    let sub = scan_while is_ident_char s (pos + 1) in
    if not (c == b'.')
    then ok (record { value = []; rest = c ∷ s; pos = pos })
    else if same sub.value []
    then err (at (pos + 1) expected_sub_attribute)
    else ok (record sub { value = lower sub.value })
sub_attribute [] pos = ok (record { value = []; rest = []; pos = pos })

module _ {F : Type 0} (parse_float : Text → Option F) where
  -- A filter, what follows its bracket, and the bytes consumed.
  abbrev Bracket : Type 0
  Bracket = Option (Expr F) × Text × ℕ

  unfoldable pub inner_filter : ℕ → Text → Text → Result PathError Bracket
  inner_filter pos inner after = elim (parse parse_float inner) [
    | ok e ↦ ok (some e, after, pos + (byte_length inner + 2))
    | err f ↦ err (at (pos + 1) (invalid_filter f))
  ]

  -- The optional bracket filter.
  unfoldable pub bracket : Text → ℕ → Result PathError Bracket
  unfolding inner_filter
  bracket (c ∷ s) pos =
      if c == b'['
      then elim (cut_unquoted b']' false s) [
        | none ↦ err (at pos unterminated_filter)
        | some (inner, after) ↦ inner_filter pos inner after
      ]
      else ok (none, c ∷ s, pos)
  bracket [] pos = ok (none, [], pos)

  unfoldable pub parse_path : Text → Result PathError (AttrPath F)
  unfolding bracket sub_attribute trim_space
  parse_path input =
      let s = trim_space input in
      let a = scan_while is_ident_char s 0 in
      if same s []
      then ok (record { attr = []; sub_attr = []; filter = none })
      else if same a.value []
      then err (at 0 expected_attribute)
      else do
        (filter, rest, pos) ← bracket a.rest a.pos
        sub ← sub_attribute rest pos
        if same (trim_space sub.rest) []
            then ok (record { attr = lower a.value; sub_attr = sub.value; filter = filter })
            else err (at sub.pos trailing_tokens)
