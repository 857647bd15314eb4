-- ===== src/Scim/Path/RoundTrip.antt =====
-- What a path is printed as, the parser of internal/scim/parser/path.go reads back.
use oad.Base.{
  ℕ, ◌+◌, ◌≡◌, ◌≢◌, refl, Bool, true, false, ◌&&◌, Option, none, some, [], ◌∷◌, ◌++◌, append_assoc,
  append-nil, arith, All, length, ok,
}
use oad.Scim.Text.{Text, same, lower, is_space}
use oad.Scim.Lexer.{scan_while}
use oad.Scim.Filter.{Expr}
use oad.Scim.Filter.Print.{print, IsPrintable}
use oad.Scim.Filter.Reading.{Stops, scan_while-append}
use oad.Scim.Filter.RoundTrip.{parse-print}
use oad.Scim.Path.{
  AttrPath, byte_length, is_ident_char, trim_left, trim_right, sub_attribute, inner_filter, bracket,
  parse_path,
}
use oad.Scim.Path.Quoting.{cut_unquoted-print}

-- A lower-case attribute name.
pub record IsIdent (s : Text) : Type 0 where
  pub head : ℕ
  pub tail : Text
  pub parts : s ≡ head ∷ tail
  pub chars : All (λ c. is_ident_char c ≡ true) (head ∷ tail)
  pub lowered : lower s ≡ s

-- A sub-attribute, or none.
abbrev IsSubAttr : Text → Type 0
IsSubAttr [] = Unit
IsSubAttr (c ∷ s) = IsIdent (c ∷ s)

abbrev print_sub : Text → Text
print_sub [] = []
print_sub (c ∷ s) = 46 ∷ c ∷ s

-- Trimming changes nothing where the text neither begins nor ends with white space.
abbrev Solid : Text → Type 0
Solid s = trim_right s ≡ s

Solid-one : (c : ℕ) → is_space c ≡ false → Solid (c ∷ [])
unfolding trim_right
Solid-one c h = rw h

same-nil : (s : Text) → s ≢ [] → same s [] ≡ false
unfolding same
same-nil [] h = absurd (h refl)
same-nil (c ∷ s) h = refl

append_ne : (s t : Text) → t ≢ [] → s ++ t ≢ []
append_ne [] t h = h
append_ne (c ∷ s) t h = cc

and_false : (b : Bool) → (b && false) ≡ false
and_false true = refl
and_false false = refl

Solid-append : (s t : Text) → t ≢ [] → Solid t → Solid (s ++ t)
unfolding trim_right
Solid-append [] t k h = h
Solid-append (c ∷ s) t k h =
    rw (Solid-append s t k h, same-nil (s ++ t) (append_ne s t k), and_false (is_space c))

ident-not-space : (c : ℕ) → is_ident_char c ≡ true → is_space c ≡ false
unfolding is_ident_char is_space
ident-not-space c h = ground arith

ident-Solid : (c : ℕ) (s : Text) → All (λ d. is_ident_char d ≡ true) (c ∷ s) → Solid (c ∷ s)
ident-Solid c [] h = Solid-one c (ident-not-space c h.0)
ident-Solid c (d ∷ s) h = Solid-append (c ∷ []) (d ∷ s) (cc) (ident-Solid d s h.1)

IsIdent-Solid : (s : Text) → IsIdent s → Solid s
IsIdent-Solid s h = rw h.parts (ident-Solid h.head h.tail h.chars)

IsIdent-ne : (s : Text) → IsIdent s → s ≢ []
IsIdent-ne s h = λ e. cc (h.parts, e)

IsIdent-chars : (s : Text) → IsIdent s → All (λ c. is_ident_char c ≡ true) s
IsIdent-chars s h = rw h.parts h.chars

scan_while-attr :
    (s rest : Text)
    → IsIdent s
    → Stops is_ident_char rest
    → scan_while is_ident_char (s ++ rest) 0 ≡ record { value = s; rest = rest; pos = 0 + length s }
scan_while-attr s rest h k = scan_while-append is_ident_char s rest 0 (IsIdent-chars s h) k

scan_while-ident :
    (s : Text) (pos : ℕ)
    → IsIdent s
    → scan_while is_ident_char s pos ≡ record { value = s; rest = []; pos = pos + length s }
scan_while-ident s pos h =
    let e = scan_while-append is_ident_char s [] pos (IsIdent-chars s h) tt in
    rw (append-nil s) at e

trim_left-ident : (s rest : Text) → IsIdent s → trim_left (s ++ rest) ≡ s ++ rest
unfolding trim_left
trim_left-ident s rest h = rw h.parts (rw (ident-not-space h.head h.chars.0))

ident-append-ne : (s rest : Text) → IsIdent s → s ++ rest ≢ []
ident-append-ne s rest h = rw h.parts (cc)

module _ {F : Type 0} (print_float : F → Text) (parse_float : Text → Option F) where
  abbrev print_filter : Option (Expr F) → Text
  print_filter none = []
  print_filter (some e) = 91 ∷ (print print_float e ++ 93 ∷ [])

  unfoldable pub print_path : AttrPath F → Text
  print_path p = p.attr ++ (print_filter p.filter ++ print_sub p.sub_attr)

  abbrev IsPrintableFilter : Option (Expr F) → Type 0
  IsPrintableFilter none = Unit
  IsPrintableFilter (some e) = IsPrintable print_float parse_float e

  pub record IsPrintablePath (p : AttrPath F) : Type 0 where
    pub attr : IsIdent p.attr
    pub filter : IsPrintableFilter p.filter
    pub sub_attr : IsSubAttr p.sub_attr

  suffix-Stops :
      (f : Option (Expr F)) (s : Text) → Stops is_ident_char (print_filter f ++ print_sub s)
  unfolding is_ident_char
  suffix-Stops none [] = tt
  suffix-Stops none (c ∷ s) = refl
  suffix-Stops (some e) s = refl

  path-Solid :
      (a : Text) (f : Option (Expr F)) (s : Text)
      → IsIdent a
      → IsSubAttr s
      → Solid (a ++ (print_filter f ++ print_sub s))
  path-Solid a none [] ha hs = rw append-nil (IsIdent-Solid a ha)
  path-Solid a (some e) [] ha hs =
      let shown = print print_float e in
      rw append-nil (
        Solid-append a (91 ∷ (shown ++ 93 ∷ [])) (cc)
          (Solid-append (91 ∷ shown) (93 ∷ []) (cc) (Solid-one 93 (unfold is_space in refl))))
  path-Solid a f (c ∷ s) ha hs =
      let sub = Solid-append (46 ∷ []) (c ∷ s) (cc) (IsIdent-Solid (c ∷ s) hs) in
      Solid-append a (print_filter f ++ (46 ∷ c ∷ s)) (append_ne (print_filter f) (46 ∷ c ∷ s) (cc))
        (Solid-append (print_filter f) (46 ∷ c ∷ s) (cc) sub)

  bracket-print :
      (f : Option (Expr F)) (s : Text) (pos : ℕ)
      → IsPrintableFilter f
      → (pos' : ℕ) × (bracket parse_float (print_filter f ++ print_sub s) pos
          ≡ ok (f, print_sub s, pos'))
  unfolding bracket
  bracket-print none [] pos h = (pos, refl)
  bracket-print none (c ∷ s) pos h = (pos, refl)
  bracket-print (some e) s pos h =
      let shown = print print_float e in
      (
        pos + (byte_length shown + 2),
        rw (
          append_assoc,
          cut_unquoted-print print_float parse_float e (print_sub s) h,
          parse-print parse_float print_float e h,
          inner_filter,
        ),
      )

  sub_attribute-print :
      (s : Text) (pos : ℕ)
      → IsSubAttr s
      → (pos' : ℕ) × (sub_attribute (print_sub s) pos
          ≡ ok (record { value = s; rest = []; pos = pos' }))
  unfolding sub_attribute
  sub_attribute-print [] pos h = (pos, refl)
  sub_attribute-print (c ∷ s) pos h =
      (pos + 1 + length (c ∷ s), rw (scan_while-ident (c ∷ s) (pos + 1) h, h.lowered))

  -- If the attribute and the sub-attribute of a path are lower-case identifiers and its filter can be
  -- printed and read back, then the printed path parses to the path that was printed.
  pub parse_path-print :
      (p : AttrPath F) → IsPrintablePath p → parse_path parse_float (print_path p) ≡ ok p
  unfolding parse_path print_path
  parse_path-print p h =
      let shown = print_path p in
      let tail = print_filter p.filter ++ print_sub p.sub_attr in
      let (q, eq) = bracket-print p.filter p.sub_attr (0 + length p.attr) h.filter in
      let (q', eq') = sub_attribute-print p.sub_attr q h.sub_attr in
      rw (
        trim_left-ident p.attr tail h.attr,
        path-Solid p.attr p.filter p.sub_attr h.attr h.sub_attr,
        same-nil (p.attr ++ tail) (ident-append-ne p.attr tail h.attr),
        scan_while-attr p.attr tail h.attr (suffix-Stops p.filter p.sub_attr),
        same-nil p.attr (IsIdent-ne p.attr h.attr),
        eq,
        eq',
        h.attr.lowered,
      )
