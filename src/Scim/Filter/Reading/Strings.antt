-- ===== src/Scim/Filter/Reading/Strings.antt =====
-- What the lexer reads off the front of a printed text: quoted strings.
use oad.Base.{
  ℕ, suc, ◌+◌, ◌≡◌, ◌≢◌, refl, ◌∙◌, true, false, ◌||◌, [], ◌∷◌, ◌++◌, length, arith, ◌==◌, ok,
  Bool-cases, inl, inr,
}
use oad.Scim.Text.{Text, is_space}
use oad.Scim.Lexer.{Token, push_to, token_at, read_string, lex}
use oad.Scim.Filter.Print.{escape}
use oad.Scim.Filter.Reading.{read, read-lex}

-- A character that is neither a quote nor a backslash stands for itself; something follows it,
-- since the string is closed.
read_string-plain :
    (start c : ℕ) (cs : Text) (pos : ℕ)
    → cs ≢ []
    → ((c == 34) || (c == 92)) ≡ false
    → read_string start (c ∷ cs) pos ≡ push_to c (read_string start cs (pos + 1))
unfolding read_string
read_string-plain start c [] pos k h = absurd (k refl)
read_string-plain start c (d ∷ cs) pos k h = ground arith

read_string-escaped :
    (start c : ℕ) (cs : Text) (pos : ℕ)
    → ((c == 34) || (c == 92)) ≡ true
    → read_string start (92 ∷ c ∷ cs) pos ≡ push_to c (read_string start cs (pos + 1 + 1))
unfolding read_string
read_string-escaped start c cs pos h = ground arith

read_string-end :
    (start : ℕ) (rest : Text) (pos : ℕ)
    → read_string start (34 ∷ rest) pos ≡ ok (record { value = []; rest = rest; pos = pos + 1 })
unfolding read_string
read_string-end start [] pos = refl
read_string-end start (d ∷ cs) pos = refl

pub append-ne-nil : (s t : Text) (c : ℕ) → s ++ (c ∷ t) ≢ []
append-ne-nil [] t c = cc
append-ne-nil (d ∷ s) t c = cc

read_string-escape :
    (start : ℕ) (s rest : Text) (pos : ℕ)
    → read_string start (escape s ++ (34 ∷ rest)) pos
      ≡ ok (record { value = s; rest = rest; pos = pos + length (escape s) + 1 })
unfolding escape
read_string-escape start [] rest pos =
    let e : pos + 0 + 1 ≡ pos + 1 = omega arith in rw e (read_string-end start rest pos)
read_string-escape start (c ∷ s) rest pos = elim (Bool-cases ((c == 34) || (c == 92))) [
  | inl marked ↦
      let e : pos + 1 + 1 + length (escape s) + 1 ≡ pos + suc (suc (length (escape s))) + 1 =
        omega arith in
      rw (
        marked,
        read_string-escaped start c (escape s ++ (34 ∷ rest)) pos marked,
        read_string-escape start s rest (pos + 1 + 1),
        e,
      )
  | inr plain ↦
      let e : pos + 1 + length (escape s) + 1 ≡ pos + suc (length (escape s)) + 1 = omega arith in
      rw (
        plain,
        read_string-plain start c (escape s ++ (34 ∷ rest)) pos (append-ne-nil (escape s) rest 34)
            plain,
        read_string-escape start s rest (pos + 1),
        e,
      )
]

pub read-string :
    (s rest : Text) (pos : ℕ)
    → read (34 ∷ (escape s ++ (34 ∷ rest))) pos
      ≡ ok (token_at pos (Token.string s) rest (pos + (length (escape s) + 2)))
unfolding lex
read-string s rest pos =
    read-lex 34 (escape s ++ (34 ∷ rest)) pos (unfold is_space in refl)
    ∙ (let e : pos + 1 + length (escape s) + 1 ≡ pos + (length (escape s) + 2) = omega arith in
        rw (read_string-escape pos s rest (pos + 1), e))
