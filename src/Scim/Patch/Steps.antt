-- ===== src/Scim/Patch/Steps.antt =====
-- What holds between the state before a PATCH and the state after it, if it holds across each
-- assignment that internal/scim/users/patch.go or internal/scim/groups/patch.go makes.
use oad.Base.{
  ℕ, ◌+◌, Option, none, some, List, [], ◌∷◌, Bool-cases, inl, inr, Result, ok, err, ◌>>=◌,
  Result-cases,
}
use oad.Scim.Text.{Text, text, same, lower}
use oad.Scim.Json.{Json, Fields, null, obj, end, field}
use oad.Scim.Path.{AttrPath, PathError, parse_path}
use oad.Scim.Patch.{
  PatchOp, PatchFault, no_target, invalid_value, ignoring_no_target, root_entry, root_object,
  root_fields, set_at, operation, apply_one, at_index, apply_from, apply_patch,
}

-- The state that is returned from `s`, if one is, is related to `s`.
abbrev pub Steps {ℓ} : {E : Type ℓ} {S : Type 0} → (S → S → Type 0) → S → Result E S → Type 0
Steps R s (ok t) = R s t
Steps R s (err e) = Unit

module _ {F S : Type 0} (R : S → S → Type 0) (reflexive : (s : S) → R s s)
    (transitive : (s t u : S) → R s t → R t u → R s u) (parse_float : Text → Option F) where
  Steps-bind {ℓ} :
      {E : Type ℓ} (s : S) (r : Result E S) (k : S → Result E S)
      → Steps R s r
      → ((t : S) → Steps R t (k t))
      → Steps R s (r >>= k)
  Steps-bind {E} s (err e) k h f = tt
  Steps-bind {E} s (ok t) k h f = after (k t) (f t)
    where
      after : (r : Result E S) → Steps R t r → Steps R s r
      after (ok u) g = transitive s t u h g
      after (err e) g = tt

  at_index-Steps :
      (i : ℕ) (s : S) (r : Result PatchFault S) → Steps R s r → Steps R s (at_index i r)
  at_index-Steps i s (ok t) h = h
  at_index-Steps i s (err f) h = tt

  module _ (set : AttrPath F → Option Json → S → Result PatchFault S)
      (set_steps : (p : AttrPath F) (v : Option Json) (s : S) → Steps R s (set p v s)) where
    ignoring-Steps :
        (s : S) (r : Result PatchFault S)
        → Steps R s r
        → Steps R s (ignoring_no_target parse_float set s r)
    unfolding ignoring_no_target
    ignoring-Steps s (ok t) h = h
    ignoring-Steps s (err no_target) h = reflexive s
    ignoring-Steps s (err invalid_value) h = tt

    root_entry-Steps :
        (r : Result PathError (AttrPath F)) (v : Option Json) (descend : S → Result PatchFault S)
        (s : S)
        → Steps R s (descend s)
        → Steps R s (root_entry parse_float set r v descend s)
    unfolding root_entry
    root_entry-Steps (err e) v descend s h = reflexive s
    root_entry-Steps (ok p) v descend s h = elim (Bool-cases (same p.attr [])) [
      | inl root ↦ rw root (ignoring-Steps s (descend s) h)
      | inr leaf ↦ rw leaf (ignoring-Steps s (set p v s) (set_steps p v s))
    ]

    mutual
      unfolding root_object

      root_object-Steps : (v : Json) (s : S) → Steps R s (root_object parse_float set v s)
      root_object-Steps (obj fs) s = root_fields-Steps fs s
      root_object-Steps null s = reflexive s
      root_object-Steps _ s = tt

      root_fields-Steps : (fs : Fields) (s : S) → Steps R s (root_fields parse_float set fs s)
      root_fields-Steps end s = reflexive s
      root_fields-Steps (field k v fs) s =
          let entry =
            root_entry parse_float set (parse_path parse_float k) (some v)
              (root_object parse_float set v) s in
          Steps-bind s entry (root_fields parse_float set fs)
            (root_entry-Steps (parse_path parse_float k) (some v) (root_object parse_float set v) s
              (root_object-Steps v s))
            (root_fields-Steps fs)

    pub set_at-Steps :
        (p : AttrPath F) (v : Option Json) (s : S) → Steps R s (set_at parse_float set p v s)
    unfolding set_at
    set_at-Steps p none s = elim (Bool-cases (same p.attr [])) [
      | inl root ↦ rw root tt
      | inr leaf ↦ rw leaf (set_steps p none s)
    ]
    set_at-Steps p (some v) s = elim (Bool-cases (same p.attr [])) [
      | inl root ↦ rw root (root_object-Steps v s)
      | inr leaf ↦ rw leaf (set_steps p (some v) s)
    ]

  module _ (add replace : AttrPath F → Option Json → S → Result PatchFault S)
      (remove : AttrPath F → S → Result PatchFault S)
      (add_steps : (p : AttrPath F) (v : Option Json) (s : S) → Steps R s (add p v s))
      (replace_steps : (p : AttrPath F) (v : Option Json) (s : S) → Steps R s (replace p v s))
      (remove_steps : (p : AttrPath F) (s : S) → Steps R s (remove p s)) where
    operation-Steps :
        (name : Text) (p : AttrPath F) (v : Option Json) (s : S)
        → Steps R s (operation parse_float add replace remove name p v s)
    unfolding operation
    operation-Steps name p v s = elim (Bool-cases (same (lower name) (text "add"))) [
      | inl is_add ↦ rw is_add (add_steps p v s)
      | inr e₁ ↦ elim (Bool-cases (same (lower name) (text "replace"))) [
        | inl is_replace ↦ rw (e₁, is_replace) (replace_steps p v s)
        | inr e₂ ↦ elim (Bool-cases (same (lower name) (text "remove"))) [
          | inl is_remove ↦ rw (e₁, e₂, is_remove) (remove_steps p s)
          | inr e₃ ↦ rw (e₁, e₂, e₃) tt
        ]
      ]
    ]

    apply_one-Steps :
        (o : PatchOp) (s : S) → Steps R s (apply_one parse_float add replace remove o s)
    unfolding apply_one
    apply_one-Steps o s = elim (Result-cases (parse_path parse_float o.path)) [
      | inl (p, e) ↦ rw (e, apply_one) (operation-Steps o.op p o.value s)
      | inr (f, e) ↦ rw (e, apply_one) tt
    ]

    apply_from-Steps :
        (i : ℕ) (os : List PatchOp) (s : S)
        → Steps R s (apply_from parse_float add replace remove i os s)
    unfolding apply_from
    apply_from-Steps i [] s = reflexive s
    apply_from-Steps i (o ∷ os) s =
        let one = apply_one parse_float add replace remove o s in
        Steps-bind s (at_index i one) (apply_from parse_float add replace remove (i + 1) os)
          (at_index-Steps i s one (apply_one-Steps o s)) (apply_from-Steps (i + 1) os)

    -- A PATCH that succeeds leads to a state that is related to the one before.
    pub apply_patch-Steps :
        (os : List PatchOp) (s : S) → Steps R s (apply_patch parse_float add replace remove os s)
    unfolding apply_patch
    apply_patch-Steps os s = apply_from-Steps 0 os s
