-- ===== src/Scim/Groups/Patching.antt =====
-- What a whole PATCH of internal/scim/groups/patch.go keeps: no member twice, and the keys it may write.
use oad.Base.{
  ℕ, ◌≡◌, refl, ◌∙◌, subst, false, not, ◌||◌, Option, none, some, List, [], Bool-cases,
  Option-cases, inl, inr, ok, Result-cases,
}
use oad.Scim.Text.{Text, text, same}
use oad.Scim.Json.{Json, str, as_string}
use oad.Scim.Filter.{Expr}
use oad.Scim.Path.{AttrPath}
use oad.Scim.Patch.{PatchOp, set_at}
use oad.Scim.Patch.Steps.{Steps, set_at-Steps, apply_patch-Steps}
use oad.Scim.Properties.{display_name_key, get_property, get_property-set_property_other}
use oad.Scim.Groups.{
  PatchState, set_string_prop, decode_members_value, is_plain, add_attr, replace_attr,
  remove_filtered, remove_attr, member_value_filter, patch_group,
}
use oad.Scim.Groups.Members.{merge_members, dedup_members, remove_member}
use oad.Scim.Groups.Laws.{
  Distinct, merge_members-Distinct, dedup_members-Distinct, remove_member-Distinct,
}

-- No member twice if there was none twice, and no key but displayName written.
abbrev Keeps : PatchState → PatchState → Type 0
Keeps s t =
    (Distinct s.member_ids → Distinct t.member_ids)
    × ((k : Text)
        → same display_name_key k ≡ false
        → get_property k t.properties ≡ get_property k s.properties)

Keeps-reflexive : (s : PatchState) → Keeps s s
Keeps-reflexive s = ((λ d. d), (λ k d. refl))

Keeps-transitive : (s t u : PatchState) → Keeps s t → Keeps t u → Keeps s u
Keeps-transitive s t u (f, g) (f', g') = ((λ d. f' (f d)), (λ k d. g' k d ∙ g k d))

with_members :
    (s : PatchState) (ids : List ℕ)
    → (Distinct s.member_ids → Distinct ids)
    → Keeps s (record s { member_ids = ids })
with_members s ids f = (f, (λ k d. refl))

set_string_prop-Keeps :
    (raw : Option Json) (s : PatchState) → Steps Keeps s (set_string_prop display_name_key raw s)
unfolding set_string_prop
set_string_prop-Keeps raw s = elim (Option-cases (as_string raw)) [
  | inl e ↦ rw (e, set_string_prop) tt
  | inr (v, e) ↦
      rw (e, set_string_prop)
        ((λ d. d), (λ k. get_property-set_property_other k display_name_key (str v) s.properties))
]

module _ {F : Type 0} (parse_float : Text → Option F) (parse_uuid : Text → Option ℕ) where
  add_attr-Keeps :
      (p : AttrPath F) (v : Option Json) (s : PatchState)
      → Steps Keeps s (add_attr parse_uuid parse_float p v s)
  unfolding add_attr
  add_attr-Keeps p v s = elim (Bool-cases (is_plain parse_uuid parse_float p)) [
    | inr e₁ ↦ rw e₁ tt
    | inl e₁ ↦ elim (Bool-cases (same p.attr (text "displayname"))) [
      | inl e₂ ↦ rw (e₁, e₂) (set_string_prop-Keeps v s)
      | inr e₂ ↦ elim (Bool-cases (same p.attr (text "members"))) [
        | inr e₃ ↦ rw (e₁, e₂, e₃) tt
        | inl e₃ ↦ elim (Result-cases (decode_members_value parse_uuid v)) [
          | inl (ids, e₄) ↦
              rw (e₁, e₂, e₃, e₄)
                (with_members s (merge_members s.member_ids ids)
                  (merge_members-Distinct s.member_ids ids))
          | inr (f, e₄) ↦ rw (e₁, e₂, e₃, e₄) tt
        ]
      ]
    ]
  ]

  replace_attr-Keeps :
      (p : AttrPath F) (v : Option Json) (s : PatchState)
      → Steps Keeps s (replace_attr parse_uuid parse_float p v s)
  unfolding replace_attr
  replace_attr-Keeps p v s = elim (Bool-cases (is_plain parse_uuid parse_float p)) [
    | inr e₁ ↦ rw e₁ tt
    | inl e₁ ↦ elim (Bool-cases (same p.attr (text "displayname"))) [
      | inl e₂ ↦ rw (e₁, e₂) (set_string_prop-Keeps v s)
      | inr e₂ ↦ elim (Bool-cases (same p.attr (text "members"))) [
        | inr e₃ ↦ rw (e₁, e₂, e₃) tt
        | inl e₃ ↦ elim (Result-cases (decode_members_value parse_uuid v)) [
          | inl (ids, e₄) ↦
              rw (e₁, e₂, e₃, e₄)
                (with_members s (dedup_members ids) (λ d. dedup_members-Distinct ids))
          | inr (f, e₄) ↦ rw (e₁, e₂, e₃, e₄) tt
        ]
      ]
    ]
  ]

  remove_filtered-Keeps :
      (f : Option (Expr F)) (s : PatchState)
      → Steps Keeps s (remove_filtered parse_uuid parse_float f s)
  unfolding remove_filtered
  remove_filtered-Keeps none s = with_members s [] (λ d. tt)
  remove_filtered-Keeps (some e) s =
      elim (Option-cases (member_value_filter parse_uuid parse_float e)) [
        | inl h ↦ rw (h, remove_filtered) tt
        | inr (id, h) ↦
            rw (h, remove_filtered)
              (with_members s (remove_member s.member_ids id)
                (remove_member-Distinct s.member_ids id))
      ]

  remove_attr-Keeps :
      (p : AttrPath F) (s : PatchState) → Steps Keeps s (remove_attr parse_uuid parse_float p s)
  unfolding remove_attr
  remove_attr-Keeps p s =
      elim (Bool-cases (not (same p.attr (text "members")) || not (same p.sub_attr []))) [
        | inl e ↦ rw e tt
        | inr e ↦ rw e (remove_filtered-Keeps p.filter s)
      ]

  patch_group-Keeps :
      (os : List PatchOp) (s : PatchState) → Steps Keeps s (patch_group parse_uuid parse_float os s)
  unfolding patch_group
  patch_group-Keeps os s =
      apply_patch-Steps Keeps Keeps-reflexive Keeps-transitive parse_float
        (set_at parse_float (add_attr parse_uuid parse_float))
        (set_at parse_float (replace_attr parse_uuid parse_float))
        (remove_attr parse_uuid parse_float)
        (set_at-Steps Keeps Keeps-reflexive Keeps-transitive parse_float
          (add_attr parse_uuid parse_float) add_attr-Keeps)
        (set_at-Steps Keeps Keeps-reflexive Keeps-transitive parse_float
          (replace_attr parse_uuid parse_float) replace_attr-Keeps)
        remove_attr-Keeps os s

  -- Whatever the operations are, a PATCH of a group that succeeds leaves no member twice, if there
  -- was none twice before, and every property but displayName as it was.
  pub patch_group-keeps :
      (os : List PatchOp) (s t : PatchState)
      → Distinct s.member_ids
      → patch_group parse_uuid parse_float os s ≡ ok t
      → Distinct t.member_ids
        × ((k : Text)
            → same display_name_key k ≡ false
            → get_property k t.properties ≡ get_property k s.properties)
  patch_group-keeps os s t d h =
      let kept = subst (λ r. Steps Keeps s r) h (patch_group-Keeps os s) in (kept.0 d, kept.1)
