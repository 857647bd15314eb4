-- ===== src/Scim/Groups/Replaced.antt =====
-- What Replace and Patch of internal/scim/groups/service.go do to the tables.
use oad.Base.{
  ℕ, ◌≡◌, refl, subst, false, Option, List, [], ◌∷◌, Bool-cases, Result-cases, inl, inr, ok, guard,
  guard-true, Yields, Yields-map, >>=-Yields,
}
use oad.Scim.Text.{Text, same}
use oad.Scim.Properties.{Properties, get_property, display_name_key}
use oad.Scim.Patch.{PatchOp}
use oad.Scim.Store.{attribute_required, Tables, Conditions}
use oad.Scim.Store.Settled.{Settled, transaction-Settled}
use oad.Scim.Groups.{patch_group}
use oad.Scim.Groups.Repository.{
  GroupInput, as_scim, StoredGroup, group_properties, display_name_of, member_entity_ids,
  read_group,
}
use oad.Scim.Groups.Service.{
  replace_audited, parse_member_ids, replace_in, replace_group, patch_in, patch_stored,
}
use oad.Scim.Groups.Rewritten.{
  not-false, as_scim-ok, AuditedReplaced, replace_audited-Replaced, read_group-entity_id,
  IsReplaced, IsLogged,
}

-- The tables after a call that gave a group new properties and members, which `choose` finds for the group that was read.
abbrev pub IsChanged :
    (StoredGroup → Properties → List ℕ → Type 0)
    → Conditions
    → Text
    → ℕ
    → Tables
    → StoredGroup
    → Tables
    → Type 0
IsChanged Chosen env provider id t stored t' =
    (before : StoredGroup) × (props : Properties) × (wanted : List ℕ) × (read_group env provider id
        t
      ≡ ok before)
    × Chosen before props wanted
    × IsReplaced env provider id props wanted t t'
    × IsLogged provider id before.properties props t t'

module _ (env : Conditions) (provider : Text) where
  change-IsChanged :
      (Chosen : StoredGroup → Properties → List ℕ → Type 0) (id : ℕ) (before : StoredGroup)
      (props : Properties) (wanted : List ℕ) (t : Tables)
      → read_group env provider id t ≡ ok before
      → Chosen before props wanted
      → Yields
          (λ (p : StoredGroup × Tables). IsChanged Chosen env provider id t p.0 p.1)
          (replace_audited env provider before props wanted t)
  change-IsChanged Chosen id before props wanted t h c =
      let same_id : before.entity_id ≡ id =
        subst (Yields (λ (g : StoredGroup). g.entity_id ≡ id)) h
          (read_group-entity_id env provider id t) in
      Yields-map (AuditedReplaced env provider before.entity_id before.properties props wanted t)
        (λ (p : StoredGroup × Tables). IsChanged Chosen env provider id t p.0 p.1)
        (replace_audited env provider before props wanted t)
        (λ p q.
          let q' =
            subst (λ n. AuditedReplaced env provider n before.properties props wanted t p) same_id
              q in
          (before, props, wanted, h, c, q'.0, q'.1))
        (replace_audited-Replaced env provider before props wanted t)

-- What a payload chooses: its display name, and the members that it names.
abbrev pub ByPayload : (Text → Option ℕ) → GroupInput → StoredGroup → Properties → List ℕ → Type 0
ByPayload parse_uuid in_group before props wanted =
    (props ≡ group_properties in_group) × (parse_member_ids parse_uuid in_group.members ≡ ok wanted)

module _ (parse_uuid : Text → Option ℕ) (env : Conditions) (provider : Text) where
  -- A PUT of a group fails and changes nothing, or the members that the payload names, and no others, are the members:
  -- who stays keeps the time of joining, and who is new joins now. The group is no built-in one and is linked by the
  -- provider; its properties are those of the payload; the members of other groups, other entities and all links are
  -- as before; and the log has one entry more, with the properties before and after.
  pub replace_group-IsChanged :
      (id : ℕ) (in_group : GroupInput) (t : Tables)
      → Settled
          (IsChanged (ByPayload parse_uuid in_group) env provider id t)
          t
          (replace_group parse_uuid env provider id in_group t)
  unfolding replace_group replace_in
  replace_group-IsChanged id in_group t = elim (Bool-cases (same in_group.display_name [])) [
    | inl e ↦ rw e refl
    | inr e ↦ elim (Result-cases (parse_member_ids parse_uuid in_group.members)) [
      | inr (fault, h) ↦ rw (e, h) refl
      | inl (ids, h) ↦
          rw (e, h)
            (transaction-Settled (IsChanged (ByPayload parse_uuid in_group) env provider id t) env
              (replace_in parse_uuid env provider id in_group ids) t
              (>>=-Yields
                (λ (p : StoredGroup × Tables).
                  IsChanged (ByPayload parse_uuid in_group) env provider id t p.0 p.1)
                (read_group env provider id t) _
                (λ before k.
                  change-IsChanged env provider (ByPayload parse_uuid in_group) id before
                    (group_properties in_group) ids t k (refl, h))))
    ]
  ]

  module _ {F : Type 0} (parse_float : Text → Option F) where
    -- What the operations of a PATCH choose: what they make of the group, which still has a display name.
    abbrev pub ByPatch : List PatchOp → StoredGroup → Properties → List ℕ → Type 0
    ByPatch ops before props wanted =
        (patch_group parse_uuid parse_float ops (record {
          properties = before.properties;
          member_ids = member_entity_ids before.members;
        })
          ≡ ok (record { properties = props; member_ids = wanted }))
        × (same (display_name_of (get_property display_name_key props)) [] ≡ false)

    -- A PATCH of a group, with one operation or more, fails and changes nothing, or the group has the properties and the
    -- members that the operations make of those that were read, with a display name; apart from that, it is as for PUT.
    pub patch_stored-IsChanged :
        (id : ℕ) (o : PatchOp) (ops : List PatchOp) (t : Tables)
        → Settled
            (IsChanged (ByPatch (o ∷ ops)) env provider id t)
            t
            (patch_stored parse_uuid env provider parse_float id (o ∷ ops) t)
    unfolding patch_stored patch_in
    patch_stored-IsChanged id o ops t =
        let P =
          λ (p : StoredGroup × Tables). IsChanged (ByPatch (o ∷ ops)) env provider id t p.0 p.1 in
        transaction-Settled (IsChanged (ByPatch (o ∷ ops)) env provider id t) env
          (patch_in parse_uuid env provider parse_float id (o ∷ ops)) t
          (>>=-Yields P (read_group env provider id t) _ (λ before k.
            >>=-Yields P (as_scim _) _ (λ next n.
              >>=-Yields P (guard _ attribute_required) _ (λ _ g.
                change-IsChanged env provider (ByPatch (o ∷ ops)) id before next.properties
                  next.member_ids t k (as_scim-ok _ next n, not-false _ (guard-true _ _ _ g))))))
