-- ===== src/Scim/Groups/Changes.antt =====
-- What the calls of internal/scim/groups/service.go do to the entities.
use oad.Base.{
  ℕ, ◌≡◌, sym, ap, subst, true, not, Option, List, [], ◌∷◌, Bool-cases, Result-cases, inl, inr,
  Result, guard, Yields, Yields-map, ◌>>=◌, >>=-Yields,
}
use oad.Scim.Text.{Text, same}
use oad.Scim.Properties.{Properties, get_property, display_name_key}
use oad.Scim.Patch.{PatchOp}
use oad.Scim.Groups.{patch_group}
use oad.Scim.Store.{
  ScimError, attribute_required, EntityRow, Tables, Conditions, insert_linked, get_linked,
  overwrite, unlink, transaction,
}
use oad.Scim.Store.Settled.{
  transaction-Settled, Claimed, get_linked-Claimed, Overwritten, overwrite-Overwritten,
}
use oad.Scim.Effects.{
  Effect, unchanged, group_Fits, Inserts, insert_linked-Inserts, Inserts-Effect, unlink-Effect,
  Overwritten-Effect, logged-Effect, Settled-Effect,
}
use oad.Scim.Users.Patching.{IsUser}
use oad.Scim.Users.Service.{user_type}
use oad.Scim.Groups.Membership.{insert_new, reconcile_members, fetch_members}
use oad.Scim.Groups.Reconciled.{Reconciles, reconcile_members-Reconciles}
use oad.Scim.Groups.Repository.{
  GroupInput, StoredGroup, display_name_of, group_type, group_properties, as_scim,
  member_entity_ids, is_builtin_group, check_members, read_group, create_row, replace_row,
  delete_group_row,
}
use oad.Scim.Groups.Service.{
  replace_audited, delete_audited, create_audited, parse_member_ids, create_group, replace_in,
  replace_group, patch_in, patch_stored, delete_group,
}

module _ (env : Conditions) (provider : Text) where
  abbrev HasEffect : {A : Type 0} → Tables → A × Tables → Type 0
  HasEffect t p = Effect provider t p.1.entities

  -- A group that was read is that of a row of the provider.
  abbrev Read : ℕ → Tables → StoredGroup → Type 0
  Read id t g = (found : EntityRow × Text) × Claimed group_type provider id t found

  read_group-Read : (id : ℕ) (t : Tables) → Yields (Read id t) (read_group env provider id t)
  unfolding read_group
  read_group-Read id t =
      >>=-Yields (Read id t) (get_linked env group_type provider id t) _ (λ found h.
        >>=-Yields (Read id t) (fetch_members env id t) _ (λ ms k. (
          found,
          subst (Yields (Claimed group_type provider id t)) h
              (get_linked-Claimed env group_type provider id t),
        )))

  inserted-Effect :
      (subject : Text) (props : Properties) (t : Tables)
      → Yields (HasEffect t) (insert_linked env group_type provider subject props t)
  unfolding same
  inserted-Effect subject props t =
      Yields-map (Inserts env provider group_type props t) (HasEffect t) _
        (λ p i. Inserts-Effect env provider group_type props t p.1 p.0 i no_user)
        (insert_linked-Inserts env provider group_type subject props t)
    where
      no_user : same group_type user_type ≡ true → IsUser props
      no_user h = cc

  create_row-Effect :
      (subject : Text) (props : Properties) (ids : List ℕ) (t : Tables)
      → Yields (HasEffect t) (create_row env provider subject props ids t)
  unfolding create_row
  create_row-Effect subject props [] t =
      >>=-Yields (HasEffect t) (insert_linked env group_type provider subject props t) _
        (λ (row, t₁) h. subst (Yields (HasEffect t)) h (inserted-Effect subject props t))
  create_row-Effect subject props (x ∷ xs) t =
      >>=-Yields (HasEffect t) (insert_linked env group_type provider subject props t) _
        (λ (row, t₁) h.
          >>=-Yields (HasEffect t) (insert_new env row.id [] (x ∷ xs) t₁.entities t₁.memberships) _
            (λ ms k.
              >>=-Yields (HasEffect t) (fetch_members env row.id (record t₁ { memberships = ms })) _
                (λ members l. subst (Yields (HasEffect t)) h (inserted-Effect subject props t))))

  replace_row-Effect :
      (id : ℕ) (props : Properties) (wanted : List ℕ) (t : Tables)
      → Yields (HasEffect t) (replace_row env provider id props wanted t)
  unfolding replace_row
  replace_row-Effect id props wanted t =
      >>=-Yields (HasEffect t) (guard (not (is_builtin_group env id t)) _) _ (λ _ _.
        >>=-Yields (HasEffect t) (overwrite env group_type provider id props t) _ (λ (found, t₁) h.
          >>=-Yields (HasEffect t) (reconcile_members env id wanted t₁) _ (λ t₂ k.
            >>=-Yields (HasEffect t) (fetch_members env id t₂) _ (λ members l.
              let rest =
                subst (Yields (Reconciles env id wanted t₁)) k
                  (reconcile_members-Reconciles env id wanted t₁) in
              subst (Effect provider t) (sym (ap (λ (u : Tables). u.entities) rest.0)) (
                Overwritten-Effect env provider group_type id props t t₁ found
                  (subst (Yields (Overwritten env group_type provider id props t)) h
                    (overwrite-Overwritten env group_type provider id props t))
                  (λ row subject c old. group_Fits (record row { properties = props }) c.2))))))

  replace_audited-Effect :
      (before : StoredGroup) (props : Properties) (wanted : List ℕ) (t : Tables)
      → Yields (HasEffect t) (replace_audited env provider before props wanted t)
  unfolding replace_audited
  replace_audited-Effect before props wanted t =
      >>=-Yields (HasEffect t) (check_members env provider wanted t) _ (λ _ _.
        >>=-Yields (HasEffect t) (replace_row env provider before.entity_id props wanted t) _
          (λ (g, t₁) h.
            logged-Effect env provider _ g t t₁ (
              subst (Yields (HasEffect t)) h (replace_row-Effect before.entity_id props wanted t))))

  create_audited-Effect :
      (g : GroupInput) (ids : List ℕ) (t : Tables)
      → Yields (HasEffect t) (create_audited env provider g ids t)
  unfolding create_audited
  create_audited-Effect g ids t =
      >>=-Yields (HasEffect t) (check_members env provider ids t) _ (λ _ _.
        >>=-Yields (HasEffect t) (create_row env provider g.external_id (group_properties g) ids t)
          _
          (λ (stored, t₁) h. logged-Effect env provider _ stored t t₁ (
            subst (Yields (HasEffect t)) h
              (create_row-Effect g.external_id (group_properties g) ids t))))

  delete_audited-Effect :
      (id : ℕ) (t : Tables) → Yields (HasEffect t) (delete_audited env provider id t)
  unfolding delete_audited delete_group_row
  delete_audited-Effect id t =
      >>=-Yields (HasEffect t) (read_group env provider id t) _ (λ before h.
        >>=-Yields (HasEffect t)
          (guard (not (is_builtin_group env id t)) _ >>= λ _. unlink env provider id t) _
          (λ t₁ k.
            let read = subst (Yields (Read id t)) h (read_group-Read id t) in
            logged-Effect env provider _ _ t t₁ (
              subst (Yields (λ (t' : Tables). Effect provider t t'.entities)) k (
                >>=-Yields (λ (t' : Tables). Effect provider t t'.entities)
                  (guard (not (is_builtin_group env id t)) _) _
                  (λ _ _. unlink-Effect env provider group_type id t read.0 read.1)))))

  settled-Effect :
      {A : Type 0} (run : Tables → Result ScimError (A × Tables)) (t : Tables)
      → Yields (HasEffect t) (run t)
      → Effect provider t (transaction env run t).1.entities
  settled-Effect {A} run t h =
      Settled-Effect env provider t _
        (transaction-Settled (λ (a : A) t'. Effect provider t t'.entities) env run t h)

  pub delete_group-Effect :
      (id : ℕ) (t : Tables) → Effect provider t (delete_group env provider id t).1.entities
  unfolding delete_group
  delete_group-Effect id t =
      settled-Effect (delete_audited env provider id) t (delete_audited-Effect id t)

  module _ (parse_uuid : Text → Option ℕ) where
    pub create_group-Effect :
        (g : GroupInput) (t : Tables)
        → Effect provider t (create_group parse_uuid env provider g t).1.entities
    unfolding create_group
    create_group-Effect g t = elim (Bool-cases (same g.display_name [])) [
      | inl e ↦ rw (create_group, e) unchanged
      | inr e ↦ elim (Bool-cases (same g.external_id [])) [
        | inl f ↦ rw (create_group, e, f) unchanged
        | inr f ↦ elim (Result-cases (parse_member_ids parse_uuid g.members)) [
          | inr (fault, h) ↦ rw (create_group, e, f, h) unchanged
          | inl (ids, h) ↦
              rw (create_group, e, f, h)
                (settled-Effect (create_audited env provider g ids) t
                  (create_audited-Effect g ids t))
        ]
      ]
    ]

    replace_in-Effect :
        (id : ℕ) (g : GroupInput) (ids : List ℕ) (t : Tables)
        → Yields (HasEffect t) (replace_in parse_uuid env provider id g ids t)
    unfolding replace_in
    replace_in-Effect id g ids t =
        >>=-Yields (HasEffect t) (read_group env provider id t) _
          (λ before h. replace_audited-Effect before (group_properties g) ids t)

    pub replace_group-Effect :
        (id : ℕ) (g : GroupInput) (t : Tables)
        → Effect provider t (replace_group parse_uuid env provider id g t).1.entities
    unfolding replace_group
    replace_group-Effect id g t = elim (Bool-cases (same g.display_name [])) [
      | inl e ↦ rw (replace_group, e) unchanged
      | inr e ↦ elim (Result-cases (parse_member_ids parse_uuid g.members)) [
        | inr (fault, h) ↦ rw (replace_group, e, h) unchanged
        | inl (ids, h) ↦
            rw (replace_group, e, h)
              (settled-Effect (replace_in parse_uuid env provider id g ids) t
                (replace_in-Effect id g ids t))
      ]
    ]

    pub patch_stored-Effect :
        {F : Type 0} (parse_float : Text → Option F) (id : ℕ) (ops : List PatchOp) (t : Tables)
        → Effect provider t (patch_stored parse_uuid env provider parse_float id ops t).1.entities
    unfolding patch_stored patch_in
    patch_stored-Effect parse_float id [] t = unchanged
    patch_stored-Effect parse_float id (o ∷ os) t =
        settled-Effect (patch_in parse_uuid env provider parse_float id (o ∷ os)) t (
          >>=-Yields (HasEffect {A = StoredGroup} t) (read_group env provider id t) _ (λ before h.
            >>=-Yields (HasEffect {A = StoredGroup} t)
              (as_scim (
                patch_group parse_uuid parse_float (o ∷ os) (record {
                  properties = before.properties;
                  member_ids = member_entity_ids before.members;
                })))
              _
              (λ next k.
                >>=-Yields (HasEffect {A = StoredGroup} t)
                  (guard
                    (not
                      (same (display_name_of (get_property display_name_key next.properties)) []))
                    attribute_required)
                  _ (λ _ _. replace_audited-Effect before next.properties next.member_ids t))))
