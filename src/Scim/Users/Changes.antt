-- ===== src/Scim/Users/Changes.antt =====
-- What the calls of internal/scim/users/service.go do to the entities.
use oad.Base.{
  ℕ, ◌≡◌, refl, sym, ap, ◌∙◌, subst, Option, some, List, [], ◌∷◌, Bool-cases, inl, inr, Result, ok,
  err, guard, Yields, >>=-Yields,
}
use oad.Scim.Text.{Text, same}
use oad.Scim.Properties.{Properties}
use oad.Scim.Patch.{PatchOp, PatchError}
use oad.Scim.Users.{patch_user}
use oad.Scim.Users.Patching.{patch_user-keeps}
use oad.Scim.Users.Mapper.{User, to_properties, from_stored-to_properties}
use oad.Scim.Store.{
  attribute_required, patch_failed, EntityRow, Tables, Conditions, insert_linked, get_linked,
  overwrite, unlink,
}
use oad.Scim.Store.Settled.{
  transaction-Settled, Claimed, get_linked-Claimed, Overwritten, overwrite-Overwritten,
}
use oad.Scim.Effects.{
  Fits, Effect, unchanged, Inserts, insert_linked-Inserts, Inserts-Effect, unlink-Effect,
  Overwritten-Effect, logged-Effect, Settled-Effect,
}
use oad.Scim.Users.Service.{
  StoredUser, Server, user_type, as_scim, read_user, create_audited, replace_audited, replace_in,
  delete_audited, create_user, replace_user, delete_user, patch_in, patch_stored,
}

as_scim-ok : (r : Result PatchError Properties) (ps : Properties) → as_scim r ≡ ok ps → r ≡ ok ps
as_scim-ok (ok qs) ps h = let e : qs ≡ ps = cc in ap ok e
as_scim-ok (err e) ps h = let bad : ok ps ≡ err (patch_failed e) = sym h in cc

module _ (env : Conditions) (provider : Text) where
  -- A user that was read is that of a row of the provider.
  abbrev pub Read : ℕ → Tables → StoredUser → Type 0
  Read id t u =
      (found : EntityRow × Text) × Claimed user_type provider id t found
      × (u ≡ record { entity_id = id; properties = found.0.properties; external_subject = found.1 })

  pub read_user-Read : (id : ℕ) (t : Tables) → Yields (Read id t) (read_user env provider id t)
  unfolding read_user
  read_user-Read id t =
      >>=-Yields (Read id t) (get_linked env user_type provider id t) _ (λ found h. (
        found,
        subst (Yields (Claimed user_type provider id t)) h
            (get_linked-Claimed env user_type provider id t),
        refl,
      ))

  abbrev HasEffect : {A : Type 0} → Tables → A × Tables → Type 0
  HasEffect t p = Effect provider t p.1.entities

  create_audited-Effect :
      (u : User) (external_id : Text) (t : Tables)
      → Yields (HasEffect t) (create_audited env provider u external_id t)
  unfolding create_audited
  create_audited-Effect u external_id t =
      >>=-Yields (HasEffect t)
        (insert_linked env user_type provider external_id (to_properties u) t) _
        (λ (row, t₁) h. logged-Effect env provider _ _ t t₁ (
          Inserts-Effect env provider user_type (to_properties u) t t₁ row
            (subst (Yields (Inserts env provider user_type (to_properties u) t)) h
              (insert_linked-Inserts env provider user_type external_id (to_properties u) t))
            (λ _. (from_stored-to_properties u).0)))

  replace_audited-Effect :
      (before : StoredUser) (props : Properties) (t : Tables)
      → ((row : EntityRow) (subject : Text)
          → Claimed user_type provider before.entity_id t (row, subject)
          → Fits row
          → Fits (record row { properties = props }))
      → Yields (HasEffect t) (replace_audited env provider before props t)
  unfolding replace_audited
  replace_audited-Effect before props t f =
      >>=-Yields (HasEffect t) (overwrite env user_type provider before.entity_id props t) _
        (λ (found, t₁) h. logged-Effect env provider _ _ t t₁ (
          Overwritten-Effect env provider user_type before.entity_id props t t₁ found
            (subst (Yields (Overwritten env user_type provider before.entity_id props t)) h
              (overwrite-Overwritten env user_type provider before.entity_id props t))
            f))

  replace_in-Effect :
      (id : ℕ) (u : User) (t : Tables) → Yields (HasEffect t) (replace_in env provider id u t)
  unfolding replace_in
  replace_in-Effect id u t = >>=-Yields (HasEffect t) (read_user env provider id t) _ (λ before h.
      replace_audited-Effect before (to_properties u) t
        (λ row subject c old k. (from_stored-to_properties u).0))

  delete_audited-Effect :
      (id : ℕ) (t : Tables) → Yields (HasEffect t) (delete_audited env provider id t)
  unfolding delete_audited
  delete_audited-Effect id t = >>=-Yields (HasEffect t) (read_user env provider id t) _ (λ before h.
      >>=-Yields (HasEffect t) (unlink env provider id t) _ (λ t₁ k.
        let read = subst (Yields (Read id t)) h (read_user-Read id t) in
        logged-Effect env provider _ _ t t₁ (
          subst (Yields (λ (t' : Tables). Effect provider t t'.entities)) k
            (unlink-Effect env provider user_type id t read.0 read.1))))

  module _ {F : Type 0} (parse_float : Text → Option F) where
    patched-Fits :
        (id : ℕ) (ops : List PatchOp) (t : Tables) (before : StoredUser) (props : Properties)
        (row : EntityRow) (subject : Text)
        → Read id t before
        → patch_user parse_float ops before.properties ≡ ok props
        → Claimed user_type provider id t (row, subject)
        → Fits row
        → Fits (record row { properties = props })
    patched-Fits id ops t before props row subject (found, claim, shape) h c old k =
        let same_row : found.0 ≡ row = some-injective (sym claim.0 ∙ c.0) in
        let same_props : before.properties ≡ row.properties =
          ap (λ (u : StoredUser). u.properties) shape
          ∙ ap (λ (e : EntityRow). e.properties) same_row in
        (patch_user-keeps parse_float ops row.properties props (old k)
          (subst (λ ps. patch_user parse_float ops ps ≡ ok props) same_props h)).0
      where
        some-injective : {a b : EntityRow} → some a ≡ some b → a ≡ b
        some-injective h = cc

    patch_in-Effect :
        (id : ℕ) (ops : List PatchOp) (t : Tables)
        → Yields (HasEffect t) (patch_in env provider parse_float id ops t)
    unfolding patch_in
    patch_in-Effect id ops t = >>=-Yields (HasEffect t) (read_user env provider id t) _ (λ before h.
        let read = subst (Yields (Read id t)) h (read_user-Read id t) in
        >>=-Yields (HasEffect t) (as_scim (patch_user parse_float ops before.properties)) _
          (λ props k. >>=-Yields (HasEffect t) (guard _ attribute_required) _ (λ _ _.
            replace_audited-Effect before props t (λ row subject c.
              patched-Fits id ops t before props row subject read (as_scim-ok _ props k) (
                subst (λ n. Claimed user_type provider n t (row, subject))
                  (ap (λ (u : StoredUser). u.entity_id) read.2) c)))))

    pub patch_stored-Effect :
        (id : ℕ) (ops : List PatchOp) (s : Server)
        → Effect provider s.tables
            (patch_stored env provider parse_float id ops s).1.tables.entities
    unfolding patch_stored
    patch_stored-Effect id [] s = unchanged
    patch_stored-Effect id (o ∷ os) s = Settled-Effect env provider s.tables _ (
        transaction-Settled (λ a t'. Effect provider s.tables t'.entities) env
          (patch_in env provider parse_float id (o ∷ os)) s.tables
          (patch_in-Effect id (o ∷ os) s.tables))

  pub create_user-Effect :
      (u : User) (external_id : Text) (s : Server)
      → Effect provider s.tables (create_user env provider u external_id s).1.tables.entities
  unfolding create_user
  create_user-Effect u external_id s = elim (Bool-cases (same u.user_name [])) [
    | inl e ↦ rw (create_user, e) unchanged
    | inr e ↦ elim (Bool-cases (same external_id [])) [
      | inl f ↦ rw (create_user, e, f) unchanged
      | inr f ↦
          rw (create_user, e, f)
            (Settled-Effect env provider s.tables _ (
              transaction-Settled (λ a t'. Effect provider s.tables t'.entities) env
                (create_audited env provider u external_id) s.tables
                (create_audited-Effect u external_id s.tables)))
    ]
  ]

  pub replace_user-Effect :
      (id : ℕ) (u : User) (s : Server)
      → Effect provider s.tables (replace_user env provider id u s).1.tables.entities
  unfolding replace_user
  replace_user-Effect id u s = elim (Bool-cases (same u.user_name [])) [
    | inl e ↦ rw (replace_user, e) unchanged
    | inr e ↦
        rw (replace_user, e)
          (Settled-Effect env provider s.tables _ (
            transaction-Settled (λ a t'. Effect provider s.tables t'.entities) env
              (replace_in env provider id u) s.tables (replace_in-Effect id u s.tables)))
  ]

  pub delete_user-Effect :
      (id : ℕ) (s : Server)
      → Effect provider s.tables (delete_user env provider id s).1.tables.entities
  unfolding delete_user
  delete_user-Effect id s = Settled-Effect env provider s.tables _ (
      transaction-Settled (λ a t'. Effect provider s.tables t'.entities) env
        (delete_audited env provider id) s.tables (delete_audited-Effect id s.tables))
