-- ===== src/Scim/Effects.antt =====
-- What the calls of internal/scim/users/service.go and internal/scim/groups/service.go may do to the entities.
use oad.Base.{
  ℕ, ◌≡◌, refl, sym, ap, ◌∙◌, subst, true, false, not, ◌||◌, List, [], ◌∷◌, ◌++◌, Bool-cases,
  Option-cases, inl, inr, Result, ok, err, Yields, >>=-Yields, ◌>>=◌,
}
use oad.Scim.Text.{Text, same, same→eq}
use oad.Scim.Properties.{Properties}
use oad.Scim.Users.Patching.{IsUser}
use oad.Scim.Store.{
  ScimError, EntityRow, ScimEntry, Tables, Conditions, row_id, is_seeded, has_key,
  make_entity_external_id, has_subject, find_subject, remove_links, is_linked, insert_linked,
  unlink, write_entry,
}
use oad.Scim.Store.Settled.{Settled, write_entry-Yields, Claimed, Overwritten}
use oad.Scim.Users.Service.{user_type}
use oad.Scim.Groups.Repository.{group_type}
use oad.Table.{put_by_id, remove_by_id}

-- The row of a user has a userName, which is a string, and an active flag, which is a bool.
abbrev pub Fits : EntityRow → Type 0
Fits e = same e.type_name user_type ≡ true → IsUser e.properties

-- What a call of a provider makes of the entities: nothing, one more, or a change or the end of one that it links.
pub data Effect (provider : Text) (t : Tables) : List EntityRow → Type 0 where
  unchanged : Effect provider t t.entities
  inserted : (row : EntityRow) → Fits row → Effect provider t (t.entities ++ (row ∷ []))
  changed :
      (type_name : Text) (id now : ℕ) (row : EntityRow) (subject : Text) (props : Properties)
      → Claimed type_name provider id t (row, subject)
      → (Fits row → Fits (record row { properties = props }))
      → Effect provider t
          (put_by_id row_id (record row { properties = props; updated_at = now }) t.entities)
  removed :
      (type_name : Text) (id : ℕ) (row : EntityRow) (subject : Text)
      → Claimed type_name provider id t (row, subject)
      → Effect provider t (remove_by_id row_id id t.entities)

module _ (env : Conditions) (provider : Text) where
  abbrev pub Inserts : Text → Properties → Tables → EntityRow × Tables → Type 0
  Inserts type_name props t (row, t') =
      (t'.entities ≡ t.entities ++ (row ∷ []))
      × (row.type_name ≡ type_name)
      × (row.properties ≡ props)

  pub insert_linked-Inserts :
      (type_name subject : Text) (props : Properties) (t : Tables)
      → Yields (Inserts type_name props t) (insert_linked env type_name provider subject props t)
  unfolding insert_linked
  insert_linked-Inserts type_name subject props t =
      elim (Bool-cases (env.writes_fail || not (is_seeded type_name t.types))) [
        | inl w ↦ rw w tt
        | inr w ↦
            elim (Bool-cases (
              has_key type_name (make_entity_external_id provider subject) t.entities
              || has_subject provider subject t.links)) [
                | inl k ↦ rw (w, k) tt
                | inr k ↦ rw (w, k) (refl, refl, refl)
              ]
      ]

  -- A row that was inserted with fitting properties.
  pub Inserts-Effect :
      (type_name : Text) (props : Properties) (t t' : Tables) (row : EntityRow)
      → Inserts type_name props t (row, t')
      → (same type_name user_type ≡ true → IsUser props)
      → Effect provider t t'.entities
  Inserts-Effect type_name props t t' row (shape, of_type, with_props) f =
      subst (Effect provider t) (sym shape) (
        inserted row
          (λ h. subst IsUser (sym with_props) (f (subst (λ n. same n user_type ≡ true) of_type h))))

  pub unlink-Effect :
      (type_name : Text) (id : ℕ) (t : Tables) (found : EntityRow × Text)
      → Claimed type_name provider id t found
      → Yields (λ (t' : Tables). Effect provider t t'.entities) (unlink env provider id t)
  unfolding unlink
  unlink-Effect type_name id t (row, subject) c = elim (Bool-cases env.writes_fail) [
    | inl w ↦ rw w tt
    | inr w ↦ elim (Option-cases (find_subject id provider t.links)) [
      | inl m ↦ rw (w, m) tt
      | inr (s, m) ↦ elim (Bool-cases (is_linked id (remove_links id provider t.links))) [
        | inl l ↦ rw (w, m, l) unchanged
        | inr l ↦ rw (w, m, l) (removed type_name id row subject c)
      ]
    ]
  ]

  pub Overwritten-Effect :
      (type_name : Text) (id : ℕ) (props : Properties) (t t' : Tables) (found : EntityRow × Text)
      → Overwritten env type_name provider id props t (found, t')
      → ((row : EntityRow) (subject : Text)
          → Claimed type_name provider id t (row, subject)
          → Fits row
          → Fits (record row { properties = props }))
      → Effect provider t t'.entities
  Overwritten-Effect type_name id props t t' (row', subject) (row, claim, shape, wrote, found) f =
      subst (Effect provider t)
        (sym
          (ap (λ (u : Tables). u.entities) wrote ∙ ap (λ r. put_by_id row_id r t.entities) shape))
        (changed type_name id env.now row subject props claim (f row subject claim))

  -- An entry of the log at the end of a transaction.
  pub logged-Effect :
      {A : Type 0} (entry : ScimEntry) (a : A) (t t₁ : Tables)
      → Effect provider t t₁.entities
      → Yields
          (λ (p : A × Tables). Effect provider t p.1.entities)
          (write_entry env entry t₁ >>= λ t₂. ok (a, t₂))
  logged-Effect {A} entry a t t₁ e =
      >>=-Yields (λ (p : A × Tables). Effect provider t p.1.entities) (write_entry env entry t₁) _
        (λ t₂ h.
          let wrote = subst (Yields (λ t'. t' ≡ _)) h (write_entry-Yields env entry t₁) in
          subst (Effect provider t) (sym (ap (λ (u : Tables). u.entities) wrote)) e)

  pub Settled-Effect :
      {A : Type 0} (t : Tables) (p : Result ScimError A × Tables)
      → Settled (λ a t'. Effect provider t t'.entities) t p
      → Effect provider t p.1.entities
  Settled-Effect t (ok a, t') h = h
  Settled-Effect t (err e, t') h =
      subst (Effect provider t) (sym (ap (λ (u : Tables). u.entities) h)) unchanged

-- A group is no user.
pub group_Fits : (row : EntityRow) → same row.type_name group_type ≡ true → Fits row
unfolding same
group_Fits row h k =
    let bad : false ≡ true =
      subst (λ n. same n user_type ≡ true) (same→eq row.type_name group_type h) k in
    cc
