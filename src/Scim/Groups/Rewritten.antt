-- ===== src/Scim/Groups/Rewritten.antt =====
-- What Replace of internal/scim/groups/repository.go, with its entry of the audit log, does to the tables.
use oad.Base.{
  ℕ, ◌≡◌, refl, sym, ap, ◌∙◌, subst, Bool, true, false, not, some, List, [], ◌∷◌, ◌++◌, ◌==◌,
  Result, ok, err, guard, guard-true, Yields, >>=-Yields,
}
use oad.Scim.Text.{Text, text}
use oad.Scim.Properties.{Properties}
use oad.Scim.Patch.{PatchError}
use oad.Scim.Store.{
  patch_failed, EntityRow, ScimEntry, Tables, Conditions, row_id, scim_actor, find_subject,
  get_linked, overwrite, write_entry,
}
use oad.Scim.Store.Settled.{write_entry-Yields, Overwritten, overwrite-Overwritten, find_by_id-id}
use oad.Scim.Groups.{PatchState}
use oad.Scim.Groups.Membership.{reconcile_members, fetch_members}
use oad.Scim.Groups.Reconciled.{IsReconciled, Reconciles, reconcile_members-Reconciles}
use oad.Scim.Groups.Repository.{
  as_scim, StoredGroup, group_type, is_builtin_group, check_members, read_group, replace_row,
}
use oad.Scim.Groups.Service.{replace_audited}
use oad.Entity.Store.{op_update}
use oad.Table.{find_by_id, put_by_id}
use oad.Table.Rows.{find_by_id-put}

-- The tables after a group was given new properties and new members.
pub record IsReplaced (env : Conditions) (provider : Text) (id : ℕ) (props : Properties)
    (wanted : List ℕ) (t t' : Tables) : Type 0 where
  not_builtin : is_builtin_group env id t ≡ false
  claimed : (subject : Text) × (find_subject id provider t.links ≡ some subject)
  pub members : IsReconciled env.now id wanted t.memberships t'.memberships
  pub stored :
      (row : EntityRow) × (find_by_id row_id id t'.entities ≡ some row) × (row.properties ≡ props)
  pub others :
      (k : ℕ) → (id == k) ≡ false → find_by_id row_id k t'.entities ≡ find_by_id row_id k t.entities
  pub links : t'.links ≡ t.links

abbrev update_entry : Text → ℕ → Properties → Properties → ScimEntry
update_entry provider id before after = record {
  actor = scim_actor provider;
  operation = op_update;
  resource_type = text "group";
  resource_id = id;
  before_value = some before;
  after_value = some after;
}

-- One entry more in the log, with the properties before and after.
abbrev pub IsLogged : Text → ℕ → Properties → Properties → Tables → Tables → Type 0
IsLogged provider id before after t t' =
    t'.audit_log ≡ t.audit_log ++ (update_entry provider id before after ∷ [])

pub not-false : (b : Bool) → not b ≡ true → b ≡ false
not-false false h = refl
not-false true h = sym h

pub as_scim-ok : (r : Result PatchError PatchState) (s : PatchState) → as_scim r ≡ ok s → r ≡ ok s
as_scim-ok (ok t) s h = let e : t ≡ s = cc in ap ok e
as_scim-ok (err e) s h = let bad : ok s ≡ err (patch_failed e) = sym h in cc

module _ (env : Conditions) (provider : Text) where
  abbrev RowReplaced : ℕ → Properties → List ℕ → Tables → StoredGroup × Tables → Type 0
  RowReplaced id props wanted t (g, t') =
      IsReplaced env provider id props wanted t t' × (t'.audit_log ≡ t.audit_log)

  row-IsReplaced :
      (id : ℕ) (props : Properties) (wanted : List ℕ) (t : Tables) (found : EntityRow × Text)
      (t₁ t₂ : Tables)
      → is_builtin_group env id t ≡ false
      → Overwritten env group_type provider id props t (found, t₁)
      → Reconciles env id wanted t₁ t₂
      → IsReplaced env provider id props wanted t t₂ × (t₂.audit_log ≡ t.audit_log)
  row-IsReplaced id props wanted t (row, subject) t₁ t₂ free (old, claim, shape, wrote, found)
        (rest, members) =
      let memberships : t₁.memberships ≡ t.memberships = ap (λ (u : Tables). u.memberships) wrote in
      let entities : t₂.entities ≡ t₁.entities = ap (λ (u : Tables). u.entities) rest in
      let put : t₁.entities ≡ put_by_id row_id row t.entities =
        ap (λ (u : Tables). u.entities) wrote in
      let new_id : row.id ≡ id = find_by_id-id id t₁.entities row found in
      (
        record {
          not_builtin = free;
          claimed = (subject, claim.1);
          members =
              subst (λ ms. IsReconciled env.now id wanted ms t₂.memberships) memberships members;
          stored = (
            row,
            ap (find_by_id row_id id) entities ∙ found,
            ap (λ (e : EntityRow). e.properties) shape,
          );
          others = λ k d.
              ap (find_by_id row_id k) (entities ∙ put)
              ∙ find_by_id-put row_id k row t.entities
                  (subst (λ n. (n == k) ≡ false) (sym new_id) d);
          links = ap (λ (u : Tables). u.links) rest ∙ ap (λ (u : Tables). u.links) wrote;
        },
        ap (λ (u : Tables). u.audit_log) rest ∙ ap (λ (u : Tables). u.audit_log) wrote,
      )

  replace_row-RowReplaced :
      (id : ℕ) (props : Properties) (wanted : List ℕ) (t : Tables)
      → Yields (RowReplaced id props wanted t) (replace_row env provider id props wanted t)
  unfolding replace_row
  replace_row-RowReplaced id props wanted t =
      let P = RowReplaced id props wanted t in
      >>=-Yields P (guard (not (is_builtin_group env id t)) _) _ (λ _ free.
        >>=-Yields P (overwrite env group_type provider id props t) _ (λ ((row, subject), t₁) h.
          >>=-Yields P (reconcile_members env id wanted t₁) _ (λ t₂ k.
            >>=-Yields P (fetch_members env id t₂) _ (λ members l.
              row-IsReplaced id props wanted t (row, subject) t₁ t₂
                (not-false _ (guard-true _ _ _ free))
                (subst (Yields (Overwritten env group_type provider id props t)) h
                  (overwrite-Overwritten env group_type provider id props t))
                (subst (Yields (Reconciles env id wanted t₁)) k
                  (reconcile_members-Reconciles env id wanted t₁))))))

  IsReplaced-logged :
      (id : ℕ) (props : Properties) (wanted : List ℕ) (t t₁ : Tables) (log : List ScimEntry)
      → IsReplaced env provider id props wanted t t₁
      → IsReplaced env provider id props wanted t (record t₁ { audit_log = log })
  IsReplaced-logged id props wanted t t₁ log r = record {
    not_builtin = r.not_builtin;
    claimed = r.claimed;
    members = r.members;
    stored = r.stored;
    others = r.others;
    links = r.links;
  }

  abbrev pub AuditedReplaced :
      ℕ → Properties → Properties → List ℕ → Tables → StoredGroup × Tables → Type 0
  AuditedReplaced id before props wanted t (g, t') =
      IsReplaced env provider id props wanted t t' × IsLogged provider id before props t t'

  pub replace_audited-Replaced :
      (before : StoredGroup) (props : Properties) (wanted : List ℕ) (t : Tables)
      → Yields
          (AuditedReplaced before.entity_id before.properties props wanted t)
          (replace_audited env provider before props wanted t)
  unfolding replace_audited
  replace_audited-Replaced before props wanted t =
      let P = AuditedReplaced before.entity_id before.properties props wanted t in
      >>=-Yields P (check_members env provider wanted t) _ (λ _ _.
        >>=-Yields P (replace_row env provider before.entity_id props wanted t) _ (λ (g, t₁) h.
          >>=-Yields P (write_entry env _ t₁) _ (λ t₂ k.
            let row =
              subst (Yields (RowReplaced before.entity_id props wanted t)) h
                (replace_row-RowReplaced before.entity_id props wanted t) in
            let written = subst (Yields (λ t'. t' ≡ _)) k (write_entry-Yields env _ t₁) in
            (
              subst (λ u. IsReplaced env provider before.entity_id props wanted t u) (sym written)
                  (IsReplaced-logged before.entity_id props wanted t t₁ _ row.0),
              ap (λ (u : Tables). u.audit_log) written
                  ∙ ap
                      (λ l.
                        l ++ (update_entry provider before.entity_id before.properties props ∷ []))
                      row.1,
            ))))

  pub read_group-entity_id :
      (id : ℕ) (t : Tables)
      → Yields (λ (g : StoredGroup). g.entity_id ≡ id) (read_group env provider id t)
  unfolding read_group
  read_group-entity_id id t =
      let P = λ (g : StoredGroup). g.entity_id ≡ id in
      >>=-Yields P (get_linked env group_type provider id t) _
        (λ (row, subject) h. >>=-Yields P (fetch_members env id t) _ (λ members k. refl))
