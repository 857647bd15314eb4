-- ===== src/Scim/Store/Settled.antt =====
-- How the statements that the SCIM repositories share end (internal/scim/users/repository.go,
-- internal/scim/groups/repository.go).
use oad.Base.{
  ℕ, ◌≡◌, refl, sym, subst, true, some, List, [], ◌∷◌, ◌++◌, arith, ◌==◌, ==_refl, ==_iff,
  Bool-cases, Option-cases, Result-cases, inl, inr, Result, ok, err, Yields, >>=-Yields,
}
use oad.Scim.Text.{Text}
use oad.Scim.Properties.{Properties}
use oad.Scim.Store.{
  ScimError, EntityRow, ScimEntry, Tables, Conditions, row_id, linked, or_missing, overwrite,
  write_entry, transaction, find_subject, get_linked,
}
use oad.Table.{find_by_id, put_by_id}
use oad.Scim.Text.{same}

-- A call that fails changes nothing, and one that succeeds has what it is to have.
abbrev pub Settled : {A S : Type 0} → (A → S → Type 0) → S → Result ScimError A × S → Type 0
Settled P t (err e, t') = t' ≡ t
Settled P t (ok a, t') = P a t'

pub transaction-Settled :
    {A : Type 0} (P : A → Tables → Type 0) (env : Conditions)
    (run : Tables → Result ScimError (A × Tables)) (t : Tables)
    → Yields (λ (p : A × Tables). P p.0 p.1) (run t)
    → Settled P t (transaction env run t)
unfolding transaction
transaction-Settled {A} P env run t h = elim (Result-cases (run t)) [
  | inr (e, r) ↦ rw (transaction, r) refl
  | inl ((a, t'), r) ↦ elim (Bool-cases env.commit_fails) [
    | inl c ↦ rw (transaction, r, c) refl
    | inr c ↦ rw (transaction, r, c) (subst (Yields (λ (p : A × Tables). P p.0 p.1)) r h)
  ]
]

pub write_entry-Yields :
    (env : Conditions) (entry : ScimEntry) (t : Tables)
    → Yields
        (λ t'. t' ≡ record t { audit_log = t.audit_log ++ (entry ∷ []) })
        (write_entry env entry t)
unfolding write_entry
write_entry-Yields env entry t = elim (Bool-cases env.audit_fails) [
  | inl f ↦ rw f tt
  | inr f ↦ rw f refl
]

-- The row of a link, with its subject.
abbrev pub Claimed : Text → Text → ℕ → Tables → EntityRow × Text → Type 0
Claimed type_name provider id t found =
    (find_by_id row_id id t.entities ≡ some found.0)
    × (find_subject id provider t.links ≡ some found.1)
    × (same found.0.type_name type_name ≡ true)

linked-Claimed :
    (type_name provider : Text) (id : ℕ) (t : Tables)
    → Yields (Claimed type_name provider id t) (or_missing (linked type_name provider id t))
unfolding linked
linked-Claimed type_name provider id t = elim (Option-cases (find_by_id row_id id t.entities)) [
  | inl n ↦ rw n tt
  | inr (e, n) ↦ elim (Option-cases (find_subject id provider t.links)) [
    | inl m ↦ rw (n, m) tt
    | inr (s, m) ↦ elim (Bool-cases (same e.type_name type_name)) [
      | inl k ↦ rw (n, m, k) (n, m, k)
      | inr k ↦ rw (n, m, k) tt
    ]
  ]
]

pub get_linked-Claimed :
    (env : Conditions) (type_name provider : Text) (id : ℕ) (t : Tables)
    → Yields (Claimed type_name provider id t) (get_linked env type_name provider id t)
unfolding get_linked
get_linked-Claimed env type_name provider id t = elim (Bool-cases env.reads_fail) [
  | inl r ↦ rw r tt
  | inr r ↦ rw r (linked-Claimed type_name provider id t)
]

-- The row that replaces one is found in its place.
find_by_id-put_same :
    (new : EntityRow) (rows : List EntityRow) (old : EntityRow)
    → find_by_id row_id new.id rows ≡ some old
    → find_by_id row_id new.id (put_by_id row_id new rows) ≡ some new
unfolding find_by_id put_by_id
find_by_id-put_same new [] old h = cc
find_by_id-put_same new (r ∷ rows) old h = elim (Bool-cases (r.id == new.id)) [
  | inl e ↦ rw (e, ==_refl new.id) refl
  | inr e ↦ rw (e, e) (find_by_id-put_same new rows old (rw e at h))
]

pub find_by_id-id :
    (id : ℕ) (rows : List EntityRow) (row : EntityRow)
    → find_by_id row_id id rows ≡ some row
    → row.id ≡ id
unfolding find_by_id
find_by_id-id id [] row h = cc
find_by_id-id id (r ∷ rows) row h = elim (Bool-cases (r.id == id)) [
  | inl e ↦
      let e' : r ≡ row = ground (arith, (rw e at h)) in
      subst (λ q. q.id ≡ id) e' ((==_iff r.id id).0 e)
  | inr e ↦ find_by_id-id id rows row (rw e at h)
]

-- An update of properties: the row of the link has them, and nothing else changes.
abbrev pub Overwritten :
    Conditions → Text → Text → ℕ → Properties → Tables → (EntityRow × Text) × Tables → Type 0
Overwritten env type_name provider id props t ((row', subject), t') =
    (row : EntityRow) × Claimed type_name provider id t (row, subject)
    × (row' ≡ record row { properties = props; updated_at = env.now })
    × (t' ≡ record t { entities = put_by_id row_id row' t.entities })
    × (find_by_id row_id id t'.entities ≡ some row')

pub overwrite-Overwritten :
    (env : Conditions) (type_name provider : Text) (id : ℕ) (props : Properties) (t : Tables)
    → Yields
        (Overwritten env type_name provider id props t)
        (overwrite env type_name provider id props t)
unfolding overwrite
overwrite-Overwritten env type_name provider id props t = elim (Bool-cases env.writes_fail) [
  | inl w ↦ rw w tt
  | inr w ↦ rw w (
      >>=-Yields (Overwritten env type_name provider id props t)
        (or_missing (linked type_name provider id t)) _
        (λ (row, subject) h.
          let c : Claimed type_name provider id t (row, subject) =
            subst (Yields (Claimed type_name provider id t)) h
              (linked-Claimed type_name provider id t) in
          let new : EntityRow = record row { properties = props; updated_at = env.now } in
          let same_id : row.id ≡ id = find_by_id-id id t.entities row c.0 in
          (
            row,
            c,
            refl,
            refl,
            subst (λ n. find_by_id row_id n (put_by_id row_id new t.entities) ≡ some new) same_id
                (find_by_id-put_same new t.entities row
                  (subst (λ n. find_by_id row_id n t.entities ≡ some row) (sym same_id) c.0)),
          )))
]
