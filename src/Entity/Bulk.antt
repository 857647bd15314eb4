-- ===== src/Entity/Bulk.antt =====
-- The totals of BulkCreate (internal/entity/service.go).
use oad.Base.{
  ℕ, suc, ◌+◌, ◌<◌, ◌≤◌, ◌≡◌, refl, ◌∙◌, subst, Bool, true, false, ◌||◌, List, [], ◌∷◌, length,
  length-append, All, All-append, arith, Result, ok, err, Bool-cases, inl, inr, Option,
}
use oad.Errors.{ApiError}
use oad.Scim.Text.{Text, text, same}
use oad.Scim.Json.{Json}
use oad.Auth.{Identity}
use oad.Entity.{CreateRequest}
use oad.Entity.Store.{Database, Environment}
use oad.Entity.Service.{
  BulkResult, bulk_item, count, bulk_from, bulk_run, bulk_create, mode_or_create,
}

-- The items that a result accounts for.
abbrev accounted : BulkResult → ℕ
accounted r = r.created + (r.updated + length r.errors)

-- Every error is that of an item before the `n`-th.
abbrev pub Before : ℕ → List (ℕ × ApiError) → Type 0
Before n = All (λ e. e.0 < n)

module _ (validate : Json → Json → Option ApiError) (print_uuid : ℕ → Text) where
  count-accounted :
      (i : ℕ) (o : Result ApiError Bool) (r : BulkResult)
      → accounted (count i o r) ≡ suc (accounted r)
  unfolding count
  count-accounted i (ok true) r = omega arith
  count-accounted i (ok false) r = omega arith
  count-accounted i (err e) r = omega (arith, length-append r.errors ((i, e) ∷ []))

  count-total : (i : ℕ) (o : Result ApiError Bool) (r : BulkResult) → (count i o r).total ≡ r.total
  unfolding count
  count-total i (ok true) r = refl
  count-total i (ok false) r = refl
  count-total i (err e) r = refl

  Before-weaken : (m n : ℕ) (es : List (ℕ × ApiError)) → m ≤ n → Before m es → Before n es
  Before-weaken m n [] h b = tt
  Before-weaken m n (e ∷ es) h b = (omega (arith, b.0), Before-weaken m n es h b.1)

  count-Before :
      (i : ℕ) (o : Result ApiError Bool) (r : BulkResult)
      → Before i r.errors
      → Before (i + 1) (count i o r).errors
  unfolding count
  count-Before i (ok true) r b = Before-weaken i (i + 1) r.errors (omega arith) b
  count-Before i (ok false) r b = Before-weaken i (i + 1) r.errors (omega arith) b
  count-Before i (err e) r b =
      All-append (λ e. e.0 < i + 1) r.errors ((i, e) ∷ [])
        (Before-weaken i (i + 1) r.errors (omega arith) b) (omega arith, tt)

  abbrev Accounts : List CreateRequest → Result ApiError BulkResult × Database → Type 0
  Accounts reqs (ok r, db) =
      (accounted r ≡ length reqs) × (r.total ≡ length reqs) × Before (length reqs) r.errors
  Accounts reqs (err e, db) = Unit

  module _ (envs : ℕ → Environment) (caller : Identity) (upsert : Bool) where
    bulk_from-accounted :
        (i : ℕ) (reqs : List CreateRequest) (r : BulkResult) (db : Database)
        → Before i r.errors
        → (accounted (bulk_from validate print_uuid upsert envs caller i reqs (r, db)).0
            ≡ accounted r + length reqs)
          × ((bulk_from validate print_uuid upsert envs caller i reqs (r, db)).0.total ≡ r.total)
          × Before
              (i + length reqs)
              (bulk_from validate print_uuid upsert envs caller i reqs (r, db)).0.errors
    unfolding bulk_from
    bulk_from-accounted i [] r db b =
        (omega arith, refl, Before-weaken i (i + 0) r.errors (omega arith) b)
    bulk_from-accounted i (req ∷ reqs) r db b =
        let (o, db') = bulk_item validate print_uuid upsert (envs i) caller req db in
        let r' = count i o r in
        let (sum, total, before) = bulk_from-accounted (i + 1) reqs r' db' (count-Before i o r b) in
        (
          omega (arith, count-accounted i o r, sum),
          total ∙ count-total i o r,
          Before-weaken (i + 1 + length reqs) (i + suc (length reqs)) _ (omega arith) before,
        )

    bulk_run-Accounts :
        (reqs : List CreateRequest) (db : Database)
        → Accounts reqs (bulk_run validate print_uuid upsert envs caller reqs db)
    unfolding bulk_run
    bulk_run-Accounts reqs db =
        let start : BulkResult = record {
          total = length reqs;
          created = 0;
          updated = 0;
          errors = [];
        } in
        let (sum, total, before) = bulk_from-accounted 0 reqs start db tt in
        (
          omega (arith, sum),
          total,
          Before-weaken (0 + length reqs) (length reqs) _ (omega arith) before,
        )

  bulk_create-Accounts :
      (envs : ℕ → Environment) (caller : Identity) (mode : Text) (reqs : List CreateRequest)
      (db : Database)
      → Accounts reqs (bulk_create validate print_uuid envs caller mode reqs db)
  unfolding bulk_create
  bulk_create-Accounts envs caller mode [] db = tt
  bulk_create-Accounts envs caller mode (req ∷ reqs) db =
      let named = mode_or_create mode in
      elim (Bool-cases (same named (text "upsert") || same named (text "create"))) [
        | inl known ↦
            rw known (bulk_run-Accounts envs caller (same named (text "upsert")) (req ∷ reqs) db)
        | inr unknown ↦ rw unknown tt
      ]

  -- Every item of a batch that is processed counts once, as created, as updated or as an error, and each
  -- error names an item of the batch.
  bulk_create-accounted :
      (envs : ℕ → Environment) (caller : Identity) (mode : Text) (reqs : List CreateRequest)
      (db db' : Database) (r : BulkResult)
      → bulk_create validate print_uuid envs caller mode reqs db ≡ (ok r, db')
      → (accounted r ≡ length reqs) × (r.total ≡ length reqs) × Before (length reqs) r.errors
  bulk_create-accounted envs caller mode reqs db db' r h =
      subst (λ q. Accounts reqs q) h (bulk_create-Accounts envs caller mode reqs db)
