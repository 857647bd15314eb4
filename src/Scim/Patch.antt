-- ===== src/Scim/Patch.antt =====
-- What internal/scim/users/patch.go and internal/scim/groups/patch.go share: the operations, their errors, and the
-- descent into an object where the path is empty.
pub mod Steps
use oad.Base.{ℕ, ◌+◌, Option, none, some, List, [], ◌∷◌, if◌then◌else◌, Result, ok, err, ◌>>=◌}
use oad.Scim.Text.{Text, text, same, lower}
use oad.Scim.Json.{Json, Items, Fields, null, bool, number, str, arr, obj, end, field}
use oad.Scim.Path.{AttrPath, PathError, parse_path}

-- PatchOp; `none` is an absent value.
pub record PatchOp : Type 0 where
  pub op : Text
  pub path : Text
  pub value : Option Json

-- ErrPatchNoTarget and ErrPatchInvalidValue, without the wrapped messages.
pub data PatchFault : Type 0 where
  no_target invalid_value : PatchFault

-- The error of ApplyPatch names the operation that failed.
pub record PatchError : Type 0 where
  pub index : ℕ
  pub fault : PatchFault

-- fmt.Errorf("operation %d …: %w", i, …)
abbrev pub at_index {ℓ} : {A : Type ℓ} → ℕ → Result PatchFault A → Result PatchError A
at_index i (ok a) = ok a
at_index i (err f) = err (record { index = i; fault = f })

module _ {F S : Type 0} (parse_float : Text → Option F)
    (set : AttrPath F → Option Json → S → Result PatchFault S) where
  -- `errors.Is(err, ErrPatchNoTarget)` leads to `continue`.
  unfoldable pub ignoring_no_target : S → Result PatchFault S → Result PatchFault S
  ignoring_no_target s (ok t) = ok t
  ignoring_no_target s (err no_target) = ok s
  ignoring_no_target s (err invalid_value) = err invalid_value

  -- One entry of the object: a path that does not parse is skipped. `descend` is applyRootObject
  -- on the entry's value, for an empty path.
  unfoldable pub root_entry :
      Result PathError (AttrPath F)
      → Option Json
      → (S → Result PatchFault S)
      → S
      → Result PatchFault S
  unfolding ignoring_no_target
  root_entry (err e) v descend s = ok s
  root_entry (ok p) v descend s =
      ignoring_no_target s (if same p.attr [] then descend s else set p v s)

  -- applyRootObject, on an object whose entries may hold objects under empty paths.
  unfoldable mutual
    pub root_object : Json → S → Result PatchFault S
    root_object (obj fs) s = root_fields fs s
    root_object null s = ok s
    root_object _ s = err invalid_value

    pub root_fields : Fields → S → Result PatchFault S
    root_fields end s = ok s
    root_fields (field k v fs) s =
        let descend = root_object v in
        root_entry (parse_path parse_float k) (some v) descend s >>= root_fields fs

  unfoldable root_value : Option Json → S → Result PatchFault S
  root_value none s = err invalid_value
  root_value (some v) s = root_object v s

  -- The shape of applyAdd and applyReplace.
  unfoldable pub set_at : AttrPath F → Option Json → S → Result PatchFault S
  unfolding same root_object root_entry root_value
  set_at p v s = if same p.attr [] then root_value v s else set p v s

-- The switch of applyOne, over the three operations, and the loop of ApplyPatch.
module _ {F S : Type 0} (parse_float : Text → Option F)
    (add replace : AttrPath F → Option Json → S → Result PatchFault S)
    (remove : AttrPath F → S → Result PatchFault S) where
  unfoldable pub operation : Text → AttrPath F → Option Json → S → Result PatchFault S
  unfolding lower same
  operation name p v s =
      if same (lower name) (text "add")
      then add p v s
      else if same (lower name) (text "replace")
      then replace p v s
      else if same (lower name) (text "remove")
      then remove p s
      else err no_target

  unfoldable pub apply_one : PatchOp → S → Result PatchFault S
  unfolding operation
  apply_one o s = elim (parse_path parse_float o.path) [
    | ok p ↦ operation o.op p o.value s
    | err e ↦ err no_target
  ]

  -- The first failure aborts the batch.
  unfoldable pub apply_from : ℕ → List PatchOp → S → Result PatchError S
  apply_from i [] s = ok s
  apply_from i (o ∷ os) s = at_index i (apply_one o s) >>= apply_from (i + 1) os

  unfoldable pub apply_patch : List PatchOp → S → Result PatchError S
  unfolding apply_from apply_one
  apply_patch os s = apply_from 0 os s
