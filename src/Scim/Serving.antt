-- ===== src/Scim/Serving.antt =====
-- The calls of both SCIM services, in any order and from any providers (internal/scim/users/service.go,
-- internal/scim/groups/service.go).
mod Tests
use oad.Base.{
  ℕ, ◌≡◌, refl, sym, ap, ◌∙◌, subst, true, false, Option, none, some, List, [], ◌∷◌, ◌++◌, All,
  All-append, ◌==◌, ==_iff, Bool-cases, inl, inr, Result, arith,
}
use oad.Scim.Text.{Text, same, same→eq, same_refl}
use oad.Scim.Patch.{PatchOp}
use oad.Scim.Users.Mapper.{User}
use oad.Scim.Users.Service.{Server, uncached, create_user, replace_user, delete_user}
use oad.Scim.Users.Service as UserService
use oad.Scim.Users.Changes.{create_user-Effect, replace_user-Effect, delete_user-Effect}
use oad.Scim.Users.Changes as UserChanges
use oad.Scim.Groups.Repository.{GroupInput}
use oad.Scim.Groups.Service.{create_group, replace_group, delete_group}
use oad.Scim.Groups.Service as GroupService
use oad.Scim.Groups.Changes.{create_group-Effect, replace_group-Effect, delete_group-Effect}
use oad.Scim.Groups.Changes as GroupChanges
use oad.Scim.Store.{EntityRow, Tables, Conditions, row_id, find_subject}
use oad.Scim.Store.Settled.{Claimed, find_by_id-id}
use oad.Scim.Effects.{Fits, Effect, unchanged, inserted, changed, removed}
use oad.Table.{find_by_id, put_by_id, remove_by_id}
use oad.Table.Rows.{All-put, All-remove, find_by_id-append, find_by_id-put, find_by_id-remove}

-- A call that may change something.
pub data Call : Type 0 where
  user_create : User → Text → Call
  user_replace : ℕ → User → Call
  user_patch : ℕ → List PatchOp → Call
  user_delete : ℕ → Call
  group_create : GroupInput → Call
  group_replace : ℕ → GroupInput → Call
  group_patch : ℕ → List PatchOp → Call
  group_delete : ℕ → Call

Fits-found :
    (id : ℕ) (rows : List EntityRow) (row : EntityRow)
    → find_by_id row_id id rows ≡ some row
    → All Fits rows
    → Fits row
unfolding find_by_id
Fits-found id [] row e h = cc
Fits-found id (r ∷ rows) row e h = elim (Bool-cases (r.id == id)) [
  | inl k ↦ let r' : r ≡ row = ground (arith, (rw k at e)) in subst Fits r' h.0
  | inr k ↦ Fits-found id rows row (rw k at e) h.1
]

-- What holds of all users before a call holds after it.
Effect-Fits :
    (provider : Text) (t : Tables) (es : List EntityRow)
    → Effect provider t es
    → All Fits t.entities
    → All Fits es
Effect-Fits provider t _ unchanged h = h
Effect-Fits provider t _ (inserted row f) h = All-append Fits t.entities (row ∷ []) h (f, tt)
Effect-Fits provider t _ (changed type_name id now row subject props c f) h =
    All-put row_id Fits _ t.entities (f (Fits-found id t.entities row c.0 h)) h
Effect-Fits provider t _ (removed type_name id row subject c) h =
    All-remove row_id Fits id t.entities h

unlinked :
    {P : Type 0} (provider : Text) (t : Tables) (id k : ℕ) (subject : Text)
    → (id == k) ≡ true
    → find_subject id provider t.links ≡ some subject
    → find_subject k provider t.links ≡ none
    → P
unlinked provider t id k subject e h n =
    let id' : id ≡ k = (==_iff id k).0 e in let bad : some subject ≡ none = sym h ∙ (rw id' n) in cc

-- A row that the provider does not link stays as it is.
Effect-isolated :
    (provider : Text) (t : Tables) (es : List EntityRow) (k : ℕ) (row : EntityRow)
    → Effect provider t es
    → find_subject k provider t.links ≡ none
    → find_by_id row_id k t.entities ≡ some row
    → find_by_id row_id k es ≡ some row
Effect-isolated provider t _ k row unchanged none_linked h = h
Effect-isolated provider t _ k row (inserted new f) none_linked h =
    find_by_id-append row_id k t.entities (new ∷ []) row h
Effect-isolated provider t _ k row (changed type_name id now old subject props c f) none_linked h =
    elim (Bool-cases (id == k)) [
      | inl e ↦ unlinked provider t id k subject e c.1 none_linked
      | inr e ↦
          let e' : (old.id == k) ≡ false =
            subst (λ n. (n == k) ≡ false) (sym (find_by_id-id id t.entities old c.0)) e in
          find_by_id-put row_id k _ t.entities e' ∙ h
    ]
Effect-isolated provider t _ k row (removed type_name id old subject c) none_linked h =
    elim (Bool-cases (id == k)) [
      | inl e ↦ unlinked provider t id k subject e c.1 none_linked
      | inr e ↦ find_by_id-remove row_id k id t.entities e ∙ h
    ]

module _ {F : Type 0} (parse_uuid : Text → Option ℕ) (parse_float : Text → Option F) where
  unfoldable pub perform : Conditions → Text → Call → Server → Server
  unfolding create_user replace_user delete_user create_group replace_group delete_group
      UserService.patch_stored GroupService.patch_stored
  perform env provider (user_create u external_id) s = (create_user env provider u external_id s).1
  perform env provider (user_replace id u) s = (replace_user env provider id u s).1
  perform env provider (user_patch id ops) s =
      (UserService.patch_stored env provider parse_float id ops s).1
  perform env provider (user_delete id) s = (delete_user env provider id s).1
  perform env provider (group_create g) s = record s {
    tables = (create_group parse_uuid env provider g s.tables).1;
  }
  perform env provider (group_replace id g) s = record s {
    tables = (replace_group parse_uuid env provider id g s.tables).1;
  }
  perform env provider (group_patch id ops) s = record s {
    tables = (GroupService.patch_stored parse_uuid env provider parse_float id ops s.tables).1;
  }
  perform env provider (group_delete id) s = record s {
    tables = (delete_group env provider id s.tables).1;
  }

  perform-Effect :
      (env : Conditions) (provider : Text) (c : Call) (s : Server)
      → Effect provider s.tables (perform env provider c s).tables.entities
  unfolding perform
  perform-Effect env provider (user_create u external_id) s =
      create_user-Effect env provider u external_id s
  perform-Effect env provider (user_replace id u) s = replace_user-Effect env provider id u s
  perform-Effect env provider (user_patch id ops) s =
      UserChanges.patch_stored-Effect env provider parse_float id ops s
  perform-Effect env provider (user_delete id) s = delete_user-Effect env provider id s
  perform-Effect env provider (group_create g) s =
      create_group-Effect env provider parse_uuid g s.tables
  perform-Effect env provider (group_replace id g) s =
      replace_group-Effect env provider parse_uuid id g s.tables
  perform-Effect env provider (group_patch id ops) s =
      GroupChanges.patch_stored-Effect env provider parse_uuid parse_float id ops s.tables
  perform-Effect env provider (group_delete id) s = delete_group-Effect env provider id s.tables

  -- No call of a provider, to either service and whatever fails, changes or removes the entity of a user, of a group or
  -- of anything else that the provider does not link.
  pub scim-isolated :
      (env : Conditions) (provider : Text) (c : Call) (s : Server) (k : ℕ) (row : EntityRow)
      → find_subject k provider s.tables.links ≡ none
      → find_by_id row_id k s.tables.entities ≡ some row
      → find_by_id row_id k (perform env provider c s).tables.entities ≡ some row
  scim-isolated env provider c s k row =
      Effect-isolated provider s.tables _ k row (perform-Effect env provider c s)

  -- The states that calls lead to.
  pub data Served (start : Server) : Server → Type 0 where
    begun : Served start start
    called :
        {s : Server} (env : Conditions) (provider : Text) (c : Call)
        → Served start s
        → Served start (perform env provider c s)

  -- If each stored user has a userName, which is a string, and an active flag, which is a bool, then it is so after any
  -- calls of both services, by any providers and whatever fails.
  pub Served-Fits :
      (start s : Server)
      → All Fits start.tables.entities
      → Served start s
      → All Fits s.tables.entities
  Served-Fits start _ h begun = h
  Served-Fits start _ h (called {s} env provider c served) =
      Effect-Fits provider s.tables _ (perform-Effect env provider c s)
        (Served-Fits start s h served)
