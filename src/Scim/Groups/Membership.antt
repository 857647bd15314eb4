-- ===== src/Scim/Groups/Membership.antt =====
-- internal/scim/groups/repository.go: the relations that make the members of a group.
use oad.Base.{
  ℕ, Bool, true, false, ◌&&◌, ◌||◌, Option, none, some, List, [], ◌∷◌, ◌++◌, ltb, ◌==◌,
  if◌then◌else◌, Result, ok, err, ◌>>=◌,
}
use oad.Scim.Text.{Text, text, same}
use oad.Scim.Json.{Json}
use oad.Scim.Properties.{get_property, display_name_key}
use oad.Scim.Groups.Members.{contains}
use oad.Scim.Store.{
  ScimError, technical, EntityRow, ExternalIdentity, MemberOf, Tables, Conditions, row_id,
  find_subject,
}
use oad.Table.{find_by_id}

-- The display name is the value of the property, in place of what `->>` prints of it.
pub record MemberEntity : Type 0 where
  pub entity_id : ℕ
  pub type_name : Text
  pub display : Option Json

-- When an entity became a member of a group, if it is one.
unfoldable pub joined_at : ℕ → ℕ → List MemberOf → Option ℕ
joined_at group x [] = none
joined_at group x (m ∷ ms) =
    if (m.subject_entity_id == x) && (m.target_entity_id == group)
    then some m.created_at
    else joined_at group x ms

abbrev pub is_some : Option ℕ → Bool
is_some none = false
is_some (some t) = true

-- The first query of reconcileMembers.
unfoldable pub subjects : ℕ → List MemberOf → List ℕ
subjects group [] = []
subjects group (m ∷ ms) =
    let rest = subjects group ms in
    if m.target_entity_id == group then m.subject_entity_id ∷ rest else rest

-- DELETE FROM relation
unfoldable pub remove_membership : ℕ → ℕ → List MemberOf → List MemberOf
remove_membership group x [] = []
remove_membership group x (m ∷ ms) =
    let rest = remove_membership group x ms in
    if (m.subject_entity_id == x) && (m.target_entity_id == group) then rest else m ∷ rest

-- The loop over the current members, in any order, that drops those that are not wanted.
unfoldable pub delete_obsolete : ℕ → List ℕ → List ℕ → List MemberOf → List MemberOf
unfolding contains remove_membership
delete_obsolete group wanted [] ms = ms
delete_obsolete group wanted (x ∷ xs) ms =
    let dropped = remove_membership group x ms in
    delete_obsolete group wanted xs (if contains wanted x then ms else dropped)

module _ (env : Conditions) where
  -- INSERT INTO relation: both ends are entities, and the relation is not there yet.
  unfoldable pub insert_membership :
      ℕ → ℕ → List EntityRow → List MemberOf → Result ScimError (List MemberOf)
  unfolding find_by_id joined_at
  insert_membership group x es ms =
      let row : MemberOf = record {
        subject_entity_id = x;
        target_entity_id = group;
        created_at = env.now;
      } in
      if env.writes_fail || is_some (joined_at group x ms)
      then err technical
      else elim (find_by_id row_id x es) [
        | none ↦ err technical
        | some subject ↦ elim (find_by_id row_id group es) [
          | none ↦ err technical
          | some target ↦ ok (ms ++ (row ∷ []))
        ]
      ]

  -- The last loop of reconcileMembers, and that of Create, where there are no current members.
  unfoldable pub insert_new :
      ℕ → List ℕ → List ℕ → List EntityRow → List MemberOf → Result ScimError (List MemberOf)
  unfolding contains insert_membership
  insert_new group current [] es ms = ok ms
  insert_new group current (x ∷ xs) es ms =
      if contains current x
      then insert_new group current xs es ms
      else (insert_membership group x es ms >>= insert_new group current xs es)

  unfoldable pub reconcile_members : ℕ → List ℕ → Tables → Result ScimError Tables
  unfolding subjects delete_obsolete insert_new
  reconcile_members group wanted t =
      let current = subjects group t.memberships in
      let kept = delete_obsolete group wanted current t.memberships in
      if env.reads_fail then err technical else (do
        ms ← insert_new group current wanted t.entities kept
        ok (record t { memberships = ms }))

-- ORDER BY r.created_at, e.id
unfoldable comes_before : MemberOf → MemberOf → Bool
comes_before m n =
    ltb m.created_at n.created_at
    || ((m.created_at == n.created_at) && ltb m.subject_entity_id n.subject_entity_id)

unfoldable insert_ordered : MemberOf → List MemberOf → List MemberOf
unfolding comes_before
insert_ordered m [] = m ∷ []
insert_ordered m (n ∷ ns) =
    let rest = insert_ordered m ns in if comes_before n m then n ∷ rest else m ∷ n ∷ ns

unfoldable order_members : ℕ → List MemberOf → List MemberOf
unfolding insert_ordered
order_members group [] = []
order_members group (m ∷ ms) =
    let rest = order_members group ms in
    if m.target_entity_id == group then insert_ordered m rest else rest

unfoldable join_entities : List EntityRow → List MemberOf → List MemberEntity
unfolding find_by_id get_property
join_entities es [] = []
join_entities es (m ∷ ms) =
    let rest = join_entities es ms in
    elim (find_by_id row_id m.subject_entity_id es) [
      | none ↦ rest
      | some e ↦
          record {
            entity_id = e.id;
            type_name = e.type_name;
            display = get_property display_name_key e.properties;
          }
          ∷ rest
    ]

-- fetchMembers
unfoldable pub fetch_members : Conditions → ℕ → Tables → Result ScimError (List MemberEntity)
unfolding order_members join_entities
fetch_members env group t =
    if env.reads_fail
    then err technical
    else ok (join_entities t.entities (order_members group t.memberships))

-- ValidateMembers: the candidates that are users or groups that the provider links.
unfoldable pub resolved : Text → List ℕ → List ExternalIdentity → List EntityRow → List ℕ
unfolding contains same find_subject
resolved provider candidates links [] = []
resolved provider candidates links (e ∷ es) =
    let rest = resolved provider candidates links es in
    elim (find_subject e.id provider links) [
      | none ↦ rest
      | some subject ↦
          if contains candidates e.id
            && (same e.type_name (text "User") || same e.type_name (text "Group"))
          then e.id ∷ rest
          else rest
    ]

unfoldable pub validate_members : Conditions → Text → List ℕ → Tables → Result ScimError (List ℕ)
unfolding resolved
validate_members env provider [] t = ok []
validate_members env provider (x ∷ xs) t =
    if env.reads_fail then err technical else ok (resolved provider (x ∷ xs) t.links t.entities)
