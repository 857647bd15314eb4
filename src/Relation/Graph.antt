-- ===== src/Relation/Graph.antt =====
-- The edges that internal/relation/service.go stores, and when two of them are the same.
use oad.Base.{ℕ, ◌≡◌, refl, true, false, Option, none, some, List, [], ◌∷◌, arith, ◌==◌, ok}
use oad.Scim.Text.{Text, same, same_comm}
use oad.Entity.{Entity}
use oad.Table.{find_by_id, has_clash}
use oad.Relation.{Relation, TypeRow, extract_relation_entry, contains_text}
use oad.Relation.Service.{Directory, same_system, same_edge}

==_comm : (a b : ℕ) → (a == b) ≡ (b == a)
==_comm a b = ground arith

same_system_comm : (a b : Option ℕ) → same_system a b ≡ same_system b a
same_system_comm none none = refl
same_system_comm none (some b) = refl
same_system_comm (some a) none = refl
same_system_comm (some a) (some b) = ==_comm a b

pub same_edge_comm : (r s : Relation) → same_edge r s ≡ same_edge s r
same_edge_comm r s =
    rw
      (
        ==_comm r.subject_entity_id s.subject_entity_id,
        same_comm r.relation_type s.relation_type,
        ==_comm r.target_entity_id s.target_entity_id,
        same_system_comm r.system_id s.system_id,
      )
      refl

abbrev pub id_of : Relation → ℕ
id_of r = r.id

-- The type of an entity in the directory.
abbrev pub HasType : Directory → ℕ → TypeRow → Type 0
HasType dir id type =
    (e : Entity) × (find_by_id (λ (e : Entity). e.id) id dir.entities ≡ some e)
    × (find_by_id (λ (t : TypeRow). t.id) e.type_id dir.types ≡ some type)

-- An edge that the type of its subject declares, for entities of the type of its target.
pub record IsDeclared (dir : Directory) (r : Relation) : Type 0 where
  pub subject_type : TypeRow
  pub target_type : TypeRow
  pub targets : List Text
  pub subject : HasType dir r.subject_entity_id subject_type
  pub target : HasType dir r.target_entity_id target_type
  pub declared : extract_relation_entry subject_type r.relation_type ≡ ok targets
  pub allowed : contains_text targets target_type.type_name ≡ true
  pub named : same r.relation_type [] ≡ false
  pub no_loop : (r.subject_entity_id == r.target_entity_id) ≡ false

pub has_clash-id :
    (n : ℕ) (r : Relation) (rs : List Relation)
    → has_clash same_edge (record r { id = n }) rs ≡ has_clash same_edge r rs
unfolding has_clash
has_clash-id n r [] = refl
has_clash-id n r (s ∷ rs) = rw (has_clash-id n r rs) refl
