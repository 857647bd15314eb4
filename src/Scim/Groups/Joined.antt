-- ===== src/Scim/Groups/Joined.antt =====
-- What the statements on relations do to the members of groups (internal/scim/groups/repository.go).
use oad.Base.{
  ℕ, ◌≡◌, refl, sym, ◌∙◌, true, false, not, ◌&&◌, ◌||◌, none, some, List, [], ◌∷◌, ◌++◌, arith,
  ◌==◌, ==_iff, Bool-cases, Option-cases, inl, inr,
}
use oad.Scim.Groups.Members.{contains}
use oad.Scim.Groups.Membership.{joined_at, is_some, subjects, remove_membership, delete_obsolete}
use oad.Scim.Store.{MemberOf}

pub contains-subjects :
    (group x : ℕ) (ms : List MemberOf)
    → contains (subjects group ms) x ≡ is_some (joined_at group x ms)
unfolding subjects contains joined_at
contains-subjects group x [] = refl
contains-subjects group x (m ∷ ms) = elim (Bool-cases (m.target_entity_id == group)) [
  | inr e ↦ elim (Bool-cases (m.subject_entity_id == x)) [
    | inl f ↦ rw (e, f) (contains-subjects group x ms)
    | inr f ↦ rw (e, f) (contains-subjects group x ms)
  ]
  | inl e ↦ elim (Bool-cases (m.subject_entity_id == x)) [
    | inl f ↦ rw (e, f) refl
    | inr f ↦ rw (e, f) (contains-subjects group x ms)
  ]
]

joined_at-remove_same :
    (group x : ℕ) (ms : List MemberOf) → joined_at group x (remove_membership group x ms) ≡ none
unfolding joined_at remove_membership
joined_at-remove_same group x [] = refl
joined_at-remove_same group x (m ∷ ms) =
    elim (Bool-cases ((m.subject_entity_id == x) && (m.target_entity_id == group))) [
      | inl e ↦ rw e (joined_at-remove_same group x ms)
      | inr e ↦ rw (e, e) (joined_at-remove_same group x ms)
    ]

joined_at-remove_other :
    (g y group x : ℕ) (ms : List MemberOf)
    → ((x == y) && (group == g)) ≡ false
    → joined_at g y (remove_membership group x ms) ≡ joined_at g y ms
unfolding joined_at remove_membership
joined_at-remove_other g y group x [] d = refl
joined_at-remove_other g y group x (m ∷ ms) d =
    elim (Bool-cases ((m.subject_entity_id == x) && (m.target_entity_id == group))) [
      | inl e ↦
          let e' : ((m.subject_entity_id == y) && (m.target_entity_id == g)) ≡ false =
            ground arith in
          rw (e, e') (joined_at-remove_other g y group x ms d)
      | inr e ↦ rw e (rw (joined_at-remove_other g y group x ms d) refl)
    ]

pub joined_at-append :
    (g y : ℕ) (ms : List MemberOf) (m : MemberOf)
    → ((m.subject_entity_id == y) && (m.target_entity_id == g)) ≡ false
    → joined_at g y (ms ++ (m ∷ [])) ≡ joined_at g y ms
unfolding joined_at
joined_at-append g y [] m d = rw d refl
joined_at-append g y (n ∷ ms) m d = rw (joined_at-append g y ms m d) refl

pub joined_at-append_same :
    (g y : ℕ) (ms : List MemberOf) (m : MemberOf)
    → ((m.subject_entity_id == y) && (m.target_entity_id == g)) ≡ true
    → joined_at g y ms ≡ none
    → joined_at g y (ms ++ (m ∷ [])) ≡ some m.created_at
unfolding joined_at
joined_at-append_same g y [] m e h = rw e refl
joined_at-append_same g y (n ∷ ms) m e h =
    elim (Bool-cases ((n.subject_entity_id == y) && (n.target_entity_id == g))) [
      | inl f ↦ let absurd : some n.created_at ≡ none = rw f at h in cc
      | inr f ↦ rw f (joined_at-append_same g y ms m e (rw f at h))
    ]

differs : (xs : List ℕ) (x y : ℕ) → contains xs x ≡ true → contains xs y ≡ false → (x == y) ≡ false
differs xs x y h k = elim (Bool-cases (x == y)) [
  | inr e ↦ e
  | inl e ↦ let e' : x ≡ y = (==_iff x y).0 e in let bad : true ≡ false = sym h ∙ (rw e' k) in cc
]

-- Only members of one group that are not wanted lose their membership.
pub delete_obsolete-kept :
    (group : ℕ) (wanted xs : List ℕ) (g y : ℕ) (ms : List MemberOf)
    → ((group == g) && not (contains wanted y)) ≡ false
    → joined_at g y (delete_obsolete group wanted xs ms) ≡ joined_at g y ms
unfolding delete_obsolete
delete_obsolete-kept group wanted [] g y ms d = refl
delete_obsolete-kept group wanted (x ∷ xs) g y ms d = elim (Bool-cases (contains wanted x)) [
  | inl w ↦ rw w (delete_obsolete-kept group wanted xs g y ms d)
  | inr w ↦ rw w (
      delete_obsolete-kept group wanted xs g y (remove_membership group x ms) d
      ∙ joined_at-remove_other g y group x ms (other w))
]
  where
    other : contains wanted x ≡ false → ((x == y) && (group == g)) ≡ false
    other w = elim (Bool-cases (contains wanted y)) [
      | inl v ↦ let e : (y == x) ≡ false = differs wanted y x v w in ground arith
      | inr v ↦ ground arith
    ]

pub delete_obsolete-none :
    (group : ℕ) (wanted xs : List ℕ) (y : ℕ) (ms : List MemberOf)
    → contains wanted y ≡ false
    → (contains xs y || not (is_some (joined_at group y ms))) ≡ true
    → joined_at group y (delete_obsolete group wanted xs ms) ≡ none
unfolding delete_obsolete contains
delete_obsolete-none group wanted [] y ms d h = elim (Option-cases (joined_at group y ms)) [
  | inl n ↦ n
  | inr (t, n) ↦ let bad : false ≡ true = rw n at h in cc
]
delete_obsolete-none group wanted (x ∷ xs) y ms d h = elim (Bool-cases (contains wanted x)) [
  | inl w ↦
      let e : (x == y) ≡ false = differs wanted x y w d in
      rw w (delete_obsolete-none group wanted xs y ms d (rw e at h))
  | inr w ↦ rw w (delete_obsolete-none group wanted xs y (remove_membership group x ms) d rest)
]
  where
    rest :
        (contains xs y || not (is_some (joined_at group y (remove_membership group x ms)))) ≡ true
    rest = elim (Bool-cases (x == y)) [
      | inl e ↦
          let e' : x ≡ y = (==_iff x y).0 e in
          rw (e', joined_at-remove_same group y ms) (ground arith)
      | inr e ↦
          let d' : ((x == y) && (group == group)) ≡ false = rw e refl in
          rw (joined_at-remove_other group y group x ms d') (rw e at h)
    ]
