-- ===== src/Scim/Groups/Reconciled.antt =====
-- Whom a replaced group has as members (reconcileMembers of internal/scim/groups/repository.go, and Replace and Patch
-- of internal/scim/groups/service.go).
use oad.Base.{
  ℕ, ◌≡◌, refl, ap, ◌∙◌, subst, Bool, true, false, not, ◌&&◌, ◌||◌, Option, none, some, List, [],
  ◌∷◌, ◌++◌, arith, ◌==◌, ==_iff, if◌then◌else◌, Bool-cases, Option-cases, inl, inr, ok, Yields,
  Yields-map, >>=-Yields,
}
use oad.Scim.Groups.Members.{contains}
use oad.Scim.Groups.Membership.{
  joined_at, is_some, subjects, delete_obsolete, insert_membership, insert_new, reconcile_members,
}
use oad.Scim.Store.{EntityRow, MemberOf, Tables, Conditions, row_id}
use oad.Table.{find_by_id}
use oad.Scim.Groups.Joined.{
  contains-subjects, joined_at-append, joined_at-append_same, delete_obsolete-kept,
  delete_obsolete-none,
}

and_not : (b c : Bool) → c ≡ true → (b && not c) ≡ false
and_not b c h = ground arith

module _ (env : Conditions) (group : ℕ) (es : List EntityRow) where
  abbrev Added : ℕ → List MemberOf → List MemberOf → Type 0
  Added x ms ms' =
      (joined_at group x ms ≡ none)
      × (ms'
          ≡ ms
            ++ (record { subject_entity_id = x; target_entity_id = group; created_at = env.now }
                ∷ []))

  insert_membership-Added :
      (x : ℕ) (ms : List MemberOf) → Yields (Added x ms) (insert_membership env group x es ms)
  unfolding insert_membership
  insert_membership-Added x ms = elim (Bool-cases env.writes_fail) [
    | inl w ↦ rw w tt
    | inr w ↦ elim (Option-cases (joined_at group x ms)) [
      | inr (t, h) ↦ rw (w, h) tt
      | inl h ↦ elim (Option-cases (find_by_id row_id x es)) [
        | inl k ↦ rw (w, h, k) tt
        | inr (e, k) ↦ elim (Option-cases (find_by_id row_id group es)) [
          | inl l ↦ rw (w, h, k, l) tt
          | inr (e', l) ↦ rw (w, h, k, l) (h, refl)
        ]
      ]
    ]
  ]

  -- What inserting does to each membership.
  abbrev Grown : List ℕ → List ℕ → List MemberOf → List MemberOf → Type 0
  Grown current xs ms ms' =
      ((y : ℕ)
        → joined_at group y ms' ≡ (
            if contains xs y && not (contains current y)
            then some env.now
            else joined_at group y ms))
      × ((g y : ℕ) → (group == g) ≡ false → joined_at g y ms' ≡ joined_at g y ms)

  Grown-skip :
      (current : List ℕ) (x : ℕ) (xs : List ℕ) (ms ms' : List MemberOf)
      → contains current x ≡ true
      → Grown current xs ms ms'
      → Grown current (x ∷ xs) ms ms'
  unfolding contains
  Grown-skip current x xs ms ms' c (f, g) = (
    (λ y. elim (Bool-cases (x == y)) [
      | inr e ↦ f y ∙ rw e refl
      | inl e ↦
          let c' : contains current y ≡ true =
            subst (λ z. contains current z ≡ true) ((==_iff x y).0 e) c in
          f y
          ∙ rw
              (
                and_not (contains xs y) (contains current y) c',
                and_not ((x == y) || contains xs y) (contains current y) c',
              )
              refl
    ]),
    g,
  )

  joined_now :
      (current xs : List ℕ) (y : ℕ) (ms ms' : List MemberOf)
      → contains current y ≡ false
      → joined_at group y ms ≡ some env.now
      → joined_at group y ms'
        ≡ (if contains xs y && not (contains current y) then some env.now else joined_at group y ms)
      → joined_at group y ms' ≡ some env.now
  joined_now current xs y ms ms' c h k = elim (Bool-cases (contains xs y)) [
    | inl e ↦ k ∙ rw (e, c) refl
    | inr e ↦ k ∙ rw (e, h) refl
  ]

  Grown-insert :
      (current : List ℕ) (x : ℕ) (xs : List ℕ) (ms ms₁ ms' : List MemberOf)
      → contains current x ≡ false
      → Added x ms ms₁
      → Grown current xs ms₁ ms'
      → Grown current (x ∷ xs) ms ms'
  unfolding contains
  Grown-insert current x xs ms ms₁ ms' c (new, shape) (f, g) = (
    (λ y. elim (Bool-cases (x == y)) [
      | inr e ↦
          let d : ((x == y) && (group == group)) ≡ false = rw e refl in
          f y ∙ rw (e, shape, joined_at-append group y ms row d) refl
      | inl e ↦
          let e' : x ≡ y = (==_iff x y).0 e in
          let c' : contains current y ≡ false = subst (λ z. contains current z ≡ false) e' c in
          let both : ((x == y) && (group == group)) ≡ true = ground arith in
          let new' : joined_at group y ms ≡ none =
            subst (λ z. joined_at group z ms ≡ none) e' new in
          let now : joined_at group y ms₁ ≡ some env.now =
            ap (joined_at group y) shape ∙ joined_at-append_same group y ms row both new' in
          joined_now current xs y ms₁ ms' c' now (f y) ∙ rw (e, c') refl
    ]),
    (λ h y d.
        let d' : ((x == y) && (group == h)) ≡ false = ground arith in
        g h y d ∙ (ap (joined_at h y) shape ∙ joined_at-append h y ms row d')),
  )
    where
      row : MemberOf
      row = record { subject_entity_id = x; target_entity_id = group; created_at = env.now }

  insert_new-Grown :
      (current xs : List ℕ) (ms : List MemberOf)
      → Yields (Grown current xs ms) (insert_new env group current xs es ms)
  unfolding insert_new contains
  insert_new-Grown current [] ms = ((λ y. refl), (λ h y d. refl))
  insert_new-Grown current (x ∷ xs) ms = elim (Bool-cases (contains current x)) [
    | inl c ↦ rw c (
        Yields-map (Grown current xs ms) (Grown current (x ∷ xs) ms)
          (insert_new env group current xs es ms) (λ ms' k. Grown-skip current x xs ms ms' c k)
          (insert_new-Grown current xs ms))
    | inr c ↦ rw c (
        >>=-Yields (Grown current (x ∷ xs) ms) (insert_membership env group x es ms)
          (insert_new env group current xs es)
          (λ ms₁ h.
            let added = subst (Yields (Added x ms)) h (insert_membership-Added x ms) in
            Yields-map (Grown current xs ms₁) (Grown current (x ∷ xs) ms)
              (insert_new env group current xs es ms₁)
              (λ ms' k. Grown-insert current x xs ms ms₁ ms' c added k)
              (insert_new-Grown current xs ms₁)))
  ]

-- When a member of the new list joined: it keeps its time if it was a member before.
abbrev pub since : ℕ → Option ℕ → ℕ
since now none = now
since now (some t) = t

-- The members of a group are those wanted, those that stay with their times, and other groups keep theirs.
abbrev pub IsReconciled : ℕ → ℕ → List ℕ → List MemberOf → List MemberOf → Type 0
IsReconciled now group wanted ms ms' =
    ((x : ℕ)
      → joined_at group x ms'
        ≡ (if contains wanted x then some (since now (joined_at group x ms)) else none))
    × ((g x : ℕ) → (group == g) ≡ false → joined_at g x ms' ≡ joined_at g x ms)

Grown-IsReconciled :
    (env : Conditions) (group : ℕ) (es : List EntityRow) (wanted : List ℕ) (ms ms' : List MemberOf)
    → Grown env group es
        (subjects group ms)
        wanted
        (delete_obsolete group wanted (subjects group ms) ms)
        ms'
    → IsReconciled env.now group wanted ms ms'
Grown-IsReconciled env group es wanted ms ms' (f, g) = (
  (λ x. f x ∙ elim (Bool-cases (contains wanted x)) [
    | inl w ↦
        let d : ((group == group) && not (contains wanted x)) ≡ false = rw w (ground arith) in
        rw (delete_obsolete-kept group wanted (subjects group ms) group x ms d)
          (rw (w, contains-subjects group x ms) (stays (joined_at group x ms)))
    | inr w ↦
        let n = delete_obsolete-none group wanted (subjects group ms) x ms w (covered x) in
        rw (w, n) refl
  ]),
  (λ h x d.
      let d' : ((group == h) && not (contains wanted x)) ≡ false = rw d refl in
      g h x d ∙ delete_obsolete-kept group wanted (subjects group ms) h x ms d'),
)
  where
    stays :
        (o : Option ℕ)
        → (if true && not (is_some o) then some env.now else o) ≡ some (since env.now o)
    stays none = refl
    stays (some t) = refl

    excluded : (b : Bool) → (b || not b) ≡ true
    excluded true = refl
    excluded false = refl

    covered :
        (x : ℕ) → (contains (subjects group ms) x || not (is_some (joined_at group x ms))) ≡ true
    covered x = rw (contains-subjects group x ms) (excluded (is_some (joined_at group x ms)))

abbrev pub Reconciles : Conditions → ℕ → List ℕ → Tables → Tables → Type 0
Reconciles env group wanted t t' =
    (t' ≡ record t { memberships = t'.memberships })
    × IsReconciled env.now group wanted t.memberships t'.memberships

pub reconcile_members-Reconciles :
    (env : Conditions) (group : ℕ) (wanted : List ℕ) (t : Tables)
    → Yields (Reconciles env group wanted t) (reconcile_members env group wanted t)
unfolding reconcile_members
reconcile_members-Reconciles env group wanted t = elim (Bool-cases env.reads_fail) [
  | inl r ↦ rw r tt
  | inr r ↦
      let current = subjects group t.memberships in
      let kept = delete_obsolete group wanted current t.memberships in
      rw r (
        >>=-Yields (Reconciles env group wanted t)
          (insert_new env group current wanted t.entities kept)
          (λ ms. ok (record t { memberships = ms }))
          (λ ms h. (
            refl,
            Grown-IsReconciled env group t.entities wanted t.memberships ms (
                subst (Yields (Grown env group t.entities current wanted kept)) h
                  (insert_new-Grown env group t.entities current wanted kept)),
          )))
]
