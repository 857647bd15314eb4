-- ===== src/Webhook/Pairs.antt =====
-- The pairs that the dispatcher enqueues (internal/webhook/dispatcher.go) are distinct and new.
use oad.Base.{
  ℕ, zero, suc, ◌+◌, ◌*◌, ◌≡◌, refl, ◌∙◌, Bool, true, false, not, ◌&&◌, ◌||◌, List, [], ◌∷◌, ◌++◌,
  All, All-append, arith, ltb, ◌==◌, Bool-cases, inl, inr,
}
use oad.Webhook.{
  Delivery, Subscription, AuditRow, second, same_system, has_delivery, subscribers, undelivered,
  take,
}

abbrev pub has_pair : ℕ → ℕ → List (ℕ × ℕ) → Bool
has_pair audit sub [] = false
has_pair audit sub (p ∷ ps) = ((p.0 == audit) && (p.1 == sub)) || has_pair audit sub ps

abbrev pub Distinct : List (ℕ × ℕ) → Type 0
Distinct [] = Unit
Distinct (p ∷ ps) = (has_pair p.0 p.1 ps ≡ false) × Distinct ps

-- The pairs that are new to a table.
abbrev pub New : List Delivery → List (ℕ × ℕ) → Type 0
New ds = All (λ p. has_delivery p.0 p.1 ds ≡ false)

-- No two rows have the same identifier.
abbrev has_row : ℕ → List AuditRow → Bool
has_row id [] = false
has_row id (row ∷ rows) = (row.id == id) || has_row id rows

abbrev has_subscription : ℕ → List Subscription → Bool
has_subscription id [] = false
has_subscription id (s ∷ ss) = (s.id == id) || has_subscription id ss

abbrev pub DistinctRows : List AuditRow → Type 0
DistinctRows [] = Unit
DistinctRows (row ∷ rows) = (has_row row.id rows ≡ false) × DistinctRows rows

abbrev pub DistinctSubscriptions : List Subscription → Type 0
DistinctSubscriptions [] = Unit
DistinctSubscriptions (s ∷ ss) = (has_subscription s.id ss ≡ false) × DistinctSubscriptions ss

subscribers-New :
    (row : AuditRow) (ss : List Subscription) (ds : List Delivery) → New ds (subscribers row ss ds)
unfolding subscribers
subscribers-New row [] ds = tt
subscribers-New row (s ∷ ss) ds =
    elim (Bool-cases
      (s.active && (same_system row.system_id s.system_id && not (has_delivery row.id s.id ds)))) [
        | inr unfit ↦ rw unfit (subscribers-New row ss ds)
        | inl fit ↦ rw fit (ground arith, subscribers-New row ss ds)
      ]

subscribers-other_row :
    (row : AuditRow) (ss : List Subscription) (ds : List Delivery) (audit sub : ℕ)
    → (row.id == audit) ≡ false
    → has_pair audit sub (subscribers row ss ds) ≡ false
unfolding subscribers
subscribers-other_row row [] ds audit sub h = refl
subscribers-other_row row (s ∷ ss) ds audit sub h =
    ground (arith, subscribers-other_row row ss ds audit sub h)

subscribers-other_subscription :
    (row : AuditRow) (ss : List Subscription) (ds : List Delivery) (audit sub : ℕ)
    → has_subscription sub ss ≡ false
    → has_pair audit sub (subscribers row ss ds) ≡ false
unfolding subscribers
subscribers-other_subscription row [] ds audit sub h = refl
subscribers-other_subscription row (s ∷ ss) ds audit sub h =
    ground (arith, subscribers-other_subscription row ss ds audit sub)

subscribers-Distinct :
    (row : AuditRow) (ss : List Subscription) (ds : List Delivery)
    → DistinctSubscriptions ss
    → Distinct (subscribers row ss ds)
unfolding subscribers
subscribers-Distinct row [] ds d = tt
subscribers-Distinct row (s ∷ ss) ds d =
    elim (Bool-cases
      (s.active && (same_system row.system_id s.system_id && not (has_delivery row.id s.id ds)))) [
        | inr unfit ↦ rw unfit (subscribers-Distinct row ss ds d.1)
        | inl fit ↦ rw fit (
          subscribers-other_subscription row ss ds row.id s.id d.0,
          subscribers-Distinct row ss ds d.1,
        )
      ]

has_pair-append :
    (audit sub : ℕ) (ps qs : List (ℕ × ℕ))
    → has_pair audit sub (ps ++ qs) ≡ (has_pair audit sub ps || has_pair audit sub qs)
has_pair-append audit sub [] qs = refl
has_pair-append audit sub (p ∷ ps) qs = ground (arith, has_pair-append audit sub ps qs)

-- The pairs of one row, in front of pairs that are not of that row.
Distinct-append :
    (id : ℕ) (ps qs : List (ℕ × ℕ))
    → Distinct ps
    → Distinct qs
    → All (λ p. p.0 ≡ id) ps
    → ((sub : ℕ) → has_pair id sub qs ≡ false)
    → Distinct (ps ++ qs)
Distinct-append id [] qs dp dq of_row apart = dq
Distinct-append id (p ∷ ps) qs dp dq of_row apart = (
  has_pair-append p.0 p.1 ps qs ∙ rw (dp.0, of_row.0) (apart p.1),
  Distinct-append id ps qs dp.1 dq of_row.1 apart,
)

subscribers-of_row :
    (row : AuditRow) (ss : List Subscription) (ds : List Delivery)
    → All (λ p. p.0 ≡ row.id) (subscribers row ss ds)
unfolding subscribers
subscribers-of_row row [] ds = tt
subscribers-of_row row (s ∷ ss) ds =
    elim (Bool-cases
      (s.active && (same_system row.system_id s.system_id && not (has_delivery row.id s.id ds)))) [
        | inr unfit ↦ rw unfit (subscribers-of_row row ss ds)
        | inl fit ↦ rw fit (refl, subscribers-of_row row ss ds)
      ]

module _ (now : ℕ) (ss : List Subscription) (ds : List Delivery) where
  pub undelivered-New : (rows : List AuditRow) → New ds (undelivered now rows ss ds)
  unfolding undelivered
  undelivered-New [] = tt
  undelivered-New (row ∷ rows) = elim (Bool-cases (ltb now (row.timestamp + 24 * 3600 * second))) [
    | inl recent ↦
        rw recent (
          All-append _ (subscribers row ss ds) _ (subscribers-New row ss ds) (undelivered-New rows))
    | inr old ↦ rw old (undelivered-New rows)
  ]

  undelivered-other :
      (rows : List AuditRow) (audit sub : ℕ)
      → has_row audit rows ≡ false
      → has_pair audit sub (undelivered now rows ss ds) ≡ false
  unfolding undelivered
  undelivered-other [] audit sub h = refl
  undelivered-other (row ∷ rows) audit sub h = elim (Bool-cases (row.id == audit)) [
    | inl this ↦ let found : has_row audit (row ∷ rows) ≡ true = rw this refl in cc
    | inr other ↦
        let rest = undelivered-other rows audit sub (rw (other) at h) in
        elim (Bool-cases (ltb now (row.timestamp + 24 * 3600 * second))) [
          | inl recent ↦ rw recent (
              has_pair-append audit sub (subscribers row ss ds) (undelivered now rows ss ds)
              ∙ rw (subscribers-other_row row ss ds audit sub other) rest)
          | inr old ↦ rw old rest
        ]
  ]

  pub undelivered-Distinct :
      (rows : List AuditRow)
      → DistinctRows rows
      → DistinctSubscriptions ss
      → Distinct (undelivered now rows ss ds)
  unfolding undelivered
  undelivered-Distinct [] d e = tt
  undelivered-Distinct (row ∷ rows) d e =
      elim (Bool-cases (ltb now (row.timestamp + 24 * 3600 * second))) [
        | inr old ↦ rw old (undelivered-Distinct rows d.1 e)
        | inl recent ↦ rw recent (
            Distinct-append row.id (subscribers row ss ds) (undelivered now rows ss ds)
              (subscribers-Distinct row ss ds e) (undelivered-Distinct rows d.1 e)
              (subscribers-of_row row ss ds) (λ sub. undelivered-other rows row.id sub d.0))
      ]

pub take-New : (n : ℕ) (ds : List Delivery) (ps : List (ℕ × ℕ)) → New ds ps → New ds (take n ps)
take-New zero ds ps h = tt
take-New (suc n) ds [] h = tt
take-New (suc n) ds (p ∷ ps) h = (h.0, take-New n ds ps h.1)

take-other :
    (n audit sub : ℕ) (ps : List (ℕ × ℕ))
    → has_pair audit sub ps ≡ false
    → has_pair audit sub (take n ps) ≡ false
take-other zero audit sub ps h = refl
take-other (suc n) audit sub [] h = refl
take-other (suc n) audit sub (p ∷ ps) h = ground (arith, take-other n audit sub ps)

pub take-Distinct : (n : ℕ) (ps : List (ℕ × ℕ)) → Distinct ps → Distinct (take n ps)
take-Distinct zero ps d = tt
take-Distinct (suc n) [] d = tt
take-Distinct (suc n) (p ∷ ps) d = (take-other n p.0 p.1 ps d.0, take-Distinct n ps d.1)
