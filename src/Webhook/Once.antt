-- ===== src/Webhook/Once.antt =====
-- No two deliveries of one event to one subscription (internal/webhook/dispatcher.go), as far as one dispatcher goes.
use oad.Base.{
  ℕ, suc, ◌≡◌, refl, ap, ◌∙◌, Bool, true, false, ◌&&◌, ◌||◌, List, [], ◌∷◌, ◌++◌, arith, ◌==◌,
  ==_refl, Bool-cases, inl, inr,
}
use oad.Webhook.{
  Delivery, Subscription, AuditRow, is_delivery_of, has_delivery, undelivered, take,
  create_deliveries, enqueue,
}
use oad.Webhook.Pairs.{
  has_pair, Distinct, New, DistinctRows, DistinctSubscriptions, undelivered-New,
  undelivered-Distinct, take-New, take-Distinct,
}

-- At most one delivery for an audit row and a subscription.
abbrev pub Once : List Delivery → Type 0
Once [] = Unit
Once (d ∷ ds) = (has_delivery d.audit_log_id d.subscription_id ds ≡ false) × Once ds

has_delivery-append :
    (audit sub : ℕ) (ds es : List Delivery)
    → has_delivery audit sub (ds ++ es) ≡ (has_delivery audit sub ds || has_delivery audit sub es)
unfolding has_delivery
has_delivery-append audit sub [] es = refl
has_delivery-append audit sub (d ∷ ds) es = ground (arith, has_delivery-append audit sub ds es)

has_delivery-create :
    (audit sub next : ℕ) (ps : List (ℕ × ℕ))
    → has_delivery audit sub (create_deliveries next ps) ≡ has_pair audit sub ps
unfolding has_delivery create_deliveries is_delivery_of
has_delivery-create audit sub next [] = refl
has_delivery-create audit sub next ((a, s) ∷ ps) =
    ap (λ b. ((a == audit) && (s == sub)) || b) (has_delivery-create audit sub (suc next) ps)

create-Once : (next : ℕ) (ps : List (ℕ × ℕ)) → Distinct ps → Once (create_deliveries next ps)
unfolding create_deliveries
create-Once next [] h = tt
create-Once next ((a, s) ∷ ps) h =
    (has_delivery-create a s (suc next) ps ∙ h.0, create-Once (suc next) ps h.1)

both : (a b c d : ℕ) → ((a == c) && (b == d)) ≡ true → (a ≡ c) × (b ≡ d)
both a b c d h = ground arith

New-has_pair :
    (ds : List Delivery) (ps : List (ℕ × ℕ)) (audit sub : ℕ)
    → New ds ps
    → has_delivery audit sub ds ≡ true
    → has_pair audit sub ps ≡ false
New-has_pair ds [] audit sub n h = refl
New-has_pair ds ((a, s) ∷ ps) audit sub n h = elim (Bool-cases ((a == audit) && (s == sub))) [
  | inr differs ↦ rw differs (New-has_pair ds ps audit sub n.1 h)
  | inl same_pair ↦
      let (ea, es) = both a s audit sub same_pair in
      let absent : has_delivery audit sub ds ≡ false = rw (← ea, ← es) n.0 in cc
]

self :
    (x : Delivery) (ds : List Delivery)
    → has_delivery x.audit_log_id x.subscription_id (x ∷ ds) ≡ true
unfolding has_delivery is_delivery_of
self x ds = ground (arith, ==_refl x.audit_log_id, ==_refl x.subscription_id)

later :
    (audit sub : ℕ) (x : Delivery) (ds : List Delivery)
    → has_delivery audit sub ds ≡ true
    → has_delivery audit sub (x ∷ ds) ≡ true
unfolding has_delivery
later audit sub x ds h = ground arith

append-Once :
    (ds : List Delivery) (next : ℕ) (ps : List (ℕ × ℕ)) (whole : List Delivery)
    → New whole ps
    → Distinct ps
    → Once ds
    → ((audit sub : ℕ) → has_delivery audit sub ds ≡ true → has_delivery audit sub whole ≡ true)
    → Once (ds ++ create_deliveries next ps)
append-Once [] next ps whole n d o within = create-Once next ps d
append-Once (x ∷ ds) next ps whole n d o within =
    let absent =
      New-has_pair whole ps x.audit_log_id x.subscription_id n
        (within x.audit_log_id x.subscription_id (self x ds)) in
    (
      has_delivery-append x.audit_log_id x.subscription_id ds (create_deliveries next ps)
          ∙ rw (o.0, has_delivery-create, absent) refl,
      append-Once ds next ps whole n d o.1
          (λ audit sub h. within audit sub (later audit sub x ds h)),
    )

-- Enqueuing keeps at most one delivery for an event and a subscription, if no two audit rows and no two
-- subscriptions have the same identifier: nothing is enqueued twice, in one batch or over the batches.
pub enqueue-Once :
    (fails : Bool) (now next : ℕ) (rows : List AuditRow) (ss : List Subscription)
    (ds : List Delivery)
    → DistinctRows rows
    → DistinctSubscriptions ss
    → Once ds
    → Once (enqueue fails now next rows ss ds)
unfolding enqueue
enqueue-Once true now next rows ss ds dr dss o = o
enqueue-Once false now next rows ss ds dr dss o =
    let pairs = take 100 (undelivered now rows ss ds) in
    append-Once ds next pairs ds
      (take-New 100 ds (undelivered now rows ss ds) (undelivered-New now ss ds rows))
      (take-Distinct 100 (undelivered now rows ss ds) (undelivered-Distinct now ss ds rows dr dss))
      o (λ audit sub h. h)
