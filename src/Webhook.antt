-- ===== src/Webhook.antt =====
-- internal/webhook/dispatcher.go with the queries of internal/webhook/repository.go that it makes, on the rows of
-- their tables. Subscriptions are those that row-level security shows to the dispatcher; deliveries stand in the
-- order of their creation. Times are in nanoseconds.
pub mod Attempts
pub mod Dispatched
pub mod Pairs
pub mod Once
mod Tests
use oad.Base.{
  ℕ, zero, suc, ◌+◌, ◌-◌, ◌*◌, ◌^◌, ◌%◌, min, Bool, true, false, not, ◌&&◌, ◌||◌, Option, none,
  some, List, [], ◌∷◌, ◌++◌, ltb, leb, ◌==◌, if◌then◌else◌,
}

-- The CHECK of webhook_delivery.status.
pub data Status : Type 0 where
  pending delivered failed : Status

-- A row of webhook_delivery.
pub record Delivery : Type 0 where
  pub id : ℕ
  pub subscription_id : ℕ
  pub audit_log_id : ℕ
  pub status : Status
  pub attempts : ℕ
  pub next_retry_at : Option ℕ
  pub last_response_code : Option ℕ

-- Of Subscription and of an audit_log row, what the join of FindUndelivered reads.
pub record Subscription : Type 0 where
  pub id : ℕ
  pub system_id : ℕ
  pub active : Bool

pub record AuditRow : Type 0 where
  pub id : ℕ
  pub system_id : Option ℕ
  pub timestamp : ℕ

abbrev max_retries : ℕ
max_retries = 5

abbrev pub second : ℕ
second = 1000000000

-- base * multiplier of backoffTime, as the word of an int64.
unfoldable pub backoff : ℕ → ℕ
backoff attempts = (30 * second * 2 ^ (attempts - 1)) % 2 ^ 64

-- backoffTime: at most a day later; a word from 2^63 on is negative, less than a day, and goes back.
unfoldable pub backoff_time : ℕ → ℕ → ℕ
unfolding backoff
backoff_time now attempts =
    let word = backoff attempts in
    if ltb word (2 ^ 63) then now + min word (24 * 3600 * second) else now - (2 ^ 64 - word)

-- The status after a response: its code, or `none` for an HTTP error.
unfoldable pub outcome : Option ℕ → Status
outcome none = failed
outcome (some code) = if leb 200 code && ltb code 300 then delivered else failed

abbrev is_failed : Status → Bool
is_failed failed = true
is_failed _ = false

unfoldable pub retry_at : Status → ℕ → ℕ → Option ℕ
unfolding backoff_time
retry_at status attempts now =
    if is_failed status && ltb attempts max_retries then some (backoff_time now attempts) else none

-- attempt, where the update is saved: from the row as FindPending has read it.
unfoldable pub attempt : Option ℕ → ℕ → Delivery → Delivery
unfolding outcome retry_at
attempt response now d = record d {
  status = outcome response;
  attempts = suc d.attempts;
  next_retry_at = retry_at (outcome response) (suc d.attempts) now;
  last_response_code = response;
}

-- The WHERE clause of FindPending.
unfoldable pub is_due : ℕ → Delivery → Bool
is_due now d = elim d.status [
  | pending ↦ true
  | delivered ↦ false
  | failed ↦ elim d.next_retry_at [ none ↦ false | some t ↦ leb t now ]
]

-- The join with webhook_subscription, over the rows that row-level security shows.
unfoldable pub has_subscription : ℕ → List Subscription → Bool
has_subscription id [] = false
has_subscription id (s ∷ ss) = (s.id == id) || has_subscription id ss

-- FindPending. A foreign key keeps the audit row of the other join there.
unfoldable pub take_due : ℕ → ℕ → List Subscription → List Delivery → List Delivery
unfolding is_due has_subscription
take_due zero now ss ds = []
take_due (suc n) now ss [] = []
take_due (suc n) now ss (d ∷ ds) =
    let without = take_due (suc n) now ss ds in
    let with_this = d ∷ take_due n now ss ds in
    if is_due now d && has_subscription d.subscription_id ss then with_this else without

-- UpdateDelivery
unfoldable pub save : Delivery → List Delivery → List Delivery
save d [] = []
save d (e ∷ es) = if e.id == d.id then d ∷ es else e ∷ save d es

-- What happens to the attempts of a cycle: the response, the time, and whether the update is saved.
pub record Answer : Type 0 where
  pub response : Option ℕ
  pub at : ℕ
  pub saved : Bool

unfoldable pub dispatch_each : (ℕ → Answer) → List Delivery → List Delivery → List Delivery
unfolding attempt save
dispatch_each answers [] table = table
dispatch_each answers (d ∷ ds) table =
    let answer = answers d.id in
    let skipped = dispatch_each answers ds table in
    let stored = dispatch_each answers ds (save (attempt answer.response answer.at d) table) in
    if answer.saved then stored else skipped

-- dispatch, with dispatchBatchSize rows.
unfoldable pub dispatch : (ℕ → Answer) → ℕ → List Subscription → List Delivery → List Delivery
unfolding dispatch_each take_due
dispatch answers now ss table = dispatch_each answers (take_due 50 now ss table) table

unfoldable pub is_delivery_of : ℕ → ℕ → Delivery → Bool
is_delivery_of audit sub d = (d.audit_log_id == audit) && (d.subscription_id == sub)

unfoldable pub has_delivery : ℕ → ℕ → List Delivery → Bool
unfolding is_delivery_of
has_delivery audit sub [] = false
has_delivery audit sub (d ∷ ds) = is_delivery_of audit sub d || has_delivery audit sub ds

abbrev pub same_system : Option ℕ → ℕ → Bool
same_system none s = false
same_system (some t) s = t == s

-- The subscriptions that FindUndelivered joins with one audit row.
unfoldable pub subscribers : AuditRow → List Subscription → List Delivery → List (ℕ × ℕ)
unfolding has_delivery
subscribers row [] ds = []
subscribers row (s ∷ ss) ds =
    if s.active && (same_system row.system_id s.system_id && not (has_delivery row.id s.id ds))
    then (row.id, s.id) ∷ subscribers row ss ds
    else subscribers row ss ds

-- The rows of the last 24 hours with their subscriptions, oldest first.
unfoldable pub undelivered : ℕ → List AuditRow → List Subscription → List Delivery → List (ℕ × ℕ)
unfolding subscribers
undelivered now [] ss ds = []
undelivered now (row ∷ rows) ss ds =
    let rest = undelivered now rows ss ds in
    if ltb now (row.timestamp + 24 * 3600 * second) then subscribers row ss ds ++ rest else rest

abbrev pub take {ℓ} : {A : Type ℓ} → ℕ → List A → List A
take zero xs = []
take (suc n) [] = []
take (suc n) (x ∷ xs) = x ∷ take n xs

-- CreateDelivery, for each pair: no unique constraint makes its ON CONFLICT apply.
unfoldable pub create_deliveries : ℕ → List (ℕ × ℕ) → List Delivery
create_deliveries next [] = []
create_deliveries next ((audit, sub) ∷ ps) =
    record {
      id = next;
      subscription_id = sub;
      audit_log_id = audit;
      status = pending;
      attempts = 0;
      next_retry_at = none;
      last_response_code = none;
    }
    ∷ create_deliveries (suc next) ps

-- enqueue, with enqueueBatchSize pairs, as one transaction: a statement that fails aborts it.
unfoldable pub enqueue :
    Bool → ℕ → ℕ → List AuditRow → List Subscription → List Delivery → List Delivery
unfolding undelivered create_deliveries
enqueue fails now next rows ss ds =
    if fails then ds else ds ++ create_deliveries next (take 100 (undelivered now rows ss ds))

-- cycle
unfoldable pub cycle :
    Bool → (ℕ → Answer) → ℕ → ℕ → List AuditRow → List Subscription → List Delivery → List Delivery
unfolding enqueue dispatch
cycle fails answers now next rows ss ds =
    dispatch answers now ss (enqueue fails now next rows ss ds)
