-- ===== src/Webhook/Tests.antt =====
-- Runs of the dispatcher of internal/webhook/dispatcher.go.
use oad.Base.{
  ℕ, ◌+◌, ◌*◌, ◌≡◌, refl, true, false, none, some, List, [], ◌∷◌, All, ◌==◌, if◌then◌else◌,
}
use oad.Webhook.{
  pending, failed, Delivery, Subscription, AuditRow, Answer, second, outcome, enqueue, dispatch,
  cycle, has_delivery,
}
use oad.Webhook.Attempts.{IsConsistent, cycle-IsConsistent}
use oad.Webhook.Dispatched.{DistinctIds, tried_first, dispatch-tried_first}
use oad.Webhook.Once.{Once, enqueue-Once}

abbrev first : Delivery
first = record {
  id = 1;
  subscription_id = 2;
  audit_log_id = 3;
  status = pending;
  attempts = 0;
  next_retry_at = none;
  last_response_code = none;
}

abbrev rows : List AuditRow
rows =
    record { id = 3; system_id = some 7; timestamp = 10 }
    ∷ record { id = 4; system_id = some 7; timestamp = 20 }
    ∷ []

abbrev subs : List Subscription
subs = record { id = 2; system_id = 7; active = true } ∷ []

abbrev refused : ℕ → Answer
refused id = record { response = some 500; at = 100; saved = true }

-- One event is new; both deliveries fail, and are to be retried.
enqueued :
    enqueue false 50 2 rows subs (first ∷ [])
    ≡ first ∷ record first { id = 2; audit_log_id = 4 } ∷ []
unfolding enqueue
enqueued = refl

cycle-IsConsistent_example : All IsConsistent (cycle false refused 50 2 rows subs (first ∷ []))
cycle-IsConsistent_example =
    cycle-IsConsistent false refused 50 2 rows subs (first ∷ []) ((refl, refl), tt)

refused-outcome : outcome (some 500) ≡ failed
unfolding outcome
refused-outcome = refl

enqueue-Once_example : Once (enqueue false 50 2 rows subs (first ∷ []))
unfolding has_delivery
enqueue-Once_example =
    enqueue-Once false 50 2 rows subs (first ∷ []) (refl, (refl, tt)) (refl, tt) (refl, tt)

-- Of two rows that are due, the update of the second is not saved.
abbrev half_saved : ℕ → Answer
half_saved id = record { response = some 500; at = 100; saved = if id == 1 then true else false }

abbrev table : List Delivery
table = first ∷ record first { id = 2; audit_log_id = 4 } ∷ []

table-DistinctIds : DistinctIds table
table-DistinctIds = ((refl, tt), (tt, tt))

dispatch-tried_first_example :
    dispatch half_saved 50 subs table ≡ tried_first half_saved 50 50 subs table
dispatch-tried_first_example = dispatch-tried_first half_saved 50 subs table table-DistinctIds

half-dispatched :
    dispatch half_saved 50 subs table
    ≡ record first {
      status = failed;
      attempts = 1;
      next_retry_at = some (100 + 30 * second);
      last_response_code = some 500;
    }
      ∷ record first { id = 2; audit_log_id = 4 }
      ∷ []
unfolding dispatch
half-dispatched = refl
