-- ===== src/Webhooks.antt =====
-- webhook-service/internal/services/delivery_service.go: the life of one delivery, from its first
-- attempt to its end. What the HTTP exchange, the database, the circuit breaker of sony/gobreaker and the
-- limiter of x/time/rate answer is a parameter, as is the time. Bodies are lists of bytes.
pub mod Backoff
pub mod Ends
use pyairtable_go_services.Prelude.{
  ℕ, suc, zero, ◌+◌, ◌*◌, ◌/◌, ◌%◌, ◌^◌, ◌-◌, String, Bool, true, false, not, ◌&&◌, List, [], ◌∷◌,
  ◌++◌, Option, none, some, ℤ, pos, negsuc, pos_part, neg_part, ◌+ℤ◌, ◌-ℤ◌, wrap64, ltb_ℤ, length,
  take, str_eq, runes, leb, ltb, if◌then◌else◌,
}
use pyairtable_go_services.Domain.Shared.Event.{Payload}

pub data DeliveryStatus : Type 0 where
  pending delivered failed retrying abandoned : DeliveryStatus

-- The columns of a webhook that the deliveries read or write.
pub record Webhook : Type 0 where
  pub id : ℕ
  pub max_retries : ℤ
  pub last_delivery_at : Option ℕ
  pub last_failure_at : Option ℕ
  pub failure_count : ℤ
  pub success_count : ℤ

pub record DeliveryAttempt : Type 0 where
  pub event_id : String
  pub event_type : String
  pub payload : Payload
  pub status : DeliveryStatus
  pub attempt_number : ℤ
  pub attempted_at : Option ℕ
  pub delivered_at : Option ℕ
  pub response_status : Option ℕ
  pub response_body : Option (List ℕ)
  pub error_message : Option String
  pub duration_ms : Option ℕ
  pub next_retry_at : Option ℕ

pub record DeadLetter : Type 0 where
  pub event_id : String
  pub event_type : String
  pub payload : Payload
  pub failure_reason : String
  pub last_attempt_at : ℕ
  pub attempt_count : ℤ
  pub last_status_code : ℕ

-- The rows of the database: the webhook, its attempt, and the dead letters. `attempt` is the attempt as
-- the service holds it, `row` as it was last stored.
pub record Ledger : Type 0 where
  pub webhook : Webhook
  pub attempt : DeliveryAttempt
  pub row : DeliveryAttempt
  pub dead_letters : List DeadLetter

pub record DeliveryResult : Type 0 where
  pub success : Bool
  pub status_code : ℕ
  pub response_body : List ℕ
  pub error_message : String
  pub duration : ℕ

-- How the exchange of one attempt goes: the request could not be made; it was not answered; or it was,
-- with a status and a body, which may be unreadable. The error texts are those of the callees.
pub data Exchange : Type 0 where
  not_prepared : String → Exchange
  not_answered : ℕ → String → Exchange
  response : ℕ → ℕ → Option (List ℕ) → String → Exchange

abbrev pub truncate : List ℕ → List ℕ
truncate body = if ltb 10000 (length body) then take 10000 body ++ runes "... (truncated)" else body

abbrev pub body_text : Option (List ℕ) → List ℕ
body_text none = runes "Failed to read response body"
body_text (some body) = body

abbrev pub unanswered_result : ℕ → String → DeliveryResult
unanswered_result duration error = record {
  success = false;
  status_code = 0;
  response_body = [];
  error_message = error;
  duration = duration;
}

abbrev pub answered_result : ℕ → ℕ → Option (List ℕ) → String → DeliveryResult
answered_result duration code body status_text =
    let success = leb 200 code && ltb code 300 in
    record {
      success = success;
      status_code = code;
      response_body = truncate (body_text body);
      error_message = if success then "" else status_text;
      duration = duration;
    }

unfoldable pub attempt_delivery : Exchange → Option DeliveryResult × Option String
attempt_delivery (not_prepared error) = (none, some error)
attempt_delivery (not_answered duration error) =
    (some (unanswered_result duration error), some error)
attempt_delivery (response duration code body status_text) =
    (some (answered_result duration code body status_text), none)

-- What the database and the clock answer while one attempt is handled.
pub record Answers : Type 0 where
  pub now : ℕ
  pub unix : ℕ
  pub result_not_stored : Bool
  pub end_not_stored : Bool
  pub stats_not_stored : Bool
  pub dead_letter_error : Option String

-- The repository's Update, which may fail; its error is only logged.
abbrev pub store_attempt : Bool → Ledger → Ledger
store_attempt fails l = if fails then l else record l { row = l.attempt }

abbrev pub applied : DeliveryResult → DeliveryAttempt → DeliveryAttempt
applied r a = record a {
  response_status = some r.status_code;
  response_body = some r.response_body;
  duration_ms = some (r.duration / 1000000);
}

abbrev pub settled : ℕ → DeliveryResult → DeliveryAttempt → DeliveryAttempt
settled now r a =
    if r.success
    then record (applied r a) { status = delivered; delivered_at = some now }
    else record (applied r a) { status = failed; error_message = some r.error_message }

abbrev pub with_result :
    ℕ → Option DeliveryResult → Option String → DeliveryAttempt → DeliveryAttempt
with_result now (some r) error a = settled now r (record a { attempted_at = some now })
with_result now none (some e) a = record a {
  attempted_at = some now;
  status = failed;
  error_message = some e;
}
with_result now none none a = record a { attempted_at = some now }

unfoldable pub update_delivery_attempt :
    Answers → Option DeliveryResult → Option String → Ledger → Ledger
update_delivery_attempt a result error l =
    store_attempt a.result_not_stored
      (record l { attempt = with_result a.now result error l.attempt })

abbrev pub counted : ℕ → Bool → Webhook → Webhook
counted now success w =
    if success
    then record w {
      last_delivery_at = some now;
      success_count = w.success_count +ℤ pos 1;
      failure_count = pos 0;
    }
    else record w {
      last_delivery_at = some now;
      failure_count = w.failure_count +ℤ pos 1;
      last_failure_at = some now;
    }

-- The statistics in the database; the webhook that the service holds is read for its limits only.
unfoldable pub update_stats : Answers → Bool → Ledger → Ledger
update_stats a success l =
    if a.stats_not_stored then l else record l { webhook = counted a.now success l.webhook }

-- `1 << (n - 1)` as an int, at most 300, and a jitter of a quarter of it. A negative shift count panics
-- in Go; attempts are counted from 1.
abbrev pub base_delay : ℕ → ℤ
base_delay n =
    let doubled = wrap64 (pos (2 ^ (n - 1))) in if ltb_ℤ (pos 300) doubled then pos 300 else doubled

abbrev pub jitter_of : ℤ → ℕ
jitter_of base = if ltb (pos_part base / 4) 1 then 1 else pos_part base / 4

unfoldable pub calculate_backoff : ℕ → ℕ → ℤ
calculate_backoff unix n =
    let base = base_delay n in
    let jitter = jitter_of base in base +ℤ pos (unix % (jitter * 2)) -ℤ pos jitter

-- `now + seconds`, in nanoseconds.
abbrev pub after_seconds : ℕ → ℤ → ℕ
after_seconds now seconds = now + pos_part seconds * 1000000000 - neg_part seconds * 1000000000

-- How a call ends; reading a field of a nil result panics.
pub data Ending : Type 0 where
  returned : Option String → Ending
  panicked : Ending

abbrev pub failure_reason : Option DeliveryResult → Option String → String
failure_reason result (some e) = e
failure_reason (some r) none =
    if str_eq r.error_message "" then "Maximum retry attempts exceeded" else r.error_message
failure_reason none none = "Maximum retry attempts exceeded"

abbrev pub dead_letter_of : ℕ → DeliveryResult → String → DeliveryAttempt → DeadLetter
dead_letter_of now r reason a = record {
  event_id = a.event_id;
  event_type = a.event_type;
  payload = a.payload;
  failure_reason = reason;
  last_attempt_at = now;
  attempt_count = a.attempt_number;
  last_status_code = r.status_code;
}

-- What follows the creation of the dead letter.
abbrev pub abandon : Answers → DeadLetter → Option String → Ledger → Ledger × Ending
abandon a letter (some e) l = (l, returned (some e))
abandon a letter none l = (
  store_attempt a.end_not_stored (record l {
    dead_letters = letter ∷ l.dead_letters;
    attempt = record l.attempt { status = abandoned };
  }),
  returned none,
)

unfoldable pub move_to_dead_letter :
    Answers → Option DeliveryResult → Option String → Ledger → Ledger × Ending
move_to_dead_letter a none error l = (l, panicked)
move_to_dead_letter a (some r) error l =
    abandon a (dead_letter_of a.now r (failure_reason (some r) error) l.attempt) a.dead_letter_error
      l

abbrev pub schedule_retry : Answers → Ledger → Ledger
schedule_retry a l =
    let next_retry =
      after_seconds a.now (calculate_backoff a.unix (pos_part l.attempt.attempt_number)) in
    store_attempt a.end_not_stored (record l {
      attempt = record l.attempt { status = retrying; next_retry_at = some next_retry };
    })

unfoldable pub handle_failed_delivery :
    Answers → Option DeliveryResult → Option String → Ledger → Ledger × Ending
unfolding update_stats calculate_backoff move_to_dead_letter
handle_failed_delivery a result error l =
    let l' = update_stats a false l in
    if ltb_ℤ l'.attempt.attempt_number l'.webhook.max_retries
    then (schedule_retry a l', returned none)
    else move_to_dead_letter a result error l'

-- `err != nil || !result.Success`
abbrev pub has_failed : Option DeliveryResult → Option String → Bool
has_failed result (some e) = true
has_failed (some r) none = not r.success
has_failed none none = true

-- What DeliverWebhook and ProcessRetries do with an attempt that is made.
unfoldable pub conclude : Answers → Option DeliveryResult → Option String → Ledger → Ledger × Ending
unfolding update_delivery_attempt update_stats handle_failed_delivery
conclude a result error l =
    let l' = update_delivery_attempt a result error l in
    if has_failed result error
    then handle_failed_delivery a result error l'
    else (update_stats a true l', returned none)

unfoldable pub try_delivery : Answers → Exchange → Ledger → Ledger × Ending
unfolding attempt_delivery conclude
try_delivery a exchange l =
    let (result, error) = attempt_delivery exchange in conclude a result error l

-- What keeps DeliverWebhook from a first attempt.
pub data Refusal : Type 0 where
  breaker_open rate_limited not_created : Refusal

abbrev pub first_attempt : String → String → Payload → DeliveryAttempt
first_attempt event_id event_type payload = record {
  event_id = event_id;
  event_type = event_type;
  payload = payload;
  status = pending;
  attempt_number = pos 1;
  attempted_at = none;
  delivered_at = none;
  response_status = none;
  response_body = none;
  error_message = none;
  duration_ms = none;
  next_retry_at = none;
}

abbrev pub new_ledger : Webhook → DeliveryAttempt → List DeadLetter → Ledger
new_ledger webhook attempt dead_letters = record {
  webhook = webhook;
  attempt = attempt;
  row = attempt;
  dead_letters = dead_letters;
}

-- DeliverWebhook: none of the refusals, and then the first attempt.
unfoldable pub deliver_webhook :
    Option Refusal
    → Answers
    → Exchange
    → Webhook
    → String
    → String
    → Payload
    → List DeadLetter
    → Option (Ledger × Ending)
unfolding try_delivery
deliver_webhook (some r) a exchange webhook event_id event_type payload dead_letters = none
deliver_webhook none a exchange webhook event_id event_type payload dead_letters = some (
    try_delivery a exchange
      (new_ledger webhook (first_attempt event_id event_type payload) dead_letters))

-- One round of the loop of ProcessRetries, on a row that GetRetriesReady has read.
unfoldable pub retry_delivery : Answers → Exchange → Ledger → Ledger × Ending
unfolding try_delivery
retry_delivery a exchange l =
    let read = l.row in
    try_delivery a exchange
      (record l { attempt = record read { attempt_number = read.attempt_number +ℤ pos 1 } })

-- `status = 'retrying' AND next_retry_at <= now`
abbrev pub is_retrying : DeliveryStatus → Bool
is_retrying retrying = true
is_retrying other = false

abbrev pub reached : Option ℕ → ℕ → Bool
reached none now = false
reached (some t) now = leb t now

abbrev pub is_retry_ready : ℕ → DeliveryAttempt → Bool
is_retry_ready now a = is_retrying a.status && reached a.next_retry_at now
