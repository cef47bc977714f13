-- ===== src/Tests/Hooks.antt =====
-- A webhook (webhook-service) that allows two attempts.
use pyairtable_go_services.Prelude.{refl, [], ◌∷◌, none, some, pos, arith}
use pyairtable_go_services.Webhooks.{
  pending, Webhook, DeliveryAttempt, Ledger, not_answered, response, try_delivery,
}
use pyairtable_go_services.Webhooks.Ends.{storing, Retry, pursue, Ended, delivery_ends}

abbrev hook : Webhook
hook = record {
  id = 1;
  max_retries = pos 2;
  last_delivery_at = none;
  last_failure_at = none;
  failure_count = pos 0;
  success_count = pos 0;
}

abbrev attempt : DeliveryAttempt
attempt = record {
  event_id = "event";
  event_type = "record.created";
  payload = [];
  status = pending;
  attempt_number = pos 1;
  attempted_at = none;
  delivered_at = none;
  response_status = none;
  response_body = none;
  error_message = none;
  duration_ms = none;
  next_retry_at = none;
}

abbrev ledger : Ledger
ledger = record { webhook = hook; attempt = attempt; row = attempt; dead_letters = [] }

-- A server error ten seconds later.
abbrev retry : Retry
retry = (10, 10, response 5 500 (some []) "500 Internal Server Error")

delivery_ends_example :
    Ended 2 (pursue (retry ∷ []) (try_delivery (storing 1 1) (not_answered 5 "timeout") ledger).0)
delivery_ends_example =
    delivery_ends 1 1 2 (not_answered 5 "timeout") (retry ∷ []) ledger refl refl refl (refl, tt)
      (omega arith) (omega arith)

abbrev last_ledger : Ledger
last_ledger = record ledger { attempt = record attempt { attempt_number = pos 2 } }
