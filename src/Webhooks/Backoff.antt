-- ===== src/Webhooks/Backoff.antt =====
-- The wait before a retry (webhook-service/internal/services/delivery_service.go).
use pyairtable_go_services.Prelude.{ℕ, ◌-◌, ◌^◌, ltb, if◌then◌else◌}

abbrev pub min_delay : ℕ → ℕ
min_delay n = if ltb 300 (2 ^ (n - 1)) then 300 else 2 ^ (n - 1)
