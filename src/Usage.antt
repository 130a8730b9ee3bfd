-- ===== src/Usage.antt =====
-- crates/relaykey_app/src/usage.rs
pub mod Metering
use relaykey_backend.Base.{ℕ, Bool, ◌∷◌, Option}
use mathlib.Core.Option
use relaykey_backend.Text.{Text, text}
use relaykey_backend.World.{Outside, Act, Result, ok, statement}

pub data BlockedReason : Type 0 where
  rate_limit_exceeded monthly_quota_exceeded unknown_partner db_error ssrf_blocked : BlockedReason
  invalid_upstream_response missing_upstream_credential invalid_partner_base_url : BlockedReason
  invalid_upstream_path invalid_credential_header_name invalid_credential_header_value :
      BlockedReason
  upstream_request_failed endpoint_not_allowed : BlockedReason

unfoldable pub code : BlockedReason → Text
code rate_limit_exceeded = text "rate_limit_exceeded"
code monthly_quota_exceeded = text "monthly_quota_exceeded"
code unknown_partner = text "unknown_partner"
code db_error = text "db_error"
code ssrf_blocked = text "ssrf_blocked"
code invalid_upstream_response = text "invalid_upstream_response"
code missing_upstream_credential = text "missing_upstream_credential"
code invalid_partner_base_url = text "invalid_partner_base_url"
code invalid_upstream_path = text "invalid_upstream_path"
code invalid_credential_header_name = text "invalid_credential_header_name"
code invalid_credential_header_value = text "invalid_credential_header_value"
code upstream_request_failed = text "upstream_request_failed"
code endpoint_not_allowed = text "endpoint_not_allowed"

unfoldable pub insert_usage_event :
    {S : Type 0}
    → Outside S
    → (virtual_key_id customer_id : ℕ) (partner_name path : Text) (forwarded : Bool)
      (blocked_reason : Option BlockedReason) (status_code : Option ℕ) (latency_ms : ℕ)
    → Act S (Result (Unit {0}))
insert_usage_event o virtual_key_id customer_id partner_name path forwarded blocked_reason
      status_code latency_ms w =
    statement o
      (λ db. (
        ok tt,
        record db {
          usage_events =
              record {
                ts = o.db_now w.out;
                row = record {
                  virtual_key_id = virtual_key_id;
                  customer_id = customer_id;
                  partner_name = partner_name;
                  path = path;
                  forwarded = forwarded;
                  blocked_reason = Option.map code blocked_reason;
                  status_code = status_code;
                  latency_ms = latency_ms;
                };
              }
              ∷ db.usage_events;
        },
      ))
      w
