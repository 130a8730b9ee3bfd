-- ===== src/Proxy/Handler.antt =====
-- crates/relaykey_app/src/proxy.rs: the retry loop and `handler`. The loop takes fuel, one unit for
-- each attempt; out of fuel it goes on with no response, which `handler` never does.
pub mod Loop
pub mod Stages
pub mod Cleared
pub mod Sent
pub mod Metering
pub mod Unrecorded
use relaykey_backend.Base.{
  ℕ, zero, suc, ◌+◌, ◌-◌, Bool, true, false, ◌&&◌, ◌||◌, List, [], Option, none, some, ltb, leb,
  if◌then◌else◌,
}
use relaykey_backend.Text.{Text}
use relaykey_backend.Http.{Method, Headers, empty, Response, respond}
use relaykey_backend.Context.{VirtualKeyCtx, Request, Outcome, reply, go}
use relaykey_backend.Policies.{PolicyRow}
use relaykey_backend.Db.{PartnerRow, CredentialRow}
use relaykey_backend.World.{
  Outside, World, Upstream, SendResult, responded, failed, elapsed, Act, Exec, ◌>>=◌, lift, return,
  stop,
}
use relaykey_backend.Retry.{
  RetryPolicy, ReqwestError, default_policy, classify_reqwest_error, is_retryable,
}
use relaykey_backend.Proxy.Steps.{
  Urls, is_idempotent, is_rejected, total_budget_ms, instant_now, load_partner, load_credential,
  parse_base, check_tail, check_allowlist, join_url, check_origin, parse_header_name,
  parse_header_value,
}
use relaykey_backend.Proxy.Steps.Sending.{
  build_request, send_request, retry_allowed, back_off, pass_on, can_retry_status,
}

unfoldable pub can_retry_err : RetryPolicy → Request → ℕ → ReqwestError → Bool
can_retry_err retry_policy req attempt e =
    is_idempotent req.method
    && is_retryable (classify_reqwest_error e)
    && ltb attempt retry_policy.max_attempts

module _ {S U : Type 0} (o : Outside S) (urls : Urls U) where
  module _ (vk : VirtualKeyCtx) (req : Request) (start : ℕ) (partner_row : PartnerRow)
      (retry_policy : RetryPolicy) (deadline : ℕ) (u : Upstream) where
    -- The budget gate, then another attempt after the backoff; refused, the attempt's own end.
    unfoldable pub retry_or : Exec S (Unit {0}) → ℕ → Exec S (Unit {0}) → Exec S (Unit {0})
    retry_or again attempt final = do
      allowed ← lift (retry_allowed o urls vk partner_row)
      if allowed then (λ w. again (back_off o urls retry_policy attempt w)) else final

    -- What follows an attempt, by how it ended.
    unfoldable pub after_send : Exec S (Unit {0}) → ℕ → SendResult → Exec S (Unit {0})
    after_send again attempt (responded status headers body) =
        if can_retry_status o urls retry_policy req partner_row attempt status
        then retry_or again attempt (pass_on o urls vk req start partner_row status headers body)
        else pass_on o urls vk req start partner_row status headers body
    after_send again attempt (failed e) =
        if can_retry_err retry_policy req attempt e
        then retry_or again attempt (stop (respond 502 "upstream request failed"))
        else stop (respond 502 "upstream request failed")
    after_send again attempt elapsed = stop (respond 504 "upstream request timed out")

    -- One round of the loop.
    unfoldable pub attempt_once : Exec S (Unit {0}) → ℕ → Exec S (Unit {0})
    attempt_once again attempt = do
      now ← lift (instant_now o urls)
      if leb deadline now then stop (respond 504 "upstream request timed out") else (do
        result ← lift (send_request o urls u (deadline - now))
        after_send again attempt result)

    unfoldable pub attempts : ℕ → ℕ → Exec S (Unit {0})
    attempts zero attempt = return tt
    attempts (suc fuel) attempt = attempt_once (attempts fuel (suc attempt)) attempt

  unfoldable pub handler : VirtualKeyCtx → PolicyRow → Text → Text → Request → Exec S (Unit {0})
  handler vk policy partner tail req = do
    start ← lift (instant_now o urls)
    if is_rejected req.method
        then stop (record { status = 405; headers = []; body = empty })
        else (do
          partner_row ← load_partner o urls vk req start partner
          cred ← load_credential o urls vk req start partner_row
          base ← parse_base o urls vk req start partner_row
          _ ← check_tail o urls vk req start partner_row tail
          _ ← check_allowlist o urls vk policy req start partner_row tail
          joined ← join_url o urls vk req start partner_row tail base
          _ ← check_origin o urls vk req start partner_row joined base
          header_name ← parse_header_name o urls cred
          header_value ← parse_header_value o urls cred
          now ← lift (instant_now o urls)
          attempts vk req start partner_row default_policy (now + total_budget_ms policy)
              (build_request o urls req joined header_name header_value) default_policy.max_attempts
              1)
