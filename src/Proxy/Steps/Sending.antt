-- ===== src/Proxy/Steps/Sending.antt =====
-- crates/relaykey_app/src/proxy.rs: the request that goes upstream, and what follows its response.
use relaykey_backend.Base.{ℕ, ◌+◌, Bool, true, ◌&&◌, [], ◌∷◌, none, some, ltb, leb, if◌then◌else◌}
use relaykey_backend.Text.{Text}
use relaykey_backend.Http.{Headers, stream}
use relaykey_backend.Context.{VirtualKeyCtx, Request}
use relaykey_backend.Db.{PartnerRow}
use relaykey_backend.World.{Outside, World, Upstream, SendResult, Act, Exec, ◌>>=◌, lift, stop}
use relaykey_backend.Retry.{
  RetryPolicy, classify_status, is_retryable, profile_for_partner, status_retry_allowed, backoff_ms,
  cheap_jitter_ms,
}
use relaykey_backend.Retry.Budget.{default_budgets, allow_retry_dual_budget}
use relaykey_backend.Proxy.Headers.{outgoing_headers, collect_headers}
use relaykey_backend.Proxy.Steps.{Urls, is_idempotent, usage_event}

-- `StatusCode::from_u16(status).unwrap_or(BAD_GATEWAY)`
unfoldable pub axum_status : ℕ → ℕ
axum_status status = if leb 100 status && ltb status 1000 then status else 502

module _ {S U : Type 0} (o : Outside S) (urls : Urls U) where
  unfoldable pub build_request : Request → U → Text → Text → Upstream
  build_request req joined header_name header_value = record {
    method = req.method;
    url = urls.as_str joined;
    headers = outgoing_headers req.headers header_name header_value;
    body = req.body;
  }

  -- `timeout(remaining, send_fut)`
  unfoldable pub send_request : Upstream → ℕ → Act S SendResult
  send_request u remaining w =
      let (r, s) = o.send u remaining w.out in (r, record w { out = s; sent = u ∷ w.sent })

  unfoldable pub retry_allowed : VirtualKeyCtx → PartnerRow → Act S Bool
  retry_allowed vk partner_row w =
      let (decision, s) =
        allow_retry_dual_budget o default_budgets partner_row.name (urls.uuid_text vk.id) w.out in
      (decision.allowed, record w { out = s })

  unfoldable pub back_off : RetryPolicy → ℕ → World S → World S
  back_off retry_policy attempt w = record w {
    out =
        o.sleep
          (backoff_ms attempt retry_policy.base_backoff_ms retry_policy.max_backoff_ms
            + cheap_jitter_ms attempt)
          w.out;
  }

  -- The upstream's response, passed on.
  unfoldable pub pass_on :
      VirtualKeyCtx → Request → ℕ → PartnerRow → ℕ → Headers → Text → Exec S (Unit {0})
  pass_on vk req start partner_row status headers body = do
    _ ← lift (usage_event o urls vk req start partner_row.name true none (some status))
    stop (record { status = status; headers = collect_headers [] headers; body = stream body })

  unfoldable pub can_retry_status : RetryPolicy → Request → PartnerRow → ℕ → ℕ → Bool
  can_retry_status retry_policy req partner_row attempt status =
      is_idempotent req.method
      && is_retryable (classify_status (axum_status status))
      && status_retry_allowed (profile_for_partner partner_row.name) (axum_status status)
      && ltb attempt retry_policy.max_attempts
