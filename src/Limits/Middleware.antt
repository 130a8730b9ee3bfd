-- ===== src/Limits/Middleware.antt =====
-- crates/relaykey_app/src/limits/middleware.rs: the middleware `enforce_limits`.
pub mod Admission
use relaykey_backend.Base.{ℕ, ◌-◌, min, Bool, true, false, [], Option, none, some, if◌then◌else◌}
use relaykey_backend.Base.Int.{ℤ, pos}
use relaykey_backend.Text.{Text}
use relaykey_backend.Http
use relaykey_backend.Http.{Response, respond}
use relaykey_backend.Context.{VirtualKeyCtx, Request, parse_partner_from_path}
use relaykey_backend.World.{Outside, World, Act, Exec, Result, ◌>>=◌, lift, return, stop}
use relaykey_backend.Usage.{
  BlockedReason, rate_limit_exceeded, monthly_quota_exceeded, code, insert_usage_event,
}
use relaykey_backend.Retry.{unwrap_or}
use relaykey_backend.Limits.{Scripts, max_ℤ, token_bucket_allow, monthly_quota_allow_and_incr}

-- 429 with the JSON object of the reason's code.
unfoldable pub too_many_requests : BlockedReason → Response
unfolding code
too_many_requests reason = record { status = 429; headers = []; body = Http.blocked (code reason) }

-- `vk.rps_burst.unwrap_or(rps).max(1)`
unfoldable pub bucket_capacity : VirtualKeyCtx → ℤ → ℤ
unfolding unwrap_or max_ℤ
bucket_capacity vk rps = max_ℤ (unwrap_or vk.rps_burst rps) (pos 1)

module _ {S : Type 0} (o : Outside S) (redis : Scripts S) where
  unfoldable pub clock : Act S ℕ
  clock w = let (t, s) = o.now w.out in (t, record w { out = s })

  -- A usage event of the blocked request; a failure to insert it is ignored.
  unfoldable pub limit_event :
      VirtualKeyCtx → Request → ℕ → BlockedReason → Act S (Result (Unit {0}))
  unfolding clock
  limit_event vk req start reason w =
      let (t, w1) = clock w in
      insert_usage_event o vk.id vk.customer_id (parse_partner_from_path req.path) req.path false
        (some reason) none (min (t - start) 2147483647) w1

  -- What follows a limiter: only its refusal ends the request; an error lets it go on.
  unfoldable pub heed :
      VirtualKeyCtx → Request → ℕ → BlockedReason → Option Bool → Exec S (Unit {0})
  unfolding limit_event too_many_requests
  heed vk req start reason none = return tt
  heed vk req start reason (some true) = return tt
  heed vk req start reason (some false) = do
    _ ← lift (limit_event vk req start reason)
    stop (too_many_requests reason)

  unfoldable pub run_script : (S → Option Bool × S) → Act S (Option Bool)
  run_script f w = let (verdict, s) = f w.out in (verdict, record w { out = s })

  -- `if let Some(rps) = vk.rps_limit`
  unfoldable pub rate_under : VirtualKeyCtx → Request → ℕ → Option ℤ → Exec S (Unit {0})
  rate_under vk req start none = return tt
  rate_under vk req start (some rps) = do
    verdict ← lift (run_script (token_bucket_allow redis vk.id rps (bucket_capacity vk rps)))
    heed vk req start rate_limit_exceeded verdict

  unfoldable pub check_rate : VirtualKeyCtx → Request → ℕ → Exec S (Unit {0})
  unfolding rate_under
  check_rate vk req start = rate_under vk req start vk.rps_limit

  -- `if let Some(limit) = vk.monthly_quota`
  unfoldable pub quota_under : VirtualKeyCtx → Request → ℕ → Option ℤ → Exec S (Unit {0})
  quota_under vk req start none = return tt
  quota_under vk req start (some limit) = do
    verdict ← lift (run_script (monthly_quota_allow_and_incr redis vk.id limit))
    heed vk req start monthly_quota_exceeded verdict

  unfoldable pub check_quota : VirtualKeyCtx → Request → ℕ → Exec S (Unit {0})
  unfolding quota_under
  check_quota vk req start = quota_under vk req start vk.monthly_quota

  unfoldable pub connect_redis : Act S Bool
  connect_redis w = let (connected, s) = o.connect w.out in (connected, record w { out = s })

  -- `req.extensions().get::<VirtualKeyCtx>()`
  unfoldable pub require_context : Option VirtualKeyCtx → Exec S VirtualKeyCtx
  require_context none = stop (respond 500 "missing vk context")
  require_context (some vk) = return vk

  unfoldable pub check_limits : VirtualKeyCtx → Request → ℕ → Exec S Request
  check_limits vk req start = do
    _ ← check_rate vk req start
    _ ← check_quota vk req start
    return req

  unfoldable pub enforce_limits : Request → Exec S Request
  enforce_limits req = do
    start ← lift clock
    vk ← require_context req.vk
    connected ← lift connect_redis
    if connected then check_limits vk req start else return req
