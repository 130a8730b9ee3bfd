-- ===== src/App/Serve/Quiet.antt =====
-- No middleware in front of the proxy handler sends anything upstream.
use relaykey_backend.Base.{ℕ, Bool, ◌≡◌, ◌∙◌, true, false, List, Option, none, some, if◌then◌else◌}
use relaykey_backend.Base.Int.{ℤ}
use relaykey_backend.Http.{Response}
use relaykey_backend.Context.{VirtualKeyCtx, Request, Outcome}
use relaykey_backend.Policies.Cache.{Codec}
use relaykey_backend.Auth.{AuthState, require_virtual_key}
use relaykey_backend.Limits.{Scripts}
use relaykey_backend.Limits.Middleware.{
  limit_event, clock, heed, run_script, rate_under, check_rate, quota_under, check_quota,
  connect_redis, require_context, check_limits, enforce_limits,
}
use relaykey_backend.Usage.{BlockedReason, insert_usage_event}
use relaykey_backend.World.{Outside, Upstream, World, return}
use relaykey_backend.Auth.Untouched.{require_virtual_key-Untouched}
use relaykey_backend.World.Flow.{statement-sent, Leaves, Leaves-bind, Leaves-lift, Leaves-if}
use relaykey_backend.X402.Checks.{Crates}
use relaykey_backend.X402.Enforce.Table.{enforce_x402-quiet}
use relaykey_backend.App.{provider_registry, extension_vk, allowlist_layer, x402_layer, protected}

-- Whether it stops or goes on, an action has sent nothing more than `before`.
abbrev pub Quiet : {S A : Type 0} → List Upstream → Outcome A × World S → Type 0
Quiet before m = Leaves (λ v. v.sent ≡ before) m

module _ {S : Type 0} (o : Outside S) (codec : Codec) (state : AuthState) (redis : Scripts S)
    (crates : Crates) (missing_extension : Response) (before : List Upstream) where
  require_virtual_key-Quiet :
      (req : Request) (w : World S)
      → w.sent ≡ before
      → Quiet before (require_virtual_key o codec state req w)
  require_virtual_key-Quiet req w h = record {
    left = (require_virtual_key-Untouched o codec state req w).left.1 ∙ h;
  }

  heed-Quiet :
      (vk : VirtualKeyCtx) (req : Request) (start : ℕ) (reason : BlockedReason)
      (verdict : Option Bool) (w : World S)
      → w.sent ≡ before
      → Quiet before (heed o redis vk req start reason verdict w)
  unfolding heed limit_event clock insert_usage_event
  heed-Quiet vk req start reason none w h = record { left = h }
  heed-Quiet vk req start reason (some true) w h = record { left = h }
  heed-Quiet vk req start reason (some false) w h = record { left = statement-sent o _ _ ∙ h }

  rate_under-Quiet :
      (vk : VirtualKeyCtx) (req : Request) (start : ℕ) (rps : Option ℤ) (w : World S)
      → w.sent ≡ before
      → Quiet before (rate_under o redis vk req start rps w)
  unfolding rate_under run_script
  rate_under-Quiet vk req start none w h = record { left = h }
  rate_under-Quiet vk req start (some rps) w h = heed-Quiet vk req start _ _ _ h

  quota_under-Quiet :
      (vk : VirtualKeyCtx) (req : Request) (start : ℕ) (limit : Option ℤ) (w : World S)
      → w.sent ≡ before
      → Quiet before (quota_under o redis vk req start limit w)
  unfolding quota_under run_script
  quota_under-Quiet vk req start none w h = record { left = h }
  quota_under-Quiet vk req start (some limit) w h = heed-Quiet vk req start _ _ _ h

  check_limits-Quiet :
      (vk : VirtualKeyCtx) (req : Request) (start : ℕ) (w : World S)
      → w.sent ≡ before
      → Quiet before (check_limits o redis vk req start w)
  unfolding check_limits check_rate check_quota
  check_limits-Quiet vk req start w h =
      Leaves-bind _ _ (rate_under-Quiet vk req start vk.rps_limit w h) λ _ w1 h1.
        Leaves-bind _ _ (quota_under-Quiet vk req start vk.monthly_quota w1 h1)
          λ _ w2 h2. record { left = h2 }

  require_context-Quiet :
      (found : Option VirtualKeyCtx) (w : World S)
      → w.sent ≡ before
      → Quiet before (require_context o redis found w)
  unfolding require_context
  require_context-Quiet none w h = record { left = h }
  require_context-Quiet (some vk) w h = record { left = h }

  enforce_limits-Quiet :
      (req : Request) (w : World S) → w.sent ≡ before → Quiet before (enforce_limits o redis req w)
  unfolding enforce_limits clock connect_redis
  enforce_limits-Quiet req w h =
      let start = (clock o redis w).0 in
      Leaves-bind _ _ (require_context-Quiet req.vk _ h) λ vk w1 h1.
        Leaves-lift (connect_redis o redis)
          (λ connected. if connected then check_limits o redis vk req start else return req) w1 h1
          λ connected v k.
            Leaves-if connected (check_limits o redis vk req start) (return req) v
              (check_limits-Quiet vk req start v k) (record { left = k })

  extension_vk-Quiet :
      (found : Option VirtualKeyCtx) (w : World S)
      → w.sent ≡ before
      → Quiet before (extension_vk o codec state redis crates missing_extension found w)
  unfolding extension_vk
  extension_vk-Quiet none w h = record { left = h }
  extension_vk-Quiet (some vk) w h = record { left = h }

  x402_layer-Quiet :
      (req : Request) (w : World S)
      → w.sent ≡ before
      → Quiet before (x402_layer o codec state redis crates missing_extension req w)
  unfolding x402_layer
  x402_layer-Quiet req w h =
      Leaves-bind _ _ (extension_vk-Quiet req.vk w h) λ vk w1 h1. record {
        left = (enforce_x402-quiet o crates provider_registry vk req w1).0 ∙ h1;
      }

  pub protected-Quiet :
      (req : Request) (w : World S)
      → w.sent ≡ before
      → Quiet before (protected o codec state redis crates missing_extension req w)
  unfolding protected allowlist_layer
  protected-Quiet req w h = Leaves-bind _ _ (require_virtual_key-Quiet req w h) λ a w1 h1.
      Leaves-bind _ _ (record { left = h1 })
        λ b w2 h2.
          Leaves-bind _ _ (enforce_limits-Quiet b w2 h2) λ c w3 h3. x402_layer-Quiet c w3 h3
