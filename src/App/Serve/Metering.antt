-- ===== src/App/Serve/Metering.antt =====
-- The usage events of the route of the proxy.
use relaykey_backend.Base.{
  ◌≡◌, refl, ◌∙◌, ap, subst, inl, ℕ, Bool, List, Option, none, some, true, false,
}
use relaykey_backend.Base.Int.{ℤ}
use relaykey_backend.Text.{Text}
use relaykey_backend.Http.{Response}
use relaykey_backend.Context.{VirtualKeyCtx, Request, Outcome, parse_partner_from_path}
use relaykey_backend.Policies.{PolicyRow}
use relaykey_backend.Policies.Allowlist.{enforce_allowlist}
use relaykey_backend.Policies.Cache.{Codec}
use relaykey_backend.Auth.{AuthState, require_virtual_key}
use relaykey_backend.Auth.Untouched.{require_virtual_key-Untouched}
use relaykey_backend.Db.{Db, Stamped, UsageEvent}
use relaykey_backend.Limits.{Scripts}
use relaykey_backend.Limits.Middleware.{
  limit_event, clock, heed, run_script, rate_under, check_rate, quota_under, check_quota,
  connect_redis, require_context, check_limits, enforce_limits,
}
use relaykey_backend.Usage.{BlockedReason}
use relaykey_backend.Usage.Metering.{
  Entered, Metered, ended, continued, Metered-bind, Metered-if, unmetered, blocked-Entered,
  Metered-Entered,
}
use relaykey_backend.World.{Outside, World, return}
use relaykey_backend.X402.Checks.{Crates}
use relaykey_backend.X402.Enforce.{enforce_x402}
use relaykey_backend.X402.Enforce.Table.{enforce_x402-quiet}
use relaykey_backend.Proxy.Steps.{Urls}
use relaykey_backend.Proxy.Handler.Metering.{handler-Metered}
use relaykey_backend.App.{provider_registry, extension_vk, allowlist_layer, x402_layer, protected}
use relaykey_backend.App.Serve.{extension_policy, extract_path, extracted, serve}

module _ {S : Type 0} (o : Outside S) (redis : Scripts S) (before : List (Stamped UsageEvent)) where
  heed-Metered :
      (vk : VirtualKeyCtx) (req : Request) (start : ℕ) (reason : BlockedReason)
      (verdict : Option Bool) (w : World S)
      → w.db.usage_events ≡ before
      → Metered before (heed o redis vk req start reason verdict w)
  unfolding heed limit_event clock
  heed-Metered vk req start reason none w h = continued _ w h
  heed-Metered vk req start reason (some true) w h = continued _ w h
  heed-Metered vk req start reason (some false) w h = ended _ _ (
      subst (λ l. Entered l (limit_event o redis vk req start reason w).1) h
        (blocked-Entered o vk.id vk.customer_id (parse_partner_from_path req.path) req.path _ reason
          (record w { out = (o.now w.out).1 })))

  rate_under-Metered :
      (vk : VirtualKeyCtx) (req : Request) (start : ℕ) (rps : Option ℤ) (w : World S)
      → w.db.usage_events ≡ before
      → Metered before (rate_under o redis vk req start rps w)
  unfolding rate_under run_script
  rate_under-Metered vk req start none w h = continued _ w h
  rate_under-Metered vk req start (some rps) w h = heed-Metered vk req start _ _ _ h

  quota_under-Metered :
      (vk : VirtualKeyCtx) (req : Request) (start : ℕ) (limit : Option ℤ) (w : World S)
      → w.db.usage_events ≡ before
      → Metered before (quota_under o redis vk req start limit w)
  unfolding quota_under run_script
  quota_under-Metered vk req start none w h = continued _ w h
  quota_under-Metered vk req start (some limit) w h = heed-Metered vk req start _ _ _ h

  check_limits-Metered :
      (vk : VirtualKeyCtx) (req : Request) (start : ℕ) (w : World S)
      → w.db.usage_events ≡ before
      → Metered before (check_limits o redis vk req start w)
  unfolding check_limits check_rate check_quota
  check_limits-Metered vk req start w h =
      Metered-bind (rate_under-Metered vk req start vk.rps_limit w h) λ _ w1 h1.
        Metered-bind (quota_under-Metered vk req start vk.monthly_quota w1 h1)
          λ _ w2 h2. continued req w2 h2

  require_context-Metered :
      (found : Option VirtualKeyCtx) (w : World S)
      → w.db.usage_events ≡ before
      → Metered before (require_context o redis found w)
  unfolding require_context
  require_context-Metered none w h = ended _ w (inl h)
  require_context-Metered (some vk) w h = continued vk w h

  enforce_limits-Metered :
      (req : Request) (w : World S)
      → w.db.usage_events ≡ before
      → Metered before (enforce_limits o redis req w)
  unfolding enforce_limits clock connect_redis
  enforce_limits-Metered req w h =
      let start = (clock o redis w).0 in
      Metered-bind (require_context-Metered req.vk _ h) λ vk w1 h1.
        Metered-if (o.connect w1.out).0 (check_limits o redis vk req start) (return req) _
          (check_limits-Metered vk req start _ h1) (continued req _ h1)

module _ {S U : Type 0} (o : Outside S) (codec : Codec) (state : AuthState) (redis : Scripts S)
    (crates : Crates) (missing_extension : Response) (urls : Urls U)
    (path_of : Request → Outcome (Text × Text)) (before : List (Stamped UsageEvent)) where
  extension_vk-Metered :
      (found : Option VirtualKeyCtx) (w : World S)
      → w.db.usage_events ≡ before
      → Metered before (extension_vk o codec state redis crates missing_extension found w)
  unfolding extension_vk
  extension_vk-Metered none w h = ended _ w (inl h)
  extension_vk-Metered (some vk) w h = continued vk w h

  extension_policy-Metered :
      (found : Option PolicyRow) (w : World S)
      → w.db.usage_events ≡ before
      → Metered before
          (extension_policy o codec state redis crates missing_extension urls path_of found w)
  unfolding extension_policy
  extension_policy-Metered none w h = ended _ w (inl h)
  extension_policy-Metered (some policy) w h = continued policy w h

  require_virtual_key-Metered :
      (req : Request) (w : World S)
      → w.db.usage_events ≡ before
      → Metered before (require_virtual_key o codec state req w)
  require_virtual_key-Metered req w h = unmetered (require_virtual_key o codec state req w) (
      ap (λ (db : Db). db.usage_events) (require_virtual_key-Untouched o codec state req w).left.0
      ∙ h)

  allowlist_layer-Metered :
      (req : Request) (w : World S)
      → w.db.usage_events ≡ before
      → Metered before (allowlist_layer o codec state redis crates missing_extension req w)
  unfolding allowlist_layer
  allowlist_layer-Metered req w h = unmetered (enforce_allowlist req, w) h

  enforce_x402-Metered :
      (vk : VirtualKeyCtx) (req : Request) (w : World S)
      → w.db.usage_events ≡ before
      → Metered before (enforce_x402 o crates provider_registry vk req w)
  enforce_x402-Metered vk req w h =
      unmetered (enforce_x402 o crates provider_registry vk req w)
        ((enforce_x402-quiet o crates provider_registry vk req w).1 ∙ h)

  extract_path-Metered :
      (req : Request) (w : World S)
      → w.db.usage_events ≡ before
      → Metered before
          (extract_path o codec state redis crates missing_extension urls path_of req w)
  unfolding extract_path
  extract_path-Metered req w h = unmetered (path_of req, w) h

  protected-Metered :
      (req : Request) (w : World S)
      → w.db.usage_events ≡ before
      → Metered before (protected o codec state redis crates missing_extension req w)
  unfolding protected x402_layer
  protected-Metered req w h = Metered-bind (require_virtual_key-Metered req w h) λ a w1 h1.
      Metered-bind (allowlist_layer-Metered a w1 h1) λ b w2 h2.
        Metered-bind (enforce_limits-Metered o redis before b w2 h2) λ c w3 h3.
          Metered-bind (extension_vk-Metered c.vk w3 h3) λ vk w4 h4. enforce_x402-Metered vk c w4 h4

  serve_adds :
      (req : Request) (w : World S)
      → w.db.usage_events ≡ before
      → Metered before (serve o codec state redis crates missing_extension urls path_of req w)
  unfolding serve extracted
  serve_adds req w h = Metered-bind (protected-Metered req w h) λ r w1 h1.
      Metered-bind (extension_vk-Metered r.vk w1 h1) λ vk w2 h2.
        Metered-bind (extension_policy-Metered r.policy w2 h2) λ policy w3 h3.
          Metered-bind (extract_path-Metered r w3 h3)
            λ path w4 h4. handler-Metered o urls before vk policy path.0 path.1 r w4 h4

-- Whatever happens to it, a request to the route of the proxy adds at most one usage event to the
-- ledger, and changes no other. The event is forwarded, with the status of the upstream and no
-- reason, or blocked, with a reason and no status.
pub serve-Entered :
    {S U : Type 0} (o : Outside S) (codec : Codec) (state : AuthState) (redis : Scripts S)
    (crates : Crates) (missing_extension : Response) (urls : Urls U)
    (path_of : Request → Outcome (Text × Text)) (req : Request) (w : World S)
    → Entered w.db.usage_events
        (serve o codec state redis crates missing_extension urls path_of req w).1
serve-Entered o codec state redis crates missing_extension urls path_of req w = Metered-Entered (
    serve_adds o codec state redis crates missing_extension urls path_of w.db.usage_events req w
      refl)
