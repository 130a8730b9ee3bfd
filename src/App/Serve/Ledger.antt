-- ===== src/App/Serve/Ledger.antt =====
-- The rollup of what the route of the proxy has recorded.
use relaykey_backend.Base.{ℕ, ◌≡◌, subst, sym, inl, inr, List, All}
use relaykey_backend.Text.{Text}
use relaykey_backend.Http.{Response}
use relaykey_backend.Context.{Request, Outcome}
use relaykey_backend.Policies.Cache.{Codec}
use relaykey_backend.Auth.{AuthState}
use relaykey_backend.Db.{Stamped, UsageEvent}
use relaykey_backend.Db.Grouping.Every.{EveryRow}
use relaykey_backend.Db.Rollups.Metrics.{rollup_usage_daily}
use relaykey_backend.Db.Rollups.Balance.{UsageBalanced, rollup_usage_daily-UsageBalanced}
use relaykey_backend.Limits.{Scripts}
use relaykey_backend.Usage.Metering.{IsMetered, Entered}
use relaykey_backend.World.{Outside, World}
use relaykey_backend.X402.Checks.{Crates}
use relaykey_backend.Proxy.Steps.{Urls}
use relaykey_backend.App.Serve.{serve}
use relaykey_backend.App.Serve.Metering.{serve-Entered}

-- Every event of the ledger is forwarded or blocked.
abbrev pub AllMetered : {S : Type 0} → World S → Type 0
AllMetered w = All (λ e. IsMetered e.row) w.db.usage_events

Entered-AllMetered :
    {S : Type 0} (before : List (Stamped UsageEvent)) (v : World S)
    → Entered before v
    → All (λ e. IsMetered e.row) before
    → AllMetered v
Entered-AllMetered before v (inl same) h = subst (All (λ e. IsMetered e.row)) (sym same) h
Entered-AllMetered before v (inr (e, metered, more)) h =
    subst (All (λ e. IsMetered e.row)) (sym more) (metered, h)

module _ {S U : Type 0} (o : Outside S) (codec : Codec) (state : AuthState) (redis : Scripts S)
    (crates : Crates) (missing_extension : Response) (urls : Urls U)
    (path_of : Request → Outcome (Text × Text)) where
  -- Requests go through the route of the proxy one after another; between them everything may change
  -- but the usage events.
  pub data Traffic (w : World S) : World S → Type 0 where
    quiet : Traffic w w
    request :
        {u : World S}
        → Traffic w u
        → (req : Request)
        → Traffic w (serve o codec state redis crates missing_extension urls path_of req u).1
    between : {u v : World S} → Traffic w u → u.db.usage_events ≡ v.db.usage_events → Traffic w v

  Traffic-AllMetered : {w v : World S} → Traffic w v → AllMetered w → AllMetered v
  Traffic-AllMetered quiet h = h
  Traffic-AllMetered (request {u} t req) h =
      Entered-AllMetered u.db.usage_events
        (serve o codec state redis crates missing_extension urls path_of req u).1
        (serve-Entered o codec state redis crates missing_extension urls path_of req u)
        (Traffic-AllMetered t h)
  Traffic-AllMetered (between t e) h = subst (All (λ e. IsMetered e.row)) e (Traffic-AllMetered t h)

  -- From a ledger in which every usage event is forwarded or blocked, after any number of requests
  -- to the route of the proxy, `rollup_usage_daily` keeps, whether its statement gets through or not:
  -- in every row of usage_rollup_daily the forwarded and the blocked requests add up to all
  -- requests, those with a status of 2xx, 3xx, 4xx and 5xx together are at most all, and the average
  -- is over all requests.
  pub traffic_rollup-UsageBalanced :
      (from to : ℕ) (w v : World S)
      → AllMetered w
      → Traffic w v
      → EveryRow UsageBalanced v.db.usage_rollup_daily
      → EveryRow UsageBalanced (rollup_usage_daily o from to v).1.db.usage_rollup_daily
  traffic_rollup-UsageBalanced from to w v metered t h =
      rollup_usage_daily-UsageBalanced o from to v (Traffic-AllMetered t metered) h
