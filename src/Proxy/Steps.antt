-- ===== src/Proxy/Steps.antt =====
-- crates/relaykey_app/src/proxy.rs: the steps of `handler`, in the order of its text.
pub mod Sending
use relaykey_backend.Base.{
  ℕ, ◌+◌, ◌-◌, min, max, Bool, true, false, not, ◌&&◌, ◌||◌, [], ◌∷◌, ◌++◌, Option, none, some, ltb,
  leb, ◌==◌, if◌then◌else◌,
}
use relaykey_backend.Base.Int.{pos_part}
use Prim.Native.String.{String}
use relaykey_backend.Text.{Text, text, text_eq, is_empty, starts_with, to_lowercase}
use relaykey_backend.Http.{Method, get, head, options, connect, trace, Headers, stream, respond}
use relaykey_backend.Context.{VirtualKeyCtx, Request}
use relaykey_backend.Policies.{PolicyRow}
use relaykey_backend.Db.{PartnerRow, CredentialRow}
use relaykey_backend.Db.Keys.{get_partner_by_name, get_credential_for_partner}
use relaykey_backend.World.{
  Outside, World, Upstream, SendResult, Act, Exec, Result, ok, err, ◌>>=◌, lift, return, stop,
  query,
}
use relaykey_backend.Usage.{
  BlockedReason, unknown_partner, db_error, ssrf_blocked, missing_upstream_credential,
  invalid_partner_base_url, invalid_upstream_path, endpoint_not_allowed, insert_usage_event,
}
use relaykey_backend.Retry.{
  RetryPolicy, classify_status, is_retryable, profile_for_partner, status_retry_allowed, backoff_ms,
  cheap_jitter_ms,
}
use relaykey_backend.Retry.Budget.{default_budgets, allow_retry_dual_budget}
use relaykey_backend.Proxy.Paths.{path_allowed}
use relaykey_backend.Proxy.Headers.{outgoing_headers, collect_headers}

-- What the handler uses of other crates: `url::Url`, the checks of `HeaderName` and `HeaderValue`,
-- and `Uuid::to_string`.
pub record Urls (U : Type 0) : Type 0 where
  pub parse : Text → Option U
  pub join : U → Text → Option U
  pub scheme : U → Text
  pub host_str : U → Option Text
  pub port_or_known_default : U → Option ℕ
  pub as_str : U → Text
  pub header_name : Text → Option Text
  pub header_value : Text → Option Text
  pub uuid_text : ℕ → Text

abbrev pub i32_max : ℕ
i32_max = 2147483647

unfoldable pub is_idempotent : Method → Bool
is_idempotent get = true
is_idempotent head = true
is_idempotent options = true
is_idempotent _ = false

unfoldable pub is_rejected : Method → Bool
is_rejected connect = true
is_rejected trace = true
is_rejected _ = false

unfoldable pub option_eq : Option Text → Option Text → Bool
option_eq none none = true
option_eq (some s) (some t) = text_eq s t
option_eq none (some _) = false
option_eq (some _) none = false

unfoldable pub port_eq : Option ℕ → Option ℕ → Bool
port_eq none none = true
port_eq (some a) (some b) = a == b
port_eq none (some _) = false
port_eq (some _) none = false

unfoldable pub looks_like_url : Text → Bool
looks_like_url tail =
    starts_with (text "http://") (to_lowercase tail)
    || starts_with (text "https://") (to_lowercase tail)

unfoldable pub forwarded_path : Text → Text
forwarded_path tail = if is_empty tail then text "/" else text "/" ++ tail

unfoldable pub query_suffix : Option Text → Text
query_suffix none = []
query_suffix (some q) = text "?" ++ q

-- `policy.timeout_ms.max(1) as u64`
unfoldable pub total_budget_ms : PolicyRow → ℕ
total_budget_ms policy = max (pos_part policy.timeout_ms) 1

module _ {S U : Type 0} (o : Outside S) (urls : Urls U) where
  unfoldable pub instant_now : Act S ℕ
  instant_now w = let (t, s) = o.now w.out in (t, record w { out = s })

  -- A usage event with the time since `start`; a failure to insert it is ignored.
  unfoldable pub usage_event :
      VirtualKeyCtx
      → Request
      → ℕ
      → Text
      → Bool
      → Option BlockedReason
      → Option ℕ
      → Act S (Result (Unit {0}))
  usage_event vk req start partner_name forwarded reason status w =
      let (t, w1) = instant_now w in
      insert_usage_event o vk.id vk.customer_id partner_name req.path forwarded reason status
        (min (t - start) i32_max) w1

  -- A blocked request: its event, then the answer.
  unfoldable pub blocked :
      {A : Type 0} → VirtualKeyCtx → Request → ℕ → Text → BlockedReason → ℕ → String → Exec S A
  blocked vk req start partner_name reason status message = do
    _ ← lift (usage_event vk req start partner_name false (some reason) none)
    stop (respond status message)

  -- 1) Load partner
  unfoldable pub load_partner : VirtualKeyCtx → Request → ℕ → Text → Exec S PartnerRow
  load_partner vk req start partner = do
    found ← lift (query o (get_partner_by_name partner))
    elim found [
      | ok (some p) ↦ return p
      | ok none ↦ blocked vk req start partner unknown_partner 404 "unknown partner"
      | err e ↦ blocked vk req start partner db_error 500 "db error"
    ]

  -- 2) Load credential
  unfoldable pub load_credential : VirtualKeyCtx → Request → ℕ → PartnerRow → Exec S CredentialRow
  load_credential vk req start partner_row = do
    found ← lift (query o (get_credential_for_partner partner_row.id))
    elim found [
      | ok (some c) ↦ return c
      | ok none ↦
          blocked vk req start partner_row.name missing_upstream_credential 500
            "missing upstream credential"
      | err e ↦ blocked vk req start partner_row.name db_error 500 "db error"
    ]

  unfoldable pub same_origin : U → U → Bool
  same_origin joined base =
      text_eq (urls.scheme joined) (urls.scheme base)
      && option_eq (urls.host_str joined) (urls.host_str base)
      && port_eq (urls.port_or_known_default joined) (urls.port_or_known_default base)

  unfoldable pub parse_base : VirtualKeyCtx → Request → ℕ → PartnerRow → Exec S U
  parse_base vk req start partner_row = elim (urls.parse partner_row.base_url) [
    | some base ↦ return base
    | none ↦
        blocked vk req start partner_row.name invalid_partner_base_url 500
          "invalid partner base_url"
  ]

  -- 3) Build the upstream URL: the guard on the tail, the allowlist, the join, the origin.
  unfoldable pub check_tail : VirtualKeyCtx → Request → ℕ → PartnerRow → Text → Exec S (Unit {0})
  check_tail vk req start partner_row tail =
      if looks_like_url tail
      then blocked vk req start partner_row.name ssrf_blocked 400 "blocked by SSRF guard"
      else return tt

  unfoldable pub check_allowlist :
      VirtualKeyCtx → PolicyRow → Request → ℕ → PartnerRow → Text → Exec S (Unit {0})
  check_allowlist vk policy req start partner_row tail =
      if not (path_allowed policy.endpoint_allowlist (forwarded_path tail))
      then blocked vk req start partner_row.name endpoint_not_allowed 403 "Endpoint not allowed"
      else return tt

  unfoldable pub join_url : VirtualKeyCtx → Request → ℕ → PartnerRow → Text → U → Exec S U
  join_url vk req start partner_row tail base =
      elim (urls.join base (forwarded_path tail ++ query_suffix req.query)) [
        | some joined ↦ return joined
        | none ↦
            blocked vk req start partner_row.name invalid_upstream_path 400 "invalid upstream path"
      ]

  unfoldable pub check_origin : VirtualKeyCtx → Request → ℕ → PartnerRow → U → U → Exec S (Unit {0})
  check_origin vk req start partner_row joined base =
      if not (same_origin joined base)
      then blocked vk req start partner_row.name ssrf_blocked 400 "blocked by SSRF guard"
      else return tt

  unfoldable pub parse_header_name : CredentialRow → Exec S Text
  parse_header_name cred = elim (urls.header_name cred.header_name) [
    | some h ↦ return h
    | none ↦ stop (respond 500 "invalid credential header_name")
  ]

  unfoldable pub parse_header_value : CredentialRow → Exec S Text
  parse_header_value cred = elim (urls.header_value cred.header_value) [
    | some v ↦ return v
    | none ↦ stop (respond 500 "invalid credential header_value")
  ]
