-- ===== src/Auth.antt =====
-- crates/relaykey_app/src/auth.rs: the middlewares `require_virtual_key` and `require_admin`.
pub mod Gate
pub mod Untouched
use relaykey_backend.Base.{ℕ, Bool, not, [], Option, none, some, if◌then◌else◌}
use relaykey_backend.Text.{Text, text, text_eq, is_empty, trim}
use relaykey_backend.Http.{Headers, get_header, respond}
use relaykey_backend.Context.{VirtualKeyCtx, Request, Outcome, reply, go}
use relaykey_backend.Policies.{PolicyRow}
use relaykey_backend.Policies.Cache.{Codec, load_policy_bundle}
use relaykey_backend.Db.{Db, VirtualKeyRow}
use relaykey_backend.Db.Keys.{get_virtual_key_by_hash}
use relaykey_backend.World.{
  Outside, World, Act, Exec, Result, ok, err, ◌>>=◌, lift, return, stop, query,
}
use relaykey_backend.Retry.{unwrap_or}

-- What the middlewares use besides: `HeaderValue::to_str`, and `hash_virtual_key`, which is an HMAC
-- under the key of `AppState.key_salt`.
pub record AuthState : Type 0 where
  pub to_str : Text → Option Text
  pub hmac : Text → Text → Text
  pub key_salt : Text

unfoldable pub hash_virtual_key : AuthState → Text → Text
hash_virtual_key state raw = state.hmac state.key_salt raw

-- `headers.get(name).and_then(|v| v.to_str().ok())`
unfoldable pub readable_header : AuthState → Text → Headers → Option Text
readable_header state name headers = elim (get_header name headers) [
  | none ↦ none
  | some v ↦ state.to_str v
]

-- The trimmed key, if it is there and not empty.
unfoldable pub raw_key : AuthState → Request → Option Text
unfolding readable_header
raw_key state req = elim (readable_header state (text "x-relaykey") req.headers) [
  | none ↦ none
  | some v ↦ if not (is_empty (trim v)) then some (trim v) else none
]

unfoldable pub context_of : VirtualKeyRow → PolicyRow → VirtualKeyCtx
context_of vk policy = record {
  id = vk.id;
  name = vk.name;
  environment = vk.environment;
  tags = vk.tags;
  rps_limit = policy.rps_limit;
  rps_burst = policy.rps_burst;
  monthly_quota = policy.monthly_quota;
  policy_id = vk.policy_id;
  policy = policy;
  customer_id = vk.customer_id;
}

unfoldable pub attach : Request → VirtualKeyRow → PolicyRow → Request
unfolding context_of
attach req vk policy = record req { policy = some policy; vk = some (context_of vk policy) }

module _ {S : Type 0} (o : Outside S) (codec : Codec) (state : AuthState) where
  unfoldable pub require_raw_key : Request → Exec S Text
  require_raw_key req = elim (raw_key state req) [
    | some raw ↦ return raw
    | none ↦ stop (respond 401 "missing x-relaykey")
  ]

  unfoldable pub lookup_key : Text → Exec S VirtualKeyRow
  lookup_key raw = do
    found ← lift (query o (get_virtual_key_by_hash (hash_virtual_key state raw)))
    elim found [
      | ok (some vk) ↦ if vk.enabled then return vk else stop (respond 401 "virtual key disabled")
      | ok none ↦ stop (respond 401 "invalid virtual key")
      | err e ↦ stop (respond 500 "db error")
    ]

  unfoldable pub lookup_policy : ℕ → Exec S PolicyRow
  lookup_policy policy_id = do
    found ← lift (load_policy_bundle o codec policy_id)
    elim found [
      | ok (some p) ↦ return p
      | ok none ↦ stop (respond 500 "policy not found")
      | err e ↦ stop (respond 500 "policy load failed")
    ]

  unfoldable pub require_virtual_key : Request → Exec S Request
  unfolding attach
  require_virtual_key req = do
    raw ← require_raw_key req
    vk ← lookup_key raw
    policy ← lookup_policy vk.policy_id
    return (attach req vk policy)

-- The header's text, or the empty text.
unfoldable pub admin_token : AuthState → Request → Text
unfolding readable_header unwrap_or
admin_token state req = unwrap_or (readable_header state (text "x-admin-token") req.headers) []

unfoldable pub require_admin : (Text → Option Text) → AuthState → Request → Outcome Request
unfolding admin_token
require_admin env state req = elim (env (text "ADMIN_TOKEN")) [
  | none ↦ reply (respond 500 "admin not configured")
  | some expected ↦
      if not (text_eq (admin_token state req) expected)
      then reply (respond 401 "unauthorized")
      else go req
]
