-- ===== src/Examples/Access.antt =====
-- Authentication and the policy cache at example requests.
use relaykey_backend.Base.{ℕ, ◌≡◌, refl, ◌↔◌, true, [], ◌∷◌, Option, none, some}
use relaykey_backend.Text.{Text, text, text_eq, is_empty, trim, trim_start, is_space}
use relaykey_backend.Http.{get, get_header}
use relaykey_backend.Context.{Request, go}
use relaykey_backend.Db.{VirtualKeyRow}
use relaykey_backend.Db.Keys.{first, get_virtual_key_by_hash, get_policy_by_id}
use relaykey_backend.World.{World, statement, query}
use relaykey_backend.Retry.{unwrap_or}
use relaykey_backend.Policies.Cache.{
  Codec, cache_key, cached_json, decode, cache_fill, from_database, load_policy_bundle,
}
use relaykey_backend.Auth.{
  AuthState, hash_virtual_key, readable_header, raw_key, attach, require_raw_key, lookup_key,
  lookup_policy, require_virtual_key, admin_token, require_admin,
}
use relaykey_backend.Auth.Gate.{
  Authenticated, Untouched, require_virtual_key-Authenticated, require_admin_iff,
}
use relaykey_backend.Examples.Data.{outside, policy, request, tables}

abbrev pub codec : Codec
codec = record { to_string = λ _. some (text "{}"); from_str = λ _. none; uuid_text = λ n. n ∷ [] }

abbrev pub state : AuthState
state = record { to_str = λ s. some s; hmac = λ salt raw. raw; key_salt = text "salt" }

abbrev pub row : VirtualKeyRow
row = record {
  id = 1;
  name = text "ci";
  environment = text "test";
  tags = [];
  customer_id = 9;
  enabled = true;
  rps_limit = none;
  rps_burst = none;
  monthly_quota = none;
  key_hash = text "k1";
  policy_id = 4;
  created_at = 0;
}

abbrev pub keyed : World ℕ
keyed = record { db = record (tables []) { virtual_keys = row ∷ [] }; out = 0; sent = [] }

abbrev shown : Request
shown = request get ((text "x-relaykey", text " k1 ") ∷ [])

passes :
    require_virtual_key outside codec state shown keyed
    ≡ (go (attach shown row policy), (require_virtual_key outside codec state shown keyed).1)
unfolding require_virtual_key require_raw_key raw_key readable_header get_header lookup_key
    lookup_policy hash_virtual_key load_policy_bundle cached_json cache_key decode from_database
    cache_fill query statement get_virtual_key_by_hash get_policy_by_id first attach text text_eq
    trim trim_start is_space is_empty unwrap_or
passes = refl

require_virtual_key-Authenticated_example :
    Authenticated outside codec state shown (attach shown row policy) keyed
    × Untouched outside codec state keyed (require_virtual_key outside codec state shown keyed).1
require_virtual_key-Authenticated_example =
    require_virtual_key-Authenticated outside codec state shown (attach shown row policy) keyed _
      passes

require_admin_iff_example :
    (require_admin (λ _. some []) state shown ≡ go shown)
    ↔ (◌≡◌ {A = Option Text} (some []) (some (admin_token state shown)))
require_admin_iff_example = require_admin_iff (λ _. some []) state shown

-- With an empty token configured, a request without the header goes on.
open_admin : require_admin (λ _. some []) state shown ≡ go shown
unfolding require_admin admin_token readable_header get_header unwrap_or text text_eq
open_admin = refl
