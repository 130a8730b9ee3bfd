-- ===== src/Admin/VirtualKeys.antt =====
-- crates/relaykey_app/src/admin/virtual_keys.rs. `new_v4` is `Uuid::new_v4()` in its text form,
-- `time_text` prints a time.
pub mod RoundTrip
use relaykey_backend.Base.{ℕ, true, Bool, List, map, Option, none, ◌++◌}
use relaykey_backend.Text.{Text, text}
use relaykey_backend.Auth.{AuthState, hash_virtual_key}
use relaykey_backend.Db.{VirtualKeyRow}
use relaykey_backend.Db.Keys.Insert.{NewKey, insert_virtual_key, list_virtual_keys}
use relaykey_backend.World.{Outside, World, Act, Result, ok, err}
use relaykey_backend.Admin.{Answer, json, refuse, bare}

pub record CreateVirtualKeyRequest : Type 0 where
  pub name : Text
  pub environment : Text
  pub tags : List Text
  pub policy_id : ℕ
  pub customer_id : ℕ

pub record CreateVirtualKeyResponse : Type 0 where
  pub id : ℕ
  pub key : Text

pub record VirtualKeyResponse : Type 0 where
  pub id : ℕ
  pub name : Text
  pub environment : Text
  pub tags : List Text
  pub enabled : Bool
  pub policy_id : ℕ
  pub created_at : Text

unfoldable pub new_raw_key : Text → Text → Text
new_raw_key environment uuid = text "rk_" ++ (environment ++ (text "_" ++ uuid))

unfoldable pub new_key_of : CreateVirtualKeyRequest → Text → NewKey
new_key_of body key_hash = record {
  name = body.name;
  environment = body.environment;
  tags = body.tags;
  customer_id = body.customer_id;
  policy_id = body.policy_id;
  key_hash = key_hash;
  enabled = true;
  rps_limit = none;
  rps_burst = none;
  monthly_quota = none;
}

unfoldable pub created : Text → Result ℕ → Answer CreateVirtualKeyResponse
created raw_key (ok id) = json 201 (record { id = id; key = raw_key })
created raw_key (err e) = refuse (bare 500)

unfoldable pub listed : (ℕ → Text) → VirtualKeyRow → VirtualKeyResponse
listed time_text k = record {
  id = k.id;
  name = k.name;
  environment = k.environment;
  tags = k.tags;
  enabled = k.enabled;
  policy_id = k.policy_id;
  created_at = time_text k.created_at;
}

unfoldable pub keys_answer :
    (ℕ → Text) → Result (List VirtualKeyRow) → Answer (List VirtualKeyResponse)
unfolding listed
keys_answer time_text (ok keys) = json 200 (map (listed time_text) keys)
keys_answer time_text (err e) = refuse (bare 500)

module _ {S : Type 0} (o : Outside S) where
  unfoldable pub create_virtual_key :
      AuthState
      → (new_v4 : S → Text × S) → (violation : Text) → CreateVirtualKeyRequest
      → Act S (Answer CreateVirtualKeyResponse)
  unfolding new_raw_key new_key_of created
  create_virtual_key state new_v4 violation body w =
      let (uuid, s) = new_v4 w.out in
      let raw_key = new_raw_key body.environment uuid in
      let (r, w') =
        insert_virtual_key o violation (new_key_of body (hash_virtual_key state raw_key))
          (record w { out = s }) in
      (created raw_key r, w')

  unfoldable pub list_virtual_keys_handler : (ℕ → Text) → Act S (Answer (List VirtualKeyResponse))
  unfolding keys_answer
  list_virtual_keys_handler time_text w =
      let (r, w') = list_virtual_keys o w in (keys_answer time_text r, w')
