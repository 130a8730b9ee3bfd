-- ===== src/Db/Keys/Insert.antt =====
-- crates/relaykey-db/src/queries/admin.rs, under the constraints of virtual_keys (migrations/0001,
-- 0007 and 0008): a unique key_hash, and a policy and a customer that exist. `violation` is the
-- error of a broken constraint.
use relaykey_backend.Base.{ℕ, Bool, ◌&&◌, not, ltb, ◌==◌, List, ◌∷◌, Option, any, if◌then◌else◌}
use relaykey_backend.Base.Int.{ℤ}
use relaykey_backend.Text.{Text, text_eq}
use relaykey_backend.Db.{Db, VirtualKeyRow}
use relaykey_backend.Db.Rollups.Queries.{order_by}
use relaykey_backend.World.{Outside, Act, Result, ok, err, statement, query}

-- The arguments of `insert_virtual_key`.
pub record NewKey : Type 0 where
  pub name : Text
  pub environment : Text
  pub tags : List Text
  pub customer_id : ℕ
  pub policy_id : ℕ
  pub key_hash : Text
  pub enabled : Bool
  pub rps_limit : Option ℤ
  pub rps_burst : Option ℤ
  pub monthly_quota : Option ℤ

-- The constraints of the table.
unfoldable pub admits : NewKey → Db → Bool
admits n db =
    not (any (λ vk. text_eq vk.key_hash n.key_hash) db.virtual_keys)
    && (any (λ p. p.id == n.policy_id) db.policies && any (λ c. c == n.customer_id) db.customers)

unfoldable pub new_key_row : (id created_at : ℕ) → NewKey → VirtualKeyRow
new_key_row id created_at n = record {
  id = id;
  name = n.name;
  environment = n.environment;
  tags = n.tags;
  customer_id = n.customer_id;
  enabled = n.enabled;
  rps_limit = n.rps_limit;
  rps_burst = n.rps_burst;
  monthly_quota = n.monthly_quota;
  key_hash = n.key_hash;
  policy_id = n.policy_id;
  created_at = created_at;
}

unfoldable pub insert_key_row : Text → (id created_at : ℕ) → NewKey → Db → Result ℕ × Db
unfolding admits new_key_row
insert_key_row violation id created_at n db =
    if admits n db
    then (ok id, record db { virtual_keys = new_key_row id created_at n ∷ db.virtual_keys })
    else (err violation, db)

module _ {S : Type 0} (o : Outside S) where
  unfoldable pub insert_virtual_key : Text → NewKey → Act S (Result ℕ)
  unfolding insert_key_row
  insert_virtual_key violation n w =
      statement o (insert_key_row violation (o.new_id w.out) (o.db_now w.out) n) w

  -- `ORDER BY created_at DESC`
  unfoldable pub list_virtual_keys : Act S (Result (List VirtualKeyRow))
  unfolding order_by
  list_virtual_keys =
      query o (λ db. order_by (λ x y. ltb y.created_at x.created_at) db.virtual_keys)
