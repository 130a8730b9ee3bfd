-- ===== src/Db/PaymentIntents.antt =====
-- crates/relaykey-db/src/queries/payment_intents.rs: the table of payment intents, with the primary
-- key of migrations/0011_x402_intents.sql and the unique indexes of migrations/0016_payment_intents.sql.
-- Times are milliseconds of the database's clock.
pub mod Indexes
pub mod Settling
pub mod History
pub mod Overwriting
use relaykey_backend.Base.{
  ℕ, ◌+◌, Bool, true, false, not, ◌&&◌, ◌||◌, List, [], ◌∷◌, map, Option, none, some, ltb, ◌==◌,
  if◌then◌else◌, keep, any,
}
use relaykey_backend.Text.{Text, text_eq}
use relaykey_backend.Db.{Db, PaymentIntent, Status, pending, verified, failed, expired}
use relaykey_backend.Db.Keys.{first, latest}

unfoldable pub status_eq : Status → Status → Bool
status_eq pending pending = true
status_eq verified verified = true
status_eq failed failed = true
status_eq expired expired = true
status_eq _ _ = false

-- SQL's `a = b` on nullable texts: not true where one is null.
unfoldable pub same_text : Option Text → Option Text → Bool
same_text none _ = false
same_text (some s) none = false
same_text (some s) (some t) = text_eq s t

-- `COALESCE(a, b)`
unfoldable pub coalesce : Option Text → Option Text → Option Text
coalesce none b = b
coalesce (some a) b = some a

-- Two rows that the primary key or one of the three unique indexes keeps apart.
unfoldable pub conflict : PaymentIntent → PaymentIntent → Bool
conflict a b =
    a.id == b.id
    || same_text a.payment_id b.payment_id
    || same_text a.payment_token b.payment_token
    || (status_eq a.status verified
        && status_eq b.status verified
        && a.virtual_key_id == b.virtual_key_id
        && text_eq a.request_hash b.request_hash)

unfoldable pub unique_rows : List PaymentIntent → Bool
unique_rows [] = true
unique_rows (x ∷ xs) = not (any (conflict x) xs) && unique_rows xs

pub record NewIntent : Type 0 where
  pub virtual_key_id : ℕ
  pub partner_name : Text
  pub path : Text
  pub request_hash : Text
  pub amount : Text
  pub currency : Text
  pub facilitator_url : Text
  pub recipient : Text
  pub provider : Text

-- `now() + interval '15 minutes'`
abbrev pub intent_lifetime : ℕ
intent_lifetime = 900_000

-- The row that `insert_payment_intent` inserts at a time, under a fresh id.
unfoldable pub new_row : ℕ → ℕ → NewIntent → PaymentIntent
new_row now id n = record {
  id = id;
  ts = now;
  virtual_key_id = n.virtual_key_id;
  partner_name = n.partner_name;
  path = n.path;
  request_hash = n.request_hash;
  amount = n.amount;
  currency = n.currency;
  facilitator_url = n.facilitator_url;
  recipient = n.recipient;
  provider = n.provider;
  status = pending;
  expires_at = some (now + intent_lifetime);
  payment_id = none;
  payment_token = none;
}

-- `SET status, payment_id, payment_token WHERE id`
unfoldable pub settle : Status → ℕ → Option Text → Option Text → PaymentIntent → PaymentIntent
settle status intent_id payment_id payment_token row =
    if row.id == intent_id
    then record row {
      status = status;
      payment_id = coalesce payment_id row.payment_id;
      payment_token = coalesce payment_token row.payment_token;
    }
    else row

-- A change that breaks a unique index is refused, and leaves the table.
unfoldable pub checked : List PaymentIntent → Option (List PaymentIntent)
checked rows = if unique_rows rows then some rows else none

unfoldable pub insert_payment_intent :
    ℕ → ℕ → NewIntent → List PaymentIntent → Option (List PaymentIntent)
unfolding checked
insert_payment_intent now id n rows = checked (new_row now id n ∷ rows)

unfoldable pub mark_payment_intent_verified :
    ℕ → Option Text → Option Text → List PaymentIntent → Option (List PaymentIntent)
unfolding checked
mark_payment_intent_verified intent_id payment_id payment_token rows =
    checked (map (settle verified intent_id payment_id payment_token) rows)

unfoldable pub mark_payment_intent_failed :
    ℕ → Option Text → Option Text → List PaymentIntent → Option (List PaymentIntent)
unfolding checked
mark_payment_intent_failed intent_id payment_id payment_token rows =
    checked (map (settle failed intent_id payment_id payment_token) rows)

-- `expires_at IS NOT NULL AND expires_at < NOW()`
unfoldable pub is_past : ℕ → Option ℕ → Bool
is_past now none = false
is_past now (some t) = ltb t now

unfoldable pub expire_row : ℕ → PaymentIntent → PaymentIntent
expire_row now row =
    if status_eq row.status pending && is_past now row.expires_at
    then record row { status = expired }
    else row

unfoldable pub expire_stale_payment_intents : ℕ → List PaymentIntent → List PaymentIntent
expire_stale_payment_intents now rows = map (expire_row now) rows

-- The `WHERE` of the search for a pending intent.
unfoldable pub is_pending_for : ℕ → Text → Text → Text → PaymentIntent → Bool
is_pending_for virtual_key_id partner_name path request_hash row =
    row.virtual_key_id == virtual_key_id
    && text_eq row.partner_name partner_name
    && text_eq row.path path
    && text_eq row.request_hash request_hash
    && status_eq row.status pending

unfoldable pub find_latest_pending_intent_by_request_hash :
    ℕ → Text → Text → Text → List PaymentIntent → Option PaymentIntent
find_latest_pending_intent_by_request_hash virtual_key_id partner_name path request_hash rows =
    latest (λ row. row.ts)
      (keep (is_pending_for virtual_key_id partner_name path request_hash) rows)

unfoldable pub find_verified_intent_by_payment_id : Text → List PaymentIntent → Option PaymentIntent
find_verified_intent_by_payment_id payment_id rows =
    first (λ row. same_text row.payment_id (some payment_id) && status_eq row.status verified) rows

unfoldable pub find_verified_intent_by_payment_token :
    Text → List PaymentIntent → Option PaymentIntent
find_verified_intent_by_payment_token payment_token rows =
    first (λ row. same_text row.payment_token (some payment_token) && status_eq row.status verified)
      rows
