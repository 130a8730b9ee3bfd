-- ===== src/Db.antt =====
-- The tables of the Postgres database, one list of rows for each that the program reads or writes,
-- and the rows (crates/relaykey-db/src/queries/*.rs; the further columns are those of migrations/).
pub mod Keys
pub mod Grouping
pub mod Rollups
pub mod PaymentIntents
use relaykey_backend.Base.{ℕ, Bool, List, Option}
use relaykey_backend.Base.Int.{ℤ}
use relaykey_backend.Text.{Text}
use relaykey_backend.Policies.{PolicyRow}

pub record VirtualKeyRow : Type 0 where
  pub id : ℕ
  pub name : Text
  pub environment : Text
  pub tags : List Text
  pub customer_id : ℕ
  pub enabled : Bool
  pub rps_limit : Option ℤ
  pub rps_burst : Option ℤ
  pub monthly_quota : Option ℤ
  pub key_hash : Text
  pub policy_id : ℕ
  pub created_at : ℕ

pub record PartnerRow : Type 0 where
  pub id : ℕ
  pub name : Text
  pub base_url : Text

pub record CredentialRow : Type 0 where
  pub header_name : Text
  pub header_value : Text

-- A row of `upstream_credentials`.
pub record StoredCredential : Type 0 where
  pub partner_id : ℕ
  pub created_at : ℕ
  pub credential : CredentialRow

-- `payment_intents.status`
pub data Status : Type 0 where
  pending verified failed expired : Status

-- A row of `payment_intents`.
pub record PaymentIntent : Type 0 where
  pub id : ℕ
  pub ts : ℕ
  pub virtual_key_id : ℕ
  pub partner_name : Text
  pub path : Text
  pub request_hash : Text
  pub amount : Text
  pub currency : Text
  pub facilitator_url : Text
  pub recipient : Text
  pub provider : Text
  pub status : Status
  pub expires_at : Option ℕ
  pub payment_id : Option Text
  pub payment_token : Option Text

pub record UsageEvent : Type 0 where
  pub virtual_key_id : ℕ
  pub customer_id : ℕ
  pub partner_name : Text
  pub path : Text
  pub forwarded : Bool
  pub blocked_reason : Option Text
  pub status_code : Option ℕ
  pub latency_ms : ℕ

pub record X402Event : Type 0 where
  pub customer_id : ℕ
  pub virtual_key_id : ℕ
  pub partner_name : Text
  pub provider : Text
  pub path : Text
  pub event_type : Text
  pub detail : Option Text

-- A row with the time of its insertion, `ts timestamptz DEFAULT now()`.
pub record Stamped (A : Type 0) : Type 0 where
  pub ts : ℕ
  pub row : A

-- The rows of the rollup tables: the primary key, and the other columns. A day is counted from
-- 1970-01-01 in UTC.
pub record UsageKey : Type 0 where
  pub day : ℕ
  pub customer_id : ℕ
  pub virtual_key_id : ℕ
  pub partner_name : Text

-- The average is the exact quotient of its two numbers.
pub record UsageColumns : Type 0 where
  pub total_requests : ℕ
  pub forwarded_requests : ℕ
  pub blocked_requests : ℕ
  pub avg_latency_ms : ℕ × ℕ
  pub status_2xx : ℕ
  pub status_3xx : ℕ
  pub status_4xx : ℕ
  pub status_5xx : ℕ

pub record ErrorKey : Type 0 where
  pub usage : UsageKey
  pub error_bucket : Text

pub record X402Key : Type 0 where
  pub usage : UsageKey
  pub provider : Text

pub record X402Columns : Type 0 where
  pub intents_created : ℕ
  pub verified_count : ℕ
  pub failed_count : ℕ
  pub expired_count : ℕ
  pub unpaid_count : ℕ
  pub revenue_cents : ℕ

pub record X402ErrorKey : Type 0 where
  pub usage : UsageKey
  pub provider : Text
  pub error_bucket : Text

pub record Db : Type 0 where
  pub virtual_keys : List VirtualKeyRow
  pub partners : List PartnerRow
  pub upstream_credentials : List StoredCredential
  pub policies : List PolicyRow
  pub payment_intents : List PaymentIntent
  pub customers : List ℕ
  pub usage_events : List (Stamped UsageEvent)
  pub x402_events : List (Stamped X402Event)
  pub usage_rollup_daily : List (UsageKey × UsageColumns)
  pub error_rollup_daily : List (ErrorKey × ℕ)
  pub x402_rollup_daily : List (X402Key × X402Columns)
  pub x402_error_rollup_daily : List (X402ErrorKey × ℕ)
