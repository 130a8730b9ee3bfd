-- ===== src/Retry.antt =====
-- crates/relaykey_app/src/retry/{policy,classify,partner}.rs, and the backoff of proxy.rs.
pub mod Backoff
pub mod Budget
use relaykey_backend.Base.{
  ℕ, ◌+◌, ◌-◌, ◌*◌, ◌%◌, ◌^◌, min, Bool, true, false, ◌||◌, Option, none, some, ltb, ◌==◌,
  if◌then◌else◌,
}
use relaykey_backend.Text.{Text}

pub record RetryPolicy : Type 0 where
  pub max_attempts : ℕ
  pub base_backoff_ms : ℕ
  pub max_backoff_ms : ℕ

-- `RetryPolicy::default()`
abbrev pub default_policy : RetryPolicy
default_policy = record { max_attempts = 2; base_backoff_ms = 50; max_backoff_ms = 300 }

pub data RetryClass : Type 0 where
  no_retry retryable : RetryClass

unfoldable pub classify_status : ℕ → RetryClass
classify_status status =
    if status == 408 || status == 500 || status == 502 || status == 503 || status == 504
    then retryable
    else if status == 429
    then retryable
    else no_retry

-- What the program asks of a `reqwest::Error`.
pub record ReqwestError : Type 0 where
  pub is_timeout : Bool
  pub is_connect : Bool

unfoldable pub classify_reqwest_error : ReqwestError → RetryClass
classify_reqwest_error e = if e.is_timeout || e.is_connect then retryable else no_retry

-- `class == RetryClass::Retryable`
unfoldable pub is_retryable : RetryClass → Bool
is_retryable retryable = true
is_retryable no_retry = false

pub record PartnerRetryProfile : Type 0 where
  pub retry_429 : Bool

-- `PartnerRetryProfile::default()`
abbrev pub default_profile : PartnerRetryProfile
default_profile = record { retry_429 = false }

unfoldable pub profile_for_partner : Text → PartnerRetryProfile
profile_for_partner partner_name = default_profile

unfoldable pub status_retry_allowed : PartnerRetryProfile → ℕ → Bool
status_retry_allowed profile status = if status == 429 then profile.retry_429 else true

abbrev pub u64_max : ℕ
u64_max = 0xFFFF_FFFF_FFFF_FFFF

-- `1u64.checked_shl(shift)`
unfoldable pub checked_shl_one : ℕ → Option ℕ
checked_shl_one shift = if ltb shift 64 then some (2 ^ shift) else none

unfoldable pub unwrap_or {ℓ} : {A : Type ℓ} → Option A → A → A
unwrap_or none d = d
unwrap_or (some a) d = a

-- `a.saturating_mul(b)` on u64
unfoldable pub saturating_mul : ℕ → ℕ → ℕ
saturating_mul a b = min (a * b) u64_max

unfoldable pub backoff_ms : ℕ → ℕ → ℕ → ℕ
backoff_ms attempt base cap =
    let shift = min (attempt - 1) 10 in
    let exp = unwrap_or (checked_shl_one shift) u64_max in min (saturating_mul base exp) cap

unfoldable pub cheap_jitter_ms : ℕ → ℕ
cheap_jitter_ms attempt = (attempt * 37 % 2 ^ 64) % 23
