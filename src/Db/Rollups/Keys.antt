-- ===== src/Db/Rollups/Keys.antt =====
-- The primary keys of the rollup tables (migrations/0010, 0012 and 0013), and their equality.
use relaykey_backend.Base.{Bool, true, ◌&&◌, ◌≡◌, ◌↔◌, ◌==◌, arith}
use relaykey_backend.Text.{text_eq}
use relaykey_backend.Text.Laws.{text_eq_iff}
use relaykey_backend.Db.{UsageKey, ErrorKey, X402Key, X402ErrorKey}
use relaykey_backend.Db.Grouping.{KeyEq}

unfoldable pub usage_same : UsageKey → UsageKey → Bool
usage_same a b =
    (a.day == b.day && a.customer_id == b.customer_id)
    && (a.virtual_key_id == b.virtual_key_id && text_eq a.partner_name b.partner_name)

usage-ext :
    (a b : UsageKey)
    → a.day ≡ b.day
    → a.customer_id ≡ b.customer_id
    → a.virtual_key_id ≡ b.virtual_key_id
    → a.partner_name ≡ b.partner_name
    → a ≡ b
usage-ext a b p q r s =
    λ i. record { day = p i; customer_id = q i; virtual_key_id = r i; partner_name = s i }

pub usage_same_iff : (a b : UsageKey) → (usage_same a b ≡ true) ↔ (a ≡ b)
unfolding usage_same
usage_same_iff a b = ground (arith, text_eq_iff a.partner_name b.partner_name, usage-ext a b)

instance abbrev pub usage_key : KeyEq UsageKey
usage_key = record { same = usage_same; same_iff = usage_same_iff }

unfoldable pub error_same : ErrorKey → ErrorKey → Bool
error_same a b = usage_same a.usage b.usage && text_eq a.error_bucket b.error_bucket

error-ext : (a b : ErrorKey) → a.usage ≡ b.usage → a.error_bucket ≡ b.error_bucket → a ≡ b
error-ext a b p q = λ i. record { usage = p i; error_bucket = q i }

pub error_same_iff : (a b : ErrorKey) → (error_same a b ≡ true) ↔ (a ≡ b)
unfolding error_same
error_same_iff a b = ground (
  arith,
  usage_same_iff a.usage b.usage,
  text_eq_iff a.error_bucket b.error_bucket,
  error-ext a b,
)

instance abbrev pub error_key : KeyEq ErrorKey
error_key = record { same = error_same; same_iff = error_same_iff }

unfoldable pub x402_same : X402Key → X402Key → Bool
x402_same a b = usage_same a.usage b.usage && text_eq a.provider b.provider

x402-ext : (a b : X402Key) → a.usage ≡ b.usage → a.provider ≡ b.provider → a ≡ b
x402-ext a b p q = λ i. record { usage = p i; provider = q i }

pub x402_same_iff : (a b : X402Key) → (x402_same a b ≡ true) ↔ (a ≡ b)
unfolding x402_same
x402_same_iff a b =
    ground (arith, usage_same_iff a.usage b.usage, text_eq_iff a.provider b.provider, x402-ext a b)

instance abbrev pub x402_key : KeyEq X402Key
x402_key = record { same = x402_same; same_iff = x402_same_iff }

unfoldable pub x402_error_same : X402ErrorKey → X402ErrorKey → Bool
x402_error_same a b =
    usage_same a.usage b.usage
    && (text_eq a.provider b.provider && text_eq a.error_bucket b.error_bucket)

x402_error-ext :
    (a b : X402ErrorKey)
    → a.usage ≡ b.usage
    → a.provider ≡ b.provider
    → a.error_bucket ≡ b.error_bucket
    → a ≡ b
x402_error-ext a b p q r = λ i. record { usage = p i; provider = q i; error_bucket = r i }

pub x402_error_same_iff : (a b : X402ErrorKey) → (x402_error_same a b ≡ true) ↔ (a ≡ b)
unfolding x402_error_same
x402_error_same_iff a b = ground (
  arith,
  usage_same_iff a.usage b.usage,
  text_eq_iff a.provider b.provider,
  text_eq_iff a.error_bucket b.error_bucket,
  x402_error-ext a b,
)

instance abbrev pub x402_error_key : KeyEq X402ErrorKey
x402_error_key = record { same = x402_error_same; same_iff = x402_error_same_iff }
