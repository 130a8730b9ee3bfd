-- ===== src/X402/Config.antt =====
-- crates/relaykey_app/src/x402/config.rs. The environment is the function `env`, and
-- `serde_json::from_str` the function `from_str`, which gives the parsed map as a lookup.
pub mod Precedence
use relaykey_backend.Base.{
  ℕ, Bool, true, false, not, ◌&&◌, ◌||◌, List, [], ◌∷◌, Option, none, some, if◌then◌else◌, any,
}
use relaykey_backend.Text.{Text, text, text_eq, starts_with}
use relaykey_backend.Retry.{unwrap_or}

pub record X402Config : Type 0 where
  pub enabled : Bool
  pub amount : Text
  pub currency : Text
  pub facilitator_url : Text
  pub recipient : Text
  pub provider : Text
  pub is_free : Bool
  pub is_internal : Bool
  pub requires_payment : Bool
  pub path_prefixes : List Text

pub record PartialX402Config : Type 0 where
  pub enabled : Option Bool
  pub amount : Option Text
  pub currency : Option Text
  pub facilitator_url : Option Text
  pub recipient : Option Text
  pub provider : Option Text
  pub is_free : Option Bool
  pub is_internal : Option Bool
  pub requires_payment : Option Bool
  pub path_prefixes : Option (List Text)

abbrev pub OverrideMap : Type 0
OverrideMap = Text → Option PartialX402Config

unfoldable pub is_nil {ℓ} : {A : Type ℓ} → List A → Bool
is_nil [] = true
is_nil (_ ∷ _) = false

unfoldable pub matches_path_prefix : Text → List Text → Bool
matches_path_prefix path prefixes = any (λ p. starts_with p path) prefixes

unfoldable pub merge_config : X402Config → PartialX402Config → X402Config
unfolding unwrap_or
merge_config base override_cfg = record {
  enabled = unwrap_or override_cfg.enabled base.enabled;
  amount = unwrap_or override_cfg.amount base.amount;
  currency = unwrap_or override_cfg.currency base.currency;
  facilitator_url = unwrap_or override_cfg.facilitator_url base.facilitator_url;
  recipient = unwrap_or override_cfg.recipient base.recipient;
  provider = unwrap_or override_cfg.provider base.provider;
  is_free = unwrap_or override_cfg.is_free base.is_free;
  is_internal = unwrap_or override_cfg.is_internal base.is_internal;
  requires_payment = unwrap_or override_cfg.requires_payment base.requires_payment;
  path_prefixes = unwrap_or override_cfg.path_prefixes base.path_prefixes;
}

unfoldable pub finalize_config : X402Config → Text → Option X402Config
unfolding is_nil
finalize_config cfg path =
    if not cfg.enabled
    then none
    else if cfg.is_internal
    then none
    else if cfg.is_free
    then none
    else if not cfg.requires_payment
    then none
    else if not (is_nil cfg.path_prefixes) && not (matches_path_prefix path cfg.path_prefixes)
    then none
    else some cfg

unfoldable pub is_true : Text → Bool
is_true v =
    text_eq v (text "1")
    || text_eq v (text "true")
    || text_eq v (text "TRUE")
    || text_eq v (text "yes")
    || text_eq v (text "YES")

infixl 5 ◌>>=◌
abbrev ◌>>=◌ : {A B : Type 0} → Option A → (A → Option B) → Option B
none >>= k = none
some a >>= k = k a

-- One layer of overrides: the entry at the key, merged over what is resolved so far.
unfoldable pub overlay : Option OverrideMap → Text → X402Config → X402Config
overlay none key resolved = resolved
overlay (some map) key resolved = elim (map key) [
  | some cfg ↦ merge_config resolved cfg
  | none ↦ resolved
]

module _ (env : Text → Option Text) (from_str : Text → Option OverrideMap) where
  unfoldable pub env_bool : Text → Bool
  env_bool name = elim (env name) [ some v ↦ is_true v | none ↦ false ]

  unfoldable pub parse_override_map : Text → Option OverrideMap
  parse_override_map env_name = do raw ← env env_name; from_str raw

  unfoldable pub global_default : Option X402Config
  unfolding env_bool unwrap_or
  global_default = if not (env_bool (text "X402_ENABLED")) then none else do
    amount ← env (text "X402_AMOUNT")
    currency ← env (text "X402_CURRENCY")
    facilitator_url ← env (text "X402_FACILITATOR_URL")
    recipient ← env (text "X402_RECIPIENT")
    some (record {
      enabled = true;
      amount = amount;
      currency = currency;
      facilitator_url = facilitator_url;
      recipient = recipient;
      provider = unwrap_or (env (text "X402_PROVIDER")) (text "noop");
      is_free = false;
      is_internal = false;
      requires_payment = true;
      path_prefixes = [];
    })

  unfoldable pub resolve_x402_config : Text → Text → Text → Text → Option X402Config
  resolve_x402_config customer_key vk_key partner_name path = do
    base ← global_default
    let over_partner =
        overlay (parse_override_map (text "X402_PARTNER_OVERRIDES")) partner_name base
    let over_customer =
        overlay (parse_override_map (text "X402_CUSTOMER_OVERRIDES")) customer_key over_partner
    let resolved =
        overlay (parse_override_map (text "X402_VIRTUAL_KEY_OVERRIDES")) vk_key over_customer
    finalize_config resolved path
