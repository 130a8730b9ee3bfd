-- ===== src/X402/Config/Precedence.antt =====
-- Which setting counts, and when a request must be paid for.
use relaykey_backend.Base.{
  ◌≡◌, refl, ap, ◌∙◌, ◌↔◌, ◌⊎◌, inl, inr, true, false, List, [], ◌∷◌, Option, none, some, arith,
  Option-cases,
}
use relaykey_backend.Text.{Text, text}
use relaykey_backend.Retry.{unwrap_or}
use relaykey_backend.X402.Config.{
  X402Config, PartialX402Config, OverrideMap, is_nil, matches_path_prefix, merge_config,
  finalize_config, overlay, parse_override_map, global_default, resolve_x402_config,
}

-- The entry of a map of overrides at a key, if there is a map and it has one.
abbrev pub entry : Option OverrideMap → Text → Option PartialX402Config
entry none key = none
entry (some map) key = map key

-- The first layer that sets a field decides it; otherwise the global default stands.
abbrev pub pick :
    {A : Type 0} → (PartialX402Config → Option A) → List (Option PartialX402Config) → A → A
pick field [] default = default
pick field (none ∷ layers) default = pick field layers default
pick field (some cfg ∷ layers) default = unwrap_or (field cfg) (pick field layers default)

-- All ten fields, each picked for itself.
abbrev pub picked : List (Option PartialX402Config) → X402Config → X402Config
picked layers base = record {
  enabled = pick (λ c. c.enabled) layers base.enabled;
  amount = pick (λ c. c.amount) layers base.amount;
  currency = pick (λ c. c.currency) layers base.currency;
  facilitator_url = pick (λ c. c.facilitator_url) layers base.facilitator_url;
  recipient = pick (λ c. c.recipient) layers base.recipient;
  provider = pick (λ c. c.provider) layers base.provider;
  is_free = pick (λ c. c.is_free) layers base.is_free;
  is_internal = pick (λ c. c.is_internal) layers base.is_internal;
  requires_payment = pick (λ c. c.requires_payment) layers base.requires_payment;
  path_prefixes = pick (λ c. c.path_prefixes) layers base.path_prefixes;
}

merge_picked :
    (cfg : PartialX402Config) (layers : List (Option PartialX402Config)) (base : X402Config)
    → merge_config (picked layers base) cfg ≡ picked (some cfg ∷ layers) base
unfolding merge_config
merge_picked cfg layers base = refl

overlay-picked :
    (map : Option OverrideMap) (key : Text) (layers : List (Option PartialX402Config))
    (base : X402Config)
    → overlay map key (picked layers base) ≡ picked (entry map key ∷ layers) base
unfolding overlay
overlay-picked none key layers base = refl
overlay-picked (some map) key layers base = elim (Option-cases (map key)) [
  | inl e ↦ rw (e, overlay)
  | inr (cfg, e) ↦ rw (e, overlay) (merge_picked cfg layers base)
]

module _ (env : Text → Option Text) (from_str : Text → Option OverrideMap) where
  abbrev pub layers_of : Text → Text → Text → List (Option PartialX402Config)
  layers_of customer_key vk_key partner_name =
      entry (parse_override_map env from_str (text "X402_VIRTUAL_KEY_OVERRIDES")) vk_key
      ∷ entry (parse_override_map env from_str (text "X402_CUSTOMER_OVERRIDES")) customer_key
      ∷ entry (parse_override_map env from_str (text "X402_PARTNER_OVERRIDES")) partner_name
      ∷ []

  three_layers :
      (m1 m2 m3 : Option OverrideMap) (k1 k2 k3 : Text) (base : X402Config)
      → overlay m3 k3 (overlay m2 k2 (overlay m1 k1 base))
        ≡ picked (entry m3 k3 ∷ entry m2 k2 ∷ entry m1 k1 ∷ []) base
  three_layers m1 m2 m3 k1 k2 k3 base =
      ap (overlay m3 k3) (
        ap (overlay m2 k2) (overlay-picked m1 k1 [] base)
        ∙ overlay-picked m2 k2 (entry m1 k1 ∷ []) base)
      ∙ overlay-picked m3 k3 (entry m2 k2 ∷ entry m1 k1 ∷ []) base

  -- No global default: x402 is off. A global default: the three layers over it, finalized.
  abbrev pub resolution : Option X402Config → Text → Text → Text → Text → Option X402Config
  resolution none customer_key vk_key partner_name path = none
  resolution (some base) customer_key vk_key partner_name path =
      finalize_config (picked (layers_of customer_key vk_key partner_name) base) path

  -- Without a global default x402 is off; with one, every field is decided by the virtual key's
  -- override, else the customer's, else the partner's, else the default, and the result is finalized.
  pub resolve_precedence :
      (customer_key vk_key partner_name path : Text)
      → resolve_x402_config env from_str customer_key vk_key partner_name path
        ≡ resolution (global_default env from_str) customer_key vk_key partner_name path
  unfolding resolve_x402_config
  resolve_precedence customer_key vk_key partner_name path =
      elim (Option-cases (global_default env from_str)) [
        | inl off ↦ rw (off, resolve_x402_config) refl
        | inr (base, e) ↦
            rw (e, resolve_x402_config)
              (ap (λ (c : X402Config). finalize_config c path)
                (three_layers _ _ _ partner_name customer_key vk_key base))
      ]

-- A request must be paid for exactly when the configuration is enabled, not internal, not free,
-- requires payment, and lists no path prefixes or one that the path starts with.
finalize_config_iff :
    (cfg : X402Config) (path : Text) (c : X402Config)
    → (finalize_config cfg path ≡ some c) ↔ (
        (c ≡ cfg)
        × (cfg.enabled ≡ true)
        × (cfg.is_internal ≡ false)
        × (cfg.is_free ≡ false)
        × (cfg.requires_payment ≡ true)
        × ((cfg.path_prefixes ≡ []) ⊎ (matches_path_prefix path cfg.path_prefixes ≡ true)))
unfolding finalize_config is_nil
finalize_config_iff cfg path c = ground arith
