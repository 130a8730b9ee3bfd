-- ===== src/X402/Provider.antt =====
-- crates/relaykey_app/src/x402/{provider,noop,stub,registry}.rs
pub mod Registered
use relaykey_backend.Base.{
  Bool, true, false, ◌||◌, List, [], ◌∷◌, ◌++◌, Option, none, some, if◌then◌else◌, map,
}
use relaykey_backend.Text.{Text, text, text_eq}
use relaykey_backend.World.{Result, ok, err}

pub record VerifyInput : Type 0 where
  pub payment_id : Option Text
  pub payment_token : Option Text
  pub amount : Text
  pub currency : Text
  pub recipient : Text
  pub facilitator_url : Text

pub record VerifyOutput : Type 0 where
  pub verified : Bool
  pub reason : Option Text

-- The trait `PaymentProvider`: a provider may act on what is outside.
pub record PaymentProvider (S : Type 0) : Type 0 where
  pub name : Text
  pub verify : VerifyInput → S → Result VerifyOutput × S

unfoldable pub is_some {ℓ} : {A : Type ℓ} → Option A → Bool
is_some none = false
is_some (some _) = true

module _ {S : Type 0} where
  unfoldable pub noop_verify : VerifyInput → S → Result VerifyOutput × S
  unfolding is_some
  noop_verify input s =
      let paid = is_some input.payment_id || is_some input.payment_token in
      (
        ok (record {
          verified = paid;
          reason = if paid then none else some (text "missing payment proof");
        }),
        s,
      )

  unfoldable pub noop_provider : PaymentProvider S
  unfolding noop_verify
  noop_provider = record { name = text "noop"; verify = noop_verify }

  unfoldable pub stub_verify : VerifyInput → S → Result VerifyOutput × S
  stub_verify input s = (
    ok (record { verified = false; reason = some (text "stub provider does not verify payments") }),
    s,
  )

  unfoldable pub stub_provider : PaymentProvider S
  unfolding stub_verify
  stub_provider = record { name = text "stub"; verify = stub_verify }

-- `ProviderRegistry`: the map of providers, by name.
abbrev pub Registry : Type 0 → Type 0
Registry S = List (Text × PaymentProvider S)

module _ {S : Type 0} where
  abbrev pub new : Registry S
  new = []

  -- `HashMap::insert` replaces the entry of a name that is there.
  unfoldable pub register : Registry S → Text → PaymentProvider S → Registry S
  register [] name provider = (name, provider) ∷ []
  register ((n, p) ∷ rest) name provider =
      if text_eq n name then (n, provider) ∷ rest else (n, p) ∷ register rest name provider

  unfoldable pub get : Registry S → Text → Option (PaymentProvider S)
  get [] name = none
  get ((n, p) ∷ rest) name = if text_eq n name then some p else get rest name

  unfoldable pub names : Registry S → List Text
  names registry = map (λ (e : Text × PaymentProvider S). e.0) registry

  unfoldable pub require : Registry S → Text → Result (PaymentProvider S)
  unfolding get
  require registry name = elim (get registry name) [
    | some p ↦ ok p
    | none ↦ err (text "provider not registered: " ++ name)
  ]
