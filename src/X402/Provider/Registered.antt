-- ===== src/X402/Provider/Registered.antt =====
-- The registry of providers is a map.
use relaykey_backend.Base.{◌≡◌, refl, [], ◌∷◌, some, if◌then◌else◌, arith}
use relaykey_backend.Text.{Text, text_eq}
use relaykey_backend.Text.Laws.{text_eq_iff}
use relaykey_backend.X402.Provider.{PaymentProvider, Registry, register, get}

module _ {S : Type 0} where
  -- Looking a name up after a registration gives the provider just registered under that name, and
  -- for any other name what was there before.
  pub get-register :
      (registry : Registry S) (name : Text) (provider : PaymentProvider S) (asked : Text)
      → get (register registry name provider) asked
        ≡ (if text_eq name asked then some provider else get registry asked)
  unfolding get register
  get-register [] name provider asked = refl
  get-register ((n, p) ∷ rest) name provider asked = ground (
    arith,
    text_eq_iff n name,
    text_eq_iff n asked,
    text_eq_iff name asked,
    get-register rest name provider asked,
  )
