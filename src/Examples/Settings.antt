-- ===== src/Examples/Settings.antt =====
-- The settings of x402 and the registry of providers, at examples.
use relaykey_backend.Base.{◌≡◌, refl, false, none}
use relaykey_backend.Text.{text, contains}
use relaykey_backend.Http.{get}
use relaykey_backend.X402.Config.{global_default, resolve_x402_config}
use relaykey_backend.X402.Config.Precedence.{resolution, resolve_precedence}
use relaykey_backend.X402.Hash.{method_text}
use relaykey_backend.X402.Hash.Injective.{compute_request_hash_injective}
use relaykey_backend.Examples.Data.{env}

resolve_precedence_example :
    resolve_x402_config env (λ _. none) (text "c") (text "k") (text "acme") (text "/proxy/acme/x")
    ≡ resolution env
        (λ _. none)
        (global_default env (λ _. none))
        (text "c")
        (text "k")
        (text "acme")
        (text "/proxy/acme/x")
resolve_precedence_example =
    resolve_precedence env (λ _. none) (text "c") (text "k") (text "acme") (text "/proxy/acme/x")

one_line : (contains 10 (method_text get) ≡ false) × (contains 10 (text "/a") ≡ false)
unfolding contains method_text text
one_line = (refl, refl)

compute_request_hash_injective_example :
    (method_text get ≡ method_text get) × (text "/a" ≡ text "/a") × (text "b" ≡ text "b")
compute_request_hash_injective_example =
    compute_request_hash_injective (λ s. s) get get (text "/a") (text "/a") (text "b") (text "b")
      (λ e. e) one_line.0 one_line.0 one_line.1 one_line.1 refl
