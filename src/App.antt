-- ===== src/App.antt =====
-- crates/relaykey_app/src/app.rs: the middlewares in front of the proxy handler, in the order in
-- which the router's layers run.
pub mod Gate
pub mod Serve
pub mod Settings
pub mod RollupJob
pub mod Start
pub mod Seed
pub mod Health
pub mod Router
use relaykey_backend.Base.{Option, none, some}
use relaykey_backend.Text.{text}
use relaykey_backend.Http.{Response}
use relaykey_backend.Context.{VirtualKeyCtx, Request, Outcome}
use relaykey_backend.Policies.Allowlist.{enforce_allowlist}
use relaykey_backend.Policies.Cache.{Codec}
use relaykey_backend.Auth.{AuthState, require_virtual_key}
use relaykey_backend.Limits.{Scripts}
use relaykey_backend.Limits.Middleware.{enforce_limits}
use relaykey_backend.World.{Outside, World, Exec, ◌>>=◌, return, stop}
use relaykey_backend.X402.Provider.{Registry, new, register, noop_provider, stub_provider}
use relaykey_backend.X402.Checks.{Crates}
use relaykey_backend.X402.Enforce.{enforce_x402}

unfoldable pub provider_registry : {S : Type 0} → Registry S
provider_registry = register (register new (text "noop") noop_provider) (text "stub") stub_provider

module _ {S : Type 0} (o : Outside S) (codec : Codec) (state : AuthState) (redis : Scripts S)
    (crates : Crates) where
  -- The response of `axum::Extension` where the request has no such extension.
  module _ (missing_extension : Response) where
    -- `Extension(vk): Extension<VirtualKeyCtx>`
    unfoldable pub extension_vk : Option VirtualKeyCtx → Exec S VirtualKeyCtx
    extension_vk none = stop missing_extension
    extension_vk (some vk) = return vk

    unfoldable pub allowlist_layer : Request → Exec S Request
    allowlist_layer req w = (enforce_allowlist req, w)

    unfoldable pub x402_layer : Request → Exec S Request
    x402_layer req = do vk ← extension_vk req.vk; enforce_x402 o crates provider_registry vk req

    -- What a request to `/proxy/:partner/*tail` passes before `proxy::handler`.
    unfoldable pub protected : Request → Exec S Request
    protected req = do
      authenticated ← require_virtual_key o codec state req
      listed ← allowlist_layer authenticated
      within ← enforce_limits o redis listed
      x402_layer within
