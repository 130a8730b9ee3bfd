-- ===== src/App/Serve.antt =====
-- crates/relaykey_app/src/app.rs: the route of the proxy, from the outermost layer to its handler.
pub mod Quiet
pub mod Upstreams
pub mod Metering
pub mod Ledger
use relaykey_backend.Base.{Option, none, some}
use relaykey_backend.Text.{Text}
use relaykey_backend.Http.{Response}
use relaykey_backend.Context.{VirtualKeyCtx, Request, Outcome}
use relaykey_backend.Policies.{PolicyRow}
use relaykey_backend.Policies.Cache.{Codec}
use relaykey_backend.Auth.{AuthState}
use relaykey_backend.Limits.{Scripts}
use relaykey_backend.World.{Outside, World, Exec, ◌>>=◌, return, stop}
use relaykey_backend.X402.Checks.{Crates}
use relaykey_backend.Proxy.Steps.{Urls}
use relaykey_backend.Proxy.Handler.{handler}
use relaykey_backend.App.{extension_vk, protected}

-- `path_of` is axum's extraction of `:partner`, `*tail` and the body, which may refuse the request.
module _ {S U : Type 0} (o : Outside S) (codec : Codec) (state : AuthState) (redis : Scripts S)
    (crates : Crates) (missing_extension : Response) (urls : Urls U)
    (path_of : Request → Outcome (Text × Text)) where
  -- `Extension(policy): Extension<PolicyRow>`
  unfoldable pub extension_policy : Option PolicyRow → Exec S PolicyRow
  extension_policy none = stop missing_extension
  extension_policy (some policy) = return policy

  unfoldable pub extract_path : Request → Exec S (Text × Text)
  extract_path req w = (path_of req, w)

  -- The handler, on what its extractors take from the request.
  unfoldable pub extracted : Request → Exec S (Unit {0})
  extracted req = do
    vk ← extension_vk o codec state redis crates missing_extension req.vk
    policy ← extension_policy req.policy
    path ← extract_path req
    handler o urls vk policy path.0 path.1 req

  unfoldable pub serve : Request → Exec S (Unit {0})
  serve req = do
    passed ← protected o codec state redis crates missing_extension req
    extracted passed
