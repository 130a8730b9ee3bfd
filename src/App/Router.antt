-- ===== src/App/Router.antt =====
-- crates/relaykey_app/src/app.rs, `build_router`: the table of routes, the layer in front of each, and
-- the handler behind it. How axum compares a path with a pattern and a method with `get` and `post`,
-- and what its extractors take from a request, are parameters; the body limit is theirs.
pub mod Ends
pub mod Guarded
use relaykey_backend.Base.{ℕ, Bool, List, [], ◌∷◌, ◌++◌, Option, none, some}
use relaykey_backend.Text.{Text, text}
use relaykey_backend.Http.{Method, Response}
use relaykey_backend.Context.{Request, Outcome, reply, go}
use relaykey_backend.Policies.Cache.{Codec}
use relaykey_backend.Auth.{AuthState, require_admin}
use relaykey_backend.Db.Keys.{first}
use relaykey_backend.Limits.{Scripts}
use relaykey_backend.World.{Outside, World, Act}
use relaykey_backend.X402.Checks.{Crates}
use relaykey_backend.Proxy.Steps.{Urls}
use relaykey_backend.Admin.{Answer}
use relaykey_backend.Admin.VirtualKeys.{
  CreateVirtualKeyRequest, CreateVirtualKeyResponse, VirtualKeyResponse, create_virtual_key,
  list_virtual_keys_handler,
}
use relaykey_backend.Admin.Metrics.{MetricsQuery}
use relaykey_backend.Admin.Usage.{UsageRollupJson, admin_usage}
use relaykey_backend.Admin.Errors.{ErrorRollupJson, admin_errors}
use relaykey_backend.App.Health
use relaykey_backend.App.Serve.{serve}

-- `get(…)` and `post(…)`
pub data Verb : Type 0 where
  get post : Verb

pub data PublicHandler : Type 0 where
  health_probe ready_probe metrics_text : PublicHandler

pub data AdminHandler : Type 0 where
  create_key list_keys usage errors : AdminHandler

-- What stands behind a route: handlers for some methods, in the open or behind `require_admin`, or
-- `any(proxy::handler)` behind its four layers.
pub data Service : Type 0 where
  open_to_all : List (Verb × PublicHandler) → Service
  proxied : Service
  guarded : List (Verb × AdminHandler) → Service

pub record Route : Type 0 where
  pub pattern : Text
  pub service : Service

unfoldable pub public_routes : List Route
public_routes =
    (record { pattern = text "/health"; service = open_to_all ((get, health_probe) ∷ []) })
    ∷ (record { pattern = text "/ready"; service = open_to_all ((get, ready_probe) ∷ []) })
    ∷ (record { pattern = text "/metrics"; service = open_to_all ((get, metrics_text) ∷ []) })
    ∷ []

unfoldable pub protected_routes : List Route
protected_routes = (record { pattern = text "/proxy/:partner/*tail"; service = proxied }) ∷ []

unfoldable pub admin_routes : List Route
admin_routes =
    (record {
      pattern = text "/admin/virtual-keys";
      service = guarded ((post, create_key) ∷ (get, list_keys) ∷ []);
    })
    ∷ (record { pattern = text "/admin/usage"; service = guarded ((get, usage) ∷ []) })
    ∷ (record { pattern = text "/admin/errors"; service = guarded ((get, errors) ∷ []) })
    ∷ []

-- `public.merge(protected).merge(admin)`
unfoldable pub routes : List Route
routes = public_routes ++ (protected_routes ++ admin_routes)

-- axum: the comparisons, the extractors, and its own answers.
pub record Axum : Type 0 where
  pub fits : (pattern path : Text) → Bool
  pub takes : Verb → Method → Bool
  pub not_found : Response
  pub method_not_allowed : Response
  pub missing_extension : Response
  pub path_of : Request → Outcome (Text × Text)
  pub json_of : Request → Outcome CreateVirtualKeyRequest
  pub query_of : Request → Outcome MetricsQuery

-- What the handlers use of other crates: chrono, uuid, sqlx, redis.
pub record Handling (S : Type 0) : Type 0 where
  pub parse_from_str : Text → Option ℕ
  pub date_text : ℕ → Text
  pub time_text : ℕ → Text
  pub collate : Text → Text → Bool
  pub new_v4 : S → Text × S
  pub violation : Text
  pub connect : S → Option Text × S
  pub ping : S → Option Text × S

-- A response of one of the handlers.
pub data HandlerReply : Type 0 where
  response : Response → HandlerReply
  probe : Health.Reply → HandlerReply
  key_created : Answer CreateVirtualKeyResponse → HandlerReply
  keys_listed : Answer (List VirtualKeyResponse) → HandlerReply
  usage_rows : Answer (List UsageRollupJson) → HandlerReply
  error_rows : Answer (List ErrorRollupJson) → HandlerReply
  -- The handler went on with nothing: no request ends so.
  unanswered : HandlerReply

abbrev pub answered : {S A : Type 0} → (A → HandlerReply) → A × World S → HandlerReply × World S
answered f (a, w) = (f a, w)

unfoldable pub outcome_of : Outcome (Unit {0}) → HandlerReply
outcome_of (reply r) = response r
outcome_of (go _) = unanswered

-- An extractor, and the handler on what it takes.
unfoldable pub with_extracted :
    {S A : Type 0} → Outcome A → (A → Act S HandlerReply) → Act S HandlerReply
with_extracted (reply r) f w = (response r, w)
with_extracted (go a) f w = f a w

-- The handler of the first verb that takes the method.
unfoldable pub handler_for : {H : Type 0} → Axum → Method → List (Verb × H) → Option (Verb × H)
handler_for axum method = first (λ h. axum.takes h.0 method)

module _ {S U : Type 0} (o : Outside S) (codec : Codec) (state : AuthState) (redis : Scripts S)
    (crates : Crates) (urls : Urls U) (axum : Axum) (with : Handling S) where
  unfoldable pub public_answer : PublicHandler → Act S HandlerReply
  public_answer health_probe w = (probe Health.health, w)
  public_answer ready_probe w = answered probe (Health.ready o with.connect with.ping w)
  public_answer metrics_text w = (probe Health.metrics, w)

  unfoldable pub admin_answer : AdminHandler → Request → Act S HandlerReply
  unfolding with_extracted
  admin_answer create_key req w =
      with_extracted (axum.json_of req)
        (λ body v.
          answered key_created (create_virtual_key o state with.new_v4 with.violation body v))
        w
  admin_answer list_keys req w = answered keys_listed (list_virtual_keys_handler o with.time_text w)
  admin_answer usage req w =
      with_extracted (axum.query_of req)
        (λ q v.
          answered usage_rows (admin_usage with.date_text o with.parse_from_str with.collate q v))
        w
  admin_answer errors req w =
      with_extracted (axum.query_of req)
        (λ q v. answered error_rows (admin_errors o with.parse_from_str with.date_text q v)) w

  -- The chosen handler, or 405.
  unfoldable pub on_method :
      {H : Type 0} → Option (Verb × H) → (H → Act S HandlerReply) → Act S HandlerReply
  on_method none f w = (response axum.method_not_allowed, w)
  on_method (some h) f w = f h.1 w

  -- `route_layer(from_fn(require_admin))` stands around all methods of its routes.
  unfoldable pub on_service : Service → Request → Act S HandlerReply
  unfolding on_method public_answer admin_answer with_extracted outcome_of
  on_service (open_to_all handlers) req w =
      on_method (handler_for axum req.method handlers) public_answer w
  on_service proxied req w =
      answered outcome_of
        (serve o codec state redis crates axum.missing_extension urls axum.path_of req w)
  on_service (guarded handlers) req w =
      with_extracted (require_admin crates.env state req)
        (λ passed. on_method (handler_for axum passed.method handlers) (λ h. admin_answer h passed))
        w

  -- `build_router`, as a service.
  unfoldable pub app : Request → Act S HandlerReply
  unfolding on_service
  app req = elim (first (λ r. axum.fits r.pattern req.path) routes) [
    | none ↦ λ w. (response axum.not_found, w)
    | some r ↦ on_service r.service req
  ]
