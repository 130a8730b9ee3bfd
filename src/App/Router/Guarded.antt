-- ===== src/App/Router/Guarded.antt =====
-- What a request may do to the tables and upstream, over all routes.
use relaykey_backend.Base.{
  ◌≡◌, ◌≢◌, refl, subst, ◌⊎◌, inl, inr, List, Option, none, some, Option-cases,
}
use relaykey_backend.Text.{text}
use relaykey_backend.Http.{Response}
use relaykey_backend.Context.{Request, Outcome, reply, go}
use relaykey_backend.Policies.Cache.{Codec}
use relaykey_backend.Auth.{AuthState, admin_token, require_admin, require_virtual_key}
use relaykey_backend.Auth.Gate.{Authenticated, Untouched, require_virtual_key-Authenticated}
use relaykey_backend.Auth.Untouched.{require_virtual_key-Untouched}
use relaykey_backend.Db.Keys.{first}
use relaykey_backend.Limits.{Scripts}
use relaykey_backend.World.{Outside, World}
use relaykey_backend.X402.Checks.{Crates}
use relaykey_backend.Proxy.Steps.{Urls}
use relaykey_backend.App.{protected}
use relaykey_backend.App.Serve.{serve}
use relaykey_backend.App.Serve.Upstreams.{Forwarded, serve-Answered}
use relaykey_backend.App.Router.{
  Verb, PublicHandler, health_probe, ready_probe, metrics_text, AdminHandler, create_key, list_keys,
  usage, errors, Service, open_to_all, proxied, guarded, routes, Axum, Handling, HandlerReply,
  response, unanswered, answered, outcome_of, with_extracted, handler_for, public_answer,
  admin_answer, on_method, on_service, app,
}
use relaykey_backend.App.Router.Ends.{
  Ends, with_extracted-Ends, require_admin_passes, admin_usage-sent, admin_errors-sent,
  create_virtual_key-sent, list_keys-sent, ready-Untouched,
}

module _ {S U : Type 0} (o : Outside S) (codec : Codec) (state : AuthState) (redis : Scripts S)
    (crates : Crates) (urls : Urls U) (axum : Axum) (with : Handling S) where
  -- The request is authenticated by its virtual key, and what has been sent is what the route of the
  -- proxy sends.
  pub record ByKey (req : Request) (w v : World S) : Type 0 where
    pub passed : Request
    pub authenticated : Authenticated o codec state req passed w
    pub sent :
        (v.sent ≡ w.sent)
        ⊎ Forwarded o codec state redis crates axum.missing_extension urls axum.path_of req w v.sent

  -- The request shows the admin token, and nothing has been sent.
  abbrev pub ByToken : Request → World S → World S → Type 0
  ByToken req w v =
      (crates.env (text "ADMIN_TOKEN") ≡ some (admin_token state req)) × (v.sent ≡ w.sent)

  -- There is an answer, and without a key or the token the tables are as they were, and nothing has
  -- been sent.
  pub record Guarded (req : Request) (w : World S) (m : HandlerReply × World S) : Type 0 where
    pub ends : m.0 ≢ unanswered
    pub access : Untouched o codec state w m.1 ⊎ (ByKey req w m.1 ⊎ ByToken req w m.1)

  refused :
      (req : Request) (w v : World S) (r : Response)
      → Untouched o codec state w v
      → Guarded req w (response r, v)
  refused req w v r h = record { ends = λ e. cc; access = inl h }

  admin_answer-Ends :
      (h : AdminHandler) (req : Request) (w : World S)
      → Ends w.sent (admin_answer o codec state redis crates urls axum with h req w)
  unfolding admin_answer
  admin_answer-Ends create_key req w =
      with_extracted-Ends (axum.json_of req) _ w
        (λ body. (λ e. cc, create_virtual_key-sent o state with.new_v4 with.violation body w))
  admin_answer-Ends list_keys req w = (λ e. cc, list_keys-sent o with.time_text w)
  admin_answer-Ends usage req w =
      with_extracted-Ends (axum.query_of req) _ w
        (λ q. (λ e. cc, admin_usage-sent o with.date_text with.parse_from_str with.collate q w))
  admin_answer-Ends errors req w =
      with_extracted-Ends (axum.query_of req) _ w
        (λ q. (λ e. cc, admin_errors-sent o with.date_text with.parse_from_str q w))

  public-Guarded :
      (req : Request) (found : Option (Verb × PublicHandler)) (w : World S)
      → Guarded req w (
          on_method o codec state redis crates urls axum with found
            (public_answer o codec state redis crates urls axum with)
            w)
  unfolding on_method public_answer
  public-Guarded req none w = refused req w w _ (refl, refl)
  public-Guarded req (some (v, health_probe)) w = record {
    ends = λ e. cc;
    access = inl (refl, refl);
  }
  public-Guarded req (some (v, ready_probe)) w = record {
    ends = λ e. cc;
    access = inl (ready-Untouched o with.connect with.ping w);
  }
  public-Guarded req (some (v, metrics_text)) w = record {
    ends = λ e. cc;
    access = inl (refl, refl);
  }

  admin-Guarded :
      (req passed : Request) (found : Option (Verb × AdminHandler)) (w : World S)
      → crates.env (text "ADMIN_TOKEN") ≡ some (admin_token state req)
      → Guarded req w (
          on_method o codec state redis crates urls axum with found
            (λ h. admin_answer o codec state redis crates urls axum with h passed)
            w)
  unfolding on_method
  admin-Guarded req passed none w h = refused req w w _ (refl, refl)
  admin-Guarded req passed (some (v, handler)) w h =
      let (ends, quiet) = admin_answer-Ends handler passed w in
      record { ends = ends; access = inr (inr (h, quiet)) }

  admitted-Guarded :
      (req : Request) (handlers : List (Verb × AdminHandler)) (found : Outcome Request)
      (w : World S)
      → require_admin crates.env state req ≡ found
      → Guarded req w (
          with_extracted found
            (λ passed.
              on_method o codec state redis crates urls axum with
                (handler_for axum passed.method handlers)
                (λ h. admin_answer o codec state redis crates urls axum with h passed))
            w)
  unfolding with_extracted
  admitted-Guarded req handlers (reply r) w e = refused req w w r (refl, refl)
  admitted-Guarded req handlers (go passed) w e =
      admin-Guarded req passed _ w (require_admin_passes crates.env state req passed e)

  serve_refused :
      (req : Request) (w v : World S) (r : Response)
      → require_virtual_key o codec state req w ≡ (reply r, v)
      → serve o codec state redis crates axum.missing_extension urls axum.path_of req w
        ≡ (reply r, v)
  unfolding serve protected
  serve_refused req w v r e = rw (e, protected, serve) refl

  -- Whether authentication lets the request go on.
  keyed :
      (req : Request) (w : World S) (m : Outcome Request × World S)
      → require_virtual_key o codec state req w ≡ m
      → let v =
          (serve o codec state redis crates axum.missing_extension urls axum.path_of req w).1 in
        Untouched o codec state w v ⊎ ByKey req w v
  keyed req w (reply r, v) e = inl (
      rw (serve_refused req w v r e) (
        subst (λ (m : Outcome Request × World S). Untouched o codec state w m.1) e
          (require_virtual_key-Untouched o codec state req w).left))
  keyed req w (go passed, v) e = inr (record {
    passed = passed;
    authenticated = (require_virtual_key-Authenticated o codec state req passed w v e).0;
    sent =
        (serve-Answered o codec state redis crates axum.missing_extension urls axum.path_of req
          w).sent;
  })

  proxied-Guarded :
      (req : Request) (w : World S)
      → Guarded req w (
          answered outcome_of
            (serve o codec state redis crates axum.missing_extension urls axum.path_of req w))
  unfolding outcome_of
  proxied-Guarded req w =
      let a =
        serve-Answered o codec state redis crates axum.missing_extension urls axum.path_of req w in
      record {
        ends = rw a.replies (λ e. cc);
        access = elim (keyed req w (require_virtual_key o codec state req w) refl) [
          | inl h ↦ inl h
          | inr h ↦ inr (inl h)
        ];
      }

  on_service-Guarded :
      (req : Request) (service : Service) (w : World S)
      → Guarded req w (on_service o codec state redis crates urls axum with service req w)
  unfolding on_service
  on_service-Guarded req (open_to_all handlers) w = public-Guarded req _ w
  on_service-Guarded req proxied w = proxied-Guarded req w
  on_service-Guarded req (guarded handlers) w = admitted-Guarded req handlers _ w refl

  -- Every request to the router is answered, whatever its path, its method and its headers are, and
  -- however axum compares them. The tables are as they were and nothing has been sent, or its key
  -- is that of an enabled row and what has been sent, if anything, is what the route of the proxy
  -- sends for a request that passed its layers, or it shows the configured admin token and nothing
  -- has been sent.
  pub app-Guarded :
      (req : Request) (w : World S)
      → Guarded req w (app o codec state redis crates urls axum with req w)
  unfolding app
  app-Guarded req w = elim (Option-cases (first (λ r. axum.fits r.pattern req.path) routes)) [
    | inl e ↦ rw (e, app) (refused req w w axum.not_found (refl, refl))
    | inr (r, e) ↦ rw (e, app) (on_service-Guarded req r.service w)
  ]
