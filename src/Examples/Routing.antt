-- ===== src/Examples/Routing.antt =====
-- The router at example requests.
use relaykey_backend.Base.{
  ℕ, ◌+◌, ◌≡◌, refl, Bool, true, false, ◌||◌, ◌&&◌, [], ◌∷◌, none, some, if◌then◌else◌,
}
use relaykey_backend.Text.{Text, text, text_eq, starts_with}
use relaykey_backend.Http.{Method, respond, get_header}
use relaykey_backend.Context.{Request, reply, go}
use relaykey_backend.Retry.{unwrap_or}
use relaykey_backend.Auth.{require_admin, admin_token, readable_header}
use relaykey_backend.Db.Keys.{first}
use relaykey_backend.X402.Checks.{Crates}
use relaykey_backend.Admin.{refuse}
use relaykey_backend.Admin.Metrics.{with_days}
use relaykey_backend.Admin.Errors.{admin_errors}
use relaykey_backend.App.Health
use relaykey_backend.App.Router.{
  Verb, Axum, Handling, HandlerReply, response, probe, error_rows, routes, public_routes,
  protected_routes, admin_routes, handler_for, on_method, on_service, app, admin_answer,
  with_extracted, public_answer,
}
use relaykey_backend.App.Router.Guarded.{Guarded, app-Guarded}
use relaykey_backend.Examples.Data.{outside, request, crates, urls, world}
use relaykey_backend.Examples.Access.{codec, state}
use relaykey_backend.Examples.Limiting.{redis}

abbrev fits : Text → Text → Bool
fits pattern path =
    text_eq pattern path
    || (text_eq pattern (text "/proxy/:partner/*tail") && starts_with (text "/proxy/") path)

abbrev takes : Verb → Method → Bool
takes Verb.get Method.get = true
takes Verb.get Method.head = true
takes Verb.post Method.post = true
takes _ _ = false

abbrev axum : Axum
axum = record {
  fits = fits;
  takes = takes;
  not_found = respond 404 "";
  method_not_allowed = respond 405 "";
  missing_extension = respond 500 "missing extension";
  path_of = λ req. go (text "acme", text "v1/x");
  json_of = λ req. reply (respond 415 "");
  query_of = λ req. go (record {
    from = text "yesterday";
    to = text "today";
    customer_id = none;
    virtual_key_id = none;
    partner_name = none;
  });
}

abbrev handling : Handling ℕ
handling = record {
  parse_from_str = λ _. none;
  date_text = λ d. d ∷ [];
  time_text = λ t. t ∷ [];
  collate = λ _ _. false;
  new_v4 = λ s. (s ∷ [], s + 1);
  violation = text "duplicate key";
  connect = λ s. (none, s);
  ping = λ s. (none, s);
}

abbrev with_token : Crates
with_token = record crates {
  env = λ name. if text_eq name (text "ADMIN_TOKEN") then some (text "t0") else crates.env name;
}

abbrev ask : Text → Method → Text → Request
ask path method token = record (request method ((text "x-admin-token", token) ∷ [])) { path = path }

abbrev answer : Request → HandlerReply
answer req = (app outside codec state redis with_token urls axum handling req (world [])).0

app-Guarded_example :
    let req = ask (text "/admin/errors") Method.get (text "t0") in
    Guarded outside codec state redis with_token urls axum handling req
      (world [])
      (app outside codec state redis with_token urls axum handling req (world []))
app-Guarded_example =
    app-Guarded outside codec state redis with_token urls axum handling
      (ask (text "/admin/errors") Method.get (text "t0")) (world [])

health_answers : answer (ask (text "/health") Method.get []) ≡ probe (200, text "ok")
unfolding app routes public_routes protected_routes admin_routes first text text_eq on_service
    handler_for on_method public_answer Health.health
health_answers = refl

unknown_path : answer (ask (text "/admin") Method.get (text "t0")) ≡ response (respond 404 "")
unfolding app routes public_routes protected_routes admin_routes first text text_eq starts_with
unknown_path = refl

wrong_method : answer (ask (text "/health") Method.post []) ≡ response (respond 405 "")
unfolding app routes public_routes protected_routes admin_routes first text text_eq on_service
    handler_for on_method
wrong_method = refl

wrong_token :
    answer (ask (text "/admin/errors") Method.get (text "t1"))
    ≡ response (respond 401 "unauthorized")
unfolding app routes public_routes protected_routes admin_routes first text text_eq starts_with
    on_service require_admin admin_token readable_header get_header unwrap_or with_extracted
wrong_token = refl

right_token :
    answer (ask (text "/admin/errors") Method.get (text "t0"))
    ≡ error_rows (refuse (respond 400 "invalid from (expected YYYY-MM-DD)"))
unfolding app routes public_routes protected_routes admin_routes first text text_eq starts_with
    on_service require_admin admin_token readable_header get_header unwrap_or with_extracted
    handler_for on_method admin_answer admin_errors with_days
right_token = refl
