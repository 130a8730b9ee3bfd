-- ===== src/Examples/Proxying.antt =====
-- The proxy handler, its URL and header rules, and its retries, at example requests.
use relaykey_backend.Base.{
  ℕ, suc, ◌+◌, ◌-◌, ◌*◌, ◌≤◌, min, ◌≡◌, refl, ◌↔◌, ◌⊎◌, inr, true, not, [], ◌∷◌, ◌++◌, none, some,
  any, arith, if◌then◌else◌,
}
use relaykey_backend.Base.Int.{pos}
use relaykey_backend.Text.{Text, text, text_eq, starts_with, strip_suffix}
use relaykey_backend.Text.Laws.{text_eq_refl, text_eq_ne}
use relaykey_backend.Http.{get, get_header}
use relaykey_backend.World.{Outside, responded, elapsed}
use relaykey_backend.Retry.{default_policy, backoff_ms}
use relaykey_backend.Retry.Backoff.{backoff_ms_doubles}
use relaykey_backend.Retry.Budget.{default_budgets, allow_retry_dual_budget}
use relaykey_backend.Retry.Budget.Counting.{
  IsCounting, IsUp, granted, granted_lem, is_spent, refused_iff_spent,
}
use relaykey_backend.Policies.Allowlist.{matches}
use relaykey_backend.Policies.Allowlist.Matching.{Matches, matches_iff}
use relaykey_backend.Proxy.Paths.{match_one, pieces_from, path_allowed}
use relaykey_backend.Proxy.Paths.Wildcard.{InOrder, pieces_from_iff}
use relaykey_backend.Proxy.Paths.Agreement.{match_one-eq-matches, matches-path_allowed}
use relaykey_backend.Proxy.Headers.{outgoing_headers, collect_headers}
use relaykey_backend.Proxy.Headers.Safety.{
  found_upstream, found_below, get_header-outgoing_headers, get_header-collect_headers,
}
use relaykey_backend.Proxy.Steps.{is_idempotent}
use relaykey_backend.Proxy.Steps.Sending.{build_request}
use relaykey_backend.Proxy.Handler.{attempts, handler}
use relaykey_backend.Proxy.Handler.Loop.{Ends, retries, attempts_lem}
use relaykey_backend.Proxy.Handler.Unrecorded.{sent_unrecorded}
use relaykey_backend.Proxy.Handler.Sent.{Served, handler-Served}
use relaykey_backend.Examples.Data.{outside, urls, policy, vk, request, acme, world}

handler-Served_example :
    Served outside urls vk policy
      (text "acme")
      (text "v1/x")
      (request get [])
      (world [])
      (handler outside urls vk policy (text "acme") (text "v1/x") (request get []) (world []))
handler-Served_example =
    handler-Served outside urls vk policy (text "acme") (text "v1/x") (request get []) (world [])

-- An upstream that never answers in time.
abbrev dead : Outside ℕ
dead = record outside { send = λ _ _ s. (elapsed, s + 5) }

sent_unrecorded_example :
    let after =
      (handler dead urls vk policy (text "acme") (text "v1/x") (request get []) (world [])).1 in
    (after.sent ≡ []) ⊎ (after.db ≡ (world []).db)
sent_unrecorded_example =
    sent_unrecorded dead urls (λ _ _ _. tt) vk policy (text "acme") (text "v1/x") (request get [])
      (world [])

attempts_lem_example :
    Ends outside urls vk
      (request get [])
      0
      acme
      default_policy
      30_000
      (build_request outside urls
        (request get [])
        (text "https://api.acme.dev/v1/x")
        (text "x-api-key")
        (text "secret"))
      (suc (retries (is_idempotent get) 2 1))
      []
      (attempts outside urls vk
        (request get [])
        0
        acme
        default_policy
        30_000
        (build_request outside urls
          (request get [])
          (text "https://api.acme.dev/v1/x")
          (text "x-api-key")
          (text "secret"))
        2
        1
        (world []))
attempts_lem_example =
    attempts_lem outside urls vk (request get []) 0 acme default_policy 30_000
      (build_request outside urls (request get []) (text "https://api.acme.dev/v1/x")
        (text "x-api-key") (text "secret"))
      2 1 (world []) (omega arith) (omega arith)

get_header-outgoing_headers_example :
    get_header
      (text "cookie")
      (outgoing_headers ((text "cookie", text "a=b") ∷ []) (text "x-api-key") (text "secret"))
    ≡ found_upstream
        ((text "cookie", text "a=b") ∷ [])
        (text "x-api-key")
        (text "secret")
        (text "cookie")
get_header-outgoing_headers_example =
    get_header-outgoing_headers ((text "cookie", text "a=b") ∷ []) (text "x-api-key")
      (text "secret") (text "cookie")

get_header-collect_headers_example :
    get_header
      (text "vary")
      (collect_headers [] ((text "vary", text "a") ∷ (text "vary", text "b") ∷ []))
    ≡ found_below ((text "vary", text "a") ∷ (text "vary", text "b") ∷ []) (text "vary")
get_header-collect_headers_example =
    get_header-collect_headers ((text "vary", text "a") ∷ (text "vary", text "b") ∷ [])
      (text "vary")

pieces_from_iff_example :
    (pieces_from (text "/v1/" ∷ text "/x" ∷ []) (text "/v1/a/x") 0 ≡ true)
    ↔ InOrder (text "/v1/" ∷ text "/x" ∷ []) (text "/v1/a/x")
pieces_from_iff_example = pieces_from_iff (text "/v1/" ∷ text "/x" ∷ []) (text "/v1/a/x")

matches_iff_example :
    (matches (text "/v1/*") (text "/v1/a") ≡ true) ↔ Matches (text "/v1/*") (text "/v1/a")
matches_iff_example = matches_iff (text "/v1/*") (text "/v1/a")

rooted : starts_with (text "/") (text "/v1") ≡ true
unfolding starts_with text
rooted = refl

joined : text "/v1/*" ≡ text "/v1" ++ text "/*"
unfolding text
joined = refl

match_one-eq-matches_example :
    match_one (text "/v1/*") (text "/v1") ≡ matches (text "/v1/*") (text "/v1")
match_one-eq-matches_example =
    match_one-eq-matches (text "/v1/*") (text "/v1") (inr (text "/v1", joined)) rooted

accepted : any (λ pat. matches pat (text "/v1")) (text "/v2" ∷ text "/v1/*" ∷ []) ≡ true
unfolding matches strip_suffix text_eq starts_with text
accepted = refl

matches-path_allowed_example : path_allowed (text "/v2" ∷ text "/v1/*" ∷ []) (text "/v1") ≡ true
matches-path_allowed_example =
    matches-path_allowed (text "/v2" ∷ text "/v1/*" ∷ []) (text "/v1") rooted accepted

backoff_ms_doubles_example :
    (backoff_ms 1 100 800 ≡ min 100 800)
    × ((attempt : ℕ)
        → 1 ≤ attempt
        → attempt ≤ 10
        → backoff_ms (suc attempt) 100 800 ≡ min (2 * backoff_ms attempt 100 800) 800)
    × ((attempt : ℕ) → 11 ≤ attempt → backoff_ms (suc attempt) 100 800 ≡ backoff_ms attempt 100 800)
    × ((attempt : ℕ) → backoff_ms attempt 100 800 ≤ 800)
backoff_ms_doubles_example = backoff_ms_doubles 100 800 (omega arith)

-- A Redis of counters that do not expire.
abbrev redis : Outside (Text → ℕ)
redis = record {
  now = λ s. (0, s);
  sleep = λ _ s. s;
  db_fault = λ s. (none, s);
  db_now = λ _. 0;
  new_id = λ _. 0;
  connect = λ s. (true, s);
  get = λ _ s. (some none, s);
  set_ex = λ _ _ _ s. (true, s);
  incr = λ k s. (some (pos (s k + 1)), λ j. if text_eq j k then s j + 1 else s j);
  expire = λ _ _ s. (true, s);
  read_body = λ s. (true, s);
  send = λ _ _ s. (responded 200 [] [], s);
}

abbrev counter : Text → (Text → ℕ) → ℕ
counter k s = s k

counting : IsCounting redis counter
counting = record {
  incr_value = λ k s n e. cc;
  incr_self = λ k s n e. rw (text_eq_refl k) refl;
  incr_other = λ j k s h. rw (text_eq_ne j k h) refl;
  expire_keeps = λ j k ttl s. refl;
  connect_keeps = λ j s. refl;
}

answering : IsUp redis counter
answering = record {
  connects = λ s. refl;
  counts = λ k s. (pos (s k + 1), refl);
  expires = λ k ttl s. refl;
}

granted_lem_example :
    granted redis counter counting answering default_budgets (text "acme") (text "k") 100 (λ _. 20)
    ≡ min 100 (min (300 - 20) (60 - 20))
granted_lem_example =
    granted_lem redis counter counting answering default_budgets (text "acme") (text "k") 100
      (λ _. 20)

refused_iff_spent_example :
    let d = (allow_retry_dual_budget outside default_budgets (text "acme") (text "k") 0).0 in
    d.allowed ≡ not (is_spent d.partner_remaining d.vk_remaining)
refused_iff_spent_example = refused_iff_spent outside default_budgets (text "acme") (text "k") 0
