-- ===== src/App/Router/Ends.antt =====
-- The handlers of the probes and of the admin send nothing upstream.
use relaykey_backend.Base.{
  ℕ, Bool, ◌≡◌, ◌≢◌, refl, inl, inr, List, Option, some, arith, Option-cases,
}
use relaykey_backend.Text.{Text, text}
use relaykey_backend.Text.Laws.{text_eq_iff}
use relaykey_backend.Context.{Request, Outcome, reply, go}
use relaykey_backend.Auth.{AuthState, admin_token, require_admin}
use relaykey_backend.Db.Keys.Insert.{insert_virtual_key, list_virtual_keys}
use relaykey_backend.World.{Outside, Upstream, World, Act, query, statement}
use relaykey_backend.World.Flow.{statement-sent, query-sent}
use relaykey_backend.Admin.VirtualKeys.{
  CreateVirtualKeyRequest, create_virtual_key, list_virtual_keys_handler,
}
use relaykey_backend.Admin.Metrics.{MetricsQuery, with_days, rows_or_500}
use relaykey_backend.Admin.Usage.{admin_usage}
use relaykey_backend.Admin.Errors.{admin_errors}
use relaykey_backend.App.Health.{not_ready, ping_redis, connect_and_ping, after_select}
use relaykey_backend.App.Health
use relaykey_backend.App.Router.{HandlerReply, unanswered, answered, with_extracted}

-- There is an answer, and nothing more has been sent upstream.
abbrev pub Ends : {S : Type 0} → List Upstream → HandlerReply × World S → Type 0
Ends before m = (m.0 ≢ unanswered) × (m.1.sent ≡ before)

pub answered-Ends :
    {S A : Type 0} {before : List Upstream} (f : A → HandlerReply) (m : A × World S)
    → ((a : A) → f a ≢ unanswered)
    → m.1.sent ≡ before
    → Ends before (answered f m)
answered-Ends f m h k = (h m.0, k)

pub require_admin_passes :
    (env : Text → Option Text) (state : AuthState) (req r : Request)
    → require_admin env state req ≡ go r
    → env (text "ADMIN_TOKEN") ≡ some (admin_token state req)
unfolding require_admin
require_admin_passes env state req r = elim (Option-cases (env (text "ADMIN_TOKEN"))) [
  | inl e ↦ rw (e, require_admin) (λ h. absurd (cc))
  | inr (expected, e) ↦ ground (arith, e, text_eq_iff (admin_token state req) expected)
]

pub with_extracted-Ends :
    {S A : Type 0} (found : Outcome A) (f : A → Act S HandlerReply) (w : World S)
    → ((a : A) → Ends w.sent (f a w))
    → Ends w.sent (with_extracted found f w)
unfolding with_extracted
with_extracted-Ends (reply r) f w h = (λ e. cc, refl)
with_extracted-Ends (go a) f w h = h a

module _ {S : Type 0} (o : Outside S) where
  pub admin_usage-sent :
      (date_text : ℕ → Text) (parse : Text → Option ℕ) (collate : Text → Text → Bool)
      (q : MetricsQuery) (w : World S)
      → (admin_usage date_text o parse collate q w).1.sent ≡ w.sent
  unfolding admin_usage with_days rows_or_500 query statement
  admin_usage-sent date_text parse collate q w = ground arith

  pub admin_errors-sent :
      (date_text : ℕ → Text) (parse : Text → Option ℕ) (q : MetricsQuery) (w : World S)
      → (admin_errors o parse date_text q w).1.sent ≡ w.sent
  unfolding admin_errors with_days rows_or_500 query statement
  admin_errors-sent date_text parse q w = ground arith

  pub create_virtual_key-sent :
      (state : AuthState) (new_v4 : S → Text × S) (violation : Text)
      (body : CreateVirtualKeyRequest) (w : World S)
      → (create_virtual_key o state new_v4 violation body w).1.sent ≡ w.sent
  unfolding create_virtual_key insert_virtual_key
  create_virtual_key-sent state new_v4 violation body w =
      statement-sent o _ (record w { out = (new_v4 w.out).1 })

  pub list_keys-sent :
      (time_text : ℕ → Text) (w : World S)
      → (list_virtual_keys_handler o time_text w).1.sent ≡ w.sent
  unfolding list_virtual_keys_handler list_virtual_keys
  list_keys-sent time_text w = query-sent o _ w

  pub ready-Untouched :
      (connect ping : S → Option Text × S) (w : World S)
      → ((Health.ready o connect ping w).1.db ≡ w.db)
        × ((Health.ready o connect ping w).1.sent ≡ w.sent)
  unfolding Health.ready after_select connect_and_ping ping_redis not_ready query statement
  ready-Untouched connect ping w = ground arith
