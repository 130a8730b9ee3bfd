-- ===== src/Proxy/Handler/Sent.antt =====
-- What `handler` sends upstream, and when.
use relaykey_backend.Base.{
  ℕ, suc, ◌≤◌, ◌≡◌, refl, ap, subst, ◌∙◌, ◌⊎◌, inl, inr, Bool, true, false, arith, if◌then◌else◌,
}
use relaykey_backend.Text.{Text}
use relaykey_backend.Http.{Response}
use relaykey_backend.Context.{VirtualKeyCtx, Request, Outcome, reply}
use relaykey_backend.Policies.{PolicyRow}
use relaykey_backend.Db.{PartnerRow}
use relaykey_backend.World.{Outside, World, Upstream}
use relaykey_backend.Retry.{default_policy}
use relaykey_backend.Proxy.Steps.{Urls, is_idempotent}
use relaykey_backend.Proxy.Handler.{attempts, handler}
use relaykey_backend.Proxy.Handler.Loop.{sends, retries, attempts_lem}
use relaykey_backend.Proxy.Handler.Cleared.{Cleared, handler_stages}

module _ {S U : Type 0} (o : Outside S) (urls : Urls U) where
  module _ (vk : VirtualKeyCtx) (policy : PolicyRow) (partner tail : Text) (req : Request)
      (w : World S) where
    -- The handler answers, and either it has sent nothing, or it has sent one cleared request, at
    -- most once, or at most twice where the method is idempotent.
    pub record Served (m : Outcome (Unit {0}) × World S) : Type 0 where
      pub response : Response
      pub replies : m.0 ≡ reply response
      pub sent :
          (m.1.sent ≡ w.sent)
          ⊎ ((u : Upstream) × Cleared o urls vk policy partner tail req w u
              × (n : ℕ) × (n ≤ (if is_idempotent req.method then 2 else 1))
              × (m.1.sent ≡ sends n u w.sent))

  module _ (vk : VirtualKeyCtx) (policy : PolicyRow) (partner tail : Text) (req : Request)
      (w : World S) where
    -- What a stop before the first attempt gives.
    unsent :
        (r : Response) (v : World S)
        → v.sent ≡ w.sent
        → Served vk policy partner tail req w (reply r, v)
    unsent r v s = record { response = r; replies = refl; sent = inl s }

    two_or_one : (b : Bool) → suc (retries b 2 1) ≡ (if b then 2 else 1)
    two_or_one true = refl
    two_or_one false = refl

    -- The attempts, for a request that is cleared.
    Cleared-serves :
        (start deadline : ℕ) (partner_row : PartnerRow) (u : Upstream) (v : World S)
        → v.sent ≡ w.sent
        → Cleared o urls vk policy partner tail req w u
        → Served vk policy partner tail req w
            (attempts o urls vk req start partner_row default_policy deadline u 2 1 v)
    Cleared-serves start deadline partner_row u v s c =
        let e =
          attempts_lem o urls vk req start partner_row default_policy deadline u 2 1 v (omega arith)
            (omega arith) in
        record {
          response = e.response;
          replies = e.replies;
          sent = inr (
            u,
            c,
            e.times,
            subst (λ k. e.times ≤ k) (two_or_one (is_idempotent req.method)) e.bounded,
            e.sent ∙ ap (sends e.times u) s,
          );
        }

    served : Served vk policy partner tail req w (handler o urls vk policy partner tail req w)
    served =
        handler_stages o urls vk policy partner tail req w (Served vk policy partner tail req w)
          (λ r v s _. unsent r v s)
          (λ start deadline p u v s _ c. Cleared-serves start deadline p u v s c)

-- Whatever the database, Redis and the upstream do, the handler answers. It has sent nothing; or it
-- has sent one request, and no other: once, or for GET, HEAD and OPTIONS at most twice. It sends
-- only where the method is not rejected, the partner and its credential are in the database, the
-- tail is no URL, the policy's allowlist allows the path, and the joined URL has the scheme, host
-- and port of the partner's base URL; and what it sends is the request built from these.
pub handler-Served :
    {S U : Type 0} (o : Outside S) (urls : Urls U) (vk : VirtualKeyCtx) (policy : PolicyRow)
    (partner tail : Text) (req : Request) (w : World S)
    → Served o urls vk policy partner tail req w (handler o urls vk policy partner tail req w)
handler-Served o urls vk policy partner tail req w = served o urls vk policy partner tail req w
