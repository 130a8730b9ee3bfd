-- ===== src/Proxy/Handler/Unrecorded.antt =====
-- Requests that are sent upstream and get no response.
use relaykey_backend.Base.{ℕ, zero, suc, ◌∙◌, ◌≡◌, refl, ◌⊎◌, inl, inr, leb, Bool-cases}
use relaykey_backend.Text.{Text}
use relaykey_backend.Context.{VirtualKeyCtx, Request}
use relaykey_backend.Policies.{PolicyRow}
use relaykey_backend.Db.{PartnerRow}
use relaykey_backend.Retry.{RetryPolicy, default_policy}
use relaykey_backend.World.{Outside, World, Upstream, SendResult, responded, failed, elapsed, Exec}
use relaykey_backend.Proxy.Steps.{Urls, instant_now}
use relaykey_backend.Proxy.Steps.Sending.{send_request, retry_allowed, back_off}
use relaykey_backend.Proxy.Handler.{
  can_retry_err, retry_or, after_send, attempt_once, attempts, handler,
}
use relaykey_backend.Proxy.Handler.Cleared.{handler_stages}

-- The request failed, or its time ran out.
abbrev pub NoResponse : SendResult → Type 0
NoResponse (responded status headers body) = ⊥
NoResponse (failed e) = Unit
NoResponse elapsed = Unit

module _ {S U : Type 0} (o : Outside S) (urls : Urls U)
    (silent : (u : Upstream) (ms : ℕ) (s : S) → NoResponse (o.send u ms s).0) where
  module _ (vk : VirtualKeyCtx) (req : Request) (start : ℕ) (partner_row : PartnerRow)
      (retry_policy : RetryPolicy) (deadline : ℕ) (u : Upstream) where
    after_send-db :
        (again : Exec S (Unit {0})) (attempt : ℕ) (result : SendResult) (w : World S)
        → NoResponse result
        → ((v : World S) → (again v).1.db ≡ v.db)
        → (after_send o urls vk req start partner_row retry_policy deadline u again attempt result
            w).1.db
          ≡ w.db
    unfolding after_send retry_or retry_allowed back_off
    after_send-db again attempt (responded status headers body) w n k = absurd n
    after_send-db again attempt (failed e) w n k =
        elim (Bool-cases (can_retry_err retry_policy req attempt e)) [
          | inr c ↦ rw (c, after_send) refl
          | inl c ↦ elim (Bool-cases (retry_allowed o urls vk partner_row w).0) [
            | inl a ↦ rw (c, after_send, a, retry_or) (k _)
            | inr a ↦ rw (c, after_send, a, retry_or) refl
          ]
        ]
    after_send-db again attempt elapsed w n k = refl

    attempts-db :
        (fuel attempt : ℕ) (w : World S)
        → (attempts o urls vk req start partner_row retry_policy deadline u fuel attempt w).1.db
          ≡ w.db
    unfolding attempts attempt_once instant_now send_request
    attempts-db zero attempt w = refl
    attempts-db (suc fuel) attempt w = elim (Bool-cases (leb deadline (o.now w.out).0)) [
      | inl e ↦ rw (e, attempt_once, attempts) refl
      | inr e ↦
          rw (e, attempt_once, attempts)
            (after_send-db
              (attempts o urls vk req start partner_row retry_policy deadline u fuel (suc attempt))
              attempt _ _ (silent _ _ _) (λ v. attempts-db fuel (suc attempt) v))
    ]

  -- Where no request to an upstream gets a response, the handler has sent nothing, or it leaves every
  -- table: what it has sent is on no usage event.
  pub sent_unrecorded :
      (vk : VirtualKeyCtx) (policy : PolicyRow) (partner tail : Text) (req : Request) (w : World S)
      → let after = (handler o urls vk policy partner tail req w).1 in
        (after.sent ≡ w.sent) ⊎ (after.db ≡ w.db)
  sent_unrecorded vk policy partner tail req w =
      handler_stages o urls vk policy partner tail req w
        (λ m. (m.1.sent ≡ w.sent) ⊎ (m.1.db ≡ w.db)) (λ r v s _. inl s)
        (λ start deadline p u v _ d _.
          inr (attempts-db vk req start p default_policy deadline u 2 1 v ∙ d))
