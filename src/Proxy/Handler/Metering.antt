-- ===== src/Proxy/Handler/Metering.antt =====
-- The usage events of the handler: at most one for a request, at its end.
use relaykey_backend.Base.{
  ℕ, zero, suc, ◌∙◌, ap, subst, ◌≡◌, true, List, none, some, inl, inr, leb, Bool-cases,
}
use relaykey_backend.Text.{Text}
use relaykey_backend.Http.{Headers, respond}
use relaykey_backend.Context.{VirtualKeyCtx, Request}
use relaykey_backend.Policies.{PolicyRow}
use relaykey_backend.Db.{Db, PartnerRow, Stamped, UsageEvent}
use relaykey_backend.Retry.{RetryPolicy, default_policy}
use relaykey_backend.Usage.Metering.{
  Entered, Metered, ended, continued, Metered-if, forwarded-Entered,
}
use relaykey_backend.World.{
  Outside, World, Upstream, SendResult, responded, failed, elapsed, Exec, stop,
}
use relaykey_backend.Proxy.Steps.{Urls, instant_now, usage_event}
use relaykey_backend.Proxy.Steps.Sending.{
  pass_on, send_request, retry_allowed, back_off, can_retry_status,
}
use relaykey_backend.Proxy.Handler.{
  can_retry_err, retry_or, after_send, attempt_once, attempts, handler,
}
use relaykey_backend.Proxy.Handler.Cleared.{handler_stages}

module _ {S U : Type 0} (o : Outside S) (urls : Urls U) (before : List (Stamped UsageEvent)) where
  module _ (vk : VirtualKeyCtx) (req : Request) (start : ℕ) (partner_row : PartnerRow) where
    pass_on-Metered :
        (status : ℕ) (headers : Headers) (body : Text) (w : World S)
        → w.db.usage_events ≡ before
        → Metered before (pass_on o urls vk req start partner_row status headers body w)
    unfolding pass_on usage_event instant_now
    pass_on-Metered status headers body w h = ended _ _ (
        subst
          (λ l.
            Entered l
              (usage_event o urls vk req start partner_row.name true none (some status) w).1)
          h
          (forwarded-Entered o vk.id vk.customer_id partner_row.name req.path _ status
            (record w { out = (o.now w.out).1 })))

    module _ (retry_policy : RetryPolicy) (deadline : ℕ) (u : Upstream) where
      retry_or-Metered :
          (again final : Exec S (Unit {0})) (attempt : ℕ) (w : World S)
          → w.db.usage_events ≡ before
          → ((v : World S) → v.db.usage_events ≡ before → Metered before (again v))
          → ((v : World S) → v.db.usage_events ≡ before → Metered before (final v))
          → Metered before (
              retry_or o urls vk req start partner_row retry_policy deadline u again attempt final
                w)
      unfolding retry_or retry_allowed back_off
      retry_or-Metered again final attempt w h k l =
          elim (Bool-cases (retry_allowed o urls vk partner_row w).0) [
            | inl e ↦ rw (e, retry_or) (k _ h)
            | inr e ↦ rw (e, retry_or) (l _ h)
          ]

      after_send-Metered :
          (again : Exec S (Unit {0})) (attempt : ℕ) (result : SendResult) (w : World S)
          → w.db.usage_events ≡ before
          → ((v : World S) → v.db.usage_events ≡ before → Metered before (again v))
          → Metered before (
              after_send o urls vk req start partner_row retry_policy deadline u again attempt
                result w)
      unfolding after_send
      after_send-Metered again attempt (responded status headers body) w h k =
          Metered-if (can_retry_status o urls retry_policy req partner_row attempt status) _ _ w
            (retry_or-Metered again _ attempt w h k (pass_on-Metered status headers body))
            (pass_on-Metered status headers body w h)
      after_send-Metered again attempt (failed e) w h k =
          Metered-if (can_retry_err retry_policy req attempt e) _
            (stop (respond 502 "upstream request failed")) w
            (retry_or-Metered again _ attempt w h k (λ v l. ended _ v (inl l))) (ended _ w (inl h))
      after_send-Metered again attempt elapsed w h k = ended _ w (inl h)

      attempts-Metered :
          (fuel attempt : ℕ) (w : World S)
          → w.db.usage_events ≡ before
          → Metered before
              (attempts o urls vk req start partner_row retry_policy deadline u fuel attempt w)
      unfolding attempts attempt_once instant_now send_request
      attempts-Metered zero attempt w h = continued tt w h
      attempts-Metered (suc fuel) attempt w h = elim (Bool-cases (leb deadline (o.now w.out).0)) [
        | inl e ↦ rw (e, attempt_once, attempts) (ended _ _ (inl h))
        | inr e ↦
            rw (e, attempt_once, attempts)
              (after_send-Metered
                (attempts o urls vk req start partner_row retry_policy deadline u fuel
                  (suc attempt))
                attempt _ _ h (λ v k. attempts-Metered fuel (suc attempt) v k))
      ]

  -- Whatever happens, the handler adds at most one usage event, at the end of the request.
  pub handler-Metered :
      (vk : VirtualKeyCtx) (policy : PolicyRow) (partner tail : Text) (req : Request) (w : World S)
      → w.db.usage_events ≡ before
      → Metered before (handler o urls vk policy partner tail req w)
  handler-Metered vk policy partner tail req w h =
      handler_stages o urls vk policy partner tail req w (Metered before)
        (λ r v _ n. ended r v (subst (λ l. Entered l v) h n))
        (λ start deadline p u v _ d _.
          attempts-Metered vk req start p default_policy deadline u 2 1 v
            (ap (λ (db : Db). db.usage_events) d ∙ h))
