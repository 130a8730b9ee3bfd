-- ===== src/Proxy/Handler/Loop.antt =====
-- The retry loop: it ends by a response, and it sends a bounded number of requests.
use relaykey_backend.Base.{
  ℕ, zero, suc, ◌+◌, ◌-◌, ◌≤◌, ◌<◌, ◌≡◌, refl, ap, ◌∙◌, inl, inr, Bool, true, List, ◌∷◌, arith, leb,
  if◌then◌else◌, Bool-cases,
}
use relaykey_backend.Text.{Text}
use relaykey_backend.Http.{Headers, Response}
use relaykey_backend.Context.{VirtualKeyCtx, Request, Outcome, reply}
use relaykey_backend.Db.{PartnerRow}
use relaykey_backend.World.{
  Outside, World, Upstream, SendResult, responded, failed, elapsed, Exec, statement, stop,
}
use relaykey_backend.Usage.{insert_usage_event}
use relaykey_backend.Retry.{RetryPolicy, ReqwestError}
use relaykey_backend.Proxy.Steps.{Urls, is_idempotent, instant_now, usage_event}
use relaykey_backend.Proxy.Steps.Sending.{
  send_request, retry_allowed, back_off, pass_on, can_retry_status,
}
use relaykey_backend.Proxy.Handler.{can_retry_err, retry_or, after_send, attempt_once, attempts}

-- `n` copies of one request in front of the others.
abbrev pub sends : ℕ → Upstream → List Upstream → List Upstream
sends zero u us = us
sends (suc n) u us = u ∷ sends n u us

sends-cons : (n : ℕ) (u : Upstream) (us : List Upstream) → sends n u (u ∷ us) ≡ u ∷ sends n u us
sends-cons zero u us = refl
sends-cons (suc n) u us = ap (λ (l : List Upstream). u ∷ l) (sends-cons n u us)

-- The retries that are left after an attempt.
abbrev pub retries : Bool → ℕ → ℕ → ℕ
retries idempotent max_attempts attempt = if idempotent then max_attempts - attempt else 0

retries_step :
    (idem : Bool) (max_attempts attempt : ℕ)
    → idem ≡ true
    → attempt < max_attempts
    → suc (retries idem max_attempts (suc attempt)) ≤ retries idem max_attempts attempt
retries_step idem max_attempts attempt h k = ground arith

module _ {S U : Type 0} (o : Outside S) (urls : Urls U) where
  module _ (vk : VirtualKeyCtx) (req : Request) (start : ℕ) (partner_row : PartnerRow)
      (retry_policy : RetryPolicy) (deadline : ℕ) (u : Upstream) where
    -- The action ends by a response, and it has sent `u` at most `k` times and nothing else.
    pub record Ends (k : ℕ) (us : List Upstream) (m : Outcome (Unit {0}) × World S) : Type 0 where
      pub response : Response
      pub replies : m.0 ≡ reply response
      pub times : ℕ
      pub bounded : times ≤ k
      pub sent : m.1.sent ≡ sends times u us

    -- An end that sends nothing.
    Rests : Exec S (Unit {0}) → Type 0
    Rests final = (v : World S) → Ends 0 v.sent (final v)

    stop-Rests : (r : Response) → Rests (stop r)
    unfolding Rests
    stop-Rests r v = record {
      response = r;
      replies = refl;
      times = 0;
      bounded = omega arith;
      sent = refl;
    }

    pass_on-Rests :
        (status : ℕ) (headers : Headers) (body : Text)
        → Rests (pass_on o urls vk req start partner_row status headers body)
    unfolding Rests pass_on usage_event insert_usage_event instant_now statement
    pass_on-Rests status headers body v = record {
      response = _;
      replies = refl;
      times = 0;
      bounded = omega arith;
      sent = ground arith;
    }

    widen :
        {j k : ℕ} {us : List Upstream} {m : Outcome (Unit {0}) × World S}
        → Ends j us m
        → j ≤ k
        → Ends k us m
    widen e h = record {
      response = e.response;
      replies = e.replies;
      times = e.times;
      bounded = omega arith;
      sent = e.sent;
    }

    another :
        {k : ℕ} {us : List Upstream} {m : Outcome (Unit {0}) × World S}
        → Ends k (u ∷ us) m
        → Ends (suc k) us m
    another {us} e = record {
      response = e.response;
      replies = e.replies;
      times = suc e.times;
      bounded = omega (arith, e.bounded);
      sent = e.sent ∙ sends-cons e.times u us;
    }

    retry_or-Ends :
        (k : ℕ) (again final : Exec S (Unit {0})) (attempt : ℕ) (w : World S)
        → ((v : World S) → Ends k v.sent (again v))
        → Rests final
        → Ends k w.sent
            (retry_or o urls vk req start partner_row retry_policy deadline u again attempt final w)
    unfolding retry_or Rests back_off retry_allowed
    retry_or-Ends k again final attempt w h rests =
        elim (Bool-cases (retry_allowed o urls vk partner_row w).0) [
          | inl e ↦ rw (e, retry_or) (h _)
          | inr e ↦ rw (e, retry_or) (widen (rests _) (omega arith))
        ]

    -- What a retry needs: an idempotent method, and an attempt that is left.
    may_retry_status :
        (attempt status : ℕ)
        → can_retry_status o urls retry_policy req partner_row attempt status ≡ true
        → (is_idempotent req.method ≡ true) × (attempt < retry_policy.max_attempts)
    unfolding can_retry_status
    may_retry_status attempt status h = ground arith

    may_retry_err :
        (attempt : ℕ) (e : ReqwestError)
        → can_retry_err retry_policy req attempt e ≡ true
        → (is_idempotent req.method ≡ true) × (attempt < retry_policy.max_attempts)
    unfolding can_retry_err
    may_retry_err attempt e h = ground arith

    after_send-Ends :
        (k : ℕ) (again : Exec S (Unit {0})) (attempt : ℕ) (result : SendResult) (w : World S)
        → (is_idempotent req.method ≡ true
            → attempt < retry_policy.max_attempts
            → (v : World S) → Ends k v.sent (again v))
        → Ends k w.sent (
            after_send o urls vk req start partner_row retry_policy deadline u again attempt result
              w)
    unfolding after_send Rests
    after_send-Ends k again attempt (responded status headers body) w h =
        elim (Bool-cases (can_retry_status o urls retry_policy req partner_row attempt status)) [
          | inl e ↦
              let (idem, left) = may_retry_status attempt status e in
              rw (e, after_send)
                (retry_or-Ends k again _ attempt w (h idem left)
                  (pass_on-Rests status headers body))
          | inr e ↦ rw (e, after_send) (widen (pass_on-Rests status headers body w) (omega arith))
        ]
    after_send-Ends k again attempt (failed err) w h =
        elim (Bool-cases (can_retry_err retry_policy req attempt err)) [
          | inl e ↦
              let (idem, left) = may_retry_err attempt err e in
              rw (e, after_send) (retry_or-Ends k again _ attempt w (h idem left) (stop-Rests _))
          | inr e ↦ rw (e, after_send) (widen (stop-Rests _ w) (omega arith))
        ]
    after_send-Ends k again attempt elapsed w h = widen (stop-Rests _ w) (omega arith)

    attempt_once-Ends :
        (k : ℕ) (again : Exec S (Unit {0})) (attempt : ℕ) (w : World S)
        → (is_idempotent req.method ≡ true
            → attempt < retry_policy.max_attempts
            → (v : World S) → Ends k v.sent (again v))
        → Ends
            (suc k)
            w.sent
            (attempt_once o urls vk req start partner_row retry_policy deadline u again attempt w)
    unfolding attempt_once instant_now send_request Rests
    attempt_once-Ends k again attempt w h = elim (Bool-cases (leb deadline (o.now w.out).0)) [
      | inl e ↦ rw (e, attempt_once) (widen (stop-Rests _ _) (omega arith))
      | inr e ↦ rw (e, attempt_once) (another (after_send-Ends k again attempt _ _ h))
    ]

    attempts-Ends :
        (fuel attempt : ℕ) (w : World S)
        → 0 < fuel
        → retry_policy.max_attempts < attempt + fuel
        → Ends
            (suc (retries (is_idempotent req.method) retry_policy.max_attempts attempt))
            w.sent
            (attempts o urls vk req start partner_row retry_policy deadline u fuel attempt w)
    unfolding attempts
    attempts-Ends zero attempt w h k = absurd (omega arith)
    attempts-Ends (suc fuel) attempt w h k =
        attempt_once-Ends (retries (is_idempotent req.method) retry_policy.max_attempts attempt)
          (attempts o urls vk req start partner_row retry_policy deadline u fuel (suc attempt))
          attempt w
          λ idem left v.
            widen (attempts-Ends fuel (suc attempt) v (omega arith) (omega arith))
              (retries_step (is_idempotent req.method) retry_policy.max_attempts attempt idem left)

-- With fuel for every attempt that the policy allows, the retry loop always ends by a response. It
-- has then sent the one request it was given, and no other, at most once, and for an idempotent
-- method at most once more for each attempt that was left.
pub attempts_lem :
    {S U : Type 0} (o : Outside S) (urls : Urls U) (vk : VirtualKeyCtx) (req : Request) (start : ℕ)
    (partner_row : PartnerRow) (retry_policy : RetryPolicy) (deadline : ℕ) (u : Upstream)
    (fuel attempt : ℕ) (w : World S)
    → 0 < fuel
    → retry_policy.max_attempts < attempt + fuel
    → Ends o urls vk req start partner_row retry_policy deadline u
        (suc (retries (is_idempotent req.method) retry_policy.max_attempts attempt))
        w.sent
        (attempts o urls vk req start partner_row retry_policy deadline u fuel attempt w)
attempts_lem o urls vk req start partner_row retry_policy deadline u fuel attempt w h k =
    attempts-Ends o urls vk req start partner_row retry_policy deadline u fuel attempt w h k
