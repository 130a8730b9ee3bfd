-- ===== src/Limits/Middleware/Admission.antt =====
-- Which requests `enforce_limits` lets go on.
use relaykey_backend.Base.{
  ℕ, ◌≡◌, refl, ◌∙◌, ◌⊎◌, inl, inr, Bool, true, false, Option, none, some, Option-cases,
}
use relaykey_backend.Base.Int.{ℤ}
use relaykey_backend.Context.{VirtualKeyCtx, Request, go}
use relaykey_backend.World.{Outside, World, lift, return, bind}
use relaykey_backend.World.Flow.{
  Ensures, stopped, went, Ensures-go, Ensures-bind, Ensures-map, Ensures-if,
}
use relaykey_backend.Usage.{BlockedReason, rate_limit_exceeded, monthly_quota_exceeded}
use relaykey_backend.Limits.{Scripts, token_bucket_allow, monthly_quota_allow_and_incr}
use relaykey_backend.Limits.Middleware.{
  bucket_capacity, clock, heed, run_script, rate_under, check_rate, quota_under, check_quota,
  connect_redis, require_context, check_limits, enforce_limits,
}

module _ {S : Type 0} (o : Outside S) (redis : Scripts S) where
  -- A limiter that allowed the request, or failed.
  abbrev pub NotRefused : (S → Option Bool × S) → Type 0
  NotRefused limiter = (s : S) × (((limiter s).0 ≡ some true) ⊎ ((limiter s).0 ≡ none))

  abbrev pub RatePassed : VirtualKeyCtx → Type 0
  RatePassed vk =
      (vk.rps_limit ≡ none)
      ⊎ ((rps : ℤ) × (vk.rps_limit ≡ some rps)
          × NotRefused (token_bucket_allow redis vk.id rps (bucket_capacity vk rps)))

  abbrev pub QuotaPassed : VirtualKeyCtx → Type 0
  QuotaPassed vk =
      (vk.monthly_quota ≡ none)
      ⊎ ((limit : ℤ) × (vk.monthly_quota ≡ some limit)
          × NotRefused (monthly_quota_allow_and_incr redis vk.id limit))

  abbrev Kept : World S → World S → Type 0
  Kept w v = (v.db ≡ w.db) × (v.sent ≡ w.sent)

  -- The request goes on as it is, with a virtual key; no Redis could be reached, or neither limiter
  -- refused.
  pub record Admitted (req r : Request) (w v : World S) : Type 0 where
    pub same : r ≡ req
    pub vk : VirtualKeyCtx
    pub keyed : req.vk ≡ some vk
    pub passed : ((s : S) × ((o.connect s).0 ≡ false)) ⊎ (RatePassed vk × QuotaPassed vk)
    pub tables : v.db ≡ w.db
    pub unsent : v.sent ≡ w.sent

  module _ (vk : VirtualKeyCtx) (req : Request) (start : ℕ) where
    heed_ends :
        (reason : BlockedReason) (limiter : S → Option Bool × S) (w : World S)
        → Ensures
            (λ _ v. NotRefused limiter × Kept w v)
            (bind (lift (run_script o redis limiter) w) (heed o redis vk req start reason))
    unfolding run_script heed
    heed_ends reason limiter w = elim (Option-cases (limiter w.out).0) [
      | inl e ↦ rw (e, heed, run_script) (went tt _ ((w.out, inr e), (refl, refl)))
      | inr (true, e) ↦ rw (e, heed, run_script) (went tt _ ((w.out, inl e), (refl, refl)))
      | inr (false, e) ↦ rw (e, heed, run_script) (stopped _ _)
    ]

    rate_under_ends :
        (rate : Option ℤ) (w : World S)
        → vk.rps_limit ≡ rate
        → Ensures (λ _ v. RatePassed vk × Kept w v) (rate_under o redis vk req start rate w)
    unfolding rate_under
    rate_under_ends none w e = went tt w (inl e, (refl, refl))
    rate_under_ends (some rps) w e =
        Ensures-map (λ _ v h. (inr (rps, e, h.0), h.1))
          (heed_ends rate_limit_exceeded
            (token_bucket_allow redis vk.id rps (bucket_capacity vk rps)) w)

    quota_under_ends :
        (quota : Option ℤ) (w : World S)
        → vk.monthly_quota ≡ quota
        → Ensures (λ _ v. QuotaPassed vk × Kept w v) (quota_under o redis vk req start quota w)
    unfolding quota_under
    quota_under_ends none w e = went tt w (inl e, (refl, refl))
    quota_under_ends (some limit) w e =
        Ensures-map (λ _ v h. (inr (limit, e, h.0), h.1))
          (heed_ends monthly_quota_exceeded (monthly_quota_allow_and_incr redis vk.id limit) w)

    check_limits_ends :
        (w : World S)
        → Ensures
            (λ r v. (r ≡ req) × (RatePassed vk × QuotaPassed vk) × Kept w v)
            (check_limits o redis vk req start w)
    unfolding check_limits check_rate check_quota
    check_limits_ends w = Ensures-bind (rate_under_ends vk.rps_limit w refl) λ _ w1 p1.
        Ensures-bind (quota_under_ends vk.monthly_quota w1 refl) λ _ w2 p2.
          let (rate, (d1, s1)) = p1 in
          let (quota, (d2, s2)) = p2 in went req w2 (refl, (rate, quota), (d2 ∙ d1, s2 ∙ s1))

  require_context_ends :
      (vk : Option VirtualKeyCtx) (w : World S)
      → Ensures (λ found v. (vk ≡ some found) × Kept w v) (require_context o redis vk w)
  unfolding require_context
  require_context_ends none w = stopped _ _
  require_context_ends (some vk) w = went vk w (refl, (refl, refl))

  enforce_limits_ends :
      (req : Request) (w : World S)
      → Ensures (λ r v. Admitted req r w v) (enforce_limits o redis req w)
  unfolding enforce_limits clock connect_redis
  enforce_limits_ends req w =
      let start : ℕ = (o.now w.out).0 in
      Ensures-bind (require_context_ends req.vk (record w { out = (o.now w.out).1 })) λ vk v p.
        let v1 : World S = record v { out = (o.connect v.out).1 } in
        let (keyed, (d, s)) = p in
        Ensures-if (o.connect v.out).0 (check_limits o redis vk req start) (return req) v1
          (λ _.
            Ensures-map
              (λ r u h. record {
                same = h.0;
                vk = vk;
                keyed = keyed;
                passed = inr h.1;
                tables = h.2.0 ∙ d;
                unsent = h.2.1 ∙ s;
              })
              (check_limits_ends vk req start v1))
          (λ down. went req v1 (record {
            same = refl;
            vk = vk;
            keyed = keyed;
            passed = inl (v.out, down);
            tables = d;
            unsent = s;
          }))

  -- Where the middleware lets a request go on, the request is unchanged and carries a virtual key,
  -- and Redis could not be reached, or each limiter that the key has set allowed the request or
  -- failed. The tables are as they were, and nothing has been sent upstream.
  pub enforce_limits-Admitted :
      (req r : Request) (w v : World S)
      → enforce_limits o redis req w ≡ (go r, v)
      → Admitted req r w v
  enforce_limits-Admitted req r w v e = Ensures-go (enforce_limits_ends req w) e
