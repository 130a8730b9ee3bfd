-- ===== src/Proxy/Handler/Cleared.antt =====
-- The handler up to its first attempt: a request is ended by one of the steps, or cleared.
use relaykey_backend.Base.{ℕ, ◌≡◌, refl, subst, ◌∙◌, inl, inr, true, false, ◌++◌, some, Bool-cases}
use relaykey_backend.Text.{Text}
use relaykey_backend.Http.{Response}
use relaykey_backend.Context.{VirtualKeyCtx, Request, Outcome, reply}
use relaykey_backend.Policies.{PolicyRow}
use relaykey_backend.Usage.Metering.{Entered}
use relaykey_backend.Db.{Db, PartnerRow, CredentialRow}
use relaykey_backend.Db.Keys.{get_partner_by_name, get_credential_for_partner}
use relaykey_backend.World.{Outside, World, Upstream}
use relaykey_backend.Retry.{default_policy}
use relaykey_backend.Proxy.Paths.{path_allowed}
use relaykey_backend.Proxy.Steps.{
  Urls, is_rejected, instant_now, looks_like_url, forwarded_path, query_suffix, same_origin,
}
use relaykey_backend.Proxy.Steps.Sending.{build_request}
use relaykey_backend.Proxy.Handler.{attempts, handler}
use relaykey_backend.Proxy.Handler.Stages.{
  Stage-bind, load_partner-Stage, load_credential-Stage, parse_base-Stage, check_tail-Stage,
  check_allowlist-Stage, join_url-Stage, check_origin-Stage, header_name-Stage, header_value-Stage,
}

module _ {S U : Type 0} (o : Outside S) (urls : Urls U) where
  module _ (vk : VirtualKeyCtx) (policy : PolicyRow) (partner tail : Text) (req : Request)
      (w : World S) where
    -- Everything that stands between a request and the upstream server has let it through: the
    -- method, the partner and its credential from the database, the tail, the allowlist, the
    -- joined URL with the origin of the partner's base, and the credential's header.
    pub record Cleared (u : Upstream) : Type 0 where
      pub method : is_rejected req.method ≡ false
      pub partner_row : PartnerRow
      pub registered : get_partner_by_name partner w.db ≡ some partner_row
      pub cred : CredentialRow
      pub credited : get_credential_for_partner partner_row.id w.db ≡ some cred
      pub base : U
      pub parsed : urls.parse partner_row.base_url ≡ some base
      pub not_url : looks_like_url tail ≡ false
      pub allowed : path_allowed policy.endpoint_allowlist (forwarded_path tail) ≡ true
      pub joined : U
      pub joins : urls.join base (forwarded_path tail ++ query_suffix req.query) ≡ some joined
      pub origin : same_origin o urls joined base ≡ true
      pub header_name : Text
      pub named : urls.header_name cred.header_name ≡ some header_name
      pub header_value : Text
      pub valued : urls.header_value cred.header_value ≡ some header_value
      pub built : u ≡ build_request o urls req joined header_name header_value

  module _ (vk : VirtualKeyCtx) (policy : PolicyRow) (partner tail : Text) (req : Request)
      (w : World S) (R : Outcome (Unit {0}) × World S → Type 0)
      (refuse : (r : Response) (v : World S)
        → v.sent ≡ w.sent
        → Entered w.db.usage_events v
        → R (reply r, v))
      (attempt : (start deadline : ℕ) (p : PartnerRow) (u : Upstream) (v : World S)
        → v.sent ≡ w.sent
        → v.db ≡ w.db
        → Cleared vk policy partner tail req w u
        → R (attempts o urls vk req start p default_policy deadline u 2 1 v)) where
    -- A step that ends the request, behind steps that let it go on.
    refuse_at :
        (at : World S)
        → at.sent ≡ w.sent
        → at.db ≡ w.db
        → (r : Response) (v : World S) → v.sent ≡ at.sent
        → Entered at.db.usage_events v
        → R (reply r, v)
    refuse_at at s d r v t n =
        refuse r v (t ∙ s) (subst (λ (db : Db). Entered db.usage_events v) d n)

    -- What holds of every early end, and of the attempts of a cleared request, holds of the handler.
    pub handler_stages : R (handler o urls vk policy partner tail req w)
    unfolding handler instant_now
    handler_stages = elim (Bool-cases (is_rejected req.method)) [
      | inl e ↦ rw (e, handler) (refuse _ _ refl (inl refl))
      | inr e ↦
          rw (e, handler)
            (let start = (o.now w.out).0 in
              Stage-bind R (load_partner-Stage o urls vk req start partner _)
                (refuse_at (record w { out = (o.now w.out).1 }) refl refl)
                λ p w1 s1 d1 q1.
                  Stage-bind R (load_credential-Stage o urls vk req start p w1) (refuse_at w1 s1 d1)
                    λ c w2 s2' d2' q2.
                      let s2 = s2' ∙ s1 in
                      let d2 = d2' ∙ d1 in
                      Stage-bind R (parse_base-Stage o urls vk req start p w2) (refuse_at w2 s2 d2)
                        λ b w3 s3' d3' q3.
                          let s3 = s3' ∙ s2 in
                          let d3 = d3' ∙ d2 in
                          Stage-bind R (check_tail-Stage o urls vk req start p tail w3)
                            (refuse_at w3 s3 d3)
                            λ _ w4 s4' d4' q4.
                              let s4 = s4' ∙ s3 in
                              let d4 = d4' ∙ d3 in
                              Stage-bind R
                                (check_allowlist-Stage o urls vk req start p policy tail w4)
                                (refuse_at w4 s4 d4)
                                λ _ w5 s5' d5' q5.
                                  let s5 = s5' ∙ s4 in
                                  let d5 = d5' ∙ d4 in
                                  Stage-bind R (join_url-Stage o urls vk req start p tail b w5)
                                    (refuse_at w5 s5 d5)
                                    λ j w6 s6' d6' q6.
                                      let s6 = s6' ∙ s5 in
                                      let d6 = d6' ∙ d5 in
                                      Stage-bind R (check_origin-Stage o urls vk req start p j b w6)
                                        (refuse_at w6 s6 d6)
                                        λ _ w7 s7' d7' q7.
                                          let s7 = s7' ∙ s6 in
                                          let d7 = d7' ∙ d6 in
                                          Stage-bind R (header_name-Stage o urls c w7)
                                            (refuse_at w7 s7 d7)
                                            λ n w8 s8' d8' q8.
                                              let s8 = s8' ∙ s7 in
                                              let d8 = d8' ∙ d7 in
                                              Stage-bind R (header_value-Stage o urls c w8)
                                                (refuse_at w8 s8 d8)
                                                λ x w9 s9 d9 q9.
                                                  attempt start _ p (build_request o urls req j n x)
                                                    _ (s9 ∙ s8) (d9 ∙ d8)
                                                    (record {
                                                      method = e;
                                                      partner_row = p;
                                                      registered = q1;
                                                      cred = c;
                                                      credited =
                                                          subst
                                                            (λ db.
                                                            get_credential_for_partner p.id db
                                                            ≡ some c)
                                                            d1 q2;
                                                      base = b;
                                                      parsed = q3;
                                                      not_url = q4;
                                                      allowed = q5;
                                                      joined = j;
                                                      joins = q6;
                                                      origin = q7;
                                                      header_name = n;
                                                      named = q8;
                                                      header_value = x;
                                                      valued = q9;
                                                      built = refl;
                                                    }))
    ]
