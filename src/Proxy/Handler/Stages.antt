-- ===== src/Proxy/Handler/Stages.antt =====
-- The steps of `handler` before the first attempt, each on its own.
use relaykey_backend.Base.{
  ℕ, ◌≡◌, refl, ◌∙◌, subst, Bool, Option, none, ◌⊎◌, inl, inr, true, false, ◌++◌, some, arith,
  Bool-cases, Option-cases,
}
use Prim.Native.String.{String}
use relaykey_backend.Text.{Text}
use relaykey_backend.Http.{Response}
use relaykey_backend.Context.{VirtualKeyCtx, Request, Outcome, reply, go}
use relaykey_backend.Policies.{PolicyRow}
use relaykey_backend.Db.{Db, PartnerRow, CredentialRow}
use relaykey_backend.Db.Keys.{get_partner_by_name, get_credential_for_partner}
use relaykey_backend.World.Flow.{statement-sent}
use relaykey_backend.World.{Outside, World, Exec, ok, err, bind, statement, query}
use relaykey_backend.Usage.Metering.{Entered, blocked-Entered}
use relaykey_backend.Usage.{BlockedReason, insert_usage_event}
use relaykey_backend.Proxy.Paths.{path_allowed}
use relaykey_backend.Proxy.Steps.{
  Urls, instant_now, usage_event, blocked, load_partner, load_credential, parse_base, check_tail,
  check_allowlist, join_url, check_origin, parse_header_name, looks_like_url, forwarded_path,
  query_suffix, same_origin, parse_header_value,
}

module _ {S A : Type 0} (Q : A → Type 0) (w : World S) where
  -- A step before the first attempt: it sends nothing; where it ends the request it adds at most one
  -- usage event, and where it goes on the database is as it was and `Q` holds of its value.
  pub data Stage : Outcome A × World S → Type 0 where
    refused :
        (r : Response) (v : World S)
        → v.sent ≡ w.sent
        → Entered w.db.usage_events v
        → Stage (reply r, v)
    passed : (a : A) (v : World S) → v.sent ≡ w.sent → v.db ≡ w.db → Q a → Stage (go a, v)

pub Stage-bind :
    {S A B : Type 0} {Q : A → Type 0} {w : World S} (R : Outcome B × World S → Type 0)
    {m : Outcome A × World S} {f : A → Exec S B}
    → Stage Q w m
    → ((r : Response) (v : World S)
        → v.sent ≡ w.sent
        → Entered w.db.usage_events v
        → R (reply r, v))
    → ((a : A) (v : World S) → v.sent ≡ w.sent → v.db ≡ w.db → Q a → R (f a v))
    → R (bind m f)
Stage-bind R (refused r v s n) h k = h r v s n
Stage-bind R (passed a v s d q) h k = k a v s d q

module _ {S U : Type 0} (o : Outside S) (urls : Urls U) where
  usage_event-sent :
      (vk : VirtualKeyCtx) (req : Request) (start : ℕ) (name : Text) (forwarded : Bool)
      (reason : Option BlockedReason) (status : Option ℕ) (w : World S)
      → (usage_event o urls vk req start name forwarded reason status w).1.sent ≡ w.sent
  unfolding usage_event insert_usage_event instant_now
  usage_event-sent vk req start name forwarded reason status w =
      statement-sent o _ (record w { out = (o.now w.out).1 })

  blocked-Stage :
      {A : Type 0} (Q : A → Type 0) (vk : VirtualKeyCtx) (req : Request) (start : ℕ) (name : Text)
      (reason : BlockedReason) (status : ℕ) (message : String) (w v : World S)
      → v.sent ≡ w.sent
      → v.db ≡ w.db
      → Stage Q w (blocked o urls vk req start name reason status message v)
  unfolding blocked usage_event instant_now
  blocked-Stage Q vk req start name reason status message w v s d =
      refused _ _ (usage_event-sent vk req start name false (some reason) none v ∙ s) (
        subst
          (λ (db : Db).
            Entered db.usage_events
              (usage_event o urls vk req start name false (some reason) none v).1)
          d
          (blocked-Entered o vk.id vk.customer_id name req.path _ reason
            (record v { out = (o.now v.out).1 })))

  query_step :
      {A : Type 0} (f : Db → A) (w : World S)
      → ((query o f w).1.sent ≡ w.sent)
        × ((query o f w).1.db ≡ w.db)
        × (((query o f w).0 ≡ ok (f w.db)) ⊎ ((e : Text) × ((query o f w).0 ≡ err e)))
  unfolding query statement
  query_step f w = elim (Option-cases (o.db_fault w.out).0) [
    | inl e ↦ (ground arith, ground arith, inl (ground arith))
    | inr (m, e) ↦ (ground arith, ground arith, inr (m, ground arith))
  ]

  pub load_partner-Stage :
      (vk : VirtualKeyCtx) (req : Request) (start : ℕ) (partner : Text) (w : World S)
      → Stage
          (λ p. get_partner_by_name partner w.db ≡ some p)
          w
          (load_partner o urls vk req start partner w)
  unfolding load_partner
  load_partner-Stage vk req start partner w =
      let (s, d, answer) = query_step (get_partner_by_name partner) w in
      elim answer [
        | inr (m, e) ↦ rw (e, load_partner) (blocked-Stage _ vk req start partner _ _ _ w _ s d)
        | inl e ↦ elim (Option-cases (get_partner_by_name partner w.db)) [
          | inl missing ↦
              rw (e, missing, load_partner) (blocked-Stage _ vk req start partner _ _ _ w _ s d)
          | inr (p, found) ↦ rw (e, found, load_partner) (passed p _ s d refl)
        ]
      ]

  module _ (vk : VirtualKeyCtx) (req : Request) (start : ℕ) (partner_row : PartnerRow) where
    pub load_credential-Stage :
        (w : World S)
        → Stage
            (λ c. get_credential_for_partner partner_row.id w.db ≡ some c)
            w
            (load_credential o urls vk req start partner_row w)
    unfolding load_credential
    load_credential-Stage w =
        let (s, d, answer) = query_step (get_credential_for_partner partner_row.id) w in
        elim answer [
          | inr (m, e) ↦
              rw (e, load_credential) (blocked-Stage _ vk req start partner_row.name _ _ _ w _ s d)
          | inl e ↦ elim (Option-cases (get_credential_for_partner partner_row.id w.db)) [
            | inl missing ↦
                rw (e, missing, load_credential)
                  (blocked-Stage _ vk req start partner_row.name _ _ _ w _ s d)
            | inr (c, found) ↦ rw (e, found, load_credential) (passed c _ s d refl)
          ]
        ]

    pub parse_base-Stage :
        (w : World S)
        → Stage
            (λ b. urls.parse partner_row.base_url ≡ some b)
            w
            (parse_base o urls vk req start partner_row w)
    unfolding parse_base
    parse_base-Stage w = elim (Option-cases (urls.parse partner_row.base_url)) [
      | inl e ↦
          rw (e, parse_base) (blocked-Stage _ vk req start partner_row.name _ _ _ w w refl refl)
      | inr (b, e) ↦ rw (e, parse_base) (passed b w refl refl refl)
    ]

    pub check_tail-Stage :
        (tail : Text) (w : World S)
        → Stage
            (λ _. looks_like_url tail ≡ false)
            w
            (check_tail o urls vk req start partner_row tail w)
    unfolding check_tail
    check_tail-Stage tail w = elim (Bool-cases (looks_like_url tail)) [
      | inl e ↦
          rw (e, check_tail) (blocked-Stage _ vk req start partner_row.name _ _ _ w w refl refl)
      | inr e ↦ rw (e, check_tail) (passed tt w refl refl refl)
    ]

    pub check_allowlist-Stage :
        (policy : PolicyRow) (tail : Text) (w : World S)
        → Stage
            (λ _. path_allowed policy.endpoint_allowlist (forwarded_path tail) ≡ true)
            w
            (check_allowlist o urls vk policy req start partner_row tail w)
    unfolding check_allowlist
    check_allowlist-Stage policy tail w =
        elim (Bool-cases (path_allowed policy.endpoint_allowlist (forwarded_path tail))) [
          | inl e ↦ rw (e, check_allowlist) (passed tt w refl refl refl)
          | inr e ↦
              rw (e, check_allowlist)
                (blocked-Stage _ vk req start partner_row.name _ _ _ w w refl refl)
        ]

    pub join_url-Stage :
        (tail : Text) (base : U) (w : World S)
        → Stage
            (λ j. urls.join base (forwarded_path tail ++ query_suffix req.query) ≡ some j)
            w
            (join_url o urls vk req start partner_row tail base w)
    unfolding join_url
    join_url-Stage tail base w =
        elim (Option-cases (urls.join base (forwarded_path tail ++ query_suffix req.query))) [
          | inl e ↦
              rw (e, join_url) (blocked-Stage _ vk req start partner_row.name _ _ _ w w refl refl)
          | inr (j, e) ↦ rw (e, join_url) (passed j w refl refl refl)
        ]

    pub check_origin-Stage :
        (joined base : U) (w : World S)
        → Stage
            (λ _. same_origin o urls joined base ≡ true)
            w
            (check_origin o urls vk req start partner_row joined base w)
    unfolding check_origin
    check_origin-Stage joined base w = elim (Bool-cases (same_origin o urls joined base)) [
      | inl e ↦ rw (e, check_origin) (passed tt w refl refl refl)
      | inr e ↦
          rw (e, check_origin) (blocked-Stage _ vk req start partner_row.name _ _ _ w w refl refl)
    ]

  pub header_name-Stage :
      (cred : CredentialRow) (w : World S)
      → Stage (λ h. urls.header_name cred.header_name ≡ some h) w (parse_header_name o urls cred w)
  unfolding parse_header_name
  header_name-Stage cred w = elim (Option-cases (urls.header_name cred.header_name)) [
    | inl e ↦ rw (e, parse_header_name) (refused _ w refl (inl refl))
    | inr (h, e) ↦ rw (e, parse_header_name) (passed h w refl refl refl)
  ]

  pub header_value-Stage :
      (cred : CredentialRow) (w : World S)
      → Stage
          (λ h. urls.header_value cred.header_value ≡ some h)
          w
          (parse_header_value o urls cred w)
  unfolding parse_header_value
  header_value-Stage cred w = elim (Option-cases (urls.header_value cred.header_value)) [
    | inl e ↦ rw (e, parse_header_value) (refused _ w refl (inl refl))
    | inr (h, e) ↦ rw (e, parse_header_value) (passed h w refl refl refl)
  ]
