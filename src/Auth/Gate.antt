-- ===== src/Auth/Gate.antt =====
-- Which requests the two authentication middlewares let go on.
use relaykey_backend.Base.{
  ℕ, ◌≡◌, refl, subst, ◌∙◌, ◌↔◌, ◌⊎◌, inl, inr, true, Option, none, some, arith, Option-cases,
}
use relaykey_backend.Text.{Text, text}
use relaykey_backend.Text.Laws.{text_eq_iff}
use relaykey_backend.Http.{respond}
use relaykey_backend.Context.{Request, go}
use relaykey_backend.Policies.{PolicyRow}
use relaykey_backend.Policies.Cache.{Codec, load_policy_bundle}
use relaykey_backend.Policies.Cache.Loading.{held, after_get, load_policy_bundle_lem}
use relaykey_backend.Db.{VirtualKeyRow}
use relaykey_backend.Db.Keys.{get_virtual_key_by_hash, get_policy_by_id}
use relaykey_backend.World.{Outside, World, ok, err, return, stop, statement, query}
use relaykey_backend.World.Flow.{Ensures, stopped, went, Ensures-go, Ensures-bind, Ensures-if}
use relaykey_backend.Auth.{
  AuthState, hash_virtual_key, raw_key, attach, require_raw_key, lookup_key, lookup_policy,
  require_virtual_key, admin_token, require_admin,
}

module _ {S : Type 0} (o : Outside S) (codec : Codec) (state : AuthState) where
  -- A request that has been let go on: its key is that of an enabled row of the table, the policy is
  -- the readable entry that Redis held for the row's policy id at some moment, or the row of the
  -- table of policies, and both stand in the extensions.
  pub record Authenticated (req r : Request) (w : World S) : Type 0 where
    pub raw : Text
    pub shown : raw_key state req ≡ some raw
    pub row : VirtualKeyRow
    pub known : get_virtual_key_by_hash (hash_virtual_key state raw) w.db ≡ some row
    pub enabled : row.enabled ≡ true
    pub policy : PolicyRow
    pub source :
        ((s : S) × (held o codec row.policy_id s ≡ some policy))
        ⊎ (get_policy_by_id row.policy_id w.db ≡ some policy)
    pub attached : r ≡ attach req row policy

  -- The tables are as they were, and nothing has been sent.
  abbrev pub Untouched : World S → World S → Type 0
  Untouched w v = (v.db ≡ w.db) × (v.sent ≡ w.sent)

  require_raw_key_ends :
      (req : Request) (w : World S)
      → Ensures
          (λ raw v. (raw_key state req ≡ some raw) × Untouched w v)
          (require_raw_key o codec state req w)
  unfolding require_raw_key
  require_raw_key_ends req w = elim (Option-cases (raw_key state req)) [
    | inl e ↦ rw (e, require_raw_key) (stopped _ _)
    | inr (raw, e) ↦ rw (e, require_raw_key) (went raw w (refl, (refl, refl)))
  ]

  lookup_key_ends :
      (raw : Text) (w : World S)
      → Ensures
          (λ row v.
            (get_virtual_key_by_hash (hash_virtual_key state raw) w.db ≡ some row)
            × (row.enabled ≡ true)
            × Untouched w v)
          (lookup_key o codec state raw w)
  unfolding lookup_key query statement
  lookup_key_ends raw w = elim (Option-cases (o.db_fault w.out).0) [
    | inr (m, e) ↦ rw (e, lookup_key, query, statement) (stopped _ _)
    | inl e ↦ elim (Option-cases (get_virtual_key_by_hash (hash_virtual_key state raw) w.db)) [
      | inl f ↦ rw (e, lookup_key, query, statement, f) (stopped _ _)
      | inr (row, f) ↦
          rw (e, lookup_key, query, statement, f)
            (Ensures-if row.enabled (return row) (stop (respond 401 "virtual key disabled")) _
              (λ g. went row _ (refl, g, (refl, refl))) (λ _. stopped _ _))
    ]
  ]

  lookup_policy_ends :
      (policy_id : ℕ) (w : World S)
      → Ensures
          (λ p v.
            ((held o codec policy_id w.out ≡ some p) ⊎ (get_policy_by_id policy_id w.db ≡ some p))
            × Untouched w v)
          (lookup_policy o codec state policy_id w)
  unfolding lookup_policy
  lookup_policy_ends policy_id w =
      let (found, kept, quiet) = load_policy_bundle_lem o codec policy_id w in
      elim (Option-cases (held o codec policy_id w.out)) [
        | inr (p, e) ↦
            let r : (load_policy_bundle o codec policy_id w).0 ≡ ok (some p) = found ∙ rw e refl in
            rw (r, lookup_policy) (went p _ (inl e, (kept, quiet)))
        | inl e ↦ elim (Option-cases (o.db_fault (after_get o codec policy_id w.out)).0) [
          | inr (m, f) ↦
              let r : (load_policy_bundle o codec policy_id w).0 ≡ err m = found ∙ rw (e, f) refl in
              rw (r, lookup_policy) (stopped _ _)
          | inl f ↦ elim (Option-cases (get_policy_by_id policy_id w.db)) [
            | inl g ↦
                let r : (load_policy_bundle o codec policy_id w).0 ≡ ok none =
                  found ∙ rw (e, f, g) refl in
                rw (r, lookup_policy) (stopped _ _)
            | inr (p, g) ↦
                let r : (load_policy_bundle o codec policy_id w).0 ≡ ok (some p) =
                  found ∙ rw (e, f, g) refl in
                rw (r, lookup_policy) (went p _ (inr g, (kept, quiet)))
          ]
        ]
      ]

  some_time :
      (row : VirtualKeyRow) (policy : PolicyRow) (v : World S)
      → (held o codec row.policy_id v.out ≡ some policy)
        ⊎ (get_policy_by_id row.policy_id v.db ≡ some policy)
      → ((s : S) × (held o codec row.policy_id s ≡ some policy))
        ⊎ (get_policy_by_id row.policy_id v.db ≡ some policy)
  some_time row policy v (inl e) = inl (v.out, e)
  some_time row policy v (inr e) = inr e

  require_virtual_key_ends :
      (req : Request) (w : World S)
      → Ensures
          (λ r v. Authenticated req r w × Untouched w v)
          (require_virtual_key o codec state req w)
  unfolding require_virtual_key
  require_virtual_key_ends req w = Ensures-bind (require_raw_key_ends req w) λ raw w1 p1.
      Ensures-bind (lookup_key_ends raw w1) λ row w2 p2.
        Ensures-bind (lookup_policy_ends row.policy_id w2) λ policy w3 p3.
          let (shown, (d1, s1)) = p1 in
          let (known, enabled, (d2, s2)) = p2 in
          let (source, (d3, s3)) = p3 in
          went (attach req row policy) w3 (
            record {
              raw = raw;
              shown = shown;
              row = row;
              known =
                  subst (λ db. get_virtual_key_by_hash (hash_virtual_key state raw) db ≡ some row)
                    d1 known;
              enabled = enabled;
              policy = policy;
              source =
                  subst
                    (λ db.
                      ((s : S) × (held o codec row.policy_id s ≡ some policy))
                      ⊎ (get_policy_by_id row.policy_id db ≡ some policy))
                    (d2 ∙ d1) (some_time row policy w2 source);
              attached = refl;
            },
            (d3 ∙ (d2 ∙ d1), s3 ∙ (s2 ∙ s1)),
          )

  -- Where the middleware lets a request go on, its trimmed key hashes to that of an enabled row of
  -- the table, the policy is the readable entry of Redis for the row's policy id or the row of the
  -- database, and the request differs only by these two in its extensions. The tables are as they
  -- were, and nothing has been sent upstream.
  pub require_virtual_key-Authenticated :
      (req r : Request) (w v : World S)
      → require_virtual_key o codec state req w ≡ (go r, v)
      → Authenticated req r w × Untouched w v
  require_virtual_key-Authenticated req r w v e = Ensures-go (require_virtual_key_ends req w) e

-- An admin request goes on exactly when a token is configured and the request's token, which is
-- empty where the header is missing or unreadable, is the same text.
pub require_admin_iff :
    (env : Text → Option Text) (state : AuthState) (req : Request)
    → (require_admin env state req ≡ go req)
      ↔ (env (text "ADMIN_TOKEN") ≡ some (admin_token state req))
unfolding require_admin
require_admin_iff env state req = elim (Option-cases (env (text "ADMIN_TOKEN"))) [
  | inl e ↦ rw (e, require_admin) (λ h. absurd (cc), λ h. absurd (cc))
  | inr (expected, e) ↦ ground (arith, e, text_eq_iff (admin_token state req) expected)
]
