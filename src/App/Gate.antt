-- ===== src/App/Gate.antt =====
-- What holds of a request that reaches the proxy handler.
use relaykey_backend.Base.{
  ◌≡◌, refl, ◌∙◌, sym, subst, ◌⊎◌, inl, inr, true, Option, none, some, any, Option-cases,
  Bool-cases, arith,
}
use relaykey_backend.Http.{Response}
use relaykey_backend.Context.{VirtualKeyCtx, Request, Outcome, reply, go}
use relaykey_backend.Policies.{PolicyRow}
use relaykey_backend.Policies.Allowlist.{matches, upstream_path, enforce_allowlist}
use relaykey_backend.Policies.Cache.{Codec}
use relaykey_backend.Auth.{AuthState}
use relaykey_backend.Auth.Gate.{Authenticated, require_virtual_key-Authenticated}
use relaykey_backend.Limits.{Scripts}
use relaykey_backend.Limits.Middleware.Admission.{Admitted, enforce_limits-Admitted}
use relaykey_backend.World.{Outside, World}
use relaykey_backend.World.Flow.{Ensures, stopped, went, Ensures-go, Ensures-map, Ensures-bind}
use relaykey_backend.X402.Config.{X402Config}
use relaykey_backend.X402.Checks.{Crates}
use relaykey_backend.X402.Enforce.{config_for}
use relaykey_backend.X402.Enforce.Paid.{Paid, enforce_x402-Paid}
use relaykey_backend.App.{provider_registry, extension_vk, allowlist_layer, x402_layer, protected}

-- An action ensures what holds wherever its outcome is known to go on.
ensure :
    {S A : Type 0} {Q : A → World S → Type 0} (m : Outcome A × World S)
    → ((a : A) (w : World S) → m ≡ (go a, w) → Q a w)
    → Ensures Q m
ensure (reply r, w) h = stopped r w
ensure (go a, w) h = went a w (h a w refl)

-- The policy of the request lists a pattern that its path matches.
abbrev pub Listed : Request → Type 0
Listed req =
    (policy : PolicyRow) × (req.policy ≡ some policy)
    × (any (λ pat. matches pat (upstream_path req.path)) policy.endpoint_allowlist ≡ true)

module _ {S : Type 0} (o : Outside S) (codec : Codec) (state : AuthState) (redis : Scripts S)
    (crates : Crates) (missing_extension : Response) where
  -- x402 is off for the request, or its payment proof was verified.
  abbrev pub IsPaid : VirtualKeyCtx → Request → Type 0
  IsPaid vk r =
      (config_for o crates vk r ≡ none)
      ⊎ ((cfg : X402Config) × (config_for o crates vk r ≡ some cfg)
          × Paid o crates provider_registry r cfg)

  -- The request is authenticated, on the allowlist, within its limits, and free or paid for.
  pub record Passed (req r : Request) (w v : World S) : Type 0 where
    pub authenticated : Authenticated o codec state req r w
    pub listed : Listed r
    pub admitted : (w1 : World S) × (w2 : World S) × Admitted o redis r r w1 w2
    pub vk : VirtualKeyCtx
    pub keyed : r.vk ≡ some vk
    pub paid : IsPaid vk r

  allowlist_layer_ends :
      (req : Request) (w : World S)
      → Ensures
          (λ r v. (r ≡ req) × Listed req)
          (allowlist_layer o codec state redis crates missing_extension req w)
  unfolding allowlist_layer enforce_allowlist
  allowlist_layer_ends req w = ensure _ λ r v e. elim (Option-cases req.policy) [
    | inl f ↦ absurd (ground (arith, e, f))
    | inr (policy, f) ↦
        elim (Bool-cases
          (any (λ pat. matches pat (upstream_path req.path)) policy.endpoint_allowlist)) [
            | inl g ↦ (ground (arith, e, f, g), (policy, f, g))
            | inr g ↦ absurd (ground (arith, e, f, g))
          ]
  ]

  x402_layer_ends :
      (req : Request) (w : World S)
      → Ensures
          (λ r v. (r ≡ req) × (vk : VirtualKeyCtx) × (req.vk ≡ some vk) × IsPaid vk req)
          (x402_layer o codec state redis crates missing_extension req w)
  unfolding x402_layer extension_vk
  x402_layer_ends req w = Ensures-bind (extension_vk_ends req.vk w) λ vk v keyed. ensure _ λ r u e.
      let (same, paid) = enforce_x402-Paid o crates provider_registry vk req r v u e in
      (same, vk, keyed, paid)
    where
      extension_vk_ends :
          (found : Option VirtualKeyCtx) (u : World S)
          → Ensures
              (λ vk v. found ≡ some vk)
              (extension_vk o codec state redis crates missing_extension found u)
      extension_vk_ends none u = stopped _ _
      extension_vk_ends (some vk) u = went vk u refl

  protected_ends :
      (req : Request) (w : World S)
      → Ensures
          (λ r v. Passed req r w v)
          (protected o codec state redis crates missing_extension req w)
  unfolding protected
  protected_ends req w =
      Ensures-bind
        (ensure _ λ a v e. (require_virtual_key-Authenticated o codec state req a w v e).0)
        λ a w1 authenticated. Ensures-bind (allowlist_layer_ends a w1) λ b w2 p2.
          Ensures-bind (ensure _ λ c v e. enforce_limits-Admitted o redis b c w2 v e)
            λ c w3 admitted.
              let alone : Admitted o redis b b w2 w3 =
                subst (λ x. Admitted o redis b x w2 w3) admitted.same admitted in
              Ensures-map
                (λ r v h.
                  let to_b : b ≡ r = sym (h.0 ∙ admitted.same) in
                  let to_a : a ≡ r = sym p2.0 ∙ to_b in
                  record {
                    authenticated =
                        subst (λ x. Authenticated o codec state req x w) to_a authenticated;
                    listed = subst Listed to_a p2.1;
                    admitted = (w2, w3, subst (λ x. Admitted o redis x x w2 w3) to_b alone);
                    vk = h.1;
                    keyed = subst (λ x. x.vk ≡ some h.1) (sym h.0) h.2;
                    paid = subst (λ x. IsPaid h.1 x) (sym h.0) h.3;
                  })
                (x402_layer_ends c w3)

  -- A request reaches the proxy handler only if its key is that of an enabled row, the policy of
  -- the row lists its path, no limiter that could be asked refused it, and x402 is off for it or its
  -- payment proof was verified.
  pub protected-Passed :
      (req r : Request) (w v : World S)
      → protected o codec state redis crates missing_extension req w ≡ (go r, v)
      → Passed req r w v
  protected-Passed req r w v e = Ensures-go (protected_ends req w) e
