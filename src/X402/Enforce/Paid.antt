-- ===== src/X402/Enforce/Paid.antt =====
-- A request that must be paid for goes on only with a payment that its provider has verified.
use relaykey_backend.Base.{
  ℕ, ◌≡◌, refl, ◌⊎◌, inl, inr, true, ◌||◌, Option, none, some, Option-cases,
}
use relaykey_backend.Text.{Text}
use relaykey_backend.Context.{VirtualKeyCtx, Request, go, parse_partner_from_path}
use relaykey_backend.Db.{PaymentIntent}
use relaykey_backend.World.{Outside, World, Result, Result-cases, ok, err}
use relaykey_backend.World.Flow.{Ensures, stopped, went, Ensures-go, Ensures-skip, Ensures-if}
use relaykey_backend.X402.Config.{X402Config}
use relaykey_backend.X402.Provider.{
  VerifyInput, VerifyOutput, PaymentProvider, Registry, require, is_some,
}
use relaykey_backend.X402.Intents.{find_pending}
use relaykey_backend.X402.Checks.{
  Crates, event, require_provider, check_payment_id, check_payment_token, extract_payment_headers,
}
use relaykey_backend.X402.Enforce.{
  or_db_error, verify, accept, refuse, provider_error, conclude, check_proof, challenge,
  ask_payment, request_hash_of, charge, config_for, enforce_x402,
}

module _ {S : Type 0} (o : Outside S) (crates : Crates) where
  -- The provider of the configuration was asked about the proofs of the request, for the amount and
  -- the recipient of the configuration, and said that they are paid.
  pub record Paid (registry : Registry S) (req : Request) (cfg : X402Config) : Type 0 where
    pub provider : PaymentProvider S
    pub registered : require registry cfg.provider ≡ ok provider
    pub input : VerifyInput
    pub proofs :
        (input.payment_id, input.payment_token) ≡ extract_payment_headers crates.to_str req.headers
    pub has_proof : (is_some input.payment_id || is_some input.payment_token) ≡ true
    pub amount : input.amount ≡ cfg.amount
    pub currency : input.currency ≡ cfg.currency
    pub recipient : input.recipient ≡ cfg.recipient
    pub at : S
    pub output : VerifyOutput
    pub said : (provider.verify input at).0 ≡ ok output
    pub verified : output.verified ≡ true

  -- The request goes on unchanged, and it is paid for.
  abbrev GoesOn : Registry S → Request → X402Config → Request → World S → Type 0
  GoesOn registry req cfg r w = (r ≡ req) × Paid registry req cfg

  module _ (Q : Request → World S → Type 0) (req : Request) (cfg : X402Config)
      (payment_id payment_token : Option Text) where
    accept_ends :
        (pending : Option PaymentIntent) (w : World S)
        → ((v : World S) → Q req v)
        → Ensures Q (accept o crates req pending payment_id payment_token w)
    unfolding accept
    accept_ends none w q = went req w (q w)
    accept_ends (some intent) w q = Ensures-skip _ _ λ _ v. went req v (q v)

    refuse_ends :
        (vk : VirtualKeyCtx) (pending : Option PaymentIntent) (out : VerifyOutput) (w : World S)
        → Ensures Q (refuse o crates vk req cfg pending payment_id payment_token out w)
    unfolding refuse event
    refuse_ends vk none out w = stopped _ _
    refuse_ends vk (some intent) out w = Ensures-skip _ _ λ _ v. stopped _ _

    conclude_ends :
        (vk : VirtualKeyCtx) (pending : Option PaymentIntent) (out : Result VerifyOutput)
        (w : World S)
        → ((output : VerifyOutput)
            → out ≡ ok output
            → output.verified ≡ true
            → (v : World S) → Q req v)
        → Ensures Q (conclude o crates vk req cfg pending payment_id payment_token out w)
    unfolding conclude provider_error event
    conclude_ends vk none (err m) w q = stopped _ _
    conclude_ends vk (some intent) (err m) w q = stopped _ _
    conclude_ends vk pending (ok out) w q =
        Ensures-if out.verified (accept o crates req pending payment_id payment_token)
          (refuse o crates vk req cfg pending payment_id payment_token out) w
          (λ paid. accept_ends pending w (q out refl paid)) (λ _. refuse_ends vk pending out w)

  check_proof_ends :
      (registry : Registry S) (provider : PaymentProvider S) (vk : VirtualKeyCtx) (req : Request)
      (cfg : X402Config) (hash : Text) (w : World S)
      → require registry cfg.provider ≡ ok provider
      → let proofs = extract_payment_headers crates.to_str req.headers in
        (is_some proofs.0 || is_some proofs.1) ≡ true
        → Ensures
            (GoesOn registry req cfg)
            (check_proof o crates provider vk req cfg hash proofs.0 proofs.1 w)
  unfolding check_proof verify
  check_proof_ends registry provider vk req cfg hash w registered has =
      Ensures-skip (check_payment_id o crates vk req cfg hash proofs.0 w) _ λ _ w1.
        Ensures-skip (check_payment_token o crates vk req cfg hash proofs.1 w1) _ λ _ w2.
          Ensures-skip (or_db_error o crates (found w2).0 (found w2).1) _ λ pending w3.
            conclude_ends (GoesOn registry req cfg) req cfg proofs.0 proofs.1 vk pending
              (verify o crates provider input w3).0 (verify o crates provider input w3).1
              λ output said verified v. (
                refl,
                record {
                  provider = provider;
                  registered = registered;
                  input = input;
                  proofs = refl;
                  has_proof = has;
                  amount = refl;
                  currency = refl;
                  recipient = refl;
                  at = w3.out;
                  output = output;
                  said = said;
                  verified = verified;
                },
              )
    where
      proofs : Option Text × Option Text
      proofs = extract_payment_headers crates.to_str req.headers

      input : VerifyInput
      input = record {
        payment_id = proofs.0;
        payment_token = proofs.1;
        amount = cfg.amount;
        currency = cfg.currency;
        recipient = cfg.recipient;
        facilitator_url = cfg.facilitator_url;
      }

      found : World S → Result (Option PaymentIntent) × World S
      found v = find_pending o vk.id (parse_partner_from_path req.path) req.path hash v

  challenge_ends :
      (Q : Request → World S → Type 0) (vk : VirtualKeyCtx) (req : Request) (cfg : X402Config)
      (inserted : Result ℕ) (w : World S)
      → Ensures Q (challenge o crates vk req cfg inserted w)
  unfolding challenge event
  challenge_ends Q vk req cfg (ok id) w = stopped _ _
  challenge_ends Q vk req cfg (err e) w = stopped _ _

  charge_ends :
      (registry : Registry S) (vk : VirtualKeyCtx) (req : Request) (cfg : X402Config) (w : World S)
      → Ensures (GoesOn registry req cfg) (charge o crates registry vk req cfg w)
  unfolding charge require_provider event ask_payment
  charge_ends registry vk req cfg w = elim (Result-cases (require registry cfg.provider)) [
    | inl (provider, e) ↦
        rw (e, charge, require_provider)
          (Ensures-skip _ _ λ body v.
            Ensures-if _
              (check_proof o crates provider vk req cfg (request_hash_of o crates req body) _ _)
              (ask_payment o crates vk req cfg (request_hash_of o crates req body)) v
              (λ has.
                check_proof_ends registry provider vk req cfg (request_hash_of o crates req body) v
                  e has)
              (λ _. challenge_ends (GoesOn registry req cfg) vk req cfg _ _))
    | inr (m, e) ↦ rw (e, charge, require_provider) (stopped _ _)
  ]

  -- Where the middleware lets a request go on, the request is unchanged, and either x402 is off for
  -- it or the provider of its configuration has verified its payment proofs for the amount, the
  -- currency and the recipient of the configuration.
  pub enforce_x402-Paid :
      (registry : Registry S) (vk : VirtualKeyCtx) (req r : Request) (w w' : World S)
      → enforce_x402 o crates registry vk req w ≡ (go r, w')
      → (r ≡ req)
        × ((config_for o crates vk req ≡ none)
            ⊎ ((cfg : X402Config) × (config_for o crates vk req ≡ some cfg)
                × Paid registry req cfg))
  unfolding enforce_x402
  enforce_x402-Paid registry vk req r w w' e = elim (Option-cases (config_for o crates vk req)) [
    | inl off ↦ (cc (rw (off, enforce_x402) at e), inl off)
    | inr (cfg, on) ↦
        let (same, paid) =
          Ensures-go (charge_ends registry vk req cfg w) (rw (on, enforce_x402) at e) in
        (same, inr (cfg, on, paid))
  ]
