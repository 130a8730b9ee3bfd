-- ===== src/App/Serve/Upstreams.antt =====
-- What the route of the proxy sends upstream, and for whom.
use relaykey_backend.Base.{
  ℕ, ◌≤◌, ◌≡◌, refl, ap, ◌∙◌, ◌⊎◌, inl, inr, List, Option, none, some, if◌then◌else◌,
}
use relaykey_backend.Text.{Text}
use relaykey_backend.Http.{Response}
use relaykey_backend.Context.{VirtualKeyCtx, Request, Outcome, reply, go}
use relaykey_backend.Policies.{PolicyRow}
use relaykey_backend.Policies.Cache.{Codec}
use relaykey_backend.Auth.{AuthState}
use relaykey_backend.Limits.{Scripts}
use relaykey_backend.World.{Outside, Upstream, World, bind}
use relaykey_backend.World.Flow.{Leaves}
use relaykey_backend.X402.Checks.{Crates}
use relaykey_backend.Proxy.Steps.{Urls, is_idempotent}
use relaykey_backend.Proxy.Handler.{handler}
use relaykey_backend.Proxy.Handler.Loop.{sends}
use relaykey_backend.Proxy.Handler.Cleared.{Cleared}
use relaykey_backend.Proxy.Handler.Sent.{handler-Served}
use relaykey_backend.App.{extension_vk, protected}
use relaykey_backend.App.Gate.{Passed, protected-Passed}
use relaykey_backend.App.Serve.{extension_policy, extract_path, extracted, serve}
use relaykey_backend.App.Serve.Quiet.{protected-Quiet}

module _ {S U : Type 0} (o : Outside S) (codec : Codec) (state : AuthState) (redis : Scripts S)
    (crates : Crates) (missing_extension : Response) (urls : Urls U)
    (path_of : Request → Outcome (Text × Text)) where
  -- A request that the middlewares let through, with its context and its path, in the state in
  -- which its handler starts, and a cleared request that was sent for it a number of times.
  pub record Forwarded (req : Request) (w : World S) (sent : List Upstream) : Type 0 where
    pub passed : Request
    pub at : World S
    pub gate : Passed o codec state redis crates missing_extension req passed w at
    pub vk : VirtualKeyCtx
    pub keyed : passed.vk ≡ some vk
    pub policy : PolicyRow
    pub under : passed.policy ≡ some policy
    pub path : Text × Text
    pub routed : path_of passed ≡ go path
    pub upstream : Upstream
    pub cleared : Cleared o urls vk policy path.0 path.1 passed at upstream
    pub times : ℕ
    pub bounded : times ≤ (if is_idempotent passed.method then 2 else 1)
    pub forwarded : sent ≡ sends times upstream w.sent

  -- The route ends with a response, and has sent nothing, or only that.
  pub record Answered (req : Request) (w : World S) (m : Outcome (Unit {0}) × World S)
      : Type 0 where
    pub response : Response
    pub replies : m.0 ≡ reply response
    pub sent : (m.1.sent ≡ w.sent) ⊎ Forwarded req w m.1.sent

  module _ (req : Request) (w : World S) where
    refused : (r : Response) (v : World S) → v.sent ≡ w.sent → Answered req w (reply r, v)
    refused r v h = record { response = r; replies = refl; sent = inl h }

    module _ (passed : Request) (at : World S) (quiet : at.sent ≡ w.sent)
        (gate : Passed o codec state redis crates missing_extension req passed w at) where
      handled :
          (vk : VirtualKeyCtx) (policy : PolicyRow) (path : Text × Text)
          → passed.vk ≡ some vk
          → passed.policy ≡ some policy
          → path_of passed ≡ go path
          → Answered req w (handler o urls vk policy path.0 path.1 passed at)
      handled vk policy path keyed under routed =
          let s = handler-Served o urls vk policy path.0 path.1 passed at in
          record {
            response = s.response;
            replies = s.replies;
            sent = elim s.sent [
              | inl h ↦ inl (h ∙ quiet)
              | inr h ↦ inr (record {
                passed = passed;
                at = at;
                gate = gate;
                vk = vk;
                keyed = keyed;
                policy = policy;
                under = under;
                path = path;
                routed = routed;
                upstream = h.0;
                cleared = h.1;
                times = h.2;
                bounded = h.3;
                forwarded = h.4 ∙ ap (sends h.2 h.0) quiet;
              })
            ];
          }

      at_path :
          (vk : VirtualKeyCtx) (policy : PolicyRow) (r : Outcome (Text × Text))
          → passed.vk ≡ some vk
          → passed.policy ≡ some policy
          → path_of passed ≡ r
          → Answered req w (bind (r, at) (λ path. handler o urls vk policy path.0 path.1 passed))
      at_path vk policy (reply r) keyed under routed = refused r at quiet
      at_path vk policy (go path) keyed under routed = handled vk policy path keyed under routed

      at_policy :
          (vk : VirtualKeyCtx) (found : Option PolicyRow)
          → passed.vk ≡ some vk
          → passed.policy ≡ found
          → Answered req w (
              bind
                (extension_policy o codec state redis crates missing_extension urls path_of found
                  at)
                λ policy v.
                  bind
                    (extract_path o codec state redis crates missing_extension urls path_of passed
                      v)
                    (λ path. handler o urls vk policy path.0 path.1 passed))
      unfolding extension_policy extract_path
      at_policy vk none keyed under = refused missing_extension at quiet
      at_policy vk (some policy) keyed under = at_path vk policy (path_of passed) keyed under refl

      at_vk :
          (found : Option VirtualKeyCtx)
          → passed.vk ≡ found
          → Answered req w (
              bind (extension_vk o codec state redis crates missing_extension found at) λ vk v.
                bind
                  (extension_policy o codec state redis crates missing_extension urls path_of
                    passed.policy v)
                  λ policy u.
                    bind
                      (extract_path o codec state redis crates missing_extension urls path_of passed
                        u)
                      (λ path. handler o urls vk policy path.0 path.1 passed))
      unfolding extension_vk
      at_vk none keyed = refused missing_extension at quiet
      at_vk (some vk) keyed = at_policy vk passed.policy keyed refl

    after :
        (m : Outcome Request × World S)
        → protected o codec state redis crates missing_extension req w ≡ m
        → Leaves (λ v. v.sent ≡ w.sent) m
        → Answered req w
            (bind m (extracted o codec state redis crates missing_extension urls path_of))
    unfolding extracted
    after (reply r, v) e h = refused r v h.left
    after (go passed, v) e h =
        at_vk passed v h.left
          (protected-Passed o codec state redis crates missing_extension req passed w v e) passed.vk
          refl

  -- The route of the proxy always ends with a response, whatever the database, Redis, the payment
  -- provider and the upstream do. It has sent nothing upstream; or the request was authenticated,
  -- on its policy's allowlist, refused by no limiter that could be asked and, where x402 is on for
  -- it, paid for, and what it has sent, at most once, or at most twice for an idempotent method, is
  -- the one request that is built from the partner's row and its credential, to the partner's
  -- origin.
  pub serve-Answered :
      (req : Request) (w : World S)
      → Answered req w (serve o codec state redis crates missing_extension urls path_of req w)
  unfolding serve
  serve-Answered req w =
      after req w (protected o codec state redis crates missing_extension req w) refl
        (protected-Quiet o codec state redis crates missing_extension w.sent req w refl)
