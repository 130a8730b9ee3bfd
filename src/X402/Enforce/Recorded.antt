-- ===== src/X402/Enforce/Recorded.antt =====
-- A recorded payment pays for one request, whatever requests come in between.
use relaykey_backend.Base.{◌≡◌, subst, true, some}
use relaykey_backend.Text.{Text}
use relaykey_backend.Context.{VirtualKeyCtx, Request}
use relaykey_backend.Db.{PaymentIntent, verified}
use relaykey_backend.Db.PaymentIntents.{unique_rows}
use relaykey_backend.Db.PaymentIntents.Indexes.{In}
use relaykey_backend.Db.PaymentIntents.History.{Reach, here, Reach-trans, Reach-unique, Reach-In}
use relaykey_backend.World.{Outside, World}
use relaykey_backend.X402.Config.{X402Config}
use relaykey_backend.X402.Provider.{Registry}
use relaykey_backend.X402.Checks.{Crates}
use relaykey_backend.X402.Enforce.{enforce_x402}
use relaykey_backend.X402.Enforce.Table.{enforce_x402-Reach}
use relaykey_backend.X402.Enforce.Replay.{IsServing, IsReused, Refused, enforce_x402-blocks-replay}

module _ {S : Type 0} (o : Outside S) (crates : Crates) where
  -- Requests of any keys go through the middleware one after another; between them everything may
  -- change but the table of payment intents.
  pub data History (w : World S) : World S → Type 0 where
    initial : History w w
    served :
        {u : World S}
        → History w u
        → (registry : Registry S) (vk : VirtualKeyCtx) (req : Request)
        → History w (enforce_x402 o crates registry vk req u).1
    elsewhere :
        {u v : World S} → History w u → u.db.payment_intents ≡ v.db.payment_intents → History w v

  History-Reach :
      {w v : World S}
      → unique_rows w.db.payment_intents ≡ true
      → History w v
      → Reach w.db.payment_intents v.db.payment_intents
  History-Reach unique initial = here
  History-Reach {w} unique (served {u} h registry vk req) =
      let r = History-Reach unique h in
      Reach-trans r (enforce_x402-Reach o crates registry vk req u (Reach-unique unique r)).0
  History-Reach {w} unique (elsewhere h e) =
      subst (Reach w.db.payment_intents) e (History-Reach unique h)

  -- Where statements get through, bodies can be read, and the unique keys of the table hold: once a
  -- verified intent holds a payment id, then after any number of requests, one after another, a
  -- request that is charged for by a registered provider and shows that payment id, but has another
  -- hash, is answered by 402, and the table changes by expiry only.
  pub recorded_payment_blocks_replay :
      (up : IsServing o crates) (vk : VirtualKeyCtx) (req : Request) (cfg : X402Config)
      (registry : Registry S) (w v : World S) (pid : Text) (row : PaymentIntent)
      → unique_rows w.db.payment_intents ≡ true
      → In row w.db.payment_intents
      → row.status ≡ verified
      → row.payment_id ≡ some pid
      → History w v
      → IsReused o crates up vk req cfg registry pid row
      → Refused o crates up vk req cfg v (enforce_x402 o crates registry vk req v)
  recorded_payment_blocks_replay up vk req cfg registry w v pid row unique held settled proof h r =
      let reach = History-Reach unique h in
      enforce_x402-blocks-replay o crates up vk req cfg registry v pid row
        (Reach-unique unique reach) (Reach-In row settled unique reach held) settled proof r
