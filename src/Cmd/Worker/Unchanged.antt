-- ===== src/Cmd/Worker/Unchanged.antt =====
-- What the turns of the workers of cmd/process.go keep of the messages.
use noble_cctp_relayer.Base.{
  ℕ, zero, suc, List, [], ◌∷◌, Bool, true, false, Option, some, none, ◌≡◌, refl, ◌∙◌, inl, inr,
  Bool-cases, Option-cases, ltb, lookup, nat_key, subst,
}
use noble_cctp_relayer.Types.State.{MessagePtr, TxPtr, load}
use noble_cctp_relayer.Types.World.{World, Run, done, crash, Chain, BroadcastError}
use noble_cctp_relayer.Types.World.Payload.{payload_at, KeepsPayload, RunKeeps, IsFaithful}
use noble_cctp_relayer.Cmd.Process.{Env, Turn, message_loop}
use noble_cctp_relayer.Cmd.Process.Payload.{message_loop-KeepsPayload}
use noble_cctp_relayer.Cmd.Worker.{
  Node, Broadcasts, mark_complete, count_minted, after_broadcast, broadcast_on, then_rest,
  broadcast_batches, observe_created, admit, retry, finish, broadcast_turn, turn_on, process_tx,
  next_of, process_next, process_turns, and_then,
}

mark_complete-KeepsPayload :
    (msgs : List MessagePtr) (w : World) → KeepsPayload w (mark_complete msgs w)
unfolding mark_complete
mark_complete-KeepsPayload [] w = λ q. refl
mark_complete-KeepsPayload (p ∷ ps) w =
    λ q. mark_complete-KeepsPayload ps _ q ∙ payload_at p q w _ refl

count_minted-KeepsPayload :
    (domain : ℕ) (msgs : List MessagePtr) (w : World) → KeepsPayload w (count_minted domain msgs w)
unfolding count_minted
count_minted-KeepsPayload domain [] w = λ q. refl
count_minted-KeepsPayload domain (p ∷ ps) w = count_minted-KeepsPayload domain ps _

observe_created-KeepsPayload :
    (msgs : List MessagePtr) (w : World) → KeepsPayload w (observe_created msgs w)
unfolding observe_created
observe_created-KeepsPayload [] w = λ q. refl
observe_created-KeepsPayload (p ∷ ps) w =
    λ q. observe_created-KeepsPayload ps _ q ∙ payload_at p q w _ refl

abbrev Kept : World → Broadcasts → Type 0
Kept w none = Unit {0}
Kept w (some (w', requeue)) = KeepsPayload w w'

after_broadcast-Kept :
    (domain : ℕ) (msgs : List MessagePtr) (requeue : Bool) (r : Run (Option BroadcastError))
    (w : World)
    → RunKeeps w r
    → Kept w (after_broadcast domain msgs requeue r)
unfolding after_broadcast
after_broadcast-Kept domain msgs requeue (done none v) w h = λ q.
    count_minted-KeepsPayload domain msgs (mark_complete msgs v) q
    ∙ mark_complete-KeepsPayload msgs v q
    ∙ h q
after_broadcast-Kept domain msgs requeue (done (some e) v) w h = h
after_broadcast-Kept domain msgs requeue crash w h = tt

then_rest-Kept :
    (w : World) (r : Broadcasts) (k : World → Bool → Broadcasts)
    → Kept w r
    → ((v : World) (requeue : Bool) → Kept v (k v requeue))
    → Kept w (then_rest r k)
then_rest-Kept w none k h f = tt
then_rest-Kept w (some (v, requeue)) k h f = go (k v requeue) (f v requeue)
  where
    go : (r : Broadcasts) → Kept v r → Kept w r
    go none x = tt
    go (some (u, again)) x = λ q. x q ∙ h q

abbrev pub AreFaithful : Env → Type 0
AreFaithful env =
    (domain : ℕ) (chain : Chain) → lookup domain env.domains ≡ some chain → IsFaithful chain

module _ (env : Env) (faithful : AreFaithful env) where
  broadcast_on-Kept :
      (domain : ℕ) (msgs : List MessagePtr) (found : Option Chain)
      → lookup domain env.domains ≡ found
      → (w : World) (requeue : Bool) → Kept w (broadcast_on domain msgs found w requeue)
  unfolding broadcast_on
  broadcast_on-Kept domain msgs none e w requeue = λ q. refl
  broadcast_on-Kept domain msgs (some chain) e w requeue =
      after_broadcast-Kept domain msgs requeue (chain.broadcast msgs w) w
        (faithful domain chain e msgs w)

  broadcast_batches-Kept :
      (batches : List (ℕ × List MessagePtr)) (w : World) (requeue : Bool)
      → Kept w (broadcast_batches env batches w requeue)
  unfolding broadcast_batches
  broadcast_batches-Kept [] w requeue = λ q. refl
  broadcast_batches-Kept ((domain, msgs) ∷ rest) w requeue =
      then_rest-Kept w (broadcast_on domain msgs (lookup domain env.domains) w requeue) _
        (broadcast_on-Kept domain msgs (lookup domain env.domains) refl w requeue)
        (broadcast_batches-Kept rest)

  abbrev NodeKept : World → Option Node → Type 0
  NodeKept w none = Unit {0}
  NodeKept w (some n) = KeepsPayload w n.world

  finish-NodeKept :
      (dequeued tx : TxPtr) (n : Node) (w : World) (b : Broadcasts)
      → Kept w b
      → NodeKept w (finish env dequeued tx n b)
  unfolding retry
  finish-NodeKept dequeued tx n w none h = tt
  finish-NodeKept dequeued tx n w (some (v, false)) h = h
  finish-NodeKept dequeued tx n w (some (v, true)) h =
      elim (Bool-cases (ltb (n.txs dequeued).retry_attempt env.circle.fetch_retries)) [
        | inl left ↦ rw left h
        | inr spent ↦ rw spent h
      ]

  broadcast_turn-Kept :
      (t : Turn) (r : Option Turn)
      → ((t' : Turn) → r ≡ some t' → KeepsPayload t.world t'.world)
      → Kept t.world (broadcast_turn env r)
  broadcast_turn-Kept t none h = tt
  broadcast_turn-Kept t (some t') h =
      go (broadcast_batches env (env.map_order t'.batches) t'.world t'.requeue)
        (broadcast_batches-Kept (env.map_order t'.batches) t'.world t'.requeue)
    where
      go : (r : Broadcasts) → Kept t'.world r → Kept t.world r
      go none x = tt
      go (some (u, again)) x = λ q. x q ∙ h t' refl q

  turn_on-NodeKept :
      (dequeued : TxPtr) (w : World) (r : TxPtr × Node)
      → KeepsPayload w r.1.world
      → NodeKept w (turn_on env dequeued r)
  unfolding turn_on
  turn_on-NodeKept dequeued w (tx, n) h =
      let t : Turn = record { world = n.world; batches = []; requeue = false } in
      finish-NodeKept dequeued tx n w _ (
        go _ (
          broadcast_turn-Kept t (message_loop env (n.txs tx).msgs t)
            (message_loop-KeepsPayload env (n.txs tx).msgs t)))
    where
      go : (r : Broadcasts) → Kept n.world r → Kept w r
      go none x = tt
      go (some (u, again)) x = λ q. x q ∙ h q

  admit-KeepsPayload :
      (dequeued : TxPtr) (n : Node) → KeepsPayload n.world (admit dequeued n).1.world
  unfolding admit
  admit-KeepsPayload dequeued n = elim (Option-cases (load (n.txs dequeued).tx_hash n.state)) [
    | inl fresh ↦ rw (fresh, admit) (observe_created-KeepsPayload (n.txs dequeued).msgs n.world)
    | inr (tx, known) ↦ rw (known, admit) (λ q. refl)
  ]

  process_next-NodeKept : (n : Node) → NodeKept n.world (process_next env n)
  unfolding process_next process_tx
  process_next-NodeKept n = go n.queue
    where
      go : (queue : List TxPtr) → NodeKept n.world (next_of env queue n)
      go [] = λ q. refl
      go (p ∷ rest) =
          let n' : Node = record n { queue = rest } in
          turn_on-NodeKept p n.world (admit p n') (admit-KeepsPayload p n')

  turns-NodeKept : (k : ℕ) (n : Node) → NodeKept n.world (process_turns k env n)
  unfolding process_turns
  turns-NodeKept zero n = λ q. refl
  turns-NodeKept (suc k) n = go (process_next env n) (process_next-NodeKept n) (turns-NodeKept k)
    where
      go :
          (o : Option Node)
          → NodeKept n.world o
          → ((m : Node) → NodeKept m.world (process_turns k env m))
          → NodeKept n.world (and_then o (process_turns k env))
      go none h f = tt
      go (some m) h f = on (process_turns k env m) (f m)
        where
          on : (r : Option Node) → NodeKept m.world r → NodeKept n.world r
          on none x = tt
          on (some u) x = λ q. x q ∙ h q

  -- Turns of the workers over chains whose broadcasts keep the payloads keep those of all messages.
  pub process_turns-KeepsPayload :
      (k : ℕ) (n n' : Node) → process_turns k env n ≡ some n' → KeepsPayload n.world n'.world
  process_turns-KeepsPayload k n n' e = subst (NodeKept n.world) e (turns-NodeKept k n)
