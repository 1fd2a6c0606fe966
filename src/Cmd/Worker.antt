-- ===== src/Cmd/Worker.antt =====
-- StartProcessor of cmd/process.go, second part: the broadcast of the batches, the retry, and the
-- turn as a step on the shared state: the State map, the queue and the heap.
-- The turns of several workers interleave; a turn is one step here. The channel's bound of
-- 10000 and the sleep before a retry are left out.
pub mod Drained
pub mod Unchanged
use noble_cctp_relayer.Base.{
  ℕ, zero, suc, ◌+◌, List, [], ◌∷◌, ◌++◌, Text, Bool, true, false, Option, some, none, ltb, ◌==◌,
  if◌then◌else◌, lookup, nat_key,
}
use noble_cctp_relayer.Types.State.{
  MessageState, MessagePtr, TxState, TxPtr, StateMap, load, store, created, complete,
}
use noble_cctp_relayer.Types.World.{
  World, Run, done, crash, Chain, BroadcastError, AttestationLabel, inc_attestation, set_message,
  observe, tick,
}
use noble_cctp_relayer.Cmd.Process.{Env, Turn, message_loop}

-- After a broadcast without an error: the loop under the lock, and the loop over the metrics.
unfoldable pub mark_complete : List MessagePtr → World → World
mark_complete [] w = w
mark_complete (p ∷ ps) w =
    mark_complete ps
      (set_message p (record (w.heap p) { status = complete; updated_at = w.clock }) w)

unfoldable pub count_minted : ℕ → List MessagePtr → World → World
count_minted domain [] w = w
count_minted domain (p ∷ ps) w =
    count_minted domain ps
      (observe (inc_attestation AttestationLabel.minted (w.heap p).source_domain domain) w)

-- The world and the flag `requeue`; `none` is a panic.
abbrev Broadcasts : Type 0
Broadcasts = Option (World × Bool)

unfoldable pub after_broadcast :
    ℕ → List MessagePtr → Bool → Run (Option BroadcastError) → Broadcasts
after_broadcast domain msgs requeue (done none w) =
    some (count_minted domain msgs (mark_complete msgs w), requeue)
after_broadcast domain msgs requeue (done (some e) w) = some (w, true)
after_broadcast domain msgs requeue crash = none

broadcast_on : ℕ → List MessagePtr → Option Chain → World → Bool → Broadcasts
unfolding after_broadcast
broadcast_on domain msgs none w requeue = some (w, requeue)
broadcast_on domain msgs (some chain) w requeue =
    after_broadcast domain msgs requeue (chain.broadcast msgs w)

abbrev then_rest : Broadcasts → (World → Bool → Broadcasts) → Broadcasts
then_rest none k = none
then_rest (some (w, requeue)) k = k w requeue

unfoldable pub broadcast_batches : Env → List (ℕ × List MessagePtr) → World → Bool → Broadcasts
unfolding broadcast_on
broadcast_batches env [] w requeue = some (w, requeue)
broadcast_batches env ((domain, msgs) ∷ rest) w requeue =
    then_rest (broadcast_on domain msgs (lookup domain env.domains) w requeue)
      (broadcast_batches env rest)

-- What the workers share.
pub record Node : Type 0 where
  pub txs : TxPtr → TxState
  pub state : StateMap
  pub queue : List TxPtr
  pub world : World

abbrev pub update_tx : (TxPtr → TxState) → TxPtr → TxState → TxPtr → TxState
update_tx txs p t q = if p == q then t else txs q

-- The first sight of a transaction.
unfoldable pub observe_created : List MessagePtr → World → World
observe_created [] w = w
observe_created (p ∷ ps) w =
    let msg = w.heap p in
    observe_created ps (
      observe (inc_attestation AttestationLabel.observed msg.source_domain msg.dest_domain)
        (set_message p (record msg { status = created }) w))

-- The transaction to process, with the state after it was looked up or stored.
unfoldable pub admit : TxPtr → Node → TxPtr × Node
admit dequeued n = elim (load (n.txs dequeued).tx_hash n.state) [
  | some tx ↦ (tx, n)
  | none ↦ (
    dequeued,
    record n {
      state = store (n.txs dequeued).tx_hash dequeued n.state;
      world = observe_created (n.txs dequeued).msgs n.world;
    },
  )
]

-- The count of the dequeued object goes up, and the loaded object goes back on the queue.
unfoldable pub retry : Env → TxPtr → TxPtr → Node → Node
retry env dequeued tx n =
    let t = n.txs dequeued in
    if ltb t.retry_attempt env.circle.fetch_retries
    then record n {
      txs = update_tx n.txs dequeued (record t { retry_attempt = t.retry_attempt + 1 });
      queue = n.queue ++ (tx ∷ []);
      world = tick n.world;
    }
    else n

abbrev finish : Env → TxPtr → TxPtr → Node → Broadcasts → Option Node
finish env dequeued tx n none = none
finish env dequeued tx n (some (w, true)) = some (retry env dequeued tx (record n { world = w }))
finish env dequeued tx n (some (w, false)) = some (record n { world = w })

abbrev broadcast_turn : Env → Option Turn → Broadcasts
broadcast_turn env none = none
broadcast_turn env (some t) = broadcast_batches env (env.map_order t.batches) t.world t.requeue

unfoldable pub turn_on : Env → TxPtr → TxPtr × Node → Option Node
turn_on env dequeued (tx, n) = finish env dequeued tx n (
    broadcast_turn env (
      message_loop env (n.txs tx).msgs (record { world = n.world; batches = []; requeue = false })))

-- The turn on a transaction that is off the queue.
unfoldable pub process_tx : Env → TxPtr → Node → Option Node
process_tx env dequeued n = turn_on env dequeued (admit dequeued n)

abbrev next_of : Env → List TxPtr → Node → Option Node
next_of env [] n = some n
next_of env (p ∷ rest) n = process_tx env p (record n { queue = rest })

-- A worker waits while the queue is empty.
unfoldable pub process_next : Env → Node → Option Node
process_next env n = next_of env n.queue n

abbrev and_then : Option Node → (Node → Option Node) → Option Node
and_then none k = none
and_then (some n) k = k n

unfoldable pub process_turns : ℕ → Env → Node → Option Node
process_turns zero env n = some n
process_turns (suc k) env n = and_then (process_next env n) (process_turns k env)
