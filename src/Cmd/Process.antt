-- ===== src/Cmd/Process.antt =====
-- StartProcessor of cmd/process.go: one turn of a worker, from taking a transaction off the queue
-- to putting it back. Logging is left out, and `none` is a panic.
pub mod Terminal
pub mod Moves
pub mod Transitions
pub mod Stuck
pub mod Lift
pub mod Gauge
pub mod Payload
use noble_cctp_relayer.Base.{
  ℕ, suc, ◌+◌, List, [], ◌∷◌, ◌++◌, Text, text, Bool, true, false, ◌&&◌, ◌||◌, Option, some, none,
  Result, ok, err, panic, ltb, ◌==◌, if◌then◌else◌, text_eq, Map, lookup, insert, nat_key,
}
use noble_cctp_relayer.Types.State.{
  MessageState, MessagePtr, TxState, TxPtr, StateMap, load, store, status_eq, created, pending,
  attested, complete, filtered,
}
use noble_cctp_relayer.Types.Settings.{CircleSettings, ApiVersion, v1, v2, get_api_version}
use noble_cctp_relayer.Types.Filter.{FilterRegistry, filter_message}
use noble_cctp_relayer.Types.World.{
  World, Run, done, crash, Chain, BroadcastError, Metric, AttestationLabel, inc_attestation,
  inc_pending, dec_pending, set_message, observe, tick,
}
use noble_cctp_relayer.Types.World
use noble_cctp_relayer.Circle.Attestation.{
  CircleApi, AttestationResponse, MessageResponseV2, MessagesError, check_attestation,
  get_attestation_v2_message,
}
use noble_cctp_relayer.Circle.Reattest.{
  Batches, ReattestResult, parse_expiration_block, handle_expiring_attestation,
  apply_reattest_result, remove_message_from_queue,
}

-- What a worker is started with. `map_order` is the order in which `range` visits a map.
pub record Env : Type 0 where
  pub registry : Option FilterRegistry
  pub api : CircleApi
  pub circle : CircleSettings
  pub domains : Map ℕ Chain
  pub map_order : Batches → List (ℕ × List MessagePtr)

-- The variables of one turn.
pub record Turn : Type 0 where
  pub world : World
  pub batches : Batches
  pub requeue : Bool

-- The loop body goes on, or leaves by `continue`.
pub data Next : Type 0 where
  go_on : Turn → Next
  skip : Turn → Next

abbrev pub label : AttestationLabel → MessageState → Metric
label l msg = inc_attestation l msg.source_domain msg.dest_domain

unfoldable pub mark_filtered : MessagePtr → World → World
mark_filtered p w =
    let msg = w.heap p in
    let w' = set_message p (record msg { status = filtered }) w in
    if status_eq msg.status filtered then w' else observe (label AttestationLabel.filtered msg) w'

unfoldable pub verdict : Env → World → MessagePtr → Result ⊥ (Bool × Text)
verdict env w p = elim env.registry [
  | none ↦ ok (false, [])
  | some r ↦ filter_message r w.clock (w.heap p)
]

abbrev filter_step : MessagePtr → Result ⊥ (Bool × Text) → World → Option World
filter_step p (ok (true, reason)) w = some (mark_filtered p w)
filter_step p (ok (false, reason)) w = some w
filter_step p (err e) w = elim e [ ]
filter_step p panic w = none

abbrev is_v2 : Option ApiVersion → Bool
is_v2 none = false
is_v2 (some v1) = false
is_v2 (some v2) = true

abbrev v2_details : MessagePtr → Result MessagesError MessageResponseV2 → World → World
v2_details p (ok m) w =
    set_message p
      (record (w.heap p) {
        cctp_version = m.cctp_version;
        expiration_block = parse_expiration_block m.expiration_block;
      })
      w
v2_details p (err e) w = w
v2_details p panic w = w

unfoldable pub fetch_details : Env → MessagePtr → World → World
fetch_details env p w =
    let msg = w.heap p in
    v2_details p
      (get_attestation_v2_message env.api w.clock env.circle.attestation_base_url msg.source_tx_hash
        msg.source_domain)
      (tick w)

abbrev or_empty : Option (List MessagePtr) → List MessagePtr
or_empty none = []
or_empty (some ms) = ms

-- broadcastMsgs[domain] = append(broadcastMsgs[domain], msg)
unfoldable pub append_to_batch : ℕ → MessagePtr → Batches → Batches
append_to_batch domain p batches =
    insert domain (or_empty (lookup domain batches) ++ (p ∷ [])) batches

unfoldable pub mark_attested : MessagePtr → AttestationResponse → World → World
mark_attested p r w =
    let msg = w.heap p in
    let w' =
      set_message p
        (record msg { status = attested; attestation = r.attestation; updated_at = w.clock }) w in
    let counted = observe (label AttestationLabel.complete msg) w' in
    if status_eq msg.status pending
    then observe (dec_pending msg.source_domain msg.dest_domain) counted
    else counted

unfoldable pub complete_attestation : Env → MessagePtr → AttestationResponse → Turn → Turn
complete_attestation env p r t =
    let w = mark_attested p r t.world in
    let w' = if is_v2 (get_api_version env.circle) then fetch_details env p w else w in
    record t { world = w'; batches = append_to_batch (t.world.heap p).dest_domain p t.batches }

unfoldable pub mark_pending : MessagePtr → World → World
mark_pending p w =
    let msg = w.heap p in
    observe (inc_pending msg.source_domain msg.dest_domain) (
      observe (label AttestationLabel.pending msg)
        (set_message p (record msg { status = pending; updated_at = w.clock }) w))

-- The switch on the response.
unfoldable pub on_response : Env → MessagePtr → Option AttestationResponse → Turn → Next
on_response env p none t = skip (record t { requeue = true })
on_response env p (some r) t =
    let msg = t.world.heap p in
    if status_eq msg.status created && text_eq r.status (text "pending_confirmations")
    then skip (record t { world = mark_pending p t.world; requeue = true })
    else if text_eq r.status (text "pending_confirmations")
    then skip (record t { requeue = true })
    else if text_eq r.status (text "complete")
    then go_on (complete_attestation env p r t)
    else go_on (record t { world = observe (label AttestationLabel.failed msg) t.world })

unfoldable pub attestation_step : Env → MessagePtr → Turn → Next
attestation_step env p t =
    let msg = t.world.heap p in
    if status_eq msg.status created || status_eq msg.status pending
    then on_response env p
        (check_attestation env.api t.world.clock env.circle msg.iris_lookup_id msg.source_tx_hash
          msg.source_domain)
        (record t { world = tick t.world })
    else go_on t

-- The message and its attestation are handled by package circle; two requests may go out.
unfoldable pub renew : Env → MessagePtr → Chain → Turn → Turn
renew env p chain t =
    let msg = t.world.heap p in
    let result =
      (handle_expiring_attestation env.api t.world.clock msg env.circle
        (chain.latest_block t.world.clock)).0 in
    let w = apply_reattest_result p result (tick (tick t.world)) in
    if result.remove_from_queue
    then record {
      world = w;
      batches = remove_message_from_queue p msg.dest_domain t.batches;
      requeue = true;
    }
    else record t { world = w }

abbrev renew_on : Env → MessagePtr → Option Chain → Turn → Turn
renew_on env p none t = t
renew_on env p (some chain) t = renew env p chain t

unfoldable pub expiry_step : Env → MessagePtr → Turn → Turn
expiry_step env p t =
    let msg = t.world.heap p in
    if is_v2 (get_api_version env.circle)
      && status_eq msg.status attested
      && ltb 0 msg.expiration_block
    then renew_on env p (lookup msg.dest_domain env.domains) t
    else t

abbrev after_attestation : Env → MessagePtr → Next → Turn
after_attestation env p (go_on t) = expiry_step env p t
after_attestation env p (skip t) = t

abbrev after_filter : Env → MessagePtr → Option World → Turn → Option Turn
after_filter env p none t = none
after_filter env p (some w) t =
    some (after_attestation env p (attestation_step env p (record t { world = w })))

-- The body of the loop over tx.Msgs.
unfoldable pub message_step : Env → MessagePtr → Turn → Option Turn
message_step env p t = after_filter env p (filter_step p (verdict env t.world p) t.world) t

abbrev or_crash : Option Turn → (Turn → Option Turn) → Option Turn
or_crash none k = none
or_crash (some t) k = k t

unfoldable pub message_loop : Env → List MessagePtr → Turn → Option Turn
message_loop env [] t = some t
message_loop env (p ∷ ps) t = or_crash (message_step env p t) (message_loop env ps)
