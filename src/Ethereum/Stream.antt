-- ===== src/Ethereum/Stream.antt =====
-- consumeStream of ethereum/listener.go: the logs of a websocket stream are gathered by source
-- transaction. The parsed logs and the moments at which none is waiting come as a list of events;
-- the end of the list is the end of the subscription.
pub mod Gathered
use noble_cctp_relayer.Base.{
  ℕ, List, [], ◌∷◌, ◌++◌, Text, Bool, true, false, not, Option, some, none, if◌then◌else◌, text_eq,
  Result, ok, err, panic,
}
use noble_cctp_relayer.Types.State.{MessageState}
use noble_cctp_relayer.Types.EvmLog.{LogError}
use noble_cctp_relayer.Ethereum.History.{ObservedTx}

-- A case of the select: a log from the stream, as EvmLogToMessageState reads it, or `default`.
pub data StreamEvent : Type 0 where
  stream_log : Result LogError MessageState → StreamEvent
  nothing_waits : StreamEvent

-- `txState`, and the transactions put on the processing queue, the last one first.
pub record StreamState : Type 0 where
  pub tx_state : Option ObservedTx
  pub queued : List ObservedTx

abbrev new_tx : MessageState → ObservedTx
new_tx m = record { tx_hash = m.source_tx_hash; msgs = m ∷ [] }

unfoldable pub on_message : Option ObservedTx → MessageState → List ObservedTx → StreamState
on_message none m queued = record { tx_state = some (new_tx m); queued = queued }
on_message (some tx) m queued =
    if not (text_eq m.source_tx_hash tx.tx_hash)
    then record { tx_state = some (new_tx m); queued = tx ∷ queued }
    else record { tx_state = some (record tx { msgs = tx.msgs ++ (m ∷ []) }); queued = queued }

unfoldable pub on_default : Option ObservedTx → List ObservedTx → StreamState
on_default none queued = record { tx_state = none; queued = queued }
on_default (some tx) queued = record { tx_state = none; queued = tx ∷ queued }

-- `none` is a panic.
unfoldable pub on_event : StreamEvent → StreamState → Option StreamState
on_event (stream_log (ok m)) s = some (on_message s.tx_state m s.queued)
on_event (stream_log (err e)) s = some s
on_event (stream_log panic) s = none
on_event nothing_waits s = some (on_default s.tx_state s.queued)

abbrev and_then : Option StreamState → (StreamState → Option StreamState) → Option StreamState
and_then none k = none
and_then (some s) k = k s

unfoldable pub consume_stream : List StreamEvent → StreamState → Option StreamState
consume_stream [] s = some s
consume_stream (e ∷ es) s = and_then (on_event e s) (consume_stream es)

abbrev pub initial : StreamState
initial = record { tx_state = none; queued = [] }
