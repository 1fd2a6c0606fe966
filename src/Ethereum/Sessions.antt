-- ===== src/Ethereum/Sessions.antt =====
-- StartListener and startMainStream of ethereum/listener.go: one session after another, each from its
-- subscription to the end of its websocket stream, outside flush-only mode. The routines of a
-- session put their transactions on one queue; their order on it is not modelled, and a flush that
-- runs when the stream ends is taken as finished.
pub mod Unbroken
use noble_cctp_relayer.Base.{
  ℤ, ℕ, List, [], ◌∷◌, ◌++◌, Bool, false, Option, some, none, if◌then◌else◌,
}
use noble_cctp_relayer.Types.EvmLog.{EvmLibrary, EvmLog}
use noble_cctp_relayer.Timer.{Wake}
use noble_cctp_relayer.Ethereum.History.{ObservedTx}
use noble_cctp_relayer.Ethereum.Stream.{StreamEvent, StreamState, initial, consume_stream}
use noble_cctp_relayer.Ethereum.Flush.{Firing, FlushState, flush_mechanism}
use noble_cctp_relayer.Ethereum.Listener.{session_history}

-- The answers to the attempts to subscribe; a missing one is an error, after which it tries again.
unfoldable pub start_main_stream {ℓ} : {A : Type ℓ} → List (Option A) → Option A
start_main_stream [] = none
start_main_stream (none ∷ rest) = start_main_stream rest
start_main_stream (some a ∷ rest) = some a

-- What the outside answers in a session: to the attempts to subscribe, with the logs that come with
-- the subscription; LatestBlock and the logs of the node when the history is read; the events of
-- the stream; and the firings of the flush before the stream ends.
pub record Connection : Type 0 where
  pub subscribed : List (Option (List EvmLog))
  pub latest : ℕ
  pub now : ℕ
  pub logs_in : ℤ → ℤ → List EvmLog
  pub events : List StreamEvent
  pub firings : List (Wake Firing)

-- The fields of Ethereum that the listener sets, and the processing queue.
pub record ListenState : Type 0 where
  pub start_block : ℕ
  pub last_flushed_block : ℕ
  pub queue : List ObservedTx

-- e.startBlock = e.lastFlushedBlock
abbrev pub restart : Option FlushState → Option ListenState
restart none = none
restart (some f) = some (record {
  start_block = f.last_flushed_block;
  last_flushed_block = f.last_flushed_block;
  queue = f.queue;
})

abbrev pub and_then : Option ListenState → (ListenState → Option ListenState) → Option ListenState
and_then none k = none
and_then (some s) k = k s

-- `flushing` says whether there is a flush interval; `none` is a panic.
module _ (lib : EvmLibrary) (flushing : Bool) (lookback : ℕ) where
  abbrev pub flush_from : Connection → ℕ → List ObservedTx → Option ListenState
  flush_from c last queue =
      let s : FlushState = record { last_flushed_block = last; queue = queue } in
      restart (if flushing then flush_mechanism lib false lookback c.firings s else some s)

  abbrev pub with_stream :
      Connection → ListenState → List ObservedTx → Option StreamState → Option ListenState
  with_stream c s txs none = none
  with_stream c s txs (some streamed) =
      flush_from c s.last_flushed_block (s.queue ++ (txs ++ streamed.queued))

  abbrev pub with_history : Connection → ListenState → Option (List ObservedTx) → Option ListenState
  with_history c s none = none
  with_history c s (some txs) = with_stream c s txs (consume_stream c.events initial)

  unfoldable pub listen : Connection → List EvmLog → ListenState → Option ListenState
  listen c history s = with_history c s (
      session_history lib c.now c.logs_in lookback
        (record { start_block = s.start_block; last_flushed_block = s.last_flushed_block })
        (record { latest = c.latest; history = history; flush_heights = [] }))

  -- Without a subscription the listener goes on trying.
  abbrev pub on_main_stream :
      Connection
      → (ListenState → Option ListenState)
      → ListenState
      → Option (List EvmLog)
      → Option ListenState
  on_main_stream c rest s none = some s
  on_main_stream c rest s (some history) = and_then (listen c history s) rest

  -- StartListener, with its calls of itself.
  unfoldable pub start_listener : List Connection → ListenState → Option ListenState
  start_listener [] s = some s
  start_listener (c ∷ cs) s =
      on_main_stream c (start_listener cs) s (start_main_stream c.subscribed)
