-- ===== src/Ethereum/Listener.antt =====
-- StartListener of ethereum/listener.go: what a session asks for, from its start to the end of its
-- websocket stream, and with which blocks the next session starts. The stream is in Stream.
pub mod Restart
use noble_cctp_relayer.Base.{
  ℤ, ℕ, List, [], Bool, true, false, Option, some, none, ◌==◌, not, ltb, if◌then◌else◌, sub64,
}
use noble_cctp_relayer.Types.EvmLog.{EvmLibrary, EvmLog}
use noble_cctp_relayer.Flush.{flush_run}
use noble_cctp_relayer.Ethereum.History.{
  ObservedTx, consume_history, get_and_consume_history, join, chunk_loop,
}

-- The fields of Ethereum that change between sessions.
pub record ListenerState : Type 0 where
  pub start_block : ℕ
  pub last_flushed_block : ℕ

-- A session: LatestBlock at its start, the logs that come with the subscription, and the heights at
-- the firings of the flush before the stream ends.
pub record Session : Type 0 where
  pub latest : ℕ
  pub history : List EvmLog
  pub flush_heights : List ℕ

abbrev pub first_block : ListenerState → Session → ℕ
first_block s session = if not (s.start_block == 0) then s.start_block else session.latest

-- start - e.lookbackPeriod
unfoldable pub start_lookback : ℕ → ListenerState → Session → ℕ
start_lookback lookback s session = sub64 (first_block s session) lookback

-- The history that a session consumes before it listens; `none` is a panic.
unfoldable pub session_history :
    EvmLibrary
    → ℕ
    → (ℤ → ℤ → List EvmLog)
    → (lookback : ℕ) → ListenerState
    → Session
    → Option (List ObservedTx)
unfolding start_lookback
session_history lib now logs_in lookback s session =
    join (consume_history lib now session.history)
      (get_and_consume_history lib now logs_in (start_lookback lookback s session) session.latest)

-- The state when the stream has ended, for the restart, and the ranges flushed by then.
unfoldable pub end_session :
    (flushing : Bool) → (lookback : ℕ) → ListenerState → Session → ListenerState × List (ℕ × ℕ)
end_session flushing lookback s session =
    let (last, ranges) =
      if flushing
      then flush_run false lookback session.flush_heights s.last_flushed_block
      else (s.last_flushed_block, []) in
    (record { start_block = last; last_flushed_block = last }, ranges)
