-- ===== src/Ethereum/Sessions/Unbroken.antt =====
-- Which logs the sessions of ethereum/listener.go put on the queue, over its restarts.
use noble_cctp_relayer.Base.{ℤ, ℕ, ◌+◌, ◌^◌, ◌<◌, List, false, some, ok, ◌≡◌, All}
use noble_cctp_relayer.Types.State.{MessageState}
use noble_cctp_relayer.Types.EvmLog.{EvmLibrary, EvmLog, evm_log_to_message_state}
use noble_cctp_relayer.Timer.{fired}
use noble_cctp_relayer.Ethereum.History.Complete.{IsSafe, IsSafeLog, IsEmitted}
use noble_cctp_relayer.Ethereum.Stream.{StreamEvent, stream_log, nothing_waits}
use noble_cctp_relayer.Ethereum.Flush.Complete.{IsSound, Gives}
use noble_cctp_relayer.Ethereum.Sessions.{Connection, start_main_stream}

-- The reading of the log does not panic.
abbrev pub IsReadable : StreamEvent → Type 0
IsReadable (stream_log r) = IsSafe r
IsReadable nothing_waits = Unit

module _ (lib : EvmLibrary) (lookback : ℕ) where
  -- The session begins, no height wraps, and no log makes the reading panic.
  abbrev pub IsGood : Connection → Type 0
  IsGood c =
      ((history : List EvmLog) × (start_main_stream c.subscribed ≡ some history)
        × All (IsSafeLog lib c.now) history)
      × ((from_block to_block : ℤ) → All (IsSafeLog lib c.now) (c.logs_in from_block to_block))
      × (c.latest + 100 < 2 ^ 64)
      × All IsReadable c.events
      × All (IsSound lib false lookback) (fired c.firings)

  -- Whenever the node is asked in the session it has the log in the block, and it can be read.
  abbrev pub GivesAll : ℕ → EvmLog → Connection → Type 0
  GivesAll b log c =
      IsEmitted c.logs_in b log
      × ((m : MessageState) × (evm_log_to_message_state lib c.now log ≡ ok m))
      × All (Gives lib false lookback b log) (fired c.firings)
