-- ===== src/Ethereum/Flush/Complete.antt =====
-- Which logs the flush of ethereum/listener.go puts on the queue.
use noble_cctp_relayer.Base.{ℤ, ℕ, ◌+◌, ◌^◌, ◌≤◌, ◌<◌, Bool, ok, ◌≡◌, All, Any}
use noble_cctp_relayer.Types.State.{MessageState}
use noble_cctp_relayer.Types.EvmLog.{EvmLibrary, EvmLog, evm_log_to_message_state}
use noble_cctp_relayer.Flush.Coverage.{IsHigh}
use noble_cctp_relayer.Ethereum.History.{ObservedTx}
use noble_cctp_relayer.Ethereum.History.Complete.{IsSafeLog, IsEmitted, tx_of}
use noble_cctp_relayer.Ethereum.Flush.{Firing, FlushState}

module _ (lib : EvmLibrary) (flush_only : Bool) (lookback : ℕ) where
  -- The height does not wrap, and no log of the node makes the reading panic.
  abbrev pub IsSound : Firing → Type 0
  IsSound f =
      IsHigh flush_only lookback f.latest
      × (f.latest + 100 < 2 ^ 64)
      × ((from_block to_block : ℤ) → All (IsSafeLog lib f.now) (f.logs_in from_block to_block))

  -- At this firing the node has the log in the block, and it can be read.
  abbrev pub Gives : ℕ → EvmLog → Firing → Type 0
  Gives b log f =
      IsEmitted f.logs_in b log
      × (m : MessageState) × (evm_log_to_message_state lib f.now log ≡ ok m)

  abbrev pub IsTxOf : EvmLog → ObservedTx → Type 0
  IsTxOf log tx =
      (now : ℕ) × (m : MessageState) × (evm_log_to_message_state lib now log ≡ ok m)
      × (tx ≡ tx_of m)

  -- From `s` to `end`: lastFlushedBlock does not fall and stays a uint64, the queue keeps what it has, and holds the
  -- transaction of each log of a block in between.
  abbrev pub Flushed : (EvmLog → ℕ → Type 0) → FlushState → FlushState → Type 0
  Flushed given s end =
      (s.last_flushed_block ≤ end.last_flushed_block)
      × (s.last_flushed_block < 2 ^ 64 → end.last_flushed_block < 2 ^ 64)
      × ((log : EvmLog) → Any (IsTxOf log) s.queue → Any (IsTxOf log) end.queue)
      × ((b : ℕ)
          → (log : EvmLog) → s.last_flushed_block < b
          → b ≤ end.last_flushed_block
          → given log b
          → Any (IsTxOf log) end.queue)
