-- ===== src/Ethereum/Flush.antt =====
-- flushMechanism of ethereum/listener.go: the loop on its timer, which asks for the history between
-- the last flushed block and the new one. It ends with its context or with the websocket stream.
pub mod Complete
use noble_cctp_relayer.Base.{ℤ, ℕ, List, ◌++◌, Bool, Option, some, none}
use noble_cctp_relayer.Types.EvmLog.{EvmLibrary, EvmLog}
use noble_cctp_relayer.Timer.{Wake, run_timer}
use noble_cctp_relayer.Flush.{flush_once}
use noble_cctp_relayer.Ethereum.History.{ObservedTx, get_and_consume_history}

-- A firing of the timer: LatestBlock, the time, and the logs that the node has between two blocks.
pub record Firing : Type 0 where
  pub latest : ℕ
  pub now : ℕ
  pub logs_in : ℤ → ℤ → List EvmLog

pub record FlushState : Type 0 where
  pub last_flushed_block : ℕ
  pub queue : List ObservedTx

abbrev pub add_history : ℕ → FlushState → Option (List ObservedTx) → Option FlushState
add_history finish s none = none
add_history finish s (some txs) =
    some (record { last_flushed_block = finish; queue = s.queue ++ txs })

module _ (lib : EvmLibrary) (flush_only : Bool) (lookback : ℕ) where
  abbrev pub flush_range : Firing → FlushState → ℕ × Option (ℕ × ℕ) → Option FlushState
  flush_range f s (last, none) = some (record s { last_flushed_block = last })
  flush_range f s (last, some (start, finish)) =
      add_history last s (get_and_consume_history lib f.now f.logs_in start finish)

  -- `none` is a panic.
  unfoldable pub on_timer : Firing → Option FlushState → Option FlushState
  on_timer f none = none
  on_timer f (some s) =
      flush_range f s (flush_once flush_only lookback f.latest s.last_flushed_block)

  unfoldable pub flush_mechanism : List (Wake Firing) → FlushState → Option FlushState
  flush_mechanism wakes s = run_timer on_timer wakes (some s)
