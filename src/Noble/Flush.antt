-- ===== src/Noble/Flush.antt =====
-- flushMechanism of noble/listener.go: the loop on its timer, which puts the blocks between the
-- last flushed block and the new one on the queue of the workers.
pub mod Covers
use noble_cctp_relayer.Base.{ℕ, List, ◌++◌, Bool, true, false, Option, some, none}
use noble_cctp_relayer.Timer.{Wake, run_timer}
use noble_cctp_relayer.Flush.{flush_once}
use noble_cctp_relayer.Noble.Listener.{QueueState, queue_loop, block_fuel}

-- A firing of the timer: LatestBlock, and whether the node is catching up; `none` is an error.
pub record Firing : Type 0 where
  pub latest : ℕ
  pub catching_up : Option Bool

pub record FlushState : Type 0 where
  pub last_flushed_block : ℕ
  pub block_queue : List ℕ

abbrev pub add_blocks : ℕ → FlushState → Option QueueState → Option FlushState
add_blocks finish s none = none
add_blocks finish s (some (blocks, current)) =
    some (record { last_flushed_block = finish; block_queue = s.block_queue ++ blocks })

abbrev pub flush_range : FlushState → ℕ × Option (ℕ × ℕ) → Option FlushState
flush_range s (last, none) = some (record s { last_flushed_block = last })
flush_range s (last, some (start, finish)) =
    add_blocks last s (queue_loop (block_fuel start finish) start finish)

abbrev pub on_status :
    (flush_only : Bool) → (lookback latest : ℕ) → FlushState → Option Bool → Option FlushState
on_status flush_only lookback latest s none = some s
on_status flush_only lookback latest s (some true) = some s
on_status flush_only lookback latest s (some false) =
    flush_range s (flush_once flush_only lookback latest s.last_flushed_block)

-- `none` is a loop that is out of fuel.
unfoldable pub on_timer : Bool → ℕ → Firing → Option FlushState → Option FlushState
on_timer flush_only lookback f none = none
on_timer flush_only lookback f (some s) = on_status flush_only lookback f.latest s f.catching_up

unfoldable pub flush_mechanism : Bool → ℕ → List (Wake Firing) → FlushState → Option FlushState
flush_mechanism flush_only lookback wakes s =
    run_timer (on_timer flush_only lookback) wakes (some s)
