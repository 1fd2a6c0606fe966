-- ===== src/Flush/Underflow.antt =====
-- The first flush of ethereum/listener.go and noble/listener.go on a chain that is still short:
-- the uint64 subtraction wraps, although the source checks for heights below the lookback period.
use noble_cctp_relayer.Base.{ℕ, ◌+◌, ◌-◌, ◌*◌, ◌^◌, ◌≤◌, ◌<◌, ◌≡◌, arith, false, some, none}
use noble_cctp_relayer.Flush.{flush_once}

-- At a first height of at least the lookback period, but less than the gap and one more,
-- lastFlushedBlock is set to a number close to 2 ^ 64 and nothing is flushed. (Not in flush-only
-- mode; the lookback period is below 2 ^ 62 and the height below 2 ^ 63.)
pub flush_once_wraps :
    (lookback latest : ℕ)
    → lookback ≤ latest
    → latest < 2 * lookback
    → latest < 2 ^ 63
    → lookback < 2 ^ 62
    → flush_once false lookback latest 0 ≡ (latest + 2 ^ 64 - 2 * lookback, none)
unfolding flush_once
flush_once_wraps lookback latest h k a b = ground arith

-- From then on no height of at least the lookback period and below 2 ^ 62 brings any flush
-- again. (Not in flush-only mode; the lookback period is below 2 ^ 62.)
pub flush_stalled :
    (lookback first later : ℕ)
    → lookback ≤ first
    → first < 2 * lookback
    → lookback < 2 ^ 62
    → lookback ≤ later
    → later < 2 ^ 62
    → flush_once false lookback later (flush_once false lookback first 0).0
      ≡ ((flush_once false lookback first 0).0, none)
unfolding flush_once
flush_stalled lookback first later h k a c b = ground arith

-- At a first height below the lookback period the flush runs from block 0 to a block close to
-- 2 ^ 64, far above the tip of the chain. (Not in flush-only mode; the lookback period is below
-- 2 ^ 62.)
pub flush_runs_away :
    (lookback latest : ℕ)
    → latest < lookback
    → lookback < 2 ^ 62
    → flush_once false lookback latest 0
      ≡ (latest + 2 ^ 64 - lookback, some (0, latest + 2 ^ 64 - lookback))
unfolding flush_once
flush_runs_away lookback latest h a = ground arith
