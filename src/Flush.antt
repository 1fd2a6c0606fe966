-- ===== src/Flush.antt =====
-- The flush mechanism, which ethereum/listener.go and noble/listener.go have in the same words:
-- the arithmetic of one firing of the timer. Block numbers are uint64.
pub mod Coverage
pub mod Underflow
use noble_cctp_relayer.Base.{
  ℕ, ◌*◌, ◌%◌, Bool, true, false, Option, some, none, ltb, leb, ◌==◌, if◌then◌else◌, add64, sub64,
  u64_mod, List, [], ◌∷◌,
}

-- `extraFlushBlocks`
unfoldable pub extra_flush_blocks : Bool → ℕ → ℕ
extra_flush_blocks flush_only lookback = if flush_only then 2 * lookback % u64_mod else 0

-- "initialize first lastFlushedBlock if not set"
unfoldable pub first_flushed : ℕ → ℕ → ℕ → ℕ → ℕ
first_flushed lookback extra latest last =
    if last == 0
    then (if ltb latest lookback then 0 else sub64 latest (add64 (2 * lookback % u64_mod) extra))
    else last

unfoldable pub finish_block : ℕ → ℕ → ℕ → ℕ
finish_block lookback extra latest = sub64 latest (add64 lookback extra)

-- The new lastFlushedBlock, and the blocks from which and to which is flushed, if there are any.
unfoldable pub flush_once : Bool → ℕ → ℕ → ℕ → ℕ × Option (ℕ × ℕ)
unfolding extra_flush_blocks first_flushed finish_block
flush_once flush_only lookback latest last =
    let extra = extra_flush_blocks flush_only lookback in
    let start = first_flushed lookback extra latest last in
    let finish = finish_block lookback extra latest in
    if leb finish start then (start, none) else (finish, some (start, finish))

abbrev add_range : Option (ℕ × ℕ) → List (ℕ × ℕ) → List (ℕ × ℕ)
add_range none rs = rs
add_range (some r) rs = r ∷ rs

-- Firings at several heights, with the ranges that they flush, in order.
unfoldable pub flush_run : Bool → ℕ → List ℕ → ℕ → ℕ × List (ℕ × ℕ)
flush_run flush_only lookback [] last = (last, [])
flush_run flush_only lookback (latest ∷ rest) last =
    let (last', range) = flush_once flush_only lookback latest last in
    let (end, ranges) = flush_run flush_only lookback rest last' in (end, add_range range ranges)
