-- ===== src/Noble/Listener.antt =====
-- StartListener of noble/listener.go: which blocks are put on the queue, and what the workers do
-- with one. Block numbers are uint64; a list of tips holds what LatestBlock answers, one number
-- for each firing of the timer. The blocks of the flush come from Noble.Flush.
pub mod Blocks
pub mod Queue
pub mod Underflow
pub mod Workers
pub mod Conserved
pub mod Delivered
pub mod Blocked
pub mod Settles
pub mod Drains
use noble_cctp_relayer.Base.{
  ℕ, zero, suc, ◌-◌, List, [], ◌∷◌, ◌++◌, Bool, true, false, Option, some, none, Result, ok, err,
  panic, leb, ◌==◌, if◌then◌else◌, add64, sub64,
}
use noble_cctp_relayer.Types.State.{MessageState}
use noble_cctp_relayer.Ethereum.History.{ObservedTx}
use noble_cctp_relayer.Noble.Transactions.{ResultTx, TxError, tx_to_message_state}

-- The blocks queued so far and `currentBlock`; `none` is a loop that is out of fuel.
abbrev pub QueueState : Type 0
QueueState = List ℕ × ℕ

abbrev push : ℕ → Option QueueState → Option QueueState
push block none = none
push block (some (blocks, current)) = some (block ∷ blocks, current)

-- The loop over the blocks up to the tip, each of which is queued.
unfoldable pub queue_loop : ℕ → ℕ → ℕ → Option QueueState
queue_loop zero current tip = none
queue_loop (suc fuel) current tip =
    let rest = queue_loop fuel (add64 current 1) tip in
    if leb current tip then push current rest else some ([], current)

-- A round for each block, and the one that ends the loop.
abbrev pub block_fuel : ℕ → ℕ → ℕ
block_fuel current tip = suc (suc tip - current)

abbrev pub append_to : List ℕ → Option QueueState → Option QueueState
append_to queued none = none
append_to queued (some (blocks, current)) = some (queued ++ blocks, current)

abbrev pub set_current : ℕ → Option QueueState → Option QueueState
set_current next none = none
set_current next (some (blocks, current)) = some (blocks, next)

-- queueBlocks
unfoldable pub queue_blocks : ℕ → QueueState → Option QueueState
unfolding queue_loop
queue_blocks tip (queued, current) =
    if leb current tip
    then set_current (add64 tip 1)
        (append_to queued (queue_loop (block_fuel current tip) current tip))
    else some (queued, current)

abbrev pub and_then : Option QueueState → (QueueState → Option QueueState) → Option QueueState
and_then none k = none
and_then (some s) k = k s

unfoldable pub new_blocks : List ℕ → QueueState → Option QueueState
unfolding queue_blocks
new_blocks [] s = some s
new_blocks (tip ∷ tips) s = and_then (queue_blocks tip s) (new_blocks tips)

-- `if n.startBlock == 0 { n.startBlock = n.LatestBlock() }`
abbrev pub first_block : ℕ → ℕ → ℕ
first_block start_block latest = if start_block == 0 then latest else start_block

-- The history, then the firings of the timer. In flush-only mode neither runs.
unfoldable pub queued_blocks :
    (flush_only : Bool)
    → (start_block lookback latest chain_tip : ℕ) → (tips : List ℕ) → Option QueueState
unfolding queue_loop new_blocks
queued_blocks flush_only start_block lookback latest chain_tip tips =
    if flush_only
    then some ([], first_block start_block latest)
    else let current = sub64 (first_block start_block latest) lookback in
      and_then (queue_loop (block_fuel current chain_tip) current chain_tip) (new_blocks tips)

-- A transaction that cannot be parsed is logged; `none` is a panic.
abbrev observed_tx : ResultTx → Result TxError (List MessageState) → Option (List ObservedTx)
observed_tx tx (ok msgs) = some (record { tx_hash = tx.hash; msgs = msgs } ∷ [])
observed_tx tx (err e) = some []
observed_tx tx panic = none

-- What a worker puts on the processing queue for a transaction.
unfoldable pub consume_tx : (List ℕ → List ℕ) → ℕ → ResultTx → Option (List ObservedTx)
consume_tx keccak256 now tx = observed_tx tx (tx_to_message_state keccak256 now tx)
