-- ===== src/Ethereum/History.antt =====
-- getAndConsumeHistory and consumeHistory of ethereum/listener.go: old logs are asked for in
-- chunks of 100 blocks. A query that fails is repeated until it succeeds, so a query has one
-- reply, the logs between two blocks, both included.
pub mod Chunks
pub mod Complete
use noble_cctp_relayer.Base.{
  ℤ, as_int64, ℕ, zero, suc, ◌+◌, List, [], ◌∷◌, ◌++◌, Text, Bool, true, false, Option, some, none,
  Result, ok, err, panic, ltb, if◌then◌else◌, add64,
}
use noble_cctp_relayer.Types.State.{MessageState}
use noble_cctp_relayer.Types.EvmLog.{EvmLibrary, EvmLog, LogError, evm_log_to_message_state}

abbrev pub chunk_size : ℕ
chunk_size = 100

abbrev pub min64 : ℕ → ℕ → ℕ
min64 a b = if ltb b a then b else a

abbrev pub push : ℕ × ℕ → Option (List (ℕ × ℕ)) → Option (List (ℕ × ℕ))
push r none = none
push r (some rs) = some (r ∷ rs)

-- The loop `for start < end`: the ranges that it asks for, or `none` when the fuel is used up.
unfoldable pub chunk_loop : ℕ → ℕ → ℕ → Option (List (ℕ × ℕ))
chunk_loop zero start end = none
chunk_loop (suc fuel) start end =
    let rest = chunk_loop fuel (add64 start chunk_size) end in
    if ltb start end then push (start, min64 (add64 start chunk_size) end) rest else some []

-- A TxState on the processing queue.
pub record ObservedTx : Type 0 where
  pub tx_hash : Text
  pub msgs : List MessageState

-- The logs that parse, one transaction each; `none` is a panic.
abbrev consume_log :
    Result LogError MessageState → Option (List ObservedTx) → Option (List ObservedTx)
consume_log (ok m) none = none
consume_log (ok m) (some txs) = some (record { tx_hash = m.source_tx_hash; msgs = m ∷ [] } ∷ txs)
consume_log (err e) rest = rest
consume_log panic rest = none

unfoldable pub consume_history : EvmLibrary → ℕ → List EvmLog → Option (List ObservedTx)
consume_history lib now [] = some []
consume_history lib now (log ∷ logs) =
    consume_log (evm_log_to_message_state lib now log) (consume_history lib now logs)

abbrev pub join : Option (List ObservedTx) → Option (List ObservedTx) → Option (List ObservedTx)
join none rest = none
join (some txs) none = none
join (some txs) (some more) = some (txs ++ more)

-- FromBlock and ToBlock of the query, by way of int64.
abbrev pub query_of : ℕ × ℕ → ℤ × ℤ
query_of (from_block, to_block) = (as_int64 from_block, as_int64 to_block)

consume_ranges : EvmLibrary → ℕ → (ℤ → ℤ → List EvmLog) → List (ℕ × ℕ) → Option (List ObservedTx)
consume_ranges lib now logs_in [] = some []
consume_ranges lib now logs_in (r ∷ rest) =
    join (consume_history lib now (logs_in (query_of r).0 (query_of r).1))
      (consume_ranges lib now logs_in rest)

abbrev consume_all :
    EvmLibrary → ℕ → (ℤ → ℤ → List EvmLog) → Option (List (ℕ × ℕ)) → Option (List ObservedTx)
consume_all lib now logs_in none = none
consume_all lib now logs_in (some ranges) = consume_ranges lib now logs_in ranges

-- `start > end` is logged and nothing is asked for. The fuel is one more than the blocks.
unfoldable pub get_and_consume_history :
    EvmLibrary → ℕ → (ℤ → ℤ → List EvmLog) → ℕ → ℕ → Option (List ObservedTx)
unfolding consume_ranges
get_and_consume_history lib now logs_in start end =
    if ltb end start then some [] else consume_all lib now logs_in (chunk_loop (suc end) start end)
