-- ===== src/Examples/Chains.antt =====
-- Examples for the chains and the configuration.
use noble_cctp_relayer.Base.{
  pos, ℕ, ◌+◌, ◌-◌, ◌/◌, ◌≤◌, List, [], ◌∷◌, text, false, ok, ◌≡◌, refl, arith, Option, some, none,
  All, Any, length,
}
use noble_cctp_relayer.Flush.{flush_once}
use noble_cctp_relayer.Flush.Underflow.{flush_stalled}
use noble_cctp_relayer.Types.State.{MessageState}
use noble_cctp_relayer.Ethereum.History.{chunk_loop, query_of}
use noble_cctp_relayer.Ethereum.History.Chunks.{IsChunk, Within, queries_cover}
use noble_cctp_relayer.Ethereum.Stream.{
  StreamEvent, stream_log, nothing_waits, StreamState, consume_stream, initial,
}
use noble_cctp_relayer.Ethereum.Stream.Gathered.{parsed, taken, IsSorted, consume_stream_lem}
use noble_cctp_relayer.Examples.Samples.{transfer, attested_transfer}

flush_stalled_example :
    flush_once false 5 1000 (flush_once false 5 7 0).0 ≡ ((flush_once false 5 7 0).0, none)
flush_stalled_example =
    flush_stalled 5 7 1000 (omega arith) (omega arith) (omega arith) (omega arith) (omega arith)

queries_cover_example :
    (rs : List (ℕ × ℕ)) × (chunk_loop 251 1000 1250 ≡ some rs)
    × All (λ r. IsChunk 1000 1250 r × (query_of r ≡ (pos r.0, pos r.1))) rs
    × (length rs ≡ (1250 - 1000 + 99) / 100)
    × ((b : ℕ) → 1000 ≤ b → b ≤ 1250 → Any (Within b) rs)
queries_cover_example = queries_cover 250 1000 1250 (omega arith) (omega arith) (omega arith)

abbrev other_transfer : MessageState
other_transfer = record transfer { source_tx_hash = text "0xbeef" }

abbrev events : List StreamEvent
events =
    stream_log (ok transfer)
    ∷ stream_log (ok attested_transfer)
    ∷ stream_log (ok other_transfer)
    ∷ nothing_waits
    ∷ []

abbrev gathered : Option StreamState → StreamState
gathered none = initial
gathered (some s) = s

streamed : consume_stream events initial ≡ some (gathered (consume_stream events initial))
unfolding consume_stream noble_cctp_relayer.Ethereum.Stream.on_event
streamed = refl

consume_stream_lem_example :
    (taken (gathered (consume_stream events initial)) ≡ parsed events)
    × IsSorted (gathered (consume_stream events initial))
consume_stream_lem_example =
    consume_stream_lem events (gathered (consume_stream events initial)) streamed
