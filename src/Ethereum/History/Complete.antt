-- ===== src/Ethereum/History/Complete.antt =====
-- Which logs of the history of ethereum/listener.go become transactions.
use noble_cctp_relayer.Base.{
  ℤ, ℕ, ◌+◌, ◌^◌, ◌≤◌, ◌<◌, List, [], ◌∷◌, ◌++◌, some, Result, ok, err, panic, ◌≡◌, refl, inl, inr,
  All, Any, Any-append_left, Any-append_right, arith, ltb, false, ap, Bool-cases, ok-injective,
}
use noble_cctp_relayer.Types.State.{MessageState}
use noble_cctp_relayer.Types.EvmLog.{EvmLibrary, EvmLog, LogError, evm_log_to_message_state}
use noble_cctp_relayer.Ethereum.History.{
  ObservedTx, consume_history, consume_log, consume_ranges, get_and_consume_history, chunk_loop,
  query_of,
}
use noble_cctp_relayer.Ethereum.History.Chunks.{Within, chunk_loop_covers}

abbrev pub tx_of : MessageState → ObservedTx
tx_of m = record { tx_hash = m.source_tx_hash; msgs = m ∷ [] }

abbrev pub IsSafe {ℓ} : {A : Type ℓ} → Result LogError A → Type 0
IsSafe (ok a) = Unit
IsSafe (err e) = Unit
IsSafe panic = ⊥

-- The node has the log whenever it is asked for blocks around the given one, in the numbers that
-- the query holds.
abbrev pub IsEmitted : (ℤ → ℤ → List EvmLog) → ℕ → EvmLog → Type 0
IsEmitted logs_in b log =
    (r : ℕ × ℕ) → Within b r → Any (λ l. l ≡ log) (logs_in (query_of r).0 (query_of r).1)

module _ (lib : EvmLibrary) (now : ℕ) where
  -- The reading of a log does not panic.
  abbrev pub IsSafeLog : EvmLog → Type 0
  IsSafeLog log = IsSafe (evm_log_to_message_state lib now log)

  -- Every log that can be read is in the transactions.
  abbrev pub HoldsAll : List EvmLog → List ObservedTx → Type 0
  HoldsAll logs txs =
      (log : EvmLog)
      → (m : MessageState) → Any (λ l. l ≡ log) logs
      → evm_log_to_message_state lib now log ≡ ok m
      → Any (λ tx. tx ≡ tx_of m) txs

  read_same :
      (log l : EvmLog) (m k : MessageState)
      → evm_log_to_message_state lib now log ≡ ok m
      → log ≡ l
      → evm_log_to_message_state lib now l ≡ ok k
      → ◌≡◌ {A = Result LogError MessageState} (ok m) (ok k)
  read_same log l m k e same read = cc

  consume_log-HoldsAll :
      (r : Result LogError MessageState) (log : EvmLog) (logs : List EvmLog) (txs : List ObservedTx)
      → evm_log_to_message_state lib now log ≡ r
      → IsSafe r
      → HoldsAll logs txs
      → (out : List ObservedTx) × (consume_log r (some txs) ≡ some out) × HoldsAll (log ∷ logs) out
  consume_log-HoldsAll (ok m) log logs txs e safe h = (
    tx_of m ∷ txs,
    refl,
    λ l k place read. elim place [
      | inl same ↦ inl (ap tx_of (ok-injective (read_same log l m k e same read)))
      | inr later ↦ inr (h l k later read)
    ],
  )
  consume_log-HoldsAll (err x) log logs txs e safe h = (
    txs,
    refl,
    λ l k place read. elim place [ inl same ↦ absurd (cc) | inr later ↦ h l k later read ],
  )
  consume_log-HoldsAll panic log logs txs e safe h = absurd safe

  pub consume_history-HoldsAll :
      (logs : List EvmLog)
      → All IsSafeLog logs
      → (txs : List ObservedTx) × (consume_history lib now logs ≡ some txs) × HoldsAll logs txs
  unfolding consume_history
  consume_history-HoldsAll [] safe = ([], refl, λ log m place read. absurd place)
  consume_history-HoldsAll (log ∷ logs) (safe, rest) =
      let (txs, e, h) = consume_history-HoldsAll logs rest in
      rw e (consume_log-HoldsAll (evm_log_to_message_state lib now log) log logs txs refl safe h)

  module _ (logs_in : ℤ → ℤ → List EvmLog)
      (safe : (from_block to_block : ℤ) → All IsSafeLog (logs_in from_block to_block)) where
    -- Every log of a block of the ranges that can be read is in the transactions.
    abbrev pub HoldsRanges : List (ℕ × ℕ) → List ObservedTx → Type 0
    HoldsRanges ranges txs =
        (b : ℕ)
        → (log : EvmLog) → (m : MessageState) → Any (Within b) ranges
        → IsEmitted logs_in b log
        → evm_log_to_message_state lib now log ≡ ok m
        → Any (λ tx. tx ≡ tx_of m) txs

    consume_ranges-HoldsRanges :
        (ranges : List (ℕ × ℕ))
        → (txs : List ObservedTx) × (consume_ranges lib now logs_in ranges ≡ some txs)
          × HoldsRanges ranges txs
    unfolding consume_ranges
    consume_ranges-HoldsRanges [] = ([], refl, λ b log m place emitted read. absurd place)
    consume_ranges-HoldsRanges (r ∷ rest) =
        let (txs, e, h) =
          consume_history-HoldsAll (logs_in (query_of r).0 (query_of r).1)
            (safe (query_of r).0 (query_of r).1) in
        let (more, e', h') = consume_ranges-HoldsRanges rest in
        (
          txs ++ more,
          rw (e, e') refl,
          λ b log m place emitted read. elim place [
            | inl here ↦
                Any-append_left (λ tx. tx ≡ tx_of m) txs more (h log m (emitted r here) read)
            | inr later ↦
                Any-append_right (λ tx. tx ≡ tx_of m) txs more (h' b log m later emitted read)
          ],
        )

    -- Between two different blocks the history ends, with every log that can be read of the blocks
    -- from the first to the last one.
    pub get_and_consume_history_complete :
        (start end : ℕ)
        → start < end
        → end + 100 < 2 ^ 64
        → (txs : List ObservedTx) × (get_and_consume_history lib now logs_in start end ≡ some txs)
          × ((b : ℕ)
              → (log : EvmLog) → (m : MessageState) → start ≤ b
              → b ≤ end
              → IsEmitted logs_in b log
              → evm_log_to_message_state lib now log ≡ ok m
              → Any (λ tx. tx ≡ tx_of m) txs)
    unfolding get_and_consume_history
    get_and_consume_history_complete start end h bound =
        let (ranges, looped, chunks, count, covered) =
          chunk_loop_covers end start end h (omega arith) bound in
        let (txs, e, holds) = consume_ranges-HoldsRanges ranges in
        let going : ltb end start ≡ false = ground arith in
        (
          txs,
          rw (going, looped) e,
          λ b log m low high emitted read. holds b log m (covered b low high) emitted read,
        )

    -- At any two blocks the history ends, with every log that can be read above the first one up
    -- to the last one.
    pub get_and_consume_history_above :
        (start end : ℕ)
        → end + 100 < 2 ^ 64
        → (txs : List ObservedTx) × (get_and_consume_history lib now logs_in start end ≡ some txs)
          × ((b : ℕ)
              → (log : EvmLog) → (m : MessageState) → start < b
              → b ≤ end
              → IsEmitted logs_in b log
              → evm_log_to_message_state lib now log ≡ ok m
              → Any (λ tx. tx ≡ tx_of m) txs)
    unfolding get_and_consume_history chunk_loop consume_ranges
    get_and_consume_history_above start end bound = elim (Bool-cases (ltb start end)) [
      | inl below ↦
          let (txs, e, holds) = get_and_consume_history_complete start end (ground arith) bound in
          (txs, e, λ b log m low high emitted read. holds b log m (omega arith) high emitted read)
      | inr above ↦ elim (Bool-cases (ltb end start)) [
        | inl past ↦ ([], rw past refl, λ b log m low high emitted read. absurd (ground arith))
        | inr same ↦
            ([], rw (same, above) refl, λ b log m low high emitted read. absurd (ground arith))
      ]
    ]
