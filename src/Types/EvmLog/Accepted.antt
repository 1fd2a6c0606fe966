-- ===== src/Types/EvmLog/Accepted.antt =====
-- Which logs EvmLogToMessageState of types/message_state.go accepts.
use noble_cctp_relayer.Base.{
  ℕ, List, some, ok, err, ◌≡◌, ◌≤◌, ◌<◌, ◌⊎◌, inl, inr, arith, length, hex_encode, ltb, Bool-cases,
  refl,
}
use noble_cctp_relayer.Types.Message.{parse_burn_message, parse_metadata_message}
use noble_cctp_relayer.Types.State.{MessageState, created}
use noble_cctp_relayer.Types.EvmLog.{
  CctpMessage, EvmLibrary, EvmLog, unknown_body_format, evm_log_to_message_state, new_message_state,
}

-- What the new state takes over from the message and the log.
pub record Describes (lib : EvmLibrary) (log : EvmLog) (raw : List ℕ) (m : CctpMessage)
    (s : MessageState) : Type 0 where
  pub lookup_id : s.iris_lookup_id ≡ hex_encode (lib.keccak256 raw)
  pub starts_created : s.status ≡ created
  pub from_domain : s.source_domain ≡ m.source_domain
  pub to_domain : s.dest_domain ≡ m.destination_domain
  pub of_tx : s.source_tx_hash ≡ log.tx_hash
  pub sent : s.msg_sent_bytes ≡ raw
  pub body : s.msg_body ≡ m.message_body
  pub caller : s.destination_caller ≡ m.destination_caller
  pub same_nonce : s.nonce ≡ m.nonce

-- A log whose message parses is accepted exactly when the body has 112 bytes or more, whichever
-- of the two formats it is; the state then describes the message. The two body formats overlap:
-- a burn message has 132 bytes, and so is a metadata message too.
pub evm_log_accepted :
    (lib : EvmLibrary) (now : ℕ) (log : EvmLog) (raw : List ℕ) (m : CctpMessage)
    → lib.unpack_message log.log_data ≡ some raw
    → lib.parse_cctp_message raw ≡ some m
    → ((112 ≤ length m.message_body)
        × (s : MessageState) × (evm_log_to_message_state lib now log ≡ ok s)
        × Describes lib log raw m s)
      ⊎ ((length m.message_body < 112)
          × (evm_log_to_message_state lib now log ≡ err unknown_body_format))
unfolding evm_log_to_message_state parse_burn_message parse_metadata_message
evm_log_accepted lib now log raw m unpacked parsed =
    elim (Bool-cases (ltb (length m.message_body) 112)) [
      | inl short ↦ inr (ground arith, ground arith)
      | inr long ↦ inl (
        ground arith,
        new_message_state lib now log raw m,
        ground arith,
        record {
          lookup_id = refl;
          starts_created = refl;
          from_domain = refl;
          to_domain = refl;
          of_tx = refl;
          sent = refl;
          body = refl;
          caller = refl;
          same_nonce = refl;
        },
      )
    ]
