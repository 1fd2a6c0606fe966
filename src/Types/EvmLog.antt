-- ===== src/Types/EvmLog.antt =====
-- EvmLogToMessageState of types/message_state.go: from a log of the MessageTransmitter contract
-- to a message state. Not under src/, hence parameters: unpacking the event data by its ABI,
-- Keccak-256, and Message.Parse of the module circlefin/noble-cctp, which is not the Parse of
-- types/message.go. Their answers are those that the source reads.
pub mod Accepted
use noble_cctp_relayer.Base.{
  ℕ, List, [], Text, Option, some, none, Result, ok, err, panic, ◌>>=◌, hex_encode,
}
use noble_cctp_relayer.Types.Message.{parse_burn_message, parse_metadata_message, ParseError}
use noble_cctp_relayer.Types.State.{MessageState, created}

-- What the source reads of the message of circlefin/noble-cctp.
pub record CctpMessage : Type 0 where
  pub source_domain : ℕ
  pub destination_domain : ℕ
  pub nonce : ℕ
  pub destination_caller : List ℕ
  pub message_body : List ℕ

pub record EvmLibrary : Type 0 where
  pub unpack_message : List ℕ → Option (List ℕ)
  pub parse_cctp_message : List ℕ → Option CctpMessage  -- `none` is a nil message
  pub keccak256 : List ℕ → List ℕ

pub record EvmLog : Type 0 where
  pub tx_hash : Text  -- log.TxHash.Hex()
  pub log_data : List ℕ

pub data LogError : Type 0 where
  unable_to_unpack unknown_body_format : LogError

abbrev new_message_state : EvmLibrary → ℕ → EvmLog → List ℕ → CctpMessage → MessageState
new_message_state lib now log raw message = record {
  iris_lookup_id = hex_encode (lib.keccak256 raw);
  status = created;
  attestation = [];
  source_domain = message.source_domain;
  dest_domain = message.destination_domain;
  source_tx_hash = log.tx_hash;
  dest_tx_hash = [];
  msg_sent_bytes = raw;
  msg_body = message.message_body;
  destination_caller = message.destination_caller;
  channel = [];
  created_at = now;
  updated_at = now;
  nonce = message.nonce;
  cctp_version = [];
  expiration_block = 0;
  finality_threshold = 0;
  reattest_count = 0;
  last_reattest_time = 0;
}

-- `if _, err := Parse(body); err == nil { return messageState, nil }`, then the rest.
abbrev or_if_parsed {ℓ} :
    {A : Type ℓ}
    → Result ParseError A
    → MessageState
    → Result LogError MessageState
    → Result LogError MessageState
or_if_parsed (ok a) state rest = ok state
or_if_parsed (err e) state rest = rest
or_if_parsed panic state rest = panic

-- The fields of a nil message panic.
abbrev or_nil {ℓ} : {A : Type ℓ} → Option A → Result LogError A
or_nil none = panic
or_nil (some a) = ok a

abbrev or_unpack_error : Option (List ℕ) → Result LogError (List ℕ)
or_unpack_error none = err unable_to_unpack
or_unpack_error (some raw) = ok raw

unfoldable pub evm_log_to_message_state : EvmLibrary → ℕ → EvmLog → Result LogError MessageState
evm_log_to_message_state lib now log = do
  raw ← or_unpack_error (lib.unpack_message log.log_data)
  message ← or_nil (lib.parse_cctp_message raw)
  let state = new_message_state lib now log raw message
  or_if_parsed (parse_burn_message message.message_body) state
      (or_if_parsed (parse_metadata_message message.message_body) state (err unknown_body_format))
