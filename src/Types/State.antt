-- ===== src/Types/State.antt =====
-- types/message_state.go and types/state.go: the life of one transfer, and the map from source
-- transaction hashes to their transfers.
-- A message is shared by pointer between the map, the queue and the broadcast batches, so it
-- lives on a heap and is named by its address. Times are numbers, and 0 is the zero time.
pub mod Equality
use noble_cctp_relayer.Base.{
  ℕ, List, Text, Bool, true, false, Option, ◌&&◌, ◌==◌, text_eq, Map, lookup, insert, erase,
  text_key,
}

-- The constants Created … Filtered.
pub data Status : Type 0 where
  created pending attested complete failed filtered : Status

unfoldable pub status_eq : Status → Status → Bool
status_eq created created = true
status_eq pending pending = true
status_eq attested attested = true
status_eq complete complete = true
status_eq failed failed = true
status_eq filtered filtered = true
status_eq _ _ = false

pub record MessageState : Type 0 where
  pub iris_lookup_id : Text
  pub status : Status
  pub attestation : Text
  pub source_domain : ℕ
  pub dest_domain : ℕ
  pub source_tx_hash : Text
  pub dest_tx_hash : Text
  pub msg_sent_bytes : List ℕ
  pub msg_body : List ℕ
  pub destination_caller : List ℕ
  pub channel : Text
  pub created_at : ℕ
  pub updated_at : ℕ
  pub nonce : ℕ
  pub cctp_version : Text
  pub expiration_block : ℕ
  pub finality_threshold : ℕ
  pub reattest_count : ℕ
  pub last_reattest_time : ℕ

-- `*MessageState` and `*TxState`.
abbrev pub MessagePtr : Type 0
MessagePtr = ℕ

abbrev pub TxPtr : Type 0
TxPtr = ℕ

pub record TxState : Type 0 where
  pub tx_hash : Text
  pub msgs : List MessagePtr
  pub retry_attempt : ℕ

unfoldable pub equal : MessageState → MessageState → Bool
equal m other =
    text_eq m.iris_lookup_id other.iris_lookup_id
    && status_eq m.status other.status
    && text_eq m.attestation other.attestation
    && m.source_domain == other.source_domain
    && m.dest_domain == other.dest_domain
    && text_eq m.source_tx_hash other.source_tx_hash
    && text_eq m.dest_tx_hash other.dest_tx_hash
    && text_eq m.msg_sent_bytes other.msg_sent_bytes
    && text_eq m.destination_caller other.destination_caller
    && text_eq m.channel other.channel
    && m.created_at == other.created_at
    && m.updated_at == other.updated_at
    && text_eq m.cctp_version other.cctp_version
    && m.expiration_block == other.expiration_block
    && m.finality_threshold == other.finality_threshold
    && m.reattest_count == other.reattest_count

-- The map `internal`; its mutex makes each call one step.
abbrev pub StateMap : Type 0
StateMap = Map Text TxPtr

unfoldable pub load : Text → StateMap → Option TxPtr
load = lookup

unfoldable pub store : Text → TxPtr → StateMap → StateMap
store = insert

unfoldable pub delete : Text → StateMap → StateMap
delete = erase
