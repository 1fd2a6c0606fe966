-- ===== src/Noble/Transactions.antt =====
-- txToMessageState of noble/message_state.go: from a transaction of Noble to message states.
-- Keccak-256 is a parameter, and `now` is the time.
pub mod Parsed
pub mod Sound
use noble_cctp_relayer.Base.{
  ℕ, ◌-◌, List, [], ◌∷◌, ◌++◌, Text, text, text_eq, Bool, true, false, Option, some, none, Result,
  ok, err, panic, ◌>>=◌, if◌then◌else◌, ◌==◌, not, ltb, length, slice, base64_decode, hex_encode,
}
use noble_cctp_relayer.Types.Message.{Message, ParseError, parse_message}
use noble_cctp_relayer.Types.State.{MessageState, created}

-- What the source reads of an ABCI event and of ResultTx.
pub record Attribute : Type 0 where
  pub key : Text
  pub value : Text

pub record Event : Type 0 where
  pub event_type : Text
  pub attributes : List Attribute

pub record ResultTx : Type 0 where
  pub hash : Text  -- tx.Hash.String()
  pub code : ℕ
  pub events : List Event

pub data TxError : Type 0 where
  unable_to_parse : (tx_hash : Text) → TxError

-- attr.Value[1 : len(attr.Value)-1], which panics on a text shorter than 2.
unfoldable pub inner : Text → Result TxError Text
inner value = if ltb (length value) 2 then panic else ok (slice 1 (length value - 1) value)

unfoldable pub new_message_state : (List ℕ → List ℕ) → ℕ → Text → List ℕ → Message → MessageState
new_message_state keccak256 now tx_hash raw msg = record {
  iris_lookup_id = hex_encode (keccak256 raw);
  status = created;
  attestation = [];
  source_domain = msg.source_domain;
  dest_domain = msg.destination_domain;
  source_tx_hash = tx_hash;
  dest_tx_hash = [];
  msg_sent_bytes = raw;
  msg_body = msg.message_body;
  destination_caller = msg.destination_caller;
  channel = [];
  created_at = now;
  updated_at = now;
  nonce = msg.nonce;
  cctp_version = [];
  expiration_block = 0;
  finality_threshold = 0;
  reattest_count = 0;
  last_reattest_time = 0;
}

abbrev pub from_message :
    (List ℕ → List ℕ) → ℕ → Text → List ℕ → Result ParseError Message → Option MessageState
from_message keccak256 now tx_hash raw (ok msg) =
    some (new_message_state keccak256 now tx_hash raw msg)
from_message keccak256 now tx_hash raw _ = none

abbrev pub from_decoded : (List ℕ → List ℕ) → ℕ → Text → Option (List ℕ) → Option MessageState
from_decoded keccak256 now tx_hash none = none
from_decoded keccak256 now tx_hash (some raw) =
    from_message keccak256 now tx_hash raw (parse_message raw)

-- The body of the loop for an attribute with the key "message": `none` is a joined error.
unfoldable pub read_value :
    (List ℕ → List ℕ) → ℕ → Text → Text → Result TxError (Option MessageState)
unfolding inner new_message_state
read_value keccak256 now tx_hash value = do
  encoded ← inner value
  ok (from_decoded keccak256 now tx_hash (base64_decode encoded))

abbrev add_found : Option MessageState → Bool × List MessageState → Bool × List MessageState
add_found none found = found
add_found (some m) (parsed, states) = (true, states ++ (m ∷ []))

-- The loop over the attributes, with `parsed` and the message states so far.
unfoldable pub read_attributes :
    (List ℕ → List ℕ)
    → ℕ
    → Text
    → List Attribute
    → Bool × List MessageState
    → Result TxError (Bool × List MessageState)
unfolding read_value
read_attributes keccak256 now tx_hash [] found = ok found
read_attributes keccak256 now tx_hash (attr ∷ attrs) found =
    if text_eq attr.key (text "message")
    then (read_value keccak256 now tx_hash attr.value >>= λ m.
        read_attributes keccak256 now tx_hash attrs (add_found m found))
    else read_attributes keccak256 now tx_hash attrs found

-- `if !parsed { return nil, … }`
abbrev pub checked : Text → Bool × List MessageState → Result TxError (List MessageState)
checked tx_hash (true, states) = ok states
checked tx_hash (false, states) = err (unable_to_parse tx_hash)

abbrev pub message_sent : Text
message_sent = text "circle.cctp.v1.MessageSent"

unfoldable pub read_events :
    (List ℕ → List ℕ)
    → ℕ
    → Text
    → List Event
    → List MessageState
    → Result TxError (List MessageState)
unfolding read_attributes
read_events keccak256 now tx_hash [] states = ok states
read_events keccak256 now tx_hash (event ∷ events) states =
    if text_eq event.event_type message_sent
    then (read_attributes keccak256 now tx_hash event.attributes (false, states)
        >>= checked tx_hash
        >>= read_events keccak256 now tx_hash events)
    else read_events keccak256 now tx_hash events states

unfoldable pub tx_to_message_state :
    (List ℕ → List ℕ) → ℕ → ResultTx → Result TxError (List MessageState)
unfolding read_events
tx_to_message_state keccak256 now tx =
    if not (tx.code == 0) then ok [] else read_events keccak256 now tx.hash tx.events []
