-- ===== src/Types/Message/Layout.antt =====
-- The layout of types/message.go in both directions: what Parse reads back.
use noble_cctp_relayer.Base.{
  ℕ, ◌+◌, ◌^◌, ◌<◌, ◌≡◌, ap, ◌∙◌, List, ◌++◌, ok, arith, length, length-append, append_assoc,
  Bool-cases, inl, inr, ltb, slice, slice_past, slice_here, drop_behind, be_uint, be_bytes,
  length-be_bytes, be_uint-be_bytes,
}
use noble_cctp_relayer.Types.Message.{
  message_fields, burn_message_fields, Message, BurnMessage, parse_message, parse_burn_message,
}

-- The wire format, written from the offsets of Message.sol and BurnMessage.sol that the source
-- cites: an independent description of what Parse inverts.
abbrev pub header : Message → List ℕ
header m =
    be_bytes 4 m.version
    ++ (be_bytes 4 m.source_domain ++ (be_bytes 4 m.destination_domain ++ be_bytes 8 m.nonce))

abbrev pub message_bytes : Message → List ℕ
message_bytes m =
    header m ++ (m.sender ++ (m.recipient ++ (m.destination_caller ++ m.message_body)))

pub record IsWireMessage (m : Message) : Type 0 where
  pub version_fits : m.version < 2 ^ 32
  pub source_fits : m.source_domain < 2 ^ 32
  pub destination_fits : m.destination_domain < 2 ^ 32
  pub nonce_fits : m.nonce < 2 ^ 64
  pub sender_length : length m.sender ≡ 32
  pub recipient_length : length m.recipient ≡ 32
  pub caller_length : length m.destination_caller ≡ 32

abbrev pub burn_message_bytes : BurnMessage → List ℕ
burn_message_bytes m =
    be_bytes 4 m.version
    ++ (m.burn_token ++ (m.mint_recipient ++ (be_bytes 32 m.amount ++ m.message_sender)))

pub record IsWireBurnMessage (m : BurnMessage) : Type 0 where
  pub version_fits : m.version < 2 ^ 32
  pub token_length : length m.burn_token ≡ 32
  pub recipient_length : length m.mint_recipient ≡ 32
  pub amount_fits : m.amount < 2 ^ 256
  pub sender_length : length m.message_sender ≡ 32

segment : (k v : ℕ) (rest : List ℕ) → v < 256 ^ k → be_uint (slice 0 k (be_bytes k v ++ rest)) ≡ v
segment k v rest h =
    ap be_uint (slice_here k (be_bytes k v) rest (length-be_bytes k v)) ∙ be_uint-be_bytes k v h

-- The first segment of a number is skipped.
skip : (k v a b : ℕ) (rest : List ℕ) → slice (k + a) (k + b) (be_bytes k v ++ rest) ≡ slice a b rest
skip k v a b rest = slice_past k a b (be_bytes k v) rest (length-be_bytes k v)

-- The numbers in front of the addresses take twenty bytes.
length-header : (m : Message) → length (header m) ≡ 20
length-header m = rw (
  length-append,
  length-append,
  length-append,
  length-be_bytes 4 m.version,
  length-be_bytes 4 m.source_domain,
  length-be_bytes 4 m.destination_domain,
  length-be_bytes 8 m.nonce,
)

message_fields-message_bytes :
    (m : Message) → IsWireMessage m → message_fields (message_bytes m) ≡ m
unfolding message_fields
message_fields-message_bytes m w = λ i. record {
  version = (ap be_uint (front_slice 0 4) ∙ segment 4 m.version after_version w.version_fits) i;
  source_domain =
      (ap be_uint (front_slice 4 8 ∙ skip 4 m.version 0 4 after_version)
          ∙ segment 4 m.source_domain after_source w.source_fits)
        i;
  destination_domain =
      (ap be_uint (
            front_slice 8 12
            ∙ skip 4 m.version 4 8 after_version
            ∙ skip 4 m.source_domain 0 4 after_source)
          ∙ segment 4 m.destination_domain (be_bytes 8 m.nonce ++ addresses) w.destination_fits)
        i;
  nonce =
      (ap be_uint (
            front_slice 12 20
            ∙ skip 4 m.version 8 16 after_version
            ∙ skip 4 m.source_domain 4 12 after_source
            ∙ skip 4 m.destination_domain 0 8 (be_bytes 8 m.nonce ++ addresses))
          ∙ segment 8 m.nonce addresses w.nonce_fits)
        i;
  sender = (behind 0 32 ∙ slice_here 32 m.sender after_sender w.sender_length) i;
  recipient =
      (behind 32 64
          ∙ slice_past 32 0 32 m.sender after_sender w.sender_length
          ∙ slice_here 32 m.recipient after_recipient w.recipient_length)
        i;
  destination_caller =
      (behind 64 96
          ∙ slice_past 32 32 64 m.sender after_sender w.sender_length
          ∙ slice_past 32 0 32 m.recipient after_recipient w.recipient_length
          ∙ slice_here 32 m.destination_caller m.message_body w.caller_length)
        i;
  message_body =
      (drop_behind 20 96 (header m) addresses (length-header m)
          ∙ drop_behind 32 64 m.sender after_sender w.sender_length
          ∙ drop_behind 32 32 m.recipient after_recipient w.recipient_length
          ∙ drop_behind 32 0 m.destination_caller m.message_body w.caller_length)
        i;
}
  where
    after_recipient : List ℕ
    after_recipient = m.destination_caller ++ m.message_body

    after_sender : List ℕ
    after_sender = m.recipient ++ after_recipient

    addresses : List ℕ
    addresses = m.sender ++ after_sender

    after_source : List ℕ
    after_source = be_bytes 4 m.destination_domain ++ (be_bytes 8 m.nonce ++ addresses)

    after_version : List ℕ
    after_version = be_bytes 4 m.source_domain ++ after_source

    front_slice :
        (a b : ℕ) → slice a b (message_bytes m) ≡ slice a b (be_bytes 4 m.version ++ after_version)
    front_slice a b = simp append_assoc

    behind : (a b : ℕ) → slice (20 + a) (20 + b) (message_bytes m) ≡ slice a b addresses
    behind a b = slice_past 20 a b (header m) addresses (length-header m)

length-message_bytes :
    (m : Message) → IsWireMessage m → length (message_bytes m) ≡ 116 + length m.message_body
length-message_bytes m w =
    rw (length-append, length-header m, length-append, length-append, length-append) (omega arith)

-- Message.Parse reads back every well-formed message.
pub parse_message-message_bytes :
    (m : Message) → IsWireMessage m → parse_message (message_bytes m) ≡ ok m
unfolding parse_message
parse_message-message_bytes m w = elim (Bool-cases (ltb (length (message_bytes m)) 116)) [
  | inl short ↦ absurd (ground (arith, length-message_bytes m w))
  | inr long ↦ rw (long, message_fields-message_bytes m w)
]

burn_message_fields-burn_message_bytes :
    (m : BurnMessage) → IsWireBurnMessage m → burn_message_fields (burn_message_bytes m) ≡ m
unfolding burn_message_fields
burn_message_fields-burn_message_bytes m w = λ i. record {
  version = segment 4 m.version after_version w.version_fits i;
  burn_token =
      (skip 4 m.version 0 32 after_version ∙ slice_here 32 m.burn_token after_token w.token_length)
        i;
  mint_recipient =
      (skip 4 m.version 32 64 after_version
          ∙ slice_past 32 0 32 m.burn_token after_token w.token_length
          ∙ slice_here 32 m.mint_recipient after_recipient w.recipient_length)
        i;
  amount =
      (ap be_uint (
            skip 4 m.version 64 96 after_version
            ∙ slice_past 32 32 64 m.burn_token after_token w.token_length
            ∙ slice_past 32 0 32 m.mint_recipient after_recipient w.recipient_length)
          ∙ segment 32 m.amount m.message_sender w.amount_fits)
        i;
  message_sender =
      (drop_behind 4 96 (be_bytes 4 m.version) after_version (length-be_bytes 4 m.version)
          ∙ drop_behind 32 64 m.burn_token after_token w.token_length
          ∙ drop_behind 32 32 m.mint_recipient after_recipient w.recipient_length
          ∙ drop_behind 32 0 (be_bytes 32 m.amount) m.message_sender (length-be_bytes 32 m.amount))
        i;
}
  where
    after_recipient : List ℕ
    after_recipient = be_bytes 32 m.amount ++ m.message_sender

    after_token : List ℕ
    after_token = m.mint_recipient ++ after_recipient

    after_version : List ℕ
    after_version = m.burn_token ++ after_token

length-burn_message_bytes :
    (m : BurnMessage) → IsWireBurnMessage m → length (burn_message_bytes m) ≡ 132
length-burn_message_bytes m w =
    rw
      (
        length-append,
        length-append,
        length-append,
        length-append,
        length-be_bytes 4 m.version,
        length-be_bytes 32 m.amount,
      )
      (omega arith)

-- BurnMessage.Parse reads back every well-formed burn message.
pub parse_burn_message-burn_message_bytes :
    (m : BurnMessage) → IsWireBurnMessage m → parse_burn_message (burn_message_bytes m) ≡ ok m
unfolding parse_burn_message
parse_burn_message-burn_message_bytes m w =
    rw (length-burn_message_bytes m w, burn_message_fields-burn_message_bytes m w)
