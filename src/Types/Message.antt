-- ===== src/Types/Message.antt =====
-- types/message.go: the three wire formats that the relayer reads. Byte slices are lists of
-- numbers, and the field order and the offsets are those of the source.
pub mod Layout
pub mod Lossless
use noble_cctp_relayer.Base.{
  ℕ, List, [], ◌∷◌, Text, Result, ok, err, ltb, ◌==◌, if◌then◌else◌, not, length, drop, slice,
  be_uint,
}

pub record Message : Type 0 where
  pub version : ℕ  -- uint32
  pub source_domain : ℕ  -- uint32
  pub destination_domain : ℕ  -- uint32
  pub nonce : ℕ  -- uint64
  pub sender : List ℕ
  pub recipient : List ℕ
  pub destination_caller : List ℕ
  pub message_body : List ℕ

pub record BurnMessage : Type 0 where
  pub version : ℕ  -- uint32
  pub burn_token : List ℕ
  pub mint_recipient : List ℕ
  pub amount : ℕ  -- big.Int
  pub message_sender : List ℕ

pub record MetadataMessage : Type 0 where
  pub nonce : ℕ  -- uint64
  pub sender : List ℕ
  pub channel : ℕ  -- uint64
  pub prefix : Text
  pub recipient : List ℕ
  pub memo : Text

pub data ParseError : Type 0 where
  invalid_message_length invalid_burn_message_length invalid_metadata_message_length : ParseError

unfoldable pub message_fields : List ℕ → Message
message_fields bz = record {
  version = be_uint (slice 0 4 bz);
  source_domain = be_uint (slice 4 8 bz);
  destination_domain = be_uint (slice 8 12 bz);
  nonce = be_uint (slice 12 20 bz);
  sender = slice 20 52 bz;
  recipient = slice 52 84 bz;
  destination_caller = slice 84 116 bz;
  message_body = drop 116 bz;
}

unfoldable pub parse_message : List ℕ → Result ParseError Message
unfolding message_fields
parse_message bz =
    if ltb (length bz) 116 then err invalid_message_length else ok (message_fields bz)

unfoldable pub burn_message_fields : List ℕ → BurnMessage
burn_message_fields bz = record {
  version = be_uint (slice 0 4 bz);
  burn_token = slice 4 36 bz;
  mint_recipient = slice 36 68 bz;
  amount = be_uint (slice 68 100 bz);
  message_sender = drop 100 bz;
}

unfoldable pub parse_burn_message : List ℕ → Result ParseError BurnMessage
unfolding burn_message_fields
parse_burn_message bz =
    if not (length bz == 132) then err invalid_burn_message_length else ok (burn_message_fields bz)

-- bytes.TrimLeft(bz, "\x00")
unfoldable pub trim_left_zero : List ℕ → List ℕ
trim_left_zero [] = []
trim_left_zero (b ∷ bs) = let rest = trim_left_zero bs in if b == 0 then rest else b ∷ bs

unfoldable pub metadata_message_fields : List ℕ → MetadataMessage
metadata_message_fields bz = record {
  nonce = be_uint (slice 0 8 bz);
  sender = slice 8 40 bz;
  channel = be_uint (slice 40 48 bz);
  prefix = trim_left_zero (slice 48 80 bz);
  recipient = slice 80 112 bz;
  memo = drop 112 bz;
}

unfoldable pub parse_metadata_message : List ℕ → Result ParseError MetadataMessage
unfolding metadata_message_fields
parse_metadata_message bz =
    if ltb (length bz) 112
    then err invalid_metadata_message_length
    else ok (metadata_message_fields bz)
