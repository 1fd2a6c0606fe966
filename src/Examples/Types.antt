-- ===== src/Examples/Types.antt =====
-- Examples for the types.
use noble_cctp_relayer.Base.{
  ℕ, ◌≤◌, ◌<◌, List, [], ◌∷◌, text, some, ok, err, ◌≡◌, ◌⊎◌, refl, arith, length,
}
use noble_cctp_relayer.Types.Message.{Message, parse_message, invalid_message_length}
use noble_cctp_relayer.Types.Message.Layout.{message_bytes}
use noble_cctp_relayer.Types.Message.Lossless.{parse_message_lossless}
use noble_cctp_relayer.Types.State.{MessageState}
use noble_cctp_relayer.Types.SequenceMap.{put}
use noble_cctp_relayer.Types.SequenceMap.Nonces.{handed, count_up, calls_of, handed-put}
use noble_cctp_relayer.Types.EvmLog.{
  EvmLibrary, EvmLog, CctpMessage, evm_log_to_message_state, unknown_body_format,
}
use noble_cctp_relayer.Types.EvmLog.Accepted.{Describes, evm_log_accepted}
use noble_cctp_relayer.Examples.Samples.{repeat, All-all_bytes}

abbrev wire : List ℕ
wire = repeat 130 5

parse_message_lossless_example :
    ((length wire < 116) × (parse_message wire ≡ err invalid_message_length))
    ⊎ ((116 ≤ length wire) × (m : Message) × (parse_message wire ≡ ok m) × (message_bytes m ≡ wire))
parse_message_lossless_example = parse_message_lossless wire (All-all_bytes wire refl)

handed-put_example :
    handed 4 (4 ∷ 5 ∷ 4 ∷ []) (put 4 7 []) ≡ count_up 7 (calls_of 4 (4 ∷ 5 ∷ 4 ∷ []))
handed-put_example = handed-put 4 7 (4 ∷ 5 ∷ 4 ∷ []) [] (omega arith)

abbrev cctp_message : CctpMessage
cctp_message = record {
  source_domain = 0;
  destination_domain = 4;
  nonce = 55;
  destination_caller = repeat 32 0;
  message_body = repeat 132 7;
}

abbrev pub library : EvmLibrary
library = record {
  unpack_message = λ bytes. some bytes;
  parse_cctp_message = λ bytes. some cctp_message;
  keccak256 = λ bytes. repeat 32 6;
}

abbrev pub log : EvmLog
log = record { tx_hash = text "0xfeed"; log_data = 1 ∷ 2 ∷ [] }

evm_log_accepted_example :
    ((112 ≤ length cctp_message.message_body)
      × (s : MessageState) × (evm_log_to_message_state library 3 log ≡ ok s)
      × Describes library log (1 ∷ 2 ∷ []) cctp_message s)
    ⊎ ((length cctp_message.message_body < 112)
        × (evm_log_to_message_state library 3 log ≡ err unknown_body_format))
evm_log_accepted_example = evm_log_accepted library 3 log (1 ∷ 2 ∷ []) cctp_message refl refl
