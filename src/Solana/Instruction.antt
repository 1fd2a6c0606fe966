-- ===== src/Solana/Instruction.antt =====
-- buildReceiveMessageInstruction of solana/broadcast.go: the accounts and the data of the call of
-- receiveMessage.
pub mod Roles
use noble_cctp_relayer.Base.{
  ℕ, List, [], ◌∷◌, ◌++◌, Bool, true, false, Result, ok, err, ◌>>=◌, wrap,
}
use noble_cctp_relayer.Types.Message.{ParseError, Message, parse_message}
use noble_cctp_relayer.Solana.Address.{PublicKey, AddressError, bytes_to_solana_public_key}
use noble_cctp_relayer.Solana.Accounts.{CctpAccounts}

-- solana.AccountMeta and the arguments of solana.NewInstruction.
pub record AccountMeta : Type 0 where
  pub public_key : PublicKey
  pub is_signer : Bool
  pub is_writable : Bool

pub record Instruction : Type 0 where
  pub program : PublicKey
  pub accounts : List AccountMeta
  pub data_bytes : List ℕ

pub data InstructionError : Type 0 where
  unparsable_message : ParseError → InstructionError
  bad_recipient : AddressError → InstructionError

abbrev pub meta : PublicKey → Bool → Bool → AccountMeta
meta key signer writable = record { public_key = key; is_signer = signer; is_writable = writable }

unfoldable pub account_metas :
    (minter_address recipient : PublicKey) → CctpAccounts → List AccountMeta
account_metas minter_address recipient accounts =
    meta accounts.message_transmitter false false
    ∷ meta minter_address true false
    ∷ meta recipient false false
    ∷ meta accounts.used_nonces false true
    ∷ meta accounts.token_messenger false false
    ∷ meta accounts.remote_token_messenger false false
    ∷ meta accounts.token_minter false true
    ∷ meta accounts.local_token false true
    ∷ meta accounts.token_pair false false
    ∷ meta accounts.user_token_account false true
    ∷ meta accounts.custody_token_account false true
    ∷ meta accounts.token_program false false
    ∷ meta accounts.event_authority false false
    ∷ meta accounts.token_messenger_minter_program false false
    ∷ []

unfoldable pub build_receive_message_instruction :
    (message_transmitter_program minter_address : PublicKey)
    → (message_bytes attestation_bytes : List ℕ) → CctpAccounts
    → Result InstructionError Instruction
unfolding account_metas
build_receive_message_instruction program minter_address message_bytes attestation_bytes accounts =
    do
      parsed_msg ← wrap unparsable_message (parse_message message_bytes)
      recipient ← wrap bad_recipient (bytes_to_solana_public_key parsed_msg.recipient)
      ok (record {
        program = program;
        accounts = account_metas minter_address recipient accounts;
        data_bytes = message_bytes ++ attestation_bytes;
      })
