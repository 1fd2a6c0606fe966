-- ===== src/Examples/Solana.antt =====
-- Examples for Solana.
use noble_cctp_relayer.Base.{ℕ, List, some}
use noble_cctp_relayer.Solana.Address.{PublicKey}
use noble_cctp_relayer.Solana.Accounts.{Programs}
use noble_cctp_relayer.Examples.Samples.{repeat}

abbrev minter_key : PublicKey
minter_key = repeat 32 9

-- Every seed leads to the address of the program itself.
abbrev programs : Programs
programs = record {
  message_transmitter_program = repeat 32 1;
  token_messenger_minter_program = repeat 32 2;
  local_token_mint = repeat 32 3;
  spl_token_program = repeat 32 4;
  find_program_address = λ seeds program. some program;
}

abbrev message : List ℕ
message = repeat 248 5
