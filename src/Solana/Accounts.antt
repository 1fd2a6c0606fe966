-- ===== src/Solana/Accounts.antt =====
-- solana/types.go and solana/pda.go: the accounts of a receiveMessage call. FindProgramAddress of
-- solana-go is a parameter, from seeds and a program to an address.
pub mod Derived
use noble_cctp_relayer.Base.{
  ℕ, ◌/◌, List, [], ◌∷◌, Text, text, Option, some, none, Result, ok, err, ◌>>=◌, wrap, be_bytes,
  format_uint,
}
use noble_cctp_relayer.Types.Message.{
  Message, BurnMessage, ParseError, parse_message, parse_burn_message,
}
use noble_cctp_relayer.Solana.Address.{PublicKey, AddressError, bytes_to_solana_public_key}

pub record CctpAccounts : Type 0 where
  pub message_transmitter : PublicKey
  pub used_nonces : PublicKey
  pub token_messenger : PublicKey
  pub remote_token_messenger : PublicKey
  pub token_minter : PublicKey
  pub local_token : PublicKey
  pub token_pair : PublicKey
  pub user_token_account : PublicKey
  pub custody_token_account : PublicKey
  pub event_authority : PublicKey
  pub token_program : PublicKey
  pub token_messenger_minter_program : PublicKey

-- The arguments of DeriveCCTPAccounts besides the message, the constant SPLTokenProgram, and
-- solana-go's derivation.
pub record Programs : Type 0 where
  pub message_transmitter_program : PublicKey
  pub token_messenger_minter_program : PublicKey
  pub local_token_mint : PublicKey
  pub spl_token_program : PublicKey
  pub find_program_address : List (List ℕ) → PublicKey → Option PublicKey

pub data AccountsError : Type 0 where
  bad_message bad_burn_message : ParseError → AccountsError
  no_program_address : (seed : Text) → AccountsError
  bad_key : AddressError → AccountsError

abbrev pub found : Text → Option PublicKey → Result AccountsError PublicKey
found seed none = err (no_program_address seed)
found seed (some key) = ok key

abbrev pub derive : Programs → Text → List (List ℕ) → PublicKey → Result AccountsError PublicKey
derive programs seed more program = found seed (programs.find_program_address (seed ∷ more) program)

-- `parsedMsg.Nonce / 65536`, in decimal digits.
unfoldable pub nonce_seed : ℕ → Text
nonce_seed nonce = format_uint (nonce / 65536)

-- The derivations that follow the parsing.
unfoldable pub derive_from : Programs → Message → BurnMessage → Result AccountsError CctpAccounts
derive_from programs m burn = do
  let transmitter = programs.message_transmitter_program
  let minter = programs.token_messenger_minter_program
  let mint = programs.local_token_mint
  let source_domain_bytes = be_bytes 4 m.source_domain
  message_transmitter ← derive programs (text "message_transmitter") [] transmitter
  used_nonces ← derive programs (text "used_nonces") (nonce_seed m.nonce ∷ []) transmitter
  remote ← derive programs (text "remote_token_messenger") (source_domain_bytes ∷ []) minter
  token_messenger ← derive programs (text "token_messenger") [] minter
  token_minter ← derive programs (text "token_minter") [] minter
  local_token ← derive programs (text "local_token") (mint ∷ []) minter
  remote_burn_token ← wrap bad_key (bytes_to_solana_public_key burn.burn_token)
  token_pair ←
      derive programs (text "token_pair") (source_domain_bytes ∷ remote_burn_token ∷ []) minter
  user_token_account ← wrap bad_key (bytes_to_solana_public_key burn.mint_recipient)
  custody ← derive programs (text "custody") (mint ∷ []) minter
  event_authority ← derive programs (text "__event_authority") [] minter
  ok (record {
    message_transmitter = message_transmitter;
    used_nonces = used_nonces;
    token_messenger = token_messenger;
    remote_token_messenger = remote;
    token_minter = token_minter;
    local_token = local_token;
    token_pair = token_pair;
    user_token_account = user_token_account;
    custody_token_account = custody;
    event_authority = event_authority;
    token_program = programs.spl_token_program;
    token_messenger_minter_program = minter;
  })

unfoldable pub derive_cctp_accounts :
    Programs → (msg_sent_bytes : List ℕ) → Result AccountsError CctpAccounts
unfolding derive_from
derive_cctp_accounts programs msg_sent_bytes = do
  m ← wrap bad_message (parse_message msg_sent_bytes)
  burn ← wrap bad_burn_message (parse_burn_message m.message_body)
  derive_from programs m burn
