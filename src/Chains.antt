-- ===== src/Chains.antt =====
-- The methods Chain of noble/config.go, ethereum/config.go and solana/config.go with the constructors
-- NewChain, and what the processor and the filters use of the chains that they make. The
-- cryptography, the networks and the heights that TrackLatestBlockHeight sets are parameters.
pub mod Lawful
use noble_cctp_relayer.Base.{
  ℕ, ◌-◌, List, [], ◌∷◌, ◌++◌, Text, text, text_eq, map, Bool, true, false, ◌&&◌, ◌||◌, not, Option,
  some, none, Result, ok, leb, if◌then◌else◌, hex_decode,
}
use noble_cctp_relayer.Config.{
  ChainConfig, NobleConfig, EthereumConfig, SolanaConfig, noble_chain, ethereum_chain, solana_chain,
}
use noble_cctp_relayer.Types.World.{Chain}
use noble_cctp_relayer.Ethereum.Broadcast.{EvmNode, EthereumSettings}
use noble_cctp_relayer.Noble.Broadcast.{CosmosNode, NobleSettings}
use noble_cctp_relayer.Solana.Address.{PublicKey}
use noble_cctp_relayer.Solana.Accounts.{Programs}
use noble_cctp_relayer.Solana.Broadcast.{SolanaNode, SolanaSettings}
use noble_cctp_relayer.Ethereum.Broadcast as EvmBroadcast
use noble_cctp_relayer.Ethereum.Caller as EvmCaller
use noble_cctp_relayer.Noble as NobleCaller
use noble_cctp_relayer.Noble.Broadcast as NobleBroadcast
use noble_cctp_relayer.Solana.Address as SolanaCaller
use noble_cctp_relayer.Solana.Broadcast as SolanaBroadcast

-- What the packages outside the repository answer. A key of Noble is read by its bytes, one of an
-- EVM chain by crypto.HexToECDSA, one of Solana as base58; the results are the addresses.
pub record ChainLibrary : Type 0 where
  pub env : Text → Text
  pub noble_address : (key : List ℕ) → Text
  pub bech32 : List ℕ → Option Text
  pub account_number : ℕ
  pub cosmos : (rpc : Text) → CosmosNode
  pub evm_address : (key : Text) → Option Text
  pub evm : (rpc ws message_transmitter : Text) → EvmNode
  pub solana_address : (key : Text) → Option PublicKey
  pub public_key : Text → Option PublicKey  -- PublicKeyFromBase58
  pub base58 : PublicKey → Text
  pub usdc_mint_mainnet : PublicKey
  pub spl_token_program : PublicKey
  pub find_program_address : List (List ℕ) → PublicKey → Option PublicKey
  pub solana : (rpc : Text) → SolanaNode
  pub heights : (name : Text) → ℕ → ℕ

abbrev upper : ℕ → ℕ
upper c = if leb 97 c && leb c 122 then c - 32 else c

-- strings.ToUpper of a name in ASCII.
unfoldable pub env_key : (name : Text) → Text
env_key name = map upper name ++ text "_PRIV_KEY"

-- The key of the environment, then that of the configuration; `none` is the error.
unfoldable pub minter_key : (env : Text → Text) → (name configured : Text) → Option Text
unfolding env_key
minter_key env name configured =
    let priv_key = env (env_key name) in
    if text_eq configured [] || not (text_eq priv_key [])
    then (if text_eq priv_key [] then none else some priv_key)
    else some configured

abbrev pub and_then {ℓ κ} : {A : Type ℓ} {B : Type κ} → Option A → (A → Option B) → Option B
and_then none k = none
and_then (some a) k = k a

unfoldable pub new_noble : ChainLibrary → NobleConfig → (private_key : Text) → Option Chain
new_noble lib c private_key = and_then (hex_decode private_key) (λ key_bz.
    let minter_address = lib.noble_address key_bz in
    let settings : NobleSettings = record {
      minter_address = minter_address;
      chain_id = c.chain_id;
      account_number = lib.account_number;
      gas_limit = c.gas_limit;
      tx_memo = c.tx_memo;
      max_retries = c.broadcast_retries;
    } in
    some (record {
      name = text "Noble";
      domain = NobleCaller.noble_domain;
      latest_block = lib.heights (text "Noble");
      is_destination_caller =
          λ caller. ok (NobleCaller.is_destination_caller lib.bech32 minter_address caller);
      broadcast = NobleBroadcast.broadcast (lib.cosmos c.rpc) settings;
    }))

unfoldable pub new_ethereum :
    ChainLibrary → EthereumConfig → (name private_key : Text) → Option Chain
new_ethereum lib c name private_key = and_then (lib.evm_address private_key) (λ minter_address.
    let settings : EthereumSettings = record {
      name = name;
      domain = c.domain;
      max_retries = c.broadcast_retries;
    } in
    some (record {
      name = name;
      domain = c.domain;
      latest_block = lib.heights name;
      is_destination_caller = EvmCaller.is_destination_caller minter_address;
      broadcast = EvmBroadcast.broadcast (lib.evm c.rpc c.ws c.message_transmitter) settings;
    }))

-- SOLANA_USDC_MINT, or the mint of the main net.
unfoldable pub local_token_mint : ChainLibrary → Option PublicKey
local_token_mint lib =
    let custom_mint = lib.env (text "SOLANA_USDC_MINT") in
    if text_eq custom_mint [] then some lib.usdc_mint_mainnet else lib.public_key custom_mint

abbrev solana_settings :
    ChainLibrary
    → SolanaConfig
    → (name : Text) → (minter transmitter token_minter mint : PublicKey) → SolanaSettings
solana_settings lib c name minter transmitter token_minter mint = record {
  name = name;
  domain = c.domain;
  max_retries = c.broadcast_retries;
  minter_address = minter;
  programs = record {
    message_transmitter_program = transmitter;
    token_messenger_minter_program = token_minter;
    local_token_mint = mint;
    spl_token_program = lib.spl_token_program;
    find_program_address = lib.find_program_address;
  };
}

unfoldable pub new_solana : ChainLibrary → SolanaConfig → (name private_key : Text) → Option Chain
unfolding local_token_mint
new_solana lib c name private_key = and_then (lib.solana_address private_key) (λ minter.
    and_then (lib.public_key c.message_transmitter) (λ transmitter.
      and_then (lib.public_key c.token_messenger_minter) (λ token_minter.
        and_then (local_token_mint lib) (λ mint. some (record {
          name = name;
          domain = c.domain;
          latest_block = lib.heights name;
          is_destination_caller =
              λ caller. ok (SolanaCaller.is_destination_caller lib.base58 minter caller);
          broadcast =
              SolanaBroadcast.broadcast (lib.solana c.rpc)
                (solana_settings lib c name minter transmitter token_minter mint);
        })))))

-- cfg.Chain(name), by the dynamic type of the configuration; `none` is an error.
unfoldable pub make_chain : ChainLibrary → ChainConfig → (name : Text) → Option Chain
unfolding minter_key new_noble new_ethereum new_solana
make_chain lib (noble_chain c) name =
    and_then (minter_key lib.env name c.minter_private_key) (new_noble lib c)
make_chain lib (ethereum_chain c) name =
    and_then (minter_key lib.env name c.minter_private_key) (new_ethereum lib c name)
make_chain lib (solana_chain c) name =
    and_then (minter_key lib.env name c.minter_private_key) (new_solana lib c name)
