-- ===== src/Examples/Setup.antt =====
-- Examples for the start of the program and the API.
use noble_cctp_relayer.Base.{
  ℕ, List, [], ◌∷◌, Text, text, Bool, true, false, Result, ok, ◌≡◌, ◌≢◌, ◌↔◌, ◌⊎◌, inl, refl,
  Option, some, none, All, length, pos, nat_key, text_key,
}
use noble_cctp_relayer.Config.{EthereumConfig, ethereum_chain}
use noble_cctp_relayer.Types.State.{TxState, TxPtr, load}
use noble_cctp_relayer.Types.World.{Chain, done}
use noble_cctp_relayer.Types.Filter.{FilterRegistry}
use noble_cctp_relayer.Ethereum.Broadcast.{sent}
use noble_cctp_relayer.Chains.{ChainLibrary, make_chain}
use noble_cctp_relayer.Chains.Lawful.{IsLawful, make_chain-IsLawful}
use noble_cctp_relayer.Cmd.Setup.{initialize_filters}
use noble_cctp_relayer.Cmd.Start.{ChainSetup, StartError, Registration, start}
use noble_cctp_relayer.Cmd.Start.Registered.{IsRegistered, start-IsRegistered}
use noble_cctp_relayer.Cmd.Api.{get_tx_by_hash}
use noble_cctp_relayer.Cmd.Api.Answers.{get_tx_by_hash_panics}
use noble_cctp_relayer.Examples.Samples.{transfer, world_of}
use noble_cctp_relayer.Examples.Filters.{library, config}

abbrev pub evm_config : EthereumConfig
evm_config = record {
  rpc = text "http://eth";
  ws = text "ws://eth";
  domain = 0;
  chain_id = pos 1;
  message_transmitter = text "0x0a";
  start_block = 0;
  lookback_period = 5;
  broadcast_retries = pos 2;
  broadcast_retry_interval = pos 5;
  min_mint_amount = 0;
  metrics_denom = text "ETH";
  metrics_exponent = pos 18;
  minter_private_key = text "1234";
}

abbrev pub packages : ChainLibrary
packages = record {
  env = λ key. [];
  noble_address = λ key. text "noble1x";
  bech32 = λ bytes. some bytes;
  account_number = 3;
  cosmos = λ rpc. record {
    account_info = λ now. none;
    query_used_nonce = λ now domain nonce. none;
    set_msgs = λ msgs. false;
    sign = λ settings sequence msgs. none;
    broadcast_tx = λ now bytes. none;
  };
  evm_address = λ key. some (text "0xab");
  evm = λ rpc ws transmitter. record {
    set_up = λ now. true;
    transaction_count = λ now. some (text "0x5");
    parse_base16 = λ digits. 5;
    used_nonces = λ now key. some 0;
    keccak256 = λ bytes. bytes;
    receive_message = λ now nonce message attestation. sent (text "0xcafe");
  };
  solana_address = λ key. none;
  public_key = λ key. none;
  base58 = λ key. key;
  usdc_mint_mainnet = [];
  spl_token_program = [];
  find_program_address = λ seeds program. none;
  solana = λ rpc. record {
    account_exists = λ now key. none;
    latest_blockhash = λ now. none;
    new_transaction = λ instruction blockhash payer. none;
    sign = λ tx signer. none;
    send_transaction = λ now tx. none;
  };
  heights = λ name now. 100;
}

-- A chain that mints every batch at once.
abbrev minting : Chain
minting = record {
  name = text "Noble";
  domain = 4;
  latest_block = λ now. 100;
  is_destination_caller = λ caller. ok (true, []);
  broadcast = λ msgs w. done none w;
}

abbrev chain_of : Option Chain → Chain
chain_of none = minting
chain_of (some c) = c

made :
    make_chain packages (ethereum_chain evm_config) (text "ethereum")
    ≡ some (chain_of (make_chain packages (ethereum_chain evm_config) (text "ethereum")))
unfolding make_chain noble_cctp_relayer.Base.text_eq
made = refl

make_chain-IsLawful_example :
    IsLawful (chain_of (make_chain packages (ethereum_chain evm_config) (text "ethereum")))
make_chain-IsLawful_example =
    make_chain-IsLawful packages (ethereum_chain evm_config) (text "ethereum")
      (chain_of (make_chain packages (ethereum_chain evm_config) (text "ethereum"))) made

abbrev setups : List ChainSetup
setups =
    record {
      chain = some minting;
      clients = true;
      height = λ i. i;
      broadcaster = λ sequences. some sequences;
    }
    ∷ []

abbrev pub Started : Type 0
Started = Registration × FilterRegistry

abbrev pub started_of : Result StartError Started → Started
started_of (ok s) = s
started_of _ = (([], []), [])

abbrev started : Started
started = started_of (start library config setups 60 false)

started_well : start library config setups 60 false ≡ ok (started.0, started.1)
unfolding start noble_cctp_relayer.Cmd.Start.wait_for_height noble_cctp_relayer.Base.lookup
    initialize_filters noble_cctp_relayer.Base.text_eq
    noble_cctp_relayer.Filters.Whitelist.Initialize.initialize
    noble_cctp_relayer.Filters.Whitelist.refresh noble_cctp_relayer.Filters.Whitelist.fetch_list
    noble_cctp_relayer.Http.http_request
started_well = refl

start-IsRegistered_example :
    All (IsRegistered started.0.0) setups
    × (length started.0.0 ≡ length setups)
    × (initialize_filters library config started.0.0 ≡ ok started.1)
start-IsRegistered_example =
    start-IsRegistered library config setups 60 false started.0 started.1 started_well

abbrev tx : TxState
tx = record { tx_hash = text "0xfeed"; msgs = 1 ∷ []; retry_attempt = 0 }

get_tx_by_hash_panics_example :
    (get_tx_by_hash [] (λ p. tx) (world_of transfer).heap (text "0xfeed") (text "4") ≡ none) ↔ (
      (text "4" ≢ [])
      × ((load (text "0xfeed") [] ≡ none)
          ⊎ ((p : TxPtr) × (load (text "0xfeed") [] ≡ some p) × (tx.msgs ≡ []))))
get_tx_by_hash_panics_example =
    get_tx_by_hash_panics [] (λ p. tx) (world_of transfer).heap (text "0xfeed") (text "4")
