-- ===== src/Examples/Noble.antt =====
-- Examples for Noble and the configuration.
use noble_cctp_relayer.Base.{
  ℕ, List, [], ◌∷◌, Text, text, Bool, true, false, ok, ◌≡◌, ◌≢◌, ◌⊎◌, ◌↔◌, inl, refl, Option, some,
  none, All, Any, pos, Result, Map, ◌>>=◌,
}
use noble_cctp_relayer.Types.World.{World, BroadcastError, retries_exhausted, done, crash, Run}
use noble_cctp_relayer.Noble.Broadcast.{
  CosmosNode, NobleSettings, ReceiveMessage, gather, broadcast,
}
use noble_cctp_relayer.Noble.Broadcast.Attempts.{IsComplete}
use noble_cctp_relayer.Noble.Broadcast.Faithful.{IsFor, gather-IsFor}
use noble_cctp_relayer.Cmd.AppState.{AppState, init_app_state, parse_file, with_logger, info_level}
use noble_cctp_relayer.Cmd.AppState.Ready.{init_app_state_iff}
use noble_cctp_relayer.Noble.Broadcast.Settled.{IsSettled, broadcast-IsSettled}
use noble_cctp_relayer.Config.{SolanaConfig, solana_chain, Config}
use noble_cctp_relayer.Cmd.Validation.{Yaml, ConfigWrapper, parse_config, validate_config}
use noble_cctp_relayer.Cmd.Validation.Solana.{parse_config-solana}
use noble_cctp_relayer.Cmd.Validation.Accepted.{IsAccepted, validate_config-IsAccepted}
use noble_cctp_relayer.Examples.Samples.{attested_transfer, settings, world_of}

abbrev world_after : Run (Option BroadcastError) → World
world_after (done e w) = w
world_after _ = world_of attested_transfer

-- A node whose sequence does not match, and then answers so again.
abbrev node : CosmosNode
node = record {
  account_info = λ now. some (3, 8);
  query_used_nonce = λ now domain nonce. some false;
  set_msgs = λ msgs. true;
  sign = λ settings sequence msgs. some [];
  broadcast_tx =
      λ now bytes. some (record { code = 32; log = text "expected 12, got 11"; hash = [] });
}

abbrev noble : NobleSettings
noble = record {
  minter_address = text "noble1x";
  chain_id = text "noble-1";
  account_number = 3;
  gas_limit = 200000;
  tx_memo = [];
  max_retries = pos 2;
}

abbrev start : World
start = world_of attested_transfer

abbrev ended : World
ended = world_after (broadcast node noble (1 ∷ 2 ∷ []) start)

failed_on_noble : broadcast node noble (1 ∷ 2 ∷ []) start ≡ done (some retries_exhausted) ended
unfolding broadcast noble_cctp_relayer.Noble.Broadcast.attempts
    noble_cctp_relayer.Noble.Broadcast.attempt_broadcast noble_cctp_relayer.Noble.Broadcast.gather
    noble_cctp_relayer.Types.State.status_eq noble_cctp_relayer.Base.hex_decode
    noble_cctp_relayer.Noble.Broadcast.extract_account_sequence
    noble_cctp_relayer.Base.find_two_numbers
failed_on_noble = refl

broadcast-IsSettled_example :
    (◌≡◌ {A = Option BroadcastError} (some retries_exhausted) none
      → All (IsComplete ended.heap) (1 ∷ 2 ∷ []))
    × All (IsSettled ended.heap) (1 ∷ 2 ∷ [])
broadcast-IsSettled_example =
    broadcast-IsSettled node noble (1 ∷ 2 ∷ []) start ended (some retries_exhausted) failed_on_noble

abbrev gathered_of : Run (Option (List ReceiveMessage)) → List ReceiveMessage
gathered_of (done (some rs) w) = rs
gathered_of _ = []

abbrev world_of_gather : Run (Option (List ReceiveMessage)) → World
world_of_gather (done rs w) = w
world_of_gather crash = start

abbrev out : List ReceiveMessage
out = gathered_of (gather node noble (1 ∷ 2 ∷ []) [] start)

gathered :
    gather node noble (1 ∷ 2 ∷ []) [] start
    ≡ done (some out) (world_of_gather (gather node noble (1 ∷ 2 ∷ []) [] start))
unfolding gather noble_cctp_relayer.Types.State.status_eq noble_cctp_relayer.Base.hex_decode
gathered = refl

gather-IsFor_example : All (IsFor noble start.heap (1 ∷ 2 ∷ [])) out
gather-IsFor_example =
    gather-IsFor node noble (1 ∷ 2 ∷ []) start
      (world_of_gather (gather node noble (1 ∷ 2 ∷ []) [] start)) out gathered

abbrev solana_section : SolanaConfig
solana_section = record {
  rpc = text "http://solana";
  ws = text "ws://solana";
  domain = 5;
  message_transmitter = [];
  token_messenger_minter = [];
  start_block = 0;
  lookback_period = 5;
  broadcast_retries = pos 5;
  broadcast_retry_interval = pos 5;
  min_mint_amount = 10;
  metrics_denom = [];
  metrics_exponent = pos 0;
  minter_private_key = [];
}

abbrev yaml : Yaml ℕ
yaml = record {
  to_noble = λ y. none;
  to_ethereum = λ y. none;
  to_solana = λ y. some solana_section;
}

abbrev wrapper : ConfigWrapper ℕ ℕ
wrapper = record {
  chains = (text "solana", 0) ∷ [];
  enabled_routes = (0, 5 ∷ []) ∷ [];
  circle = settings;
  filters = [];
  processor_worker_count = 16;
  destination_caller_only = true;
  trusted_proxies = [];
}

abbrev config : Config ℕ
config = record {
  chains = (text "solana", solana_chain solana_section) ∷ [];
  enabled_routes = (0, 5 ∷ []) ∷ [];
  circle = settings;
  filters = [];
  processor_worker_count = 16;
  destination_caller_only = false;
  trusted_proxies = [];
}

parsed : parse_config yaml wrapper ≡ some config
unfolding parse_config noble_cctp_relayer.Base.text_eq
parsed = refl

parse_config-solana_example :
    (Any (λ entry. entry.0 ≡ text "solana") wrapper.chains → ¬ (validate_config config ≡ ok tt))
    × (config.destination_caller_only ≡ false)
parse_config-solana_example = parse_config-solana yaml wrapper config parsed

validate_config-IsAccepted_example : (validate_config config ≡ ok tt) ↔ IsAccepted config
validate_config-IsAccepted_example = validate_config-IsAccepted config

abbrev app : AppState ℕ
app = record {
  config = none;
  config_path = text "./config";
  debug = false;
  log_level = text "info";
  logger = none;
}

-- A file that is acceptable.
abbrev files : Text → Option (ConfigWrapper ℕ ℕ)
files path = some (record wrapper { chains = [] })

abbrev loaded : AppState ℕ
loaded = record app { config = some (record config { chains = [] }); logger = some info_level }

init_app_state_iff_example : (init_app_state yaml files app ≡ ok loaded) ↔ (
    (c : Config ℕ) × (parse_file yaml files (files (text "./config")) ≡ some c)
    × IsAccepted c
    × (loaded ≡ record (with_logger app none) { config = some c }))
init_app_state_iff_example = init_app_state_iff yaml files app loaded refl
