-- ===== src/Cmd/Validation.antt =====
-- ParseConfig of cmd/config.go and validateConfig of cmd/appstate.go. A Go map is ranged over in
-- any order: the chains come as a list of names and configurations.
pub mod Accepted
pub mod Solana
use noble_cctp_relayer.Base.{
  ℕ, suc, ◌+◌, List, [], ◌∷◌, Text, text, text_eq, Bool, true, false, not, ◌&&◌, Option, some, none,
  Result, ok, err, panic, ◌>>=◌, ◌>>◌, if◌then◌else◌, ◌==◌, ℤ, pos, negsuc, not_positive,
  format_uint, Map,
}
use noble_cctp_relayer.Types.Settings.{CircleSettings}
use noble_cctp_relayer.Config.{
  NobleConfig, EthereumConfig, SolanaConfig, ChainConfig, noble_chain, ethereum_chain, solana_chain,
  FilterConfig, Config,
}

-- gopkg.in/yaml.v2 on the section `Y` of one chain, marshalled and read again; `none` is an error.
pub record Yaml (Y : Type 0) : Type 0 where
  pub to_noble : Y → Option NobleConfig
  pub to_ethereum : Y → Option EthereumConfig
  pub to_solana : Y → Option SolanaConfig

-- ConfigWrapper.
pub record ConfigWrapper (C Y : Type 0) : Type 0 where
  pub chains : Map Text Y
  pub enabled_routes : Map ℕ (List ℕ)
  pub circle : CircleSettings
  pub filters : List (FilterConfig C)
  pub processor_worker_count : ℕ
  pub destination_caller_only : Bool
  pub trusted_proxies : List Text

abbrev pub as_noble : Option NobleConfig → Option ChainConfig
as_noble none = none
as_noble (some c) = some (noble_chain c)

abbrev pub as_ethereum : Option EthereumConfig → Option ChainConfig
as_ethereum none = none
as_ethereum (some c) = some (ethereum_chain c)

abbrev pub as_solana : Option SolanaConfig → Option ChainConfig
as_solana none = none
as_solana (some c) = some (solana_chain c)

abbrev pub add_chain :
    Text → Option ChainConfig → Option (Map Text ChainConfig) → Option (Map Text ChainConfig)
add_chain name none later = none
add_chain name (some c) none = none
add_chain name (some c) (some m) = some ((name, c) ∷ m)

abbrev pub with_chains :
    {C Y : Type 0} → ConfigWrapper C Y → Option (Map Text ChainConfig) → Option (Config C)
with_chains cfg none = none
with_chains cfg (some chains) = some (record {
  chains = chains;
  enabled_routes = cfg.enabled_routes;
  circle = cfg.circle;
  filters = cfg.filters;
  processor_worker_count = cfg.processor_worker_count;
  destination_caller_only = false;
  trusted_proxies = cfg.trusted_proxies;
})

module _ {Y : Type 0} (yaml : Yaml Y) where
  -- The switch on the name.
  unfoldable pub parse_chain : Text → Y → Option ChainConfig
  parse_chain name y =
      if text_eq name (text "noble")
      then as_noble (yaml.to_noble y)
      else if text_eq name (text "solana")
      then as_solana (yaml.to_solana y)
      else as_ethereum (yaml.to_ethereum y)

  unfoldable pub parse_chains : Map Text Y → Option (Map Text ChainConfig)
  unfolding parse_chain
  parse_chains [] = some []
  parse_chains ((name, y) ∷ rest) = add_chain name (parse_chain name y) (parse_chains rest)

  -- The literal of ParseConfig sets no DestinationCallerOnly.
  unfoldable pub parse_config : {C : Type 0} → ConfigWrapper C Y → Option (Config C)
  unfolding parse_chains
  parse_config cfg = with_chains cfg (parse_chains cfg.chains)

pub data ConfigError : Type 0 where
  missing_name missing_chain_id missing_domain missing_rpc missing_ws : ConfigError
  bad_retries bad_retry_interval missing_min_mint_amount : ConfigError
  no_route missing_base_url no_fetch_retry_interval no_worker : ConfigError

abbrev pub empty : Text → Bool
empty [] = true
empty (c ∷ cs) = false

abbrev pub require : Bool → ConfigError → Result ConfigError (Unit {0})
require true e = ok tt
require false e = err e

-- fmt.Sprintf("%d", x) of a signed number.
abbrev pub format_int : ℤ → Text
format_int (pos n) = format_uint n
format_int (negsuc n) = 45 ∷ format_uint (suc n)

abbrev pub is_noble : Text → Bool
is_noble name = text_eq name (text "noble")

unfoldable pub validate_chain :
    (name chain_id domain rpc_url ws_url : Text)
    → (retries interval : ℤ) → ℕ
    → Result ConfigError (Unit {0})
validate_chain name chain_id domain rpc_url ws_url retries interval min_mint_amount =
    require (not (empty name)) missing_name
    >> require (not (empty chain_id)) missing_chain_id
    >> require (not (empty domain && not (is_noble name))) missing_domain
    >> require (not (empty rpc_url)) missing_rpc
    >> require (not (empty ws_url && not (is_noble name))) missing_ws
    >> require (not (not_positive retries)) bad_retries
    >> require (not (not_positive interval)) bad_retry_interval
    >> require (not (min_mint_amount == 0 && not (is_noble name))) missing_min_mint_amount

-- The type assertions cfg.(*noble.ChainConfig) and cfg.(*ethereum.ChainConfig) panic on another type.
abbrev pub validate_as_noble : Text → ChainConfig → Result ConfigError (Unit {0})
validate_as_noble name (noble_chain cc) =
    validate_chain name cc.chain_id [] cc.rpc [] cc.broadcast_retries cc.broadcast_retry_interval
      cc.min_mint_amount
validate_as_noble name _ = panic

abbrev pub validate_as_ethereum : Text → ChainConfig → Result ConfigError (Unit {0})
validate_as_ethereum name (ethereum_chain cc) =
    validate_chain name (format_int cc.chain_id) (format_uint cc.domain) cc.rpc cc.ws
      cc.broadcast_retries cc.broadcast_retry_interval cc.min_mint_amount
validate_as_ethereum name _ = panic

unfoldable pub validate_one : Text → ChainConfig → Result ConfigError (Unit {0})
unfolding validate_chain
validate_one name cfg =
    if is_noble name then validate_as_noble name cfg else validate_as_ethereum name cfg

unfoldable pub validate_chains : Map Text ChainConfig → Result ConfigError (Unit {0})
unfolding validate_one
validate_chains [] = ok tt
validate_chains ((name, cfg) ∷ rest) = validate_one name cfg >> validate_chains rest

-- A negative interval passes.
abbrev pub is_zero : ℤ → Bool
is_zero (pos n) = n == 0
is_zero (negsuc n) = false

unfoldable pub validate_circle_config : CircleSettings → Result ConfigError (Unit {0})
validate_circle_config circle =
    require (not (empty circle.attestation_base_url)) missing_base_url
    >> require (not (is_zero circle.fetch_retry_interval)) no_fetch_retry_interval

abbrev pub has_route : Map ℕ (List ℕ) → Bool
has_route [] = false
has_route (r ∷ rs) = true

unfoldable pub validate_config : {C : Type 0} → Config C → Result ConfigError (Unit {0})
unfolding validate_chains validate_circle_config
validate_config c =
    validate_chains c.chains
    >> require (has_route c.enabled_routes) no_route
    >> validate_circle_config c.circle
    >> require (not (c.processor_worker_count == 0)) no_worker
