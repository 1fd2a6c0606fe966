-- ===== src/Config.antt =====
-- The chain configurations of noble/config.go, ethereum/config.go and solana/config.go, and the
-- configuration of types/config.go. An `int` that may be negative is an integer of Base.
use noble_cctp_relayer.Base.{ℕ, ℤ, List, Text, Bool, Map}
use noble_cctp_relayer.Types.Settings.{CircleSettings}

pub record NobleConfig : Type 0 where
  pub rpc : Text
  pub chain_id : Text
  pub start_block : ℕ
  pub lookback_period : ℕ
  pub workers : ℕ
  pub tx_memo : Text
  pub gas_limit : ℕ
  pub broadcast_retries : ℤ
  pub broadcast_retry_interval : ℤ
  pub block_queue_channel_size : ℕ
  pub min_mint_amount : ℕ
  pub minter_private_key : Text

pub record EthereumConfig : Type 0 where
  pub rpc : Text
  pub ws : Text
  pub domain : ℕ
  pub chain_id : ℤ
  pub message_transmitter : Text
  pub start_block : ℕ
  pub lookback_period : ℕ
  pub broadcast_retries : ℤ
  pub broadcast_retry_interval : ℤ
  pub min_mint_amount : ℕ
  pub metrics_denom : Text
  pub metrics_exponent : ℤ
  pub minter_private_key : Text

pub record SolanaConfig : Type 0 where
  pub rpc : Text
  pub ws : Text
  pub domain : ℕ
  pub message_transmitter : Text
  pub token_messenger_minter : Text
  pub start_block : ℕ
  pub lookback_period : ℕ
  pub broadcast_retries : ℤ
  pub broadcast_retry_interval : ℤ
  pub min_mint_amount : ℕ
  pub metrics_denom : Text
  pub metrics_exponent : ℤ
  pub minter_private_key : Text

-- The dynamic types behind the interface ChainConfig.
pub data ChainConfig : Type 0 where
  noble_chain : NobleConfig → ChainConfig
  ethereum_chain : EthereumConfig → ChainConfig
  solana_chain : SolanaConfig → ChainConfig

-- FilterConfig; its `config` is read by the filter that it names.
pub record FilterConfig (C : Type 0) : Type 0 where
  pub name : Text
  pub enabled : Bool
  pub config : C

pub record Config (C : Type 0) : Type 0 where
  pub chains : Map Text ChainConfig
  pub enabled_routes : Map ℕ (List ℕ)
  pub circle : CircleSettings
  pub filters : List (FilterConfig C)
  pub processor_worker_count : ℕ
  pub destination_caller_only : Bool
  pub trusted_proxies : List Text
