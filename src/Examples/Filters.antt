-- ===== src/Examples/Filters.antt =====
-- Examples for the filters.
use noble_cctp_relayer.Base.{
  All, ℕ, ◌≤◌, List, [], ◌∷◌, Text, text, true, false, ok, ◌≡◌, ◌≢◌, ◌↔◌, ◌⊎◌, refl, Map, some,
  none, pos, Result, length,
}
use noble_cctp_relayer.Http.{Reply, answer}
use noble_cctp_relayer.Config.{ChainConfig, noble_chain}
use noble_cctp_relayer.Types.World.{Chain, done}
use noble_cctp_relayer.Filters.LowTransfer.{BurnParse, amount}
use noble_cctp_relayer.Filters.Whitelist.{
  AddressLibrary, Whitelist, is_evm_domain, normalize_address, get_depositor, is_whitelisted,
  fetch_list, refresh, whitelist_filter,
}
use noble_cctp_relayer.Noble.{is_destination_caller}
use noble_cctp_relayer.Config.{Config}
use noble_cctp_relayer.Types.State.{MessageState}
use noble_cctp_relayer.Types.Filter.{FilterError, FilterRegistry, filter_message}
use noble_cctp_relayer.Filters.Whitelist.Initialize.{WhitelistConfig, int}
use noble_cctp_relayer.Cmd.Setup.{FilterLibrary, initialize_filters}
use noble_cctp_relayer.Cmd.Setup.Passes.{IsKept, count_enabled, Allowed, initialize_filters-Allowed}
use noble_cctp_relayer.Examples.Samples.{settings}

abbrev routes : Map ℕ (List ℕ)
routes = (0, 4 ∷ 5 ∷ []) ∷ (4, 0 ∷ []) ∷ []

abbrev noble : Chain
noble = record {
  name = text "Noble";
  domain = 4;
  latest_block = λ now. 100;
  is_destination_caller =
      λ caller. ok (is_destination_caller (λ bytes. some (text "noble1x")) (text "noble1y") caller);
  broadcast = λ msgs w. done none w;
}

abbrev chains : Map Text ChainConfig
chains =
    (
      text "noble",
      noble_chain (record {
        rpc = text "http://noble";
        chain_id = text "noble-1";
        start_block = 0;
        lookback_period = 5;
        workers = 4;
        tx_memo = [];
        gas_limit = 200000;
        broadcast_retries = pos 5;
        broadcast_retry_interval = pos 5;
        block_queue_channel_size = 1000;
        min_mint_amount = 10;
        minter_private_key = [];
      }),
    )
    ∷ []

abbrev seven : List ℕ → BurnParse
seven body = amount 7

abbrev pub addresses : AddressLibrary
addresses = record { is_hex_address = λ s. true; address_hex = λ s. s }

abbrev pub listed : List Text
listed = text "0xAB" ∷ text "0xcd" ∷ []

abbrev pub reply : Reply (List Text)
reply = answer 200 [] (some listed)

abbrev pub fresh : Whitelist
fresh = (text "0xab", true) ∷ (text "0xcd", true) ∷ []

pub refreshed : refresh addresses (text "key") reply [] ≡ ok fresh
unfolding refresh fetch_list noble_cctp_relayer.Base.text_eq noble_cctp_relayer.Http.http_request
    noble_cctp_relayer.Filters.Whitelist.build_whitelist
    noble_cctp_relayer.Filters.Whitelist.add_address normalize_address
    noble_cctp_relayer.Base.to_lower noble_cctp_relayer.Base.trim_space
    noble_cctp_relayer.Base.insert
refreshed = refl

pub fetched : fetch_list (text "key") reply ≡ ok listed
unfolding fetch_list noble_cctp_relayer.Base.text_eq noble_cctp_relayer.Http.http_request
fetched = refl

abbrev pub library : FilterLibrary
library = record {
  parse_burn = seven;
  addresses = addresses;
  store = λ api_key kv_key. reply;
  ticks = λ api_key kv_key interval now. [];
}

abbrev whitelist_config : WhitelistConfig
whitelist_config = record {
  provider = some (text "quicknode-kv");
  provider_config = some (some (text "key"));
  kv_key = some (text "depositors");
  refresh_interval = int (pos 60);
}

abbrev pub config : Config WhitelistConfig
config = record {
  chains = chains;
  enabled_routes = routes;
  circle = settings;
  filters =
      record { name = text "depositor-whitelist"; enabled = true; config = whitelist_config } ∷ [];
  processor_worker_count = 4;
  destination_caller_only = true;
  trusted_proxies = [];
}

abbrev registry_of : Result FilterError FilterRegistry → FilterRegistry
registry_of (ok r) = r
registry_of _ = []

set_up :
    initialize_filters library config ((4, noble) ∷ [])
    ≡ ok (registry_of (initialize_filters library config ((4, noble) ∷ [])))
unfolding initialize_filters noble_cctp_relayer.Base.text_eq
    noble_cctp_relayer.Filters.Whitelist.Initialize.initialize refresh fetch_list
    noble_cctp_relayer.Http.http_request
set_up = refl

initialize_filters-Allowed_example :
    (lists : List (ℕ → Whitelist)) × (length lists ≡ count_enabled config.filters)
    × All (IsKept library) lists
    × ((now : ℕ) (msg : MessageState)
        → (filter_message
              (registry_of (initialize_filters library config ((4, noble) ∷ [])))
              now
              msg
            ≡ ok (false, []))
          ↔ Allowed library config ((4, noble) ∷ []) lists now msg)
initialize_filters-Allowed_example =
    initialize_filters-Allowed library config ((4, noble) ∷ [])
      (registry_of (initialize_filters library config ((4, noble) ∷ []))) set_up
