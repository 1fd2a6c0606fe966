-- ===== src/Cmd/Setup.antt =====
-- initializeFilters of cmd/process.go, and Initialize of filters/route.go, destination_caller.go and
-- low_transfer.go, which here are given values of the types that they assert. BurnMessage.Parse of
-- circlefin/noble-cctp, the address functions of go-ethereum, the key-value store, and at which
-- times the routines of the whitelists are woken are parameters.
mod Decisive
pub mod Passes
use noble_cctp_relayer.Base.{
  ℕ, List, [], ◌∷◌, Text, text, text_eq, Bool, true, false, Result, ok, err, panic, ◌>>=◌, Map,
  if◌then◌else◌,
}
use noble_cctp_relayer.Config.{Config, FilterConfig}
use noble_cctp_relayer.Http.{Reply}
use noble_cctp_relayer.Types.World.{Chain}
use noble_cctp_relayer.Types.Filter.{MessageFilter, FilterError, FilterRegistry, register}
use noble_cctp_relayer.Filters.Route.{new_route_filter}
use noble_cctp_relayer.Filters.DestinationCaller.{new_destination_caller_filter}
use noble_cctp_relayer.Filters.LowTransfer.{BurnParse, new_low_transfer_filter}
use noble_cctp_relayer.Filters.Whitelist.{AddressLibrary, Whitelist, new_whitelist_filter}
use noble_cctp_relayer.Filters.Whitelist.Initialize.{WhitelistConfig, Initialized, initialize}
use noble_cctp_relayer.Filters.Whitelist.Routine.{start_refresh}
use noble_cctp_relayer.Timer.{Wake}

-- `ticks` are the wakes of a ticker up to a time, with the reply of the store to each request.
pub record FilterLibrary : Type 0 where
  pub parse_burn : List ℕ → BurnParse
  pub addresses : AddressLibrary
  pub store : (api_key kv_key : Text) → Reply (List Text)
  pub ticks : (api_key kv_key : Text) → (interval now : ℕ) → List (Wake (Reply (List Text)))

unfoldable pub base_filters : {C : Type 0} → FilterLibrary → Config C → Map ℕ Chain → FilterRegistry
base_filters lib cfg registered_domains =
    register (new_low_transfer_filter lib.parse_burn cfg.chains) (
      register (new_destination_caller_filter registered_domains cfg.destination_caller_only)
        (register (new_route_filter cfg.enabled_routes) []))

-- The whitelist of a filter as time goes by: what its routine has made of the first one.
abbrev pub list_at : FilterLibrary → Initialized → ℕ → Whitelist
list_at lib f now =
    start_refresh lib.addresses f.kv_key (lib.ticks f.api_key f.kv_key f.refresh_interval now)
      f.whitelist

-- A round of the loop over the configured filters, and the loop.
unfoldable pub add_filter :
    FilterLibrary
    → FilterConfig WhitelistConfig
    → FilterRegistry
    → Result FilterError FilterRegistry
add_filter lib cfg r =
    if cfg.enabled
    then if text_eq cfg.name (text "depositor-whitelist")
      then (initialize lib.addresses lib.store cfg.config >>= λ initialized.
          ok (register (new_whitelist_filter lib.addresses (list_at lib initialized)) r))
      else ok r
    else ok r

unfoldable pub add_filters :
    FilterLibrary
    → List (FilterConfig WhitelistConfig)
    → FilterRegistry
    → Result FilterError FilterRegistry
unfolding add_filter
add_filters lib [] r = ok r
add_filters lib (cfg ∷ cfgs) r = add_filter lib cfg r >>= add_filters lib cfgs

unfoldable pub initialize_filters :
    FilterLibrary → Config WhitelistConfig → Map ℕ Chain → Result FilterError FilterRegistry
unfolding base_filters add_filters
initialize_filters lib cfg registered_domains =
    add_filters lib cfg.filters (base_filters lib cfg registered_domains)
