-- ===== src/Cmd/Setup/Passes.antt =====
-- Which messages the registry of initializeFilters lets pass.
use noble_cctp_relayer.Base.{
  ℕ, suc, ◌≤◌, List, [], ◌∷◌, ◌++◌, map, append_assoc, append-nil, Text, text, text_eq, Bool, true,
  false, Result, ok, err, panic, ◌>>=◌, ◌≡◌, refl, ap, sym, ◌∙◌, ◌↔◌, ◌⊎◌, inl, inr, arith, All,
  length, Map, nat_key, text_key, Bool-cases, ◌&&◌, ok-injective,
}
use noble_cctp_relayer.Config.{Config, FilterConfig}
use noble_cctp_relayer.Types.State.{MessageState}
use noble_cctp_relayer.Types.World.{Chain}
use noble_cctp_relayer.Types.Filter.{FilterError, FilterRegistry, register, filter_message}
use noble_cctp_relayer.Filters.Route.{new_route_filter, RouteEnabled, route_filter_passes}
use noble_cctp_relayer.Filters.DestinationCaller.{
  new_destination_caller_filter, CallerAllowed, destination_caller_filter_passes,
}
use noble_cctp_relayer.Filters.LowTransfer.{
  amount, new_low_transfer_filter, get_min_mint_amount, low_transfer_filter_passes,
}
use noble_cctp_relayer.Filters.Whitelist.{
  AddressLibrary, Whitelist, new_whitelist_filter, is_evm_domain, is_whitelisted, get_depositor,
  refresh,
}
use noble_cctp_relayer.Filters.Whitelist.Refresh.{whitelist_filter_passes}
use noble_cctp_relayer.Filters.Whitelist.Initialize.{
  WhitelistConfig, Initialized, initialize, initialize-refresh,
}
use noble_cctp_relayer.Cmd.Setup.{
  FilterLibrary, base_filters, list_at, add_filter, add_filters, initialize_filters,
}
use noble_cctp_relayer.Cmd.Setup.Decisive.{
  IsDecisive, route-IsDecisive, caller-IsDecisive, low-IsDecisive, whitelist-IsDecisive,
  registry_passes,
}

abbrev count_step : Bool → ℕ → ℕ
count_step true n = suc n
count_step false n = n

-- The enabled depositor filters of a configuration.
unfoldable pub count_enabled : List (FilterConfig WhitelistConfig) → ℕ
count_enabled [] = 0
count_enabled (cfg ∷ cfgs) =
    count_step (cfg.enabled && text_eq cfg.name (text "depositor-whitelist")) (count_enabled cfgs)

-- The whitelist of a filter as time goes by: the first list of the store, and then what the routine
-- of the filter makes of it.
abbrev pub IsKept : FilterLibrary → (ℕ → Whitelist) → Type 0
IsKept lib list =
    (f : Initialized) × (refresh lib.addresses f.kv_key (lib.store f.api_key f.kv_key) []
      ≡ ok f.whitelist)
    × (list ≡ list_at lib f)

-- The registry behind the filters `r`.
Extended : FilterLibrary → ℕ → FilterRegistry → FilterRegistry → Type 0
Extended lib n r r' =
    (lists : List (ℕ → Whitelist)) × (length lists ≡ n)
    × All (IsKept lib) lists
    × (r' ≡ r ++ map (new_whitelist_filter lib.addresses) lists)

add_filters-Extended :
    (lib : FilterLibrary) (cfgs : List (FilterConfig WhitelistConfig)) (r r' : FilterRegistry)
    → add_filters lib cfgs r ≡ ok r'
    → Extended lib (count_enabled cfgs) r r'
unfolding add_filters add_filter Extended register count_enabled
add_filters-Extended lib [] r r' e = ([], refl, tt, sym (ok-injective e) ∙ sym (append-nil r))
add_filters-Extended lib (cfg ∷ cfgs) r r' e = elim (Bool-cases cfg.enabled) [
  | inl on ↦ elim (Bool-cases (text_eq cfg.name (text "depositor-whitelist"))) [
    | inl named ↦
        rw (on, named)
          (registered (initialize lib.addresses lib.store cfg.config) refl (rw (on, named) at e)
            (λ first. add_filters-Extended lib cfgs (added first) r'))
    | inr other ↦ rw (on, other) (add_filters-Extended lib cfgs r r' (rw (on, other) at e))
  ]
  | inr off ↦ rw off (add_filters-Extended lib cfgs r r' (rw off at e))
]
  where
    added : Initialized → FilterRegistry
    added first = r ++ (new_whitelist_filter lib.addresses (list_at lib first) ∷ [])

    registered :
        (i : Result FilterError Initialized)
        → initialize lib.addresses lib.store cfg.config ≡ i
        → ((i >>= λ first. ok (added first)) >>= add_filters lib cfgs) ≡ ok r'
        → ((first : Initialized)
            → add_filters lib cfgs (added first) ≡ ok r'
            → Extended lib (count_enabled cfgs) (added first) r')
        → Extended lib (suc (count_enabled cfgs)) r r'
    registered (ok first) set_up h later =
        let (lists, n, kept, split) = later first h in
        let is_first = initialize-refresh lib.addresses lib.store cfg.config first set_up in
        (
          list_at lib first ∷ lists,
          ap suc n,
          ((first, is_first, refl), kept),
          split ∙ append_assoc r _ _,
        )
    registered (err x) set_up h later = absurd (ground arith)
    registered panic set_up h later = absurd (ground arith)

lists-IsDecisive :
    (lib : FilterLibrary) (lists : List (ℕ → Whitelist))
    → All IsDecisive (map (new_whitelist_filter lib.addresses) lists)
lists-IsDecisive lib [] = tt
lists-IsDecisive lib (list ∷ lists) =
    (whitelist-IsDecisive lib.addresses list, lists-IsDecisive lib lists)

-- The depositor is on the list, or the source is no EVM domain.
abbrev pub DepositorAllowed : AddressLibrary → Whitelist → MessageState → Type 0
DepositorAllowed lib list msg =
    (is_evm_domain msg.source_domain ≡ false)
    ⊎ ((depositor : Text) × (get_depositor msg ≡ ok depositor)
        × (is_whitelisted lib list depositor ≡ true))

lists_pass :
    (lib : FilterLibrary) (lists : List (ℕ → Whitelist)) (now : ℕ) (msg : MessageState)
    → All (λ f. f.filter now msg ≡ ok (false, [])) (map (new_whitelist_filter lib.addresses) lists)
      ↔ All (λ list. DepositorAllowed lib.addresses (list now) msg) lists
unfolding new_whitelist_filter
lists_pass lib [] now msg = (λ h. tt, λ h. tt)
lists_pass lib (list ∷ lists) now msg =
    let (to, from) = whitelist_filter_passes lib.addresses (list now) msg in
    let (to', from') = lists_pass lib lists now msg in
    (λ (h, k). (to h, to' k), λ (h, k). (from h, from' k))

-- What a message must be to pass: its route is enabled, its caller allowed, its amount no less
-- than the minimum, and its depositor on every list.
abbrev pub Allowed :
    FilterLibrary
    → Config WhitelistConfig
    → Map ℕ Chain
    → List (ℕ → Whitelist)
    → ℕ
    → MessageState
    → Type 0
Allowed lib cfg domains lists now msg =
    RouteEnabled cfg.enabled_routes msg.source_domain msg.dest_domain
    × CallerAllowed domains cfg.destination_caller_only msg
    × ((burned : ℕ) × (lib.parse_burn msg.msg_body ≡ amount burned)
        × (get_min_mint_amount cfg.chains msg.dest_domain ≤ burned))
    × All (λ list. DepositorAllowed lib.addresses (list now) msg) lists

-- A registry that initializeFilters sets up has a whitelist for each enabled depositor filter, which
-- begins with the first list of the store and is then what its routine makes of it; and at any time
-- it lets a message pass exactly if it is allowed in this sense.
pub initialize_filters-Allowed :
    (lib : FilterLibrary) (cfg : Config WhitelistConfig) (domains : Map ℕ Chain)
    (r : FilterRegistry)
    → initialize_filters lib cfg domains ≡ ok r
    → (lists : List (ℕ → Whitelist)) × (length lists ≡ count_enabled cfg.filters)
      × All (IsKept lib) lists
      × ((now : ℕ) (msg : MessageState)
          → (filter_message r now msg ≡ ok (false, [])) ↔ Allowed lib cfg domains lists now msg)
unfolding initialize_filters base_filters register Extended new_route_filter
    new_destination_caller_filter new_low_transfer_filter
initialize_filters-Allowed lib cfg domains r e =
    let (lists, n, kept, split) =
      add_filters-Extended lib cfg.filters (base_filters lib cfg domains) r e in
    (
      lists,
      n,
      kept,
      λ now msg.
          let (to, from) =
            registry_passes
              (base_filters lib cfg domains ++ map (new_whitelist_filter lib.addresses) lists) now
              msg
              (
                route-IsDecisive cfg.enabled_routes,
                (
                  caller-IsDecisive domains cfg.destination_caller_only,
                  (low-IsDecisive lib cfg, lists-IsDecisive lib lists),
                ),
              ) in
          let (route_to, route_from) = route_filter_passes cfg.enabled_routes msg in
          let (caller_to, caller_from) =
            destination_caller_filter_passes domains cfg.destination_caller_only msg in
          let (low_to, low_from) = low_transfer_filter_passes lib.parse_burn cfg.chains msg in
          let (lists_to, lists_from) = lists_pass lib lists now msg in
          rw split (
            λ h. (let (a, (b, (c, d))) = to h in (route_to a, caller_to b, low_to c, lists_to d)),
            λ (a, b, c, d). from (route_from a, (caller_from b, (low_from c, lists_from d))),
          ),
    )
