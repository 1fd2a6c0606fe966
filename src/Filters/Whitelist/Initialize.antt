-- ===== src/Filters/Whitelist/Initialize.antt =====
-- Initialize of filters/depositor_whitelist.go, and that of the provider in types/quicknode_kv.go.
use noble_cctp_relayer.Base.{
  ℕ, suc, [], List, Text, text, text_eq, Bool, true, false, Option, some, none, Result, ok, err,
  ◌>>=◌, wrap, if◌then◌else◌, ℤ, pos, ◌≡◌, bind_ok, wrap_ok, subst, ok-injective,
}
use noble_cctp_relayer.Http.{Reply}
use noble_cctp_relayer.Types.Filter.{
  FilterError, missing_config, unknown_provider, provider_failed, refresh_failed,
}
use noble_cctp_relayer.Filters.Whitelist.{AddressLibrary, Whitelist, FetchError, refresh}

-- The value under "refresh_interval": a float64 by its sign and its integer part, an int, or
-- nothing that is read.
pub data Interval : Type 0 where
  float64 : (positive : Bool) → (truncated : ℕ) → Interval
  int : ℤ → Interval
  unread : Interval

-- What the type assertions on the configuration give; a map under "provider_config" by the string
-- under "api_key".
pub record WhitelistConfig : Type 0 where
  pub provider : Option Text
  pub provider_config : Option (Option Text)
  pub kv_key : Option Text
  pub refresh_interval : Interval

abbrev pub default_whitelist_refresh_interval : ℕ
default_whitelist_refresh_interval = 300

-- In seconds.
unfoldable pub interval_of : Interval → ℕ
interval_of (float64 true seconds) = seconds
interval_of (float64 false seconds) = default_whitelist_refresh_interval
interval_of (int (pos (suc n))) = suc n
interval_of (int _) = default_whitelist_refresh_interval
interval_of unread = default_whitelist_refresh_interval

abbrev asserted {ℓ} : {A : Type ℓ} → Option A → Result FilterError A
asserted none = err missing_config
asserted (some a) = ok a

-- `!ok || s == ""`
abbrev non_empty : FilterError → Option Text → Result FilterError Text
non_empty e none = err e
non_empty e (some s) = if text_eq s [] then err e else ok s

abbrev known_provider : Text → Result FilterError (Unit {0})
known_provider name = if text_eq name (text "quicknode-kv") then ok tt else err unknown_provider

abbrev fetched : Result FetchError Whitelist → Result FilterError Whitelist
fetched r = wrap (λ e. refresh_failed) r

-- The fields of the filter and of its provider that Initialize sets. The interval is in seconds.
pub record Initialized : Type 0 where
  pub api_key : Text
  pub kv_key : Text
  pub refresh_interval : ℕ
  pub whitelist : Whitelist

-- The reply is that of the store to a request with an API key for the list of a key.
unfoldable pub initialize :
    AddressLibrary
    → (store : (api_key kv_key : Text) → Reply (List Text)) → WhitelistConfig
    → Result FilterError Initialized
unfolding interval_of
initialize lib store config = do
  provider_name ← asserted config.provider
  provider_config ← asserted config.provider_config
  known ← known_provider provider_name
  api_key ← non_empty provider_failed provider_config
  kv_key ← non_empty missing_config config.kv_key
  whitelist ← fetched (refresh lib kv_key (store api_key kv_key) [])
  ok record {
    api_key = api_key;
    kv_key = kv_key;
    refresh_interval = interval_of config.refresh_interval;
    whitelist = whitelist;
  }

-- The first whitelist is that of the first list.
pub initialize-refresh :
    (lib : AddressLibrary) (store : (api_key kv_key : Text) → Reply (List Text))
    (config : WhitelistConfig) (f : Initialized)
    → initialize lib store config ≡ ok f
    → refresh lib f.kv_key (store f.api_key f.kv_key) [] ≡ ok f.whitelist
unfolding initialize
initialize-refresh lib store config f e =
    let (provider, asserts, h) = bind_ok (asserted config.provider) _ f e in
    let (provider_config, configured, h') = bind_ok (asserted config.provider_config) _ f h in
    let (known, knows, h2) = bind_ok (known_provider provider) _ f h' in
    let (api_key, has_key, h3) = bind_ok (non_empty provider_failed provider_config) _ f h2 in
    let (kv_key, has_kv, h4) = bind_ok (non_empty missing_config config.kv_key) _ f h3 in
    let (whitelist, got, last) =
      bind_ok (fetched (refresh lib kv_key (store api_key kv_key) [])) _ f h4 in
    subst (λ (g : Initialized). refresh lib g.kv_key (store g.api_key g.kv_key) [] ≡ ok g.whitelist)
      (ok-injective last)
      (wrap_ok (λ e. refresh_failed) (refresh lib kv_key (store api_key kv_key) []) whitelist got)
