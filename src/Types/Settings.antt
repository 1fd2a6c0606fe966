-- ===== src/Types/Settings.antt =====
-- types/config.go (the settings of Circle's API) and types/api_version.go.
use noble_cctp_relayer.Base.{
  ℕ, ℤ, Text, text, Bool, Option, some, none, ◌||◌, if◌then◌else◌, text_eq, trim_space, to_lower,
}

pub data ApiVersion : Type 0 where
  v1 v2 : ApiVersion

-- CircleSettings. FetchRetries is an `int` too, of which a negative number acts as 0, since it is
-- only compared with a count of attempts from 0 on.
pub record CircleSettings : Type 0 where
  pub attestation_base_url : Text
  pub api_version : Text
  pub fetch_retries : ℕ
  pub fetch_retry_interval : ℤ
  pub enable_fast_transfer_monitoring : Bool
  pub reattest_max_retries : ℕ
  pub expiration_buffer_blocks : ℕ
  pub allowance_monitor_token : Text
  pub allowance_monitor_interval : ℕ

-- `none` is the error, with which the source returns the empty version.
unfoldable pub parse_api_version : Text → Option ApiVersion
parse_api_version s =
    let normalized = to_lower (trim_space s) in
    if text_eq normalized (text "v1") || text_eq normalized (text "")
    then some v1
    else if text_eq normalized (text "v2")
    then some v2
    else none

unfoldable pub get_api_version : CircleSettings → Option ApiVersion
get_api_version c = parse_api_version c.api_version
