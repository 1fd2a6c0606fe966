-- ===== src/Circle/Allowance.antt =====
-- circle/allowance.go: how much Fast Transfer capacity is left on each source domain.
pub mod Tracked
pub mod Monitored
use noble_cctp_relayer.Base.{
  ℕ, List, [], ◌∷◌, ◌++◌, Text, text, Bool, true, false, Option, some, none, Result, ok, err, panic,
  ◌==◌, not, if◌then◌else◌, text_eq, format_uint, parse_uint, Map, lookup, insert, nat_key,
}
use noble_cctp_relayer.Http.{HttpError, http_request}
use noble_cctp_relayer.Types.Settings.{CircleSettings, ApiVersion, v1, v2, get_api_version}
use noble_cctp_relayer.Types.World.{World, observe, tick, set_fast_transfer_allowance}
use noble_cctp_relayer.Timer.{Wake, run_timer}
use noble_cctp_relayer.Circle.Attestation.{CircleApi, FastTransferAllowance, normalize_base_url}

unfoldable pub check_fast_transfer_allowance :
    CircleApi → ℕ → Text → ℕ → Text → Result HttpError FastTransferAllowance
check_fast_transfer_allowance api now base_url source_domain token = http_request (
    api.get_allowance now (
      normalize_base_url base_url
      ++ (text "/v2/fastBurn/"
          ++ (token ++ (text "/allowance?sourceDomain=" ++ format_uint source_domain)))))

-- `allowances`; its lock makes Get and Set one step each, and a missing key reads as nil.
abbrev pub AllowanceState : Type 0
AllowanceState = Map ℕ FastTransferAllowance

unfoldable pub get : ℕ → AllowanceState → Option FastTransferAllowance
get = lookup

unfoldable pub set : ℕ → FastTransferAllowance → AllowanceState → AllowanceState
set = insert

pub record AllowanceMonitor : Type 0 where
  pub base_url : Text
  pub state : AllowanceState
  pub domains : List ℕ
  pub token : Text
  pub interval : ℕ  -- in seconds

unfoldable pub new_allowance_monitor : CircleSettings → List ℕ → AllowanceMonitor
new_allowance_monitor cfg domains = record {
  base_url = cfg.attestation_base_url;
  state = [];
  domains = domains;
  token =
      if text_eq cfg.allowance_monitor_token [] then text "USDC" else cfg.allowance_monitor_token;
  interval = if cfg.allowance_monitor_interval == 0 then 30 else cfg.allowance_monitor_interval;
}

abbrev export : ℕ → Text → Option ℕ → World → World
export domain token none w = w
export domain token (some val) w = observe (set_fast_transfer_allowance domain token val) w

record_allowance :
    ℕ
    → Text
    → Result HttpError FastTransferAllowance
    → AllowanceState × World
    → AllowanceState × World
unfolding set
record_allowance domain token (ok a) (state, w) =
    (set domain a state, export domain token (parse_uint a.allowance) w)
record_allowance domain token (err e) (state, w) = (state, w)
record_allowance domain token panic (state, w) = (state, w)

-- The loop of queryAllowances, one request for each domain.
query_loop : CircleApi → Text → Text → List ℕ → AllowanceState × World → AllowanceState × World
query_loop api base_url token [] (state, w) = (state, w)
query_loop api base_url token (domain ∷ domains) (state, w) =
    query_loop api base_url token domains (
      record_allowance domain token
        (check_fast_transfer_allowance api w.clock base_url domain token) (state, tick w))

unfoldable pub query_allowances : CircleApi → AllowanceMonitor → World → AllowanceMonitor × World
unfolding query_loop record_allowance
query_allowances api m w =
    let (state, w') = query_loop api m.base_url m.token m.domains (m.state, w) in
    (record m { state = state }, w')

-- Start: a round at once, and one at each tick.
unfoldable pub run_monitor :
    CircleApi → List (Wake (Unit {0})) → AllowanceMonitor → World → AllowanceMonitor × World
run_monitor api wakes m w =
    run_timer (λ tick (m', w'). query_allowances api m' w') wakes (query_allowances api m w)

-- `none` is nil: monitoring is off. Otherwise the monitor runs in the background.
unfoldable pub start_allowance_monitor : CircleSettings → List ℕ → Option AllowanceMonitor
start_allowance_monitor cfg domains = elim (get_api_version cfg) [
  | none ↦ none
  | some v1 ↦ none
  | some v2 ↦
      if not cfg.enable_fast_transfer_monitoring
      then none
      else some (new_allowance_monitor cfg domains)
]
