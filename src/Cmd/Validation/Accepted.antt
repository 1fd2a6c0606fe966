-- ===== src/Cmd/Validation/Accepted.antt =====
-- The configurations that ParseConfig (cmd/config.go) and validateConfig (cmd/appstate.go) accept.
use noble_cctp_relayer.Base.{
  zero, suc, ℕ, ◌<◌, List, [], ◌∷◌, Text, text, text_eq_iff, Bool, true, false, not, ◌&&◌, Result,
  ok, err, panic, ◌>>◌, ◌==◌, ◌≡◌, ◌≢◌, refl, inl, inr, ◌↔◌, arith, All, ℤ, pos, negsuc,
  not_positive, pos_part, format_uint, format_uint-nonempty, Map, Bool-cases,
}
use noble_cctp_relayer.Types.Settings.{CircleSettings}
use noble_cctp_relayer.Config.{ChainConfig, noble_chain, ethereum_chain, solana_chain, Config}
use noble_cctp_relayer.Cmd.Validation.{
  is_zero, ConfigError, missing_name, missing_chain_id, missing_domain, missing_rpc, missing_ws,
  bad_retries, bad_retry_interval, missing_min_mint_amount, no_route, missing_base_url,
  no_fetch_retry_interval, no_worker, empty, require, format_int, is_noble, validate_one,
  validate_chains, validate_circle_config, has_route, validate_config,
}

-- A chain entry that the relayer can start with: noble's under its own name, an EVM chain's under
-- another one.
abbrev pub IsUsable : Text × ChainConfig → Type 0
IsUsable (name, noble_chain c) =
    (name ≡ text "noble")
    × (c.chain_id ≢ [])
    × (c.rpc ≢ [])
    × (0 < pos_part c.broadcast_retries)
    × (0 < pos_part c.broadcast_retry_interval)
IsUsable (name, ethereum_chain c) =
    (name ≢ text "noble")
    × (name ≢ [])
    × (c.rpc ≢ [])
    × (c.ws ≢ [])
    × (0 < pos_part c.broadcast_retries)
    × (0 < pos_part c.broadcast_retry_interval)
    × (0 < c.min_mint_amount)
IsUsable (name, solana_chain c) = ⊥

abbrev pub IsAccepted : {C : Type 0} → Config C → Type 0
IsAccepted c =
    All IsUsable c.chains
    × (c.enabled_routes ≢ [])
    × (c.circle.attestation_base_url ≢ [])
    × (c.circle.fetch_retry_interval ≢ pos 0)
    × (0 < c.processor_worker_count)

empty-nil : (t : Text) → (empty t ≡ true) ↔ (t ≡ [])
empty-nil [] = (λ _. refl, λ _. refl)
empty-nil (c ∷ cs) = (λ e. absurd (cc), λ e. absurd (cc))

not_positive-pos_part : (x : ℤ) → (not (not_positive x) ≡ true) ↔ (0 < pos_part x)
not_positive-pos_part (pos n) = ground arith
not_positive-pos_part (negsuc n) = ground arith

format_int-nonempty : (x : ℤ) → ¬ (format_int x ≡ [])
format_int-nonempty (pos n) e = format_uint-nonempty n e
format_int-nonempty (negsuc n) e = absurd (cc)

chain_ok :
    (a b c d e f g h : Bool)
    → ((require a missing_name
          >> require b missing_chain_id
          >> require c missing_domain
          >> require d missing_rpc
          >> require e missing_ws
          >> require f bad_retries
          >> require g bad_retry_interval
          >> require h missing_min_mint_amount)
        ≡ ok tt)
      ↔ ((a ≡ true)
          × (b ≡ true)
          × (c ≡ true)
          × (d ≡ true)
          × (e ≡ true)
          × (f ≡ true)
          × (g ≡ true)
          × (h ≡ true))
chain_ok false b c d e f g h = (λ q. absurd (cc), λ q. absurd (let no = q.0 in cc))
chain_ok true false c d e f g h = (λ q. absurd (cc), λ q. absurd (let no = q.1 in cc))
chain_ok true true false d e f g h = (λ q. absurd (cc), λ q. absurd (let no = q.2 in cc))
chain_ok true true true false e f g h = (λ q. absurd (cc), λ q. absurd (let no = q.3 in cc))
chain_ok true true true true false f g h = (λ q. absurd (cc), λ q. absurd (let no = q.4 in cc))
chain_ok true true true true true false g h = (λ q. absurd (cc), λ q. absurd (let no = q.5 in cc))
chain_ok true true true true true true false h =
    (λ q. absurd (cc), λ q. absurd (let no = q.6 in cc))
chain_ok true true true true true true true false =
    (λ q. absurd (cc), λ q. absurd (let no = q.7 in cc))
chain_ok true true true true true true true true =
    (λ q. (refl, refl, refl, refl, refl, refl, refl, refl), λ q. refl)

nonempty : (t : Text) → (not (empty t) ≡ true) ↔ (t ≢ [])
nonempty [] = (λ e. absurd (cc), λ h. absurd (h refl))
nonempty (c ∷ cs) = (λ _ e. absurd (cc), λ _. refl)

-- validate_one accepts the entries that are usable.
validate_one_iff :
    (name : Text) (cfg : ChainConfig) → (validate_one name cfg ≡ ok tt) ↔ IsUsable (name, cfg)
unfolding validate_one
validate_one_iff name (noble_chain c) = elim (Bool-cases (is_noble name)) [
  | inl named ↦ rw named (
      ground (
        arith,
        chain_ok (not (empty name)) (not (empty c.chain_id)) true (not (empty c.rpc)) true
            (not (not_positive c.broadcast_retries)) (not (not_positive c.broadcast_retry_interval))
            (not (c.min_mint_amount == 0 && false)),
        nonempty name,
        nonempty c.chain_id,
        nonempty c.rpc,
        text_eq_iff name (text "noble"),
        not_positive-pos_part c.broadcast_retries,
        not_positive-pos_part c.broadcast_retry_interval,
      ))
  | inr other ↦
      rw other
        ((λ e. absurd (cc), λ h. absurd (let yes = (text_eq_iff name (text "noble")).1 h.0 in cc)))
]
validate_one_iff name (ethereum_chain c) = elim (Bool-cases (is_noble name)) [
  | inl named ↦
      rw named ((λ e. absurd (cc), λ h. absurd (h.0 ((text_eq_iff name (text "noble")).0 named))))
  | inr other ↦ rw other (
      ground (
        arith,
        chain_ok (not (empty name)) (not (empty (format_int c.chain_id)))
            (not (empty (format_uint c.domain) && true)) (not (empty c.rpc))
            (not (empty c.ws && true)) (not (not_positive c.broadcast_retries))
            (not (not_positive c.broadcast_retry_interval)) (not (c.min_mint_amount == 0 && true)),
        nonempty name,
        nonempty (format_int c.chain_id),
        nonempty (format_uint c.domain),
        nonempty c.rpc,
        nonempty c.ws,
        text_eq_iff name (text "noble"),
        format_int-nonempty c.chain_id,
        format_uint-nonempty c.domain,
        not_positive-pos_part c.broadcast_retries,
        not_positive-pos_part c.broadcast_retry_interval,
      ))
]
validate_one_iff name (solana_chain c) = elim (Bool-cases (is_noble name)) [
  | inl named ↦ rw named ((λ e. cc), λ h. absurd h)
  | inr other ↦ rw other ((λ e. cc), λ h. absurd h)
]

then_ok : (m r : Result ConfigError (Unit {0})) → ((m >> r) ≡ ok tt) ↔ ((m ≡ ok tt) × (r ≡ ok tt))
then_ok (ok tt) r = (λ h. (refl, h), λ h. h.1)
then_ok (err e) r = (λ h. absurd (cc), λ h. absurd (let no = h.0 in cc))
then_ok panic r = (λ h. absurd (cc), λ h. absurd (let no = h.0 in cc))

validate_chains_iff : (m : Map Text ChainConfig) → (validate_chains m ≡ ok tt) ↔ All IsUsable m
unfolding validate_chains
validate_chains_iff [] = (λ _. tt, λ _. refl)
validate_chains_iff ((name, cfg) ∷ rest) = ground (
  arith,
  then_ok (validate_one name cfg) (validate_chains rest),
  validate_one_iff name cfg,
  validate_chains_iff rest,
)

require_ok : (b : Bool) (e : ConfigError) → (require b e ≡ ok tt) ↔ (b ≡ true)
require_ok true e = (λ _. refl, λ _. refl)
require_ok false e = (λ h. absurd (cc), λ h. absurd (cc))

has_route_iff : (m : Map ℕ (List ℕ)) → (has_route m ≡ true) ↔ (m ≢ [])
has_route_iff [] = (λ e. absurd (cc), λ h. absurd (h refl))
has_route_iff (r ∷ rs) = (λ _ e. absurd (cc), λ _. refl)

is_zero_iff : (z : ℤ) → (not (is_zero z) ≡ true) ↔ (z ≢ pos 0)
is_zero_iff (pos zero) = (λ e. absurd (cc), λ h. absurd (h refl))
is_zero_iff (pos (suc n)) = (λ e z. cc, λ h. ground arith)
is_zero_iff (negsuc n) = (λ e z. cc, λ h. refl)

validate_circle_config_iff :
    (circle : CircleSettings)
    → (validate_circle_config circle ≡ ok tt)
      ↔ ((circle.attestation_base_url ≢ []) × (circle.fetch_retry_interval ≢ pos 0))
unfolding validate_circle_config
validate_circle_config_iff circle = ground (
  arith,
  then_ok (require (not (empty circle.attestation_base_url)) missing_base_url)
      (require (not (is_zero circle.fetch_retry_interval)) no_fetch_retry_interval),
  require_ok (not (empty circle.attestation_base_url)) missing_base_url,
  require_ok (not (is_zero circle.fetch_retry_interval)) no_fetch_retry_interval,
  is_zero_iff circle.fetch_retry_interval,
  nonempty circle.attestation_base_url,
)

-- A configuration is accepted exactly if every chain is usable, and a route, the base URL of
-- Circle's API and the number of workers are set, and the interval of its retries is not zero,
-- though it may be negative.
pub validate_config-IsAccepted :
    {C : Type 0} (c : Config C) → (validate_config c ≡ ok tt) ↔ IsAccepted c
unfolding validate_config
validate_config-IsAccepted c = ground (
  arith,
  then_ok
      (validate_chains c.chains
        >> require (has_route c.enabled_routes) no_route
        >> validate_circle_config c.circle)
      (require (not (c.processor_worker_count == 0)) no_worker),
  then_ok (validate_chains c.chains >> require (has_route c.enabled_routes) no_route)
      (validate_circle_config c.circle),
  then_ok (validate_chains c.chains) (require (has_route c.enabled_routes) no_route),
  require_ok (has_route c.enabled_routes) no_route,
  require_ok (not (c.processor_worker_count == 0)) no_worker,
  validate_chains_iff c.chains,
  has_route_iff c.enabled_routes,
  validate_circle_config_iff c.circle,
)
