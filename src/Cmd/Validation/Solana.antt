-- ===== src/Cmd/Validation/Solana.antt =====
-- What becomes of a Solana chain in the configuration (cmd/config.go, cmd/appstate.go).
use noble_cctp_relayer.Base.{
  [], ◌∷◌, Text, text, text_eq, false, Option, some, none, ok, ◌≡◌, refl, sym, ap, inl, inr, All,
  Map, some-injective, Any, subst,
}
use noble_cctp_relayer.Config.{SolanaConfig, ChainConfig, Config}
use noble_cctp_relayer.Cmd.Validation.{
  Yaml, ConfigWrapper, parse_chain, parse_chains, parse_config, validate_config, as_solana,
  add_chain, with_chains,
}
use noble_cctp_relayer.Cmd.Validation.Accepted.{IsUsable, validate_config-IsAccepted}

as_solana-unusable :
    (name : Text) (o : Option SolanaConfig) (c : ChainConfig)
    → as_solana o ≡ some c
    → ¬ IsUsable (name, c)
as_solana-unusable name none c e u = cc
as_solana-unusable name (some s) c e u = subst (λ d. IsUsable (name, d)) (sym (some-injective e)) u

parse_chain-solana :
    {Y : Type 0} (yaml : Yaml Y) (name : Text) (y : Y) (c : ChainConfig)
    → name ≡ text "solana"
    → parse_chain yaml name y ≡ some c
    → ¬ IsUsable (name, c)
unfolding parse_chain text_eq
parse_chain-solana yaml name y c e p u =
    as_solana-unusable name (yaml.to_solana y) c (subst (λ n. parse_chain yaml n y ≡ some c) e p) u

add-IsUsable :
    (name : Text) (o : Option ChainConfig) (later : Option (Map Text ChainConfig))
    (chains : Map Text ChainConfig)
    → add_chain name o later ≡ some chains
    → All IsUsable chains
    → ((c : ChainConfig) × (o ≡ some c) × IsUsable (name, c))
      × ((m : Map Text ChainConfig) × (later ≡ some m) × All IsUsable m)
add-IsUsable name none later chains e all = absurd (cc)
add-IsUsable name (some c) none chains e all = absurd (cc)
add-IsUsable name (some c) (some m) chains e all =
    let both = subst (All IsUsable) (sym (some-injective e)) all in
    ((c, refl, both.0), (m, refl, both.1))

parse_chains-solana :
    {Y : Type 0} (yaml : Yaml Y) (m : Map Text Y) (chains : Map Text ChainConfig)
    → parse_chains yaml m ≡ some chains
    → Any (λ entry. entry.0 ≡ text "solana") m
    → ¬ All IsUsable chains
unfolding parse_chains
parse_chains-solana yaml [] chains e h all = h
parse_chains-solana yaml ((name, y) ∷ rest) chains e (inl here) all =
    let both = add-IsUsable name (parse_chain yaml name y) (parse_chains yaml rest) chains e all in
    parse_chain-solana yaml name y both.0.0 here both.0.1 both.0.2
parse_chains-solana yaml ((name, y) ∷ rest) chains e (inr later) all =
    let both = add-IsUsable name (parse_chain yaml name y) (parse_chains yaml rest) chains e all in
    parse_chains-solana yaml rest both.1.0 both.1.1 later both.1.2

-- A configuration file with a chain under the name solana that ParseConfig reads is never
-- accepted, and the configuration read never has DestinationCallerOnly set.
pub parse_config-solana :
    {C Y : Type 0} (yaml : Yaml Y) (cfg : ConfigWrapper C Y) (c : Config C)
    → parse_config yaml cfg ≡ some c
    → (Any (λ entry. entry.0 ≡ text "solana") cfg.chains → ¬ (validate_config c ≡ ok tt))
      × (c.destination_caller_only ≡ false)
unfolding parse_config
parse_config-solana {C} {Y} yaml cfg c e = go (parse_chains yaml cfg.chains) refl e
  where
    go :
        (o : Option (Map Text ChainConfig))
        → o ≡ parse_chains yaml cfg.chains
        → with_chains cfg o ≡ some c
        → (Any (λ entry. entry.0 ≡ text "solana") cfg.chains → ¬ (validate_config c ≡ ok tt))
          × (c.destination_caller_only ≡ false)
    go none p q = absurd (cc)
    go (some chains) p q =
        let same : chains ≡ c.chains = ap (λ (d : Config C). d.chains) (some-injective q) in
        let unset : false ≡ c.destination_caller_only =
          ap (λ (d : Config C). d.destination_caller_only) (some-injective q) in
        (
          λ h v.
              parse_chains-solana yaml cfg.chains chains (sym p) h
                (subst (All IsUsable) (sym same) ((validate_config-IsAccepted c).0 v).0),
          sym unset,
        )
