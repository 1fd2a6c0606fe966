-- ===== src/Cmd/Start/Faithful.antt =====
-- From Start of cmd/process.go to any turns of its workers: what they keep of the messages.
use noble_cctp_relayer.Base.{
  ℕ, List, [], ◌∷◌, Text, Bool, Option, some, none, Result, ok, err, panic, ◌>>=◌, ◌==◌, ◌&&◌, Map,
  lookup, insert, lookup-insert, nat_key, ◌≡◌, inl, inr, refl, sym, ap, ◌∙◌, arith, All, Bool-cases,
  All-map, ok-injective, some-injective, subst,
}
use noble_cctp_relayer.Config.{Config, ChainConfig}
use noble_cctp_relayer.Types.World.{Chain}
use noble_cctp_relayer.Types.World.Payload.{KeepsPayload}
use noble_cctp_relayer.Types.SequenceMap.{SequenceMap}
use noble_cctp_relayer.Types.Filter.{FilterRegistry, FilterError}
use noble_cctp_relayer.Filters.Whitelist.Initialize.{WhitelistConfig}
use noble_cctp_relayer.Chains.{ChainLibrary, make_chain}
use noble_cctp_relayer.Chains.Lawful.{IsLawful, make_chain-IsLawful}
use noble_cctp_relayer.Cmd.Setup.{FilterLibrary, initialize_filters}
use noble_cctp_relayer.Cmd.Process.{Env}
use noble_cctp_relayer.Cmd.Worker.{Node, process_turns}
use noble_cctp_relayer.Cmd.Worker.Unchanged.{process_turns-KeepsPayload}
use noble_cctp_relayer.Cmd.Start.{
  ChainSetup, StartError, Registration, height_retries, wait_for_height, add_chain,
  with_broadcaster, register_chain, register_chains, start, with_filters,
}

-- A registered chain is one that the configuration of its setup makes.
abbrev pub IsMade : ChainLibrary → ChainSetup → Type 0
IsMade lib setup = (cfg : ChainConfig) × (name : Text) × (setup.chain ≡ make_chain lib cfg name)

module _ (P : Chain → Type 0) where
  abbrev Each : Map ℕ Chain → Type 0
  Each m = (d : ℕ) (c : Chain) → lookup d m ≡ some c → P c

  insert-Each :
      (chain : Chain) (m : Map ℕ Chain) → P chain → Each m → Each (insert chain.domain chain m)
  insert-Each chain m p h d c e = elim (Bool-cases (chain.domain == d)) [
    | inl same ↦ subst P (some-injective (rw (lookup-insert chain.domain d chain m, same) at e)) p
    | inr other ↦ h d c (rw (lookup-insert chain.domain d chain m, other) at e)
  ]

  add_chain-Each :
      (c : Chain) (m : Map ℕ Chain) (s : SequenceMap) (o : Option Chain) (r : Registration)
      → P c
      → Each m
      → add_chain c m s o ≡ ok r
      → Each r.0
  add_chain-Each c m s none r p h e =
      subst (λ (x : Registration). Each x.0) (ok-injective e) (insert-Each c m p h)
  add_chain-Each c m s (some other) r p h e = absurd (ground arith)

  with_broadcaster-Each :
      (c : Chain) (m : Map ℕ Chain) (o : Option SequenceMap) (r : Registration)
      → P c
      → Each m
      → with_broadcaster c m o ≡ ok r
      → Each r.0
  with_broadcaster-Each c m none r p h e = absurd (ground arith)
  with_broadcaster-Each c m (some s) r p h e = add_chain-Each c m s (lookup c.domain m) r p h e

  abbrev MakesEach : ChainSetup → Type 0
  MakesEach setup = (c : Chain) → setup.chain ≡ some c → P c

  register_chain-Each :
      (setup : ChainSetup) (o : Option Chain) (r r' : Registration)
      → ((c : Chain) → o ≡ some c → P c)
      → Each r.0
      → register_chain setup o r ≡ ok r'
      → Each r'.0
  unfolding register_chain
  register_chain-Each setup none r r' p h e = absurd (ground arith)
  register_chain-Each setup (some c) r r' p h e = elim (Bool-cases setup.clients) [
    | inl up ↦ elim (Bool-cases (wait_for_height height_retries 0 setup.height)) [
      | inl seen ↦
          with_broadcaster-Each c r.0 (setup.broadcaster r.1) r' (p c refl) h (rw (up, seen) at e)
      | inr unseen ↦ absurd (let bad = rw (up, unseen) at e in ground arith)
    ]
    | inr down ↦ absurd (let bad = rw down at e in ground arith)
  ]

  register_chains-Each :
      (setups : List ChainSetup) (r r' : Registration)
      → All MakesEach setups
      → Each r.0
      → register_chains setups r ≡ ok r'
      → Each r'.0
  unfolding register_chains
  register_chains-Each [] r r' p h e = subst (λ (x : Registration). Each x.0) (ok-injective e) h
  register_chains-Each (setup ∷ setups) r r' p h e =
      go (register_chain setup setup.chain r) refl e (λ m. register_chains-Each setups m r' p.1)
    where
      go :
          (first : Result StartError Registration)
          → register_chain setup setup.chain r ≡ first
          → (first >>= register_chains setups) ≡ ok r'
          → ((m : Registration) → Each m.0 → register_chains setups m ≡ ok r' → Each r'.0)
          → Each r'.0
      go (ok m) eq k later = later m (register_chain-Each setup setup.chain r m p.0 h eq) k
      go (err x) eq k later = absurd (ground arith)
      go panic eq k later = absurd (ground arith)

  start-Each :
      (lib : FilterLibrary) (cfg : Config WhitelistConfig) (setups : List ChainSetup)
      (flush_interval : ℕ) (flush_only : Bool) (registered : Registration)
      (registry : FilterRegistry)
      → All MakesEach setups
      → start lib cfg setups flush_interval flush_only ≡ ok (registered, registry)
      → Each registered.0
  unfolding start lookup
  start-Each lib cfg setups flush_interval flush_only registered registry p e =
      elim (Bool-cases (flush_interval == 0 && flush_only)) [
        | inl bad ↦ absurd (let no = rw bad at e in ground arith)
        | inr fine ↦ chains (register_chains setups ([], [])) refl (rw fine at e)
      ]
    where
      filters :
          (m : Registration) (f : Result FilterError FilterRegistry)
          → with_filters m f ≡ ok (registered, registry)
          → Each m.0
          → Each registered.0
      filters m (ok f) h each =
          subst (λ (x : Registration × FilterRegistry). Each x.0.0) (ok-injective h) each
      filters m (err x) h each = absurd (ground arith)
      filters m panic h each = absurd (ground arith)

      chains :
          (r : Result StartError Registration)
          → register_chains setups ([], []) ≡ r
          → (r >>= λ m. with_filters m (initialize_filters lib cfg m.0)) ≡ ok (registered, registry)
          → Each registered.0
      chains (ok m) eq h =
          filters m (initialize_filters lib cfg m.0) h
            (register_chains-Each setups ([], []) m p (λ d c found. absurd (cc)) eq)
      chains (err x) eq h = absurd (ground arith)
      chains panic eq h = absurd (ground arith)

-- When Start gets to its processors with chains of the configuration, whatever the packages outside
-- the repository answer: any number of turns of workers over these chains keeps of every message the
-- lookup id, the domains, the transaction, the bytes sent, the body, the destination caller and the
-- nonce.
pub start-KeepsPayload :
    (chain_lib : ChainLibrary) (lib : FilterLibrary) (cfg : Config WhitelistConfig)
    (setups : List ChainSetup) (flush_interval : ℕ) (flush_only : Bool) (registered : Registration)
    (registry : FilterRegistry) (env : Env) (turns : ℕ) (n n' : Node)
    → All (IsMade chain_lib) setups
    → start lib cfg setups flush_interval flush_only ≡ ok (registered, registry)
    → env.domains ≡ registered.0
    → process_turns turns env n ≡ some n'
    → KeepsPayload n.world n'.world
start-KeepsPayload chain_lib lib cfg setups flush_interval flush_only registered registry env turns
      n n' made started domains e =
    process_turns-KeepsPayload env
      (λ d c found.
        (start-Each IsLawful lib cfg setups flush_interval flush_only registered registry
          (All-map
            (λ setup (c0, name, eq) x x_is. make_chain-IsLawful chain_lib c0 name x (sym eq ∙ x_is))
            setups made)
          started d c (ap (lookup d) (sym domains) ∙ found)).0)
      turns n n' e
