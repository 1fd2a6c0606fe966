-- ===== src/Cmd/Start.antt =====
-- Start of cmd/process.go: the checks of the flags, the registration of the chains and the set-up
-- of the filters, up to the start of the processors. The calls on a chain are given by their
-- results; `range` visits the chains in the order of the list. The API, the metrics server and the
-- allowance monitor, which start on the way, are left out.
pub mod Registered
pub mod Faithful
use noble_cctp_relayer.Base.{
  ℕ, zero, suc, ◌+◌, List, [], ◌∷◌, Text, Bool, true, false, Option, some, none, Result, ok, err,
  panic, ◌>>=◌, wrap, ◌==◌, ◌&&◌, if◌then◌else◌, Map, lookup, insert, nat_key,
}
use noble_cctp_relayer.Config.{Config}
use noble_cctp_relayer.Types.World.{Chain}
use noble_cctp_relayer.Types.SequenceMap.{SequenceMap}
use noble_cctp_relayer.Types.Filter.{FilterError, FilterRegistry}
use noble_cctp_relayer.Filters.Whitelist.Initialize.{WhitelistConfig}
use noble_cctp_relayer.Cmd.Setup.{FilterLibrary, initialize_filters}

-- One chain of the configuration: what its constructor gives, whether its clients connect, its
-- height each time that it is asked for, and what InitializeBroadcaster makes of the sequences.
pub record ChainSetup : Type 0 where
  pub chain : Option Chain
  pub clients : Bool
  pub height : ℕ → ℕ
  pub broadcaster : SequenceMap → Option SequenceMap

pub data StartError : Type 0 where
  no_flush_interval chain_failed clients_failed no_height broadcaster_failed : StartError
  duplicate_domain : ℕ → StartError
  filters_failed : FilterError → StartError

abbrev pub height_retries : ℕ
height_retries = 45

-- The loop that waits for a height, with the rounds that are left; `false` is the error.
unfoldable pub wait_for_height : ℕ → ℕ → (ℕ → ℕ) → Bool
wait_for_height zero i height = true
wait_for_height (suc left) i height =
    let rest = wait_for_height left (i + 1) height in
    if height i == 0 then (if left == 0 then false else rest) else true

abbrev pub Registration : Type 0
Registration = Map ℕ Chain × SequenceMap

abbrev pub add_chain :
    Chain → Map ℕ Chain → SequenceMap → Option Chain → Result StartError Registration
add_chain chain domains sequences none = ok (insert chain.domain chain domains, sequences)
add_chain chain domains sequences (some other) = err (duplicate_domain chain.domain)

abbrev pub with_broadcaster :
    Chain → Map ℕ Chain → Option SequenceMap → Result StartError Registration
with_broadcaster chain domains none = err broadcaster_failed
with_broadcaster chain domains (some sequences) =
    add_chain chain domains sequences (lookup chain.domain domains)

-- The body of the loop over the chains.
unfoldable pub register_chain :
    ChainSetup → Option Chain → Registration → Result StartError Registration
register_chain setup none (domains, sequences) = err chain_failed
register_chain setup (some chain) (domains, sequences) =
    if setup.clients
    then if wait_for_height height_retries 0 setup.height
      then with_broadcaster chain domains (setup.broadcaster sequences)
      else err no_height
    else err clients_failed

unfoldable pub register_chains : List ChainSetup → Registration → Result StartError Registration
unfolding register_chain
register_chains [] r = ok r
register_chains (setup ∷ setups) r = register_chain setup setup.chain r >>= register_chains setups

abbrev pub with_filters :
    Registration
    → Result FilterError FilterRegistry
    → Result StartError (Registration × FilterRegistry)
with_filters registered (ok registry) = ok (registered, registry)
with_filters registered (err e) = err (filters_failed e)
with_filters registered panic = panic

-- The chains, the sequences and the filters with which the processors start.
unfoldable pub start :
    FilterLibrary
    → Config WhitelistConfig
    → List ChainSetup
    → (flush_interval : ℕ) → (flush_only : Bool) → Result StartError (Registration × FilterRegistry)
unfolding register_chains
start lib cfg setups flush_interval flush_only =
    if flush_interval == 0 && flush_only
    then err no_flush_interval
    else (register_chains setups ([], []) >>= λ registered.
        with_filters registered (initialize_filters lib cfg registered.0))
