-- ===== src/Examples/Run.antt =====
-- Examples for the program from its start to a turn of a worker.
use noble_cctp_relayer.Base.{
  List, [], ◌∷◌, text, true, false, Option, some, none, ok, ◌≡◌, refl, nat_key,
}
use noble_cctp_relayer.Config.{ethereum_chain}
use noble_cctp_relayer.Types.State.{MessageState, TxState}
use noble_cctp_relayer.Types.World.Payload.{KeepsPayload}
use noble_cctp_relayer.Chains.{make_chain}
use noble_cctp_relayer.Cmd.Process.{Env}
use noble_cctp_relayer.Cmd.Setup.{initialize_filters}
use noble_cctp_relayer.Cmd.Start.{ChainSetup, start}
use noble_cctp_relayer.Cmd.Start.Faithful.{start-KeepsPayload}
use noble_cctp_relayer.Cmd.Worker.{Node, process_turns}
use noble_cctp_relayer.Examples.Samples.{transfer, settings, world_of, env}
use noble_cctp_relayer.Examples.Filters.{library, config}
use noble_cctp_relayer.Examples.Setup.{packages, evm_config, Started, started_of}

abbrev setups : List ChainSetup
setups =
    record {
      chain = make_chain packages (ethereum_chain evm_config) (text "ethereum");
      clients = true;
      height = λ i. i;
      broadcaster = λ sequences. some sequences;
    }
    ∷ []

abbrev started : Started
started = started_of (start library config setups 60 false)

started_well : start library config setups 60 false ≡ ok (started.0, started.1)
unfolding start noble_cctp_relayer.Cmd.Start.wait_for_height noble_cctp_relayer.Base.lookup
    initialize_filters noble_cctp_relayer.Base.text_eq make_chain
    noble_cctp_relayer.Filters.Whitelist.Initialize.initialize
    noble_cctp_relayer.Filters.Whitelist.refresh noble_cctp_relayer.Filters.Whitelist.fetch_list
    noble_cctp_relayer.Http.http_request
started_well = refl

abbrev burnt : MessageState
burnt = record transfer { source_domain = 4; dest_domain = 0 }

abbrev tx : TxState
tx = record { tx_hash = text "0xfeed"; msgs = 1 ∷ []; retry_attempt = 0 }

abbrev node : Node
node = record { txs = λ p. tx; state = []; queue = 7 ∷ []; world = world_of burnt }

abbrev env_v1 : Env
env_v1 = record env { circle = record settings { api_version = text "v1" }; domains = started.0.0 }

abbrev node_of : Option Node → Node
node_of none = node
node_of (some n) = n

abbrev ended : Node
ended = node_of (process_turns 1 env_v1 node)

ran : process_turns 1 env_v1 node ≡ some ended
unfolding process_turns noble_cctp_relayer.Cmd.Worker.process_next
    noble_cctp_relayer.Cmd.Worker.process_tx noble_cctp_relayer.Cmd.Worker.turn_on
    noble_cctp_relayer.Cmd.Worker.admit noble_cctp_relayer.Cmd.Worker.retry
    noble_cctp_relayer.Cmd.Worker.broadcast_batches noble_cctp_relayer.Cmd.Worker.after_broadcast
    noble_cctp_relayer.Cmd.Process.message_loop noble_cctp_relayer.Cmd.Process.message_step
    noble_cctp_relayer.Types.State.load noble_cctp_relayer.Base.lookup
    noble_cctp_relayer.Cmd.Worker.observe_created noble_cctp_relayer.Cmd.Process.verdict
    noble_cctp_relayer.Types.Settings.get_api_version
    noble_cctp_relayer.Types.Settings.parse_api_version noble_cctp_relayer.Base.text_eq
    noble_cctp_relayer.Base.to_lower noble_cctp_relayer.Base.trim_space
    noble_cctp_relayer.Circle.Attestation.check_attestation
    noble_cctp_relayer.Circle.Attestation.check_attestation_v1 noble_cctp_relayer.Http.http_request
    start noble_cctp_relayer.Cmd.Start.wait_for_height initialize_filters make_chain
    noble_cctp_relayer.Filters.Whitelist.Initialize.initialize
    noble_cctp_relayer.Filters.Whitelist.refresh noble_cctp_relayer.Filters.Whitelist.fetch_list
    noble_cctp_relayer.Ethereum.Broadcast.broadcast noble_cctp_relayer.Minting.message_loop
    noble_cctp_relayer.Cmd.Process.attestation_step noble_cctp_relayer.Types.State.status_eq
    noble_cctp_relayer.Cmd.Process.on_response noble_cctp_relayer.Cmd.Process.expiry_step
    noble_cctp_relayer.Cmd.Process.complete_attestation
    noble_cctp_relayer.Cmd.Process.append_to_batch noble_cctp_relayer.Base.insert
    noble_cctp_relayer.Cmd.Process.mark_attested noble_cctp_relayer.Base.hex_decode
    noble_cctp_relayer.Ethereum.Broadcast.attempt_broadcast
ran = refl

start-KeepsPayload_example : KeepsPayload node.world ended.world
start-KeepsPayload_example =
    start-KeepsPayload packages library config setups 60 false started.0 started.1 env_v1 1 node
      ended ((ethereum_chain evm_config, text "ethereum", refl), tt) started_well refl ran
