-- ===== src/Lib.antt =====
-- The Noble CCTP relayer: it watches chains for Circle's CCTP messages, waits for their
-- attestations and mints the transfers on the destination chains.
--
-- The parts and how they work together. Listeners (ethereum/listener.go, noble/listener.go) put
-- transactions with their messages on one queue; workers (StartProcessor of cmd/process.go) take
-- them off, run the filters (filters/), ask Circle's service (circle/) for attestations and hand
-- batches to the Broadcast of the destination chain (ethereum/, noble/, solana/broadcast.go).
-- Start (cmd/process.go) makes the chains of the configuration, registers them by domain and sets
-- up the filters.
-- What they share are the map of transactions (types/state.go), the map of account sequences
-- (types/sequence_map.go) and the messages themselves, which are shared by pointer.
--
-- The files, with the code that each is about:
--   Base          helpers: byte texts, decimal and hexadecimal numbers, maps, slices of Go,
--                 the patterns of regexp that occur, and what a Go function returns
--   Types         types/: Message (message.go), State (message_state.go, state.go), EvmLog
--                 (EvmLogToMessageState), SequenceMap, Filter (filter.go), Settings (config.go,
--                 api_version.go), World (the state that the workers share, chain.go)
--   Http          httpRequest of circle/attestation.go
--   Config        the chain configurations of noble/, ethereum/, solana/ and types/config.go
--   Filters       filters/: Route, DestinationCaller, LowTransfer, Whitelist
--   Circle        circle/: Attestation, Reattest, Allowance
--   Cmd           cmd/: Process (one pass over a message), Worker (a turn of a worker, the
--                 broadcast and the queue), Validation (ParseConfig, validateConfig), Setup
--                 (initializeFilters), Start (Start), Api (getTxByHash), AppState (appstate.go)
--   Timer         the loop of a background routine on its timer
--   Flush         the blocks of flushMechanism of ethereum/listener.go and noble/listener.go
--   Trackers      TrackLatestBlockHeight and WalletBalanceMetric of ethereum/, noble/, solana/
--   Minting       the loops of Broadcast that ethereum/ and solana/broadcast.go share
--   Ethereum      ethereum/: History, Stream, Listener, Sessions and Flush (listener.go),
--                 Broadcast (broadcast.go, util.go), Caller (chain.go)
--   Noble         noble/: chain.go, Broadcast (broadcast.go), Transactions (message_state.go),
--                 Listener and Flush (listener.go)
--   Solana        solana/: Address (address.go), Accounts (pda.go, types.go), Instruction and
--                 Broadcast (broadcast.go, chain.go)
--   Cosmos        cosmos/grpc_shim.go and query.go
--   Chains        Chain and NewChain of noble/, ethereum/ and solana/
--   Examples      the theorems at concrete inputs
--
-- Conventions. A Go string and a byte slice are lists of numbers. uint64 values are native
-- numbers whose wrap-around is written where the source may reach it; an `int` that may be
-- negative is an integer of Base. A panic is a value: `panic` of Result, `crash` of Run, or
-- `none` where a file says so. Messages live on a heap, by pointer. Time is a clock that also
-- counts calls to the outside, so that two calls may be answered differently.
--
-- Parameters, since they are not part of this repository: Circle's service, the nodes of the
-- chains, go-ethereum's ABI, address and hash functions, the message parser of the module
-- circlefin/noble-cctp, bech32 and base58, the codec and
-- the RPC client of the Cosmos SDK, the signing of transactions, the derivation of
-- addresses of solana-go, and the YAML library.
--
-- Bounds and fuel. The loop of getAndConsumeHistory runs on fuel, one more than the blocks up to
-- its end, and that of the Noble listener for each block up to the tip; it is shown that this is
-- enough. The attempts of the broadcasts are as many
-- as the settings say. process_turns counts turns of the workers. A turn of a worker is one
-- step; the interleaving inside a turn is not modelled. The workers of the Noble listener
-- interleave freely, a request, its reply and each transaction being steps of their own, and the
-- block queue has the size that is set. What the node answers to TxSearch is the first page, which
-- may differ from one time to another.
--
-- A routine on a timer is a list of firings, each with what the outside answers at it, up to its
-- end; durations are not modelled. The routines of one session of the EVM listener are taken one
-- after the other.
--
-- Not modelled: logging, sleeping and contexts, the bound of the processing queue, the Prometheus
-- server, the servers behind the API, the end of the program with the Close of the filters, the
-- flags but for those of the flush, the constructors of the cosmos provider, and the generated
-- contract bindings.
pub mod Base
pub mod Types
pub mod Http
pub mod Config
pub mod Filters
pub mod Circle
pub mod Cmd
pub mod Flush
pub mod Minting
pub mod Chains
pub mod Ethereum
pub mod Noble
pub mod Solana
pub mod Cosmos
pub mod Timer
pub mod Trackers
mod Examples
