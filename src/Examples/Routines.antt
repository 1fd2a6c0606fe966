-- ===== src/Examples/Routines.antt =====
-- Examples for the routines that run beside the workers.
use noble_cctp_relayer.Base.{
  ℕ, ◌-◌, List, [], ◌∷◌, Text, text, true, false, Option, some, none, pos, ◌≡◌, ◌≢◌, ◌↔◌, refl,
  arith, All, as_int64, as_uint64,
}
use noble_cctp_relayer.Timer.{Wake, fires, stops, fired}
use noble_cctp_relayer.Trackers.{Tracked, track_evm_height, track_solana_height, track_noble_height}
use noble_cctp_relayer.Trackers.Heights.{Follows, last_answer, track_heights}
use noble_cctp_relayer.Noble.{noble_domain}
use noble_cctp_relayer.Noble.Flush as NobleFlush
use noble_cctp_relayer.Noble.Flush.Covers.{Passes, Queued, noble_flush_covers}
use noble_cctp_relayer.Ethereum.Flush as EvmFlush
use noble_cctp_relayer.Ethereum.Stream.{nothing_waits}
use noble_cctp_relayer.Types.EvmLog.{EvmLog}
use noble_cctp_relayer.Ethereum.Sessions.{Connection, ListenState}
use noble_cctp_relayer.Flush.Coverage.{gap}
use noble_cctp_relayer.Circle.Allowance.{AllowanceMonitor, get, run_monitor}
use noble_cctp_relayer.Circle.Allowance.Tracked.{latest}
use noble_cctp_relayer.Circle.Allowance.Monitored.{asked, get-run_monitor}
use noble_cctp_relayer.Filters.Whitelist.Routine.{start_refresh, last_fetched, start_refresh_lem}
use noble_cctp_relayer.Filters.Whitelist.Refresh.{Listed}
use noble_cctp_relayer.Filters.Whitelist.{is_whitelisted, normalize_address}
use noble_cctp_relayer.Http.{Reply, transport_error}
use noble_cctp_relayer.Examples.Filters.{addresses, listed, reply, fresh, fetched, refreshed}
use noble_cctp_relayer.Examples.Types.{log}
use noble_cctp_relayer.Examples.Samples.{iris, transfer, world_of}

abbrev tracked : Tracked
tracked = record { latest_block = 0; world = world_of transfer }

abbrev heights : List (Wake (Option ℕ))
heights = fires (some 101) ∷ fires none ∷ stops ∷ fires (some 500) ∷ []

track_heights_example :
    Follows
      (text "ethereum")
      0
      (λ (h : ℕ). h)
      as_int64
      tracked
      (last_answer (some 100 ∷ fired heights) none)
      (track_evm_height (text "ethereum") 0 (some 100) heights tracked)
    × Follows
        (text "ethereum")
        0
        (λ (h : ℕ). h)
        as_int64
        tracked
        (last_answer (fired heights) none)
        (track_solana_height (text "ethereum") 0 heights tracked)
    × Follows
        (text "Noble")
        noble_domain
        as_uint64
        (λ h. h)
        tracked
        (last_answer (some (pos 7) ∷ fired (fires (some (pos 8)) ∷ [])) none)
        (track_noble_height (some (pos 7)) (fires (some (pos 8)) ∷ []) tracked)
track_heights_example =
    track_heights (text "ethereum") 0 (some 100) heights (some (pos 7)) (fires (some (pos 8)) ∷ [])
      tracked [] refl

abbrev noble_wakes : List (Wake NobleFlush.Firing)
noble_wakes =
    fires (record { latest = 120; catching_up = some true })
    ∷ fires (record { latest = 130; catching_up = some false })
    ∷ fires (record { latest = 140; catching_up = none })
    ∷ []

abbrev noble_start : NobleFlush.FlushState
noble_start = record { last_flushed_block = 100; block_queue = 7 ∷ [] }

noble_flush_covers_example :
    (end : NobleFlush.FlushState) × (NobleFlush.flush_mechanism false 5 noble_wakes noble_start
      ≡ some end)
    × All
        (λ f. Passes (f.latest - gap false 5) f.catching_up end.last_flushed_block)
        (fired noble_wakes)
    × Queued noble_start end
noble_flush_covers_example = noble_flush_covers false 5 noble_wakes noble_start (omega arith) (
  ((omega arith, omega arith), omega arith),
  (((omega arith, omega arith), omega arith), (((omega arith, omega arith), omega arith), tt)),
)

abbrev evm_firing : EvmFlush.Firing
evm_firing = record { latest = 130; now = 3; logs_in = λ from_block to_block. log ∷ [] }

abbrev evm_start : EvmFlush.FlushState
evm_start = record { last_flushed_block = 100; queue = [] }

abbrev monitor : AllowanceMonitor
monitor = record {
  base_url = text "https://iris";
  state = [];
  domains = 0 ∷ 6 ∷ [];
  token = text "USDC";
  interval = 30;
}

get-run_monitor_example :
    get 6 (run_monitor iris (fires tt ∷ stops ∷ []) monitor (world_of transfer)).0.state
    ≡ latest iris (text "https://iris") (text "USDC") (asked 2 (0 ∷ 6 ∷ [])) 9 6 (get 6 [])
get-run_monitor_example = get-run_monitor iris (fires tt ∷ stops ∷ []) monitor (world_of transfer) 6

abbrev refreshes : List (Wake (Reply (List Text)))
refreshes = fires (transport_error (text "timeout")) ∷ fires reply ∷ stops ∷ []

start_refresh_lem_example :
    (is_whitelisted addresses (start_refresh addresses (text "key") refreshes fresh) (text " 0xAb ")
      ≡ true)
    ↔ ((normalize_address addresses (text " 0xAb ") ≢ [])
        × Listed addresses
            (normalize_address addresses (text " 0xAb "))
            (last_fetched (text "key") (fired refreshes) listed))
start_refresh_lem_example =
    start_refresh_lem addresses (text "key") reply listed fresh refreshes (text " 0xAb ") fetched
      refreshed

abbrev connection : Connection
connection = record {
  subscribed = none ∷ some (log ∷ []) ∷ [];
  latest = 200;
  now = 3;
  logs_in = λ from_block to_block. log ∷ [];
  events = nothing_waits ∷ [];
  firings = fires evm_firing ∷ stops ∷ [];
}

abbrev restarted : ListenState
restarted = record { start_block = 100; last_flushed_block = 100; queue = [] }
