-- ===== src/Trackers.antt =====
-- TrackLatestBlockHeight and WalletBalanceMetric of ethereum/listener.go, noble/listener.go and
-- solana/chain.go, over the answers of the nodes. A missing answer is an error, which is logged.
pub mod Heights
use noble_cctp_relayer.Base.{
  ℕ, suc, ◌^◌, List, Text, text, Bool, Option, some, none, ℤ, pos, negsuc, as_int64, as_uint64,
}
use noble_cctp_relayer.Timer.{Wake, run_timer}
use noble_cctp_relayer.Types.World.{World, Metric, set_latest_height, set_wallet_balance, observe}
use noble_cctp_relayer.Noble.{noble_domain}

-- The field latestBlock, which SetLatestBlock sets under the mutex and LatestBlock reads, and the
-- world with the metrics.
pub record Tracked : Type 0 where
  pub latest_block : ℕ
  pub world : World

abbrev pub set_latest_block : ℕ → Tracked → Tracked
set_latest_block block t = record t { latest_block = block }

abbrev pub report : Metric → Tracked → Tracked
report m t = record t { world = observe m t.world }

module _ (name : Text) (domain : ℕ) where
  -- The answer of an EVM node or of Solana is a uint64.
  unfoldable pub on_height : Option ℕ → Tracked → Tracked
  on_height none t = t
  on_height (some height) t =
      report (set_latest_height name domain (as_int64 height)) (set_latest_block height t)

  -- An EVM chain asks once before it waits.
  unfoldable pub track_evm_height : Option ℕ → List (Wake (Option ℕ)) → Tracked → Tracked
  track_evm_height first wakes t = run_timer on_height wakes (on_height first t)

  unfoldable pub track_solana_height : List (Wake (Option ℕ)) → Tracked → Tracked
  track_solana_height wakes t = run_timer on_height wakes t

-- Noble answers with an int64.
unfoldable pub on_noble_height : Option ℤ → Tracked → Tracked
on_noble_height none t = t
on_noble_height (some height) t =
    report (set_latest_height (text "Noble") noble_domain height)
      (set_latest_block (as_uint64 height) t)

unfoldable pub track_noble_height : Option ℤ → List (Wake (Option ℤ)) → Tracked → Tracked
track_noble_height first wakes t = run_timer on_noble_height wakes (on_noble_height first t)

-- big.Int.Exp, which is 1 for an exponent that is not positive.
abbrev pub scale_factor : ℤ → ℤ
scale_factor (pos exponent) = pos (10 ^ exponent)
scale_factor (negsuc n) = pos 1

abbrev wallet : Text → Text → Text → ℤ → ℕ → World → World
wallet name address denom divisor balance w =
    observe (set_wallet_balance name address denom balance divisor) w

-- A balance with the divisor of the chain.
unfoldable pub on_balance : Text → Text → Text → ℤ → Option ℕ → World → World
on_balance name address denom divisor none w = w
on_balance name address denom divisor (some balance) w = wallet name address denom divisor balance w

unfoldable pub evm_wallet_balance :
    (name address denom : Text)
    → (metrics_exponent : ℤ) → Option ℕ
    → List (Wake (Option ℕ))
    → World
    → World
evm_wallet_balance name address denom metrics_exponent first wakes w =
    let divisor = scale_factor metrics_exponent in
    run_timer (on_balance name address denom divisor) wakes
      (on_balance name address denom divisor first w)

-- Without metrics the routine returns at once.
unfoldable pub solana_wallet_balance :
    (name address denom : Text) → (metrics_exponent : ℤ) → List (Wake (Option ℕ)) → World → World
solana_wallet_balance name address denom metrics_exponent wakes w = elim w.metrics [
  | none ↦ w
  | some es ↦ run_timer (on_balance name address denom metrics_exponent) wakes w
]
