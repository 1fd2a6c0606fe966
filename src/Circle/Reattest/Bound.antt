-- ===== src/Circle/Reattest/Bound.antt =====
-- How often circle/reattest.go asks for one attestation again.
use noble_cctp_relayer.Base.{
  ℕ, ◌+◌, ◌-◌, ◌≤◌, ◌<◌, ◌≡◌, ◌⊎◌, arith, List, [], ◌∷◌, not, ◌&&◌, if◌then◌else◌,
}
use noble_cctp_relayer.Types.Settings.{CircleSettings}
use noble_cctp_relayer.Types.State.{MessageState}
use noble_cctp_relayer.Circle.Attestation.{CircleApi}
use noble_cctp_relayer.Circle.Reattest.{
  ReattestResult, max_retries, handle_expiring_attestation, reattested,
}

-- 1 if the round has sent a request for a new attestation.
abbrev pub sent : ReattestResult → ℕ
sent r = if r.should_reattest && not r.exhausted_retries then 1 else 0

-- Rounds of HandleExpiringAttestation and ApplyReattestResult on one message, each at a time and a
-- block, with the number of requests sent.
unfoldable pub rounds : CircleApi → CircleSettings → List (ℕ × ℕ) → MessageState → MessageState × ℕ
rounds api cfg [] msg = (msg, 0)
rounds api cfg ((now, block) ∷ rest) msg =
    let result = (handle_expiring_attestation api now msg cfg block).0 in
    let (last, n) = rounds api cfg rest (reattested now msg result) in (last, sent result + n)

abbrev round_result : CircleApi → CircleSettings → ℕ → ℕ → MessageState → ReattestResult
round_result api cfg now block msg = (handle_expiring_attestation api now msg cfg block).0

sent_cases :
    (api : CircleApi) (cfg : CircleSettings) (now block : ℕ) (msg : MessageState)
    → let r = round_result api cfg now block msg in
      (sent r ≡ 0) ⊎ ((sent r ≡ 1) × (msg.reattest_count < max_retries cfg))
unfolding handle_expiring_attestation
sent_cases api cfg now block msg = ground arith

counted :
    (now : ℕ) (msg : MessageState) (r : ReattestResult)
    → msg.reattest_count + sent r ≤ (reattested now msg r).reattest_count
unfolding reattested
counted now msg r = ground arith

-- One round: the count goes up by one at least for a request, and never down.
round_count :
    (api : CircleApi) (cfg : CircleSettings) (now block : ℕ) (msg : MessageState)
    → let r = round_result api cfg now block msg in
      (msg.reattest_count + sent r ≤ (reattested now msg r).reattest_count)
      × ((sent r ≡ 0) ⊎ ((sent r ≡ 1) × (msg.reattest_count < max_retries cfg)))
round_count api cfg now block msg =
    (counted now msg (round_result api cfg now block msg), sent_cases api cfg now block msg)

-- However often and at whatever blocks a message comes up, the requests for a new attestation are
-- at most the configured number of attempts, less those that it had behind it.
pub rounds_bounded :
    (api : CircleApi) (cfg : CircleSettings) (visits : List (ℕ × ℕ)) (msg : MessageState)
    → (rounds api cfg visits msg).1 ≤ max_retries cfg - msg.reattest_count
unfolding rounds
rounds_bounded api cfg [] msg = omega arith
rounds_bounded api cfg ((now, block) ∷ rest) msg = omega (
  arith,
  round_count api cfg now block msg,
  rounds_bounded api cfg rest (reattested now msg (round_result api cfg now block msg)),
)
