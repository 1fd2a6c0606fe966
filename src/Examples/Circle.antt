-- ===== src/Examples/Circle.antt =====
-- Examples for Circle's service.
use noble_cctp_relayer.Base.{ℕ, ◌-◌, ◌≤◌, [], ◌∷◌, arith, nat_key}
use noble_cctp_relayer.Circle.Reattest.{max_retries}
use noble_cctp_relayer.Circle.Reattest.Handle.{
  HandleCases, IsLimit, handle_expiring_attestation_cases,
}
use noble_cctp_relayer.Circle.Reattest.Bound.{rounds, rounds_bounded}
use noble_cctp_relayer.Examples.Samples.{settings, iris, attested_transfer}

handle_expiring_attestation_cases_example :
    (limit : ℕ) × IsLimit settings limit × HandleCases iris 9 attested_transfer settings 100 limit
handle_expiring_attestation_cases_example =
    handle_expiring_attestation_cases iris 9 attested_transfer settings 100 (omega arith)

rounds_bounded_example :
    (rounds iris settings ((9, 100) ∷ (10, 101) ∷ (11, 102) ∷ []) attested_transfer).1
    ≤ max_retries settings - 0
rounds_bounded_example =
    rounds_bounded iris settings ((9, 100) ∷ (10, 101) ∷ (11, 102) ∷ []) attested_transfer
