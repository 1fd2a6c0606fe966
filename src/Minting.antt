-- ===== src/Minting.antt =====
-- The loops of Broadcast over the messages of a batch and over the attempts for each of them, which
-- ethereum/broadcast.go and solana/broadcast.go have in the same words. The sleep between two
-- attempts is left out.
pub mod Success
use noble_cctp_relayer.Base.{
  ℕ, zero, suc, List, [], ◌∷◌, Text, Bool, true, false, Option, some, none, if◌then◌else◌, ℤ,
  rounds_from_zero, hex_decode,
}
use noble_cctp_relayer.Types.State.{MessagePtr, status_eq, complete}
use noble_cctp_relayer.Types.World.{
  World, Run, done, crash, ◌>>=◌, BroadcastError, undecodable_attestation, retries_exhausted,
  inc_broadcast_errors, observe,
}

-- What the loops read of a chain; `attempt` says whether attemptBroadcast returns without an error.
pub record Minter : Type 0 where
  pub name : Text
  pub domain : ℕ
  pub max_retries : ℤ
  pub attempt : MessagePtr → List ℕ → World → Run Bool

abbrev pub stop_or : (World → Run Bool) → Bool → World → Run Bool
stop_or again true w = done true w
stop_or again false w = again w

-- The loop over the attempts: `false` when all of them failed.
unfoldable pub attempts : Minter → MessagePtr → List ℕ → ℕ → World → Run Bool
attempts minter p attestation zero w = done false w
attempts minter p attestation (suc n) w =
    if status_eq (w.heap p).status complete
    then done true w
    else (minter.attempt p attestation w >>= stop_or (attempts minter p attestation n))

abbrev pub count_failure :
    Minter → Bool → Option BroadcastError → World → Option BroadcastError × World
count_failure minter true errors w = (errors, w)
count_failure minter false errors w =
    (some retries_exhausted, observe (inc_broadcast_errors minter.name minter.domain) w)

-- msg.Attestation[2:] panics on a shorter text.
abbrev pub attestation_bytes : Text → Option (Option (List ℕ))
attestation_bytes (a ∷ b ∷ digits) = some (hex_decode digits)
attestation_bytes _ = none

abbrev pub with_attestation :
    Option (Option (List ℕ))
    → World
    → (List ℕ → Run (Option BroadcastError))
    → Run (Option BroadcastError)
with_attestation none w k = crash
with_attestation (some none) w k = done (some undecodable_attestation) w
with_attestation (some (some attestation)) w k = k attestation

abbrev pub next_message :
    (Option BroadcastError → World → Run (Option BroadcastError))
    → Minter
    → Option BroadcastError
    → Bool
    → World
    → Run (Option BroadcastError)
next_message rest minter errors ok w =
    rest (count_failure minter ok errors w).0 (count_failure minter ok errors w).1

-- MsgLoop, with the errors joined so far.
unfoldable pub message_loop :
    Minter → List MessagePtr → Option BroadcastError → World → Run (Option BroadcastError)
unfolding attempts
message_loop minter [] errors w = done errors w
message_loop minter (p ∷ ps) errors w =
    with_attestation (attestation_bytes (w.heap p).attestation) w (λ attestation.
      attempts minter p attestation (rounds_from_zero minter.max_retries) w
      >>= next_message (message_loop minter ps) minter errors)
