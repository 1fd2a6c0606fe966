-- ===== src/Cmd/Process/Moves.antt =====
-- The life of a transfer, and the parts of a pass that mark a message.
use noble_cctp_relayer.Base.{
  Bool, true, false, ◌||◌, ◌≡◌, ◌≢◌, ◌∙◌, refl, arith, ok, err, panic, Result, nat_key,
}
use noble_cctp_relayer.Types.State.{
  Status, status_eq, created, pending, attested, complete, failed, filtered, MessagePtr,
}
use noble_cctp_relayer.Types.World.{World}
use noble_cctp_relayer.Circle.Attestation.{AttestationResponse, MessagesError, MessageResponseV2}
use noble_cctp_relayer.Cmd.Process.{mark_filtered, mark_attested, mark_pending, v2_details}

-- The life of a transfer: forward from created over pending and attested; failed when its
-- re-attestations are used up; filtered from anywhere.
abbrev pub may_move : Status → Status → Bool
may_move created complete = false
may_move created s = true
may_move pending created = false
may_move pending complete = false
may_move pending s = true
may_move attested attested = true
may_move attested failed = true
may_move attested filtered = true
may_move attested s = false
may_move s filtered = true
may_move s s' = status_eq s s'

pub may_move_trans :
    (a b c : Status) → may_move a b ≡ true → may_move b c ≡ true → may_move a c ≡ true
unfolding status_eq
may_move_trans a b c h k = ground arith

pub may_move_refl : (a : Status) → may_move a a ≡ true
unfolding status_eq
may_move_refl a = ground arith

abbrev pub Move : MessagePtr → World → World → Type 0
Move p w w' =
    (may_move (w.heap p).status (w'.heap p).status ≡ true)
    × ((q : MessagePtr) → p ≢ q → w'.heap q ≡ w.heap q)

pub Move-trans : (p : MessagePtr) (u v w : World) → Move p u v → Move p v w → Move p u w
Move-trans p u v w (h, f) (k, g) = (
  may_move_trans (u.heap p).status (v.heap p).status (w.heap p).status h k,
  λ q ne. g q ne ∙ f q ne,
)

pub Move-refl : (p : MessagePtr) (w : World) → Move p w w
Move-refl p w = (may_move_refl (w.heap p).status, λ q ne. refl)

pub mark_filtered-Move : (p : MessagePtr) (w : World) → Move p w (mark_filtered p w)
unfolding mark_filtered status_eq
mark_filtered-Move p w = (ground arith, λ q ne. ground arith)

pub mark_pending-Move :
    (p : MessagePtr) (w : World) → ((w.heap p).status ≡ created) → Move p w (mark_pending p w)
unfolding mark_pending
mark_pending-Move p w h = (ground arith, λ q ne. ground arith)

pub mark_attested-Move :
    (p : MessagePtr) (r : AttestationResponse) (w : World)
    → (status_eq (w.heap p).status created || status_eq (w.heap p).status pending) ≡ true
    → Move p w (mark_attested p r w)
unfolding mark_attested status_eq
mark_attested-Move p r w h = (ground arith, λ q ne. ground arith)

pub v2_details-Move :
    (p : MessagePtr) (r : Result MessagesError MessageResponseV2) (w : World)
    → Move p w (v2_details p r w)
v2_details-Move p (ok m) w = (ground (arith, may_move_refl (w.heap p).status), λ q ne. ground arith)
v2_details-Move p (err e) w = Move-refl p w
v2_details-Move p panic w = Move-refl p w
