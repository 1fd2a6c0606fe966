-- ===== src/Cmd/Process/Terminal.antt =====
-- What one pass of cmd/process.go leaves alone.
use noble_cctp_relayer.Base.{Text, true, false, ◌≡◌, ◌⊎◌, inr, refl, arith, some, ok, ap}
use noble_cctp_relayer.Types.State.{Status, status_eq, complete, failed, filtered, MessagePtr}
use noble_cctp_relayer.Types.World.{World}
use noble_cctp_relayer.Cmd.Process.{
  Env, Turn, go_on, verdict, mark_filtered, attestation_step, expiry_step, message_step,
}

-- A final status: complete, failed or filtered.
abbrev pub IsFinal : Status → Type 0
IsFinal s = (s ≡ complete) ⊎ (s ≡ failed) ⊎ (s ≡ filtered)

attestation_step-IsFinal :
    (env : Env) (p : MessagePtr) (t : Turn)
    → IsFinal (t.world.heap p).status
    → attestation_step env p t ≡ go_on t
unfolding attestation_step status_eq
attestation_step-IsFinal env p t final = ground arith

expiry_step-IsFinal :
    (env : Env) (p : MessagePtr) (t : Turn)
    → IsFinal (t.world.heap p).status
    → expiry_step env p t ≡ t
unfolding expiry_step status_eq
expiry_step-IsFinal env p t final = ground arith

-- A message in a final status that no filter matches is left alone: nothing is asked of Circle,
-- nothing changes, and the message goes into no batch.
pub message_step-IsFinal :
    (env : Env) (p : MessagePtr) (t : Turn) (reason : Text)
    → verdict env t.world p ≡ ok (false, reason)
    → IsFinal (t.world.heap p).status
    → message_step env p t ≡ some t
unfolding message_step
message_step-IsFinal env p t reason passes final =
    rw (passes, attestation_step-IsFinal env p t final)
      (ap some (expiry_step-IsFinal env p t final))

mark_filtered-status : (p : MessagePtr) (w : World) → ((mark_filtered p w).heap p).status ≡ filtered
unfolding mark_filtered
mark_filtered-status p w = ground arith

-- What a filtered pass leaves behind.
abbrev pub Filtered : MessagePtr → Turn → Turn → Type 0
Filtered p t t' =
    ((t'.world.heap p).status ≡ filtered)
    × (t'.world.clock ≡ t.world.clock)
    × (t'.batches ≡ t.batches)
    × (t'.requeue ≡ t.requeue)

mark_filtered-Filtered :
    (p : MessagePtr) (t : Turn) → Filtered p t (record t { world = mark_filtered p t.world })
unfolding mark_filtered
mark_filtered-Filtered p t = (mark_filtered-status p t.world, ground arith, refl, refl)

-- A message that a filter matches becomes filtered, whatever its status was, also from complete
-- or failed; nothing is asked of Circle for it, it goes into no batch and asks for no retry.
pub message_step-Filtered :
    (env : Env) (p : MessagePtr) (t : Turn) (reason : Text)
    → verdict env t.world p ≡ ok (true, reason)
    → (t' : Turn) × (message_step env p t ≡ some t') × Filtered p t t'
unfolding message_step
message_step-Filtered env p t reason matched = (t', stepped, mark_filtered-Filtered p t)
  where
    t' : Turn
    t' = record t { world = mark_filtered p t.world }

    final : IsFinal (t'.world.heap p).status
    final = inr (inr (mark_filtered-status p t.world))

    stepped : message_step env p t ≡ some t'
    stepped =
        rw (matched, attestation_step-IsFinal env p t' final)
          (ap some (expiry_step-IsFinal env p t' final))
