-- ===== src/Cmd/Process/Transitions.antt =====
-- How one pass of cmd/process.go over a message moves its status, and that it touches no other.
use noble_cctp_relayer.Base.{
  ℕ, Text, Bool, true, false, ◌≡◌, ◌≢◌, arith, some, some-injective, subst, ok, err, panic, Result,
  nat_key,
}
use noble_cctp_relayer.Types.State.{attested, MessageState, MessagePtr}
use noble_cctp_relayer.Circle.Reattest.{ReattestResult, reattested, apply_reattest_result}
use noble_cctp_relayer.Cmd.Process.{
  Env, Turn, after_attestation, verdict, filter_step, mark_filtered, attestation_step, after_filter,
  message_step,
}
use noble_cctp_relayer.Cmd.Process.Lift.{Parts, unfiltered_lift}
use noble_cctp_relayer.Cmd.Process.Moves.{
  may_move, Move, Move-trans, Move-refl, mark_filtered-Move, mark_pending-Move, mark_attested-Move,
  v2_details-Move,
}

reattested-status :
    (now : ℕ) (m : MessageState) (r : ReattestResult)
    → m.status ≡ attested
    → may_move m.status (reattested now m r).status ≡ true
unfolding reattested
reattested-status now m r h = ground arith

Move-parts : (p : MessagePtr) → Parts p (Move p)
unfolding apply_reattest_result
Move-parts p = record {
  same = Move-refl p;
  chain = Move-trans p;
  ticks = Move-refl p;
  notes = λ l m w. Move-refl p w;
  pends = mark_pending-Move p;
  attests = mark_attested-Move p;
  details = v2_details-Move p;
  renews =
      λ r w h. (ground (arith, reattested-status w.clock (w.heap p) r h), λ q ne. ground arith);
}

-- From the world that the filters leave.
unfiltered-Move :
    (env : Env) (p : MessagePtr) (t : Turn)
    → Move p t.world (after_attestation env p (attestation_step env p t)).world
unfiltered-Move env p t = unfiltered_lift env p (Move p) (Move-parts p) t

filter_step-Move :
    (env : Env) (p : MessagePtr) (v : Result ⊥ (Bool × Text)) (t t' : Turn)
    → after_filter env p (filter_step p v t.world) t ≡ some t'
    → Move p t.world t'.world
filter_step-Move env p (ok (true, reason)) t t' e =
    subst (λ (u : Turn). Move p t.world u.world) (some-injective e)
      (Move-trans p t.world t₁.world (after_attestation env p (attestation_step env p t₁)).world
        (mark_filtered-Move p t.world) (unfiltered-Move env p t₁))
  where
    t₁ : Turn
    t₁ = record t { world = mark_filtered p t.world }
filter_step-Move env p (ok (false, reason)) t t' e =
    subst (λ (u : Turn). Move p t.world u.world) (some-injective e) (unfiltered-Move env p t)
filter_step-Move env p (err x) t t' e = elim x [ ]
filter_step-Move env p panic t t' e = absurd (cc)

-- A pass moves the status of its message along its life only: never back, never out of complete,
-- failed or filtered but into filtered, and to complete not at all, which the broadcast does.
-- Every other message is left as it was.
pub message_step-Move :
    (env : Env) (p : MessagePtr) (t t' : Turn)
    → message_step env p t ≡ some t'
    → (may_move (t.world.heap p).status (t'.world.heap p).status ≡ true)
      × ((q : MessagePtr) → p ≢ q → t'.world.heap q ≡ t.world.heap q)
unfolding message_step
message_step-Move env p t t' e = filter_step-Move env p (verdict env t.world p) t t' e
