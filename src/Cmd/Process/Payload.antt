-- ===== src/Cmd/Process/Payload.antt =====
-- What a pass of cmd/process.go does with the payloads of the messages.
use noble_cctp_relayer.Base.{
  ℕ, List, [], ◌∷◌, ap, sym, Text, Bool, true, false, ok, err, panic, Result, Option, some, none,
  some-injective, subst, ◌≡◌, refl, ◌∙◌, Bool-cases, inl, inr, arith,
}
use noble_cctp_relayer.Types.State.{MessageState, MessagePtr, status_eq, filtered, pending}
use noble_cctp_relayer.Types.World.{World}
use noble_cctp_relayer.Types.World.Payload.{payload, KeepsPayload, payload_at}
use noble_cctp_relayer.Circle.Attestation.{AttestationResponse, MessagesError, MessageResponseV2}
use noble_cctp_relayer.Circle.Reattest.{ReattestResult, reattested, apply_reattest_result}
use noble_cctp_relayer.Cmd.Process.Lift.{Parts, unfiltered_lift}
use noble_cctp_relayer.Cmd.Process.{
  Env, Turn, verdict, filter_step, after_filter, message_step, message_loop, or_crash,
  mark_filtered, mark_pending, mark_attested, v2_details,
}

mark_filtered-KeepsPayload : (p : MessagePtr) (w : World) → KeepsPayload w (mark_filtered p w)
unfolding mark_filtered
mark_filtered-KeepsPayload p w q = elim (Bool-cases (status_eq (w.heap p).status filtered)) [
  | inl again ↦ rw again (payload_at p q w _ refl)
  | inr first ↦ rw first (payload_at p q w _ refl)
]

mark_attested-KeepsPayload :
    (p : MessagePtr) (r : AttestationResponse) (w : World) → KeepsPayload w (mark_attested p r w)
unfolding mark_attested
mark_attested-KeepsPayload p r w q = elim (Bool-cases (status_eq (w.heap p).status pending)) [
  | inl was ↦ rw was (payload_at p q w _ refl)
  | inr fresh ↦ rw fresh (payload_at p q w _ refl)
]

v2_details-KeepsPayload :
    (p : MessagePtr) (r : Result MessagesError MessageResponseV2) (w : World)
    → KeepsPayload w (v2_details p r w)
v2_details-KeepsPayload p (ok m) w q = payload_at p q w _ refl
v2_details-KeepsPayload p (err e) w q = refl
v2_details-KeepsPayload p panic w q = refl

reattested-payload :
    (now : ℕ) (m : MessageState) (r : ReattestResult) → payload (reattested now m r) ≡ payload m
unfolding reattested
reattested-payload now m r = ground arith

payload_parts : (p : MessagePtr) → Parts p KeepsPayload
unfolding apply_reattest_result mark_pending
payload_parts p = record {
  same = λ w q. refl;
  chain = λ u v w h k q. k q ∙ h q;
  ticks = λ w q. refl;
  notes = λ l m w q. refl;
  pends = λ w fresh q. payload_at p q w _ refl;
  attests = λ r w waiting. mark_attested-KeepsPayload p r w;
  details = v2_details-KeepsPayload p;
  renews = λ r w h q. payload_at p q w _ (reattested-payload w.clock (w.heap p) r);
}

filter_step-KeepsPayload :
    (env : Env) (p : MessagePtr) (v : Result ⊥ (Bool × Text)) (t t' : Turn)
    → after_filter env p (filter_step p v t.world) t ≡ some t'
    → KeepsPayload t.world t'.world
filter_step-KeepsPayload env p (ok (true, reason)) t t' e =
    let t1 = record t { world = mark_filtered p t.world } in
    let later = unfiltered_lift env p KeepsPayload (payload_parts p) t1 in
    subst (λ (u : Turn). KeepsPayload t.world u.world) (some-injective e)
      (λ q. later q ∙ mark_filtered-KeepsPayload p t.world q)
filter_step-KeepsPayload env p (ok (false, reason)) t t' e =
    subst (λ (u : Turn). KeepsPayload t.world u.world) (some-injective e)
      (unfiltered_lift env p KeepsPayload (payload_parts p) t)
filter_step-KeepsPayload env p (err x) t t' e = elim x [ ]
filter_step-KeepsPayload env p panic t t' e = absurd (cc)

loop_step :
    (env : Env) (ps : List MessagePtr) (r : Option Turn) (t t' : Turn)
    → ((u : Turn) → r ≡ some u → KeepsPayload t.world u.world)
    → ((u : Turn) → message_loop env ps u ≡ some t' → KeepsPayload u.world t'.world)
    → or_crash r (message_loop env ps) ≡ some t'
    → KeepsPayload t.world t'.world
loop_step env ps none t t' h k e = absurd (cc)
loop_step env ps (some u) t t' h k e = λ q. k u e q ∙ h u refl q

-- A pass over the messages of a transaction keeps of every message the lookup id, the domains, the
-- transaction, the bytes sent, the body, the destination caller and the nonce.
pub message_loop-KeepsPayload :
    (env : Env) (ps : List MessagePtr) (t t' : Turn)
    → message_loop env ps t ≡ some t'
    → KeepsPayload t.world t'.world
unfolding message_loop message_step
message_loop-KeepsPayload env [] t t' e =
    λ q. ap (λ (u : Turn). payload (u.world.heap q)) (sym (some-injective e))
message_loop-KeepsPayload env (p ∷ ps) t t' e =
    loop_step env ps (message_step env p t) t t'
      (λ u. filter_step-KeepsPayload env p (verdict env t.world p) t u)
      (λ u. message_loop-KeepsPayload env ps u t') e
