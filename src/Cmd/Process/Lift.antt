-- ===== src/Cmd/Process/Lift.antt =====
-- A relation between the worlds before and after the parts of a pass of cmd/process.go over a
-- message holds between those before and after the pass, behind its filter.
use noble_cctp_relayer.Base.{
  text, text_eq, Bool, true, ◌&&◌, ◌||◌, ltb, ◌≡◌, inl, inr, arith, Option, some, none, lookup,
  nat_key, Bool-cases,
}
use noble_cctp_relayer.Types.State.{
  Status, status_eq, created, pending, attested, MessageState, MessagePtr,
}
use noble_cctp_relayer.Types.World.{World, Chain, AttestationLabel, observe, tick}
use noble_cctp_relayer.Types.Settings.{get_api_version}
use noble_cctp_relayer.Circle.Attestation.{
  AttestationResponse, MessagesError, MessageResponseV2, check_attestation,
  get_attestation_v2_message,
}
use noble_cctp_relayer.Circle.Reattest.{
  ReattestResult, apply_reattest_result, handle_expiring_attestation,
}
use noble_cctp_relayer.Base.{Result}
use noble_cctp_relayer.Cmd.Process.{
  Env, Turn, Next, go_on, skip, label, after_attestation, on_response, attestation_step,
  expiry_step, renew, renew_on, is_v2, mark_pending, mark_attested, v2_details, fetch_details,
  complete_attestation,
}

abbrev pub is_waiting : MessagePtr → World → Bool
is_waiting p w = status_eq (w.heap p).status created || status_eq (w.heap p).status pending

pub record Parts (p : MessagePtr) (R : World → World → Type 0) : Type 0 where
  pub same : (w : World) → R w w
  pub chain : (u v w : World) → R u v → R v w → R u w
  pub ticks : (w : World) → R w (tick w)
  pub notes : (l : AttestationLabel) (m : MessageState) (w : World) → R w (observe (label l m) w)
  pub pends : (w : World) → (w.heap p).status ≡ created → R w (mark_pending p w)
  pub attests :
      (r : AttestationResponse) (w : World) → is_waiting p w ≡ true → R w (mark_attested p r w)
  pub details : (r : Result MessagesError MessageResponseV2) (w : World) → R w (v2_details p r w)
  pub renews :
      (r : ReattestResult) (w : World)
      → (w.heap p).status ≡ attested
      → R w (apply_reattest_result p r w)

abbrev pub turn_of : Next → Turn
turn_of (go_on t) = t
turn_of (skip t) = t

created_of : (s : Status) (b : Bool) → (status_eq s created && b) ≡ true → s ≡ created
unfolding status_eq
created_of s b h = ground arith

middle : (s : Status) (a c : Bool) → (a && status_eq s attested && c) ≡ true → s ≡ attested
unfolding status_eq
middle s a c h = ground arith

module _ (env : Env) (p : MessagePtr) (R : World → World → Type 0) (parts : Parts p R) where
  complete_attestation_lift :
      (r : AttestationResponse) (t : Turn)
      → is_waiting p t.world ≡ true
      → R t.world (complete_attestation env p r t).world
  unfolding complete_attestation fetch_details
  complete_attestation_lift r t h = elim (Bool-cases (is_v2 (get_api_version env.circle))) [
    | inl two ↦ rw two (
        parts.chain t.world w (fetch_details env p w) (parts.attests r t.world h) (
          parts.chain w (tick w) (fetch_details env p w) (parts.ticks w)
            (parts.details reply (tick w))))
    | inr one ↦ rw one (parts.attests r t.world h)
  ]
    where
      w : World
      w = mark_attested p r t.world

      reply : Result MessagesError MessageResponseV2
      reply =
          get_attestation_v2_message env.api w.clock env.circle.attestation_base_url
            (w.heap p).source_tx_hash (w.heap p).source_domain

  on_response_lift :
      (r : Option AttestationResponse) (t : Turn)
      → is_waiting p t.world ≡ true
      → R t.world (turn_of (on_response env p r t)).world
  unfolding on_response
  on_response_lift none t h = parts.same t.world
  on_response_lift (some r) t h =
      elim (Bool-cases (
        status_eq (t.world.heap p).status created
        && text_eq r.status (text "pending_confirmations"))) [
          | inl first ↦ rw first (parts.pends t.world (created_of (t.world.heap p).status _ first))
          | inr later ↦
              rw later (elim (Bool-cases (text_eq r.status (text "pending_confirmations"))) [
                | inl waiting ↦ rw waiting (parts.same t.world)
                | inr answered ↦
                    rw answered (elim (Bool-cases (text_eq r.status (text "complete"))) [
                      | inl done ↦ rw done (complete_attestation_lift r t h)
                      | inr unknown ↦
                          rw unknown (parts.notes AttestationLabel.failed (t.world.heap p) t.world)
                    ])
              ])
        ]

  attestation_step_lift : (t : Turn) → R t.world (turn_of (attestation_step env p t)).world
  unfolding attestation_step
  attestation_step_lift t = elim (Bool-cases (is_waiting p t.world)) [
    | inl waiting ↦ rw waiting (
        parts.chain t.world (tick t.world) _ (parts.ticks t.world)
          (on_response_lift answer (record t { world = tick t.world }) waiting))
    | inr settled ↦ rw settled (parts.same t.world)
  ]
    where
      answer : Option AttestationResponse
      answer =
          let msg = t.world.heap p in
          check_attestation env.api t.world.clock env.circle msg.iris_lookup_id msg.source_tx_hash
            msg.source_domain

  renew_lift :
      (c : Option Chain) (t : Turn)
      → (t.world.heap p).status ≡ attested
      → R t.world (renew_on env p c t).world
  unfolding renew
  renew_lift none t h = parts.same t.world
  renew_lift (some chain) t h = elim (Bool-cases result.remove_from_queue) [
    | inl removed ↦ rw removed applied
    | inr kept ↦ rw kept applied
  ]
    where
      result : ReattestResult
      result =
          (handle_expiring_attestation env.api t.world.clock (t.world.heap p) env.circle
            (chain.latest_block t.world.clock)).0

      applied : R t.world (apply_reattest_result p result (tick (tick t.world)))
      applied =
          parts.chain t.world (tick (tick t.world)) _
            (parts.chain t.world (tick t.world) _ (parts.ticks t.world)
              (parts.ticks (tick t.world)))
            (parts.renews result (tick (tick t.world)) h)

  expiry_step_lift : (t : Turn) → R t.world (expiry_step env p t).world
  unfolding expiry_step
  expiry_step_lift t =
      elim (Bool-cases (
        is_v2 (get_api_version env.circle)
        && status_eq (t.world.heap p).status attested
        && ltb 0 (t.world.heap p).expiration_block)) [
          | inl due ↦ rw due (
              renew_lift (lookup (t.world.heap p).dest_domain env.domains) t
                (middle (t.world.heap p).status _ _ due))
          | inr other ↦ rw other (parts.same t.world)
        ]

  after_attestation_lift : (n : Next) → R (turn_of n).world (after_attestation env p n).world
  after_attestation_lift (go_on t) = expiry_step_lift t
  after_attestation_lift (skip t) = parts.same t.world

  -- From the world that the filters leave.
  pub unfiltered_lift :
      (t : Turn) → R t.world (after_attestation env p (attestation_step env p t)).world
  unfiltered_lift t =
      parts.chain t.world (turn_of (attestation_step env p t)).world _ (attestation_step_lift t)
        (after_attestation_lift (attestation_step env p t))
