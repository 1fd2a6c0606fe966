-- ===== src/Cmd/Process/Gauge.antt =====
-- The gauge cctp_relayer_attestation_pending of relayer/metrics.go: cmd/process.go moves it up when
-- a message becomes pending and down when its attestation arrives.
use noble_cctp_relayer.Base.{
  ℕ, ◌+◌, List, [], ◌∷◌, Text, Bool, true, false, ◌&&◌, ◌==◌, ◌≡◌, inl, inr, refl, arith, some,
  some-injective, subst, ok, err, panic, Result, nat_key, Bool-cases, if◌then◌else◌,
}
use noble_cctp_relayer.Types.State.{
  status_eq, created, pending, attested, filtered, MessageState, MessagePtr,
}
use noble_cctp_relayer.Types.World.{World, Metric, inc_pending, dec_pending, AttestationLabel}
use noble_cctp_relayer.Circle.Attestation.{AttestationResponse, MessagesError, MessageResponseV2}
use noble_cctp_relayer.Circle.Reattest.{ReattestResult, reattested, apply_reattest_result}
use noble_cctp_relayer.Cmd.Process.Lift.{Parts, is_waiting, unfiltered_lift}
use noble_cctp_relayer.Cmd.Process.{
  label, Env, Turn, verdict, filter_step, mark_filtered, after_filter, message_step, mark_pending,
  mark_attested, v2_details,
}

-- The calls with the labels `s` and `d` that move the gauge up, and down.
abbrev pub ups : ℕ → ℕ → List Metric → ℕ
ups s d [] = 0
ups s d (inc_pending s' d' ∷ es) = (if s' == s && d' == d then 1 else 0) + ups s d es
ups s d (_ ∷ es) = ups s d es

abbrev pub downs : ℕ → ℕ → List Metric → ℕ
downs s d [] = 0
downs s d (dec_pending s' d' ∷ es) = (if s' == s && d' == d then 1 else 0) + downs s d es
downs s d (_ ∷ es) = downs s d es

-- 1 for a pending message between these domains.
abbrev pub pending_at : ℕ → ℕ → MessageState → ℕ
pending_at s d m =
    if status_eq m.status pending && m.source_domain == s && m.dest_domain == d then 1 else 0

-- From the world `w`, when the calls `es` have been made: the gauge moves as the message becomes
-- pending and ceases to be, but for `lost`.
abbrev pub Balanced : (ℕ → ℕ → ℕ) → MessagePtr → World → List Metric → World → Type 0
Balanced lost p w es w' =
    (es' : List Metric) × (w'.metrics ≡ some es')
    × ((s d : ℕ)
        → ups s d es' + downs s d es + pending_at s d (w.heap p)
          ≡ ups s d es + downs s d es' + pending_at s d (w'.heap p) + lost s d)

abbrev pub none_lost : ℕ → ℕ → ℕ
none_lost s d = 0

-- Balanced from any calls.
abbrev Keeps : MessagePtr → World → World → Type 0
Keeps p w w' = (es : List Metric) → w.metrics ≡ some es → Balanced none_lost p w es w'

Keeps-refl : (p : MessagePtr) (w : World) → Keeps p w w
Keeps-refl p w es counted = (es, counted, λ s d. omega arith)

Keeps-trans : (p : MessagePtr) (u v w : World) → Keeps p u v → Keeps p v w → Keeps p u w
Keeps-trans p u v w h k es counted =
    let (es', e, a) = h es counted in
    let (es'', e', b) = k es' e in
    (es'', e', λ s d. (let x = a s d in let y = b s d in omega arith))

mark_pending-Keeps :
    (p : MessagePtr) (w : World) → (w.heap p).status ≡ created → Keeps p w (mark_pending p w)
unfolding mark_pending status_eq
mark_pending-Keeps p w fresh es counted =
    let m = w.heap p in
    (
      inc_pending m.source_domain m.dest_domain ∷ label AttestationLabel.pending m ∷ es,
      rw counted refl,
      λ s d. ground arith,
    )

mark_attested-Keeps :
    (p : MessagePtr) (r : AttestationResponse) (w : World)
    → is_waiting p w ≡ true
    → Keeps p w (mark_attested p r w)
unfolding mark_attested status_eq
mark_attested-Keeps p r w waiting es counted =
    let m = w.heap p in
    elim (Bool-cases (status_eq m.status pending)) [
      | inl was ↦ (
        dec_pending m.source_domain m.dest_domain ∷ label AttestationLabel.complete m ∷ es,
        rw (was, counted) refl,
        λ s d. ground arith,
      )
      | inr fresh ↦
          (label AttestationLabel.complete m ∷ es, rw (fresh, counted) refl, λ s d. ground arith)
    ]

v2_details-Keeps :
    (p : MessagePtr) (r : Result MessagesError MessageResponseV2) (w : World)
    → Keeps p w (v2_details p r w)
v2_details-Keeps p (ok m) w es counted = (es, counted, λ s d. ground arith)
v2_details-Keeps p (err e) w es counted = Keeps-refl p w es counted
v2_details-Keeps p panic w es counted = Keeps-refl p w es counted

reattested_settled :
    (now s d : ℕ) (m : MessageState) (r : ReattestResult)
    → m.status ≡ attested
    → (pending_at s d m ≡ 0) × (pending_at s d (reattested now m r) ≡ 0)
unfolding reattested status_eq
reattested_settled now s d m r h = (ground arith, ground arith)

Keeps-parts : (p : MessagePtr) → Parts p (Keeps p)
unfolding apply_reattest_result
Keeps-parts p = record {
  same = Keeps-refl p;
  chain = Keeps-trans p;
  ticks = Keeps-refl p;
  notes = λ l m w es counted. (label l m ∷ es, rw counted refl, λ s d. omega arith);
  pends = mark_pending-Keeps p;
  attests = mark_attested-Keeps p;
  details = v2_details-Keeps p;
  renews = λ r w h es counted.
      (es, counted, λ s d. ground (arith, reattested_settled w.clock s d (w.heap p) r h));
}

-- A message that is filtered while it is pending is not taken off the gauge.
abbrev pub lost_by : Result ⊥ (Bool × Text) → ℕ → ℕ
lost_by (ok (true, reason)) n = n
lost_by (ok (false, reason)) n = 0
lost_by (err e) n = 0
lost_by panic n = 0

mark_filtered-Balanced :
    (p : MessagePtr) (w : World) (es : List Metric)
    → w.metrics ≡ some es
    → Balanced (λ s d. pending_at s d (w.heap p)) p w es (mark_filtered p w)
unfolding mark_filtered status_eq
mark_filtered-Balanced p w es counted =
    let m = w.heap p in
    elim (Bool-cases (status_eq m.status filtered)) [
      | inl again ↦ rw again (es, counted, λ s d. ground arith)
      | inr first ↦
          rw first (label AttestationLabel.filtered m ∷ es, rw counted refl, λ s d. ground arith)
    ]

filter_step-Balanced :
    (env : Env) (p : MessagePtr) (v : Result ⊥ (Bool × Text)) (t t' : Turn) (es : List Metric)
    → after_filter env p (filter_step p v t.world) t ≡ some t'
    → t.world.metrics ≡ some es
    → Balanced (λ s d. lost_by v (pending_at s d (t.world.heap p))) p t.world es t'.world
filter_step-Balanced env p (ok (true, reason)) t t' es e counted =
    let t1 = record t { world = mark_filtered p t.world } in
    let (mid, c, a) = mark_filtered-Balanced p t.world es counted in
    let (end, c', b) = unfiltered_lift env p (Keeps p) (Keeps-parts p) t1 mid c in
    subst (λ (u : Turn). Balanced (λ s d. pending_at s d (t.world.heap p)) p t.world es u.world)
      (some-injective e) (end, c', λ s d. (let x = a s d in let y = b s d in omega arith))
filter_step-Balanced env p (ok (false, reason)) t t' es e counted =
    subst (λ (u : Turn). Balanced none_lost p t.world es u.world) (some-injective e)
      (unfiltered_lift env p (Keeps p) (Keeps-parts p) t es counted)
filter_step-Balanced env p (err x) t t' es e counted = elim x [ ]
filter_step-Balanced env p panic t t' es e counted = absurd (cc)

-- While metrics are kept, a pass over a message moves the gauge of each pair of domains up by one if
-- the message becomes pending and down by one if it ceases to be, with one exception: a filter that
-- catches a pending message leaves the gauge one too high.
pub message_step-Balanced :
    (env : Env) (p : MessagePtr) (t t' : Turn) (es : List Metric)
    → message_step env p t ≡ some t'
    → t.world.metrics ≡ some es
    → Balanced
        (λ s d. lost_by (verdict env t.world p) (pending_at s d (t.world.heap p)))
        p
        t.world
        es
        t'.world
unfolding message_step
message_step-Balanced env p t t' es e counted =
    filter_step-Balanced env p (verdict env t.world p) t t' es e counted
