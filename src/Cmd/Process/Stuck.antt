-- ===== src/Cmd/Process/Stuck.antt =====
-- A message that has its attestation is not broadcast by a later pass of cmd/process.go: only
-- the pass in which the attestation arrives puts it into a batch.
use noble_cctp_relayer.Base.{
  ℕ, List, [], ◌∷◌, Text, Bool, true, false, ◌&&◌, ltb, ◌≡◌, sym, ap, ◌∙◌, inl, inr, arith, Option,
  some, none, some-injective, subst, ok, err, panic, Result, All, All-map, lookup, nat_key,
  Bool-cases, Option-cases,
}
use noble_cctp_relayer.Types.State.{
  Status, status_eq, created, pending, attested, complete, failed, filtered, MessageState,
  MessagePtr,
}
use noble_cctp_relayer.Types.World.{World, Chain, tick}
use noble_cctp_relayer.Types.Settings.{get_api_version}
use noble_cctp_relayer.Circle.Reattest.{
  ReattestResult, reattested, apply_reattest_result, remove_message_from_queue,
  handle_expiring_attestation,
}
use noble_cctp_relayer.Cmd.Process.{
  Env, Turn, Next, go_on, after_attestation, verdict, filter_step, mark_filtered, attestation_step,
  expiry_step, renew, renew_on, after_filter, message_step, message_loop, is_v2,
}

-- The statuses from which the pipeline does not ask for an attestation.
abbrev pub is_settled : Status → Bool
is_settled created = false
is_settled pending = false
is_settled attested = true
is_settled complete = true
is_settled failed = true
is_settled filtered = true

abbrev pub settled_at : World → MessagePtr → Bool
settled_at w q = is_settled (w.heap q).status

-- No batch, and what was settled stays so.
abbrev Keeps : Turn → Turn → Type 0
Keeps t t' =
    (t'.batches ≡ [])
    × ((q : MessagePtr) → settled_at t.world q ≡ true → settled_at t'.world q ≡ true)

settled-mark_filtered :
    (p q : MessagePtr) (w : World) → settled_at w q ≡ true → settled_at (mark_filtered p w) q ≡ true
unfolding mark_filtered
settled-mark_filtered p q w h = ground arith

settled-reattested :
    (now : ℕ) (m : MessageState) (r : ReattestResult)
    → is_settled m.status ≡ true
    → is_settled (reattested now m r).status ≡ true
unfolding reattested
settled-reattested now m r h = ground arith

settled-renew :
    (env : Env) (p q : MessagePtr) (chain : Chain) (t : Turn)
    → settled_at t.world q ≡ true
    → settled_at (renew env p chain t).world q ≡ true
unfolding renew apply_reattest_result
settled-renew env p q chain t h = ground (
  arith,
  settled-reattested (tick (tick t.world)).clock (t.world.heap p)
      (handle_expiring_attestation env.api t.world.clock (t.world.heap p) env.circle
        (chain.latest_block t.world.clock)).0,
)

no_batches-renew :
    (env : Env) (p : MessagePtr) (chain : Chain) (t : Turn)
    → t.batches ≡ []
    → (renew env p chain t).batches ≡ []
unfolding renew remove_message_from_queue lookup
no_batches-renew env p chain t h = ground arith

renew_on-Keeps :
    (env : Env) (p : MessagePtr) (c : Option Chain) (t : Turn)
    → t.batches ≡ []
    → Keeps t (renew_on env p c t)
renew_on-Keeps env p none t h = (h, λ q s. s)
renew_on-Keeps env p (some chain) t h =
    (no_batches-renew env p chain t h, λ q s. settled-renew env p q chain t s)

expiry_step-Keeps :
    (env : Env) (p : MessagePtr) (t : Turn) → t.batches ≡ [] → Keeps t (expiry_step env p t)
unfolding expiry_step
expiry_step-Keeps env p t h =
    elim (Bool-cases (
      is_v2 (get_api_version env.circle)
      && status_eq (t.world.heap p).status attested
      && ltb 0 (t.world.heap p).expiration_block)) [
        | inl due ↦
            rw due (renew_on-Keeps env p (lookup (t.world.heap p).dest_domain env.domains) t h)
        | inr other ↦ rw other (h, λ q s. s)
      ]

attestation_step-settled :
    (env : Env) (p : MessagePtr) (t : Turn)
    → settled_at t.world p ≡ true
    → attestation_step env p t ≡ go_on t
unfolding attestation_step status_eq
attestation_step-settled env p t h = ground arith

after_filter-Keeps :
    (env : Env) (p : MessagePtr) (w : World) (t t' : Turn)
    → t.batches ≡ []
    → settled_at w p ≡ true
    → after_filter env p (some w) t ≡ some t'
    → Keeps (record t { world = w }) t'
after_filter-Keeps env p w t t' h s e = subst (Keeps t₁) same (expiry_step-Keeps env p t₁ h)
  where
    t₁ : Turn
    t₁ = record t { world = w }

    same : expiry_step env p t₁ ≡ t'
    same = some-injective (
        sym (
          ap (λ (n : Next). some (after_attestation env p n)) (attestation_step-settled env p t₁ s))
        ∙ e)

filter_step-Keeps :
    (env : Env) (p : MessagePtr) (v : Result ⊥ (Bool × Text)) (t t' : Turn)
    → t.batches ≡ []
    → settled_at t.world p ≡ true
    → after_filter env p (filter_step p v t.world) t ≡ some t'
    → Keeps t t'
filter_step-Keeps env p (ok (true, reason)) t t' h s e =
    let w = mark_filtered p t.world in
    let kept = after_filter-Keeps env p w t t' h (settled-mark_filtered p p t.world s) e in
    (kept.0, λ q sq. kept.1 q (settled-mark_filtered p q t.world sq))
filter_step-Keeps env p (ok (false, reason)) t t' h s e =
    after_filter-Keeps env p t.world t t' h s e
filter_step-Keeps env p (err x) t t' h s e = elim x [ ]
filter_step-Keeps env p panic t t' h s e = absurd (cc)

message_step-Keeps :
    (env : Env) (p : MessagePtr) (t t' : Turn)
    → t.batches ≡ []
    → settled_at t.world p ≡ true
    → message_step env p t ≡ some t'
    → Keeps t t'
unfolding message_step
message_step-Keeps env p t t' h s e = filter_step-Keeps env p (verdict env t.world p) t t' h s e

-- A pass over messages none of which is created or pending makes no batch, so that nothing is
-- broadcast, and leaves none of them created or pending: so it is for every later pass, too.
-- In particular a message whose broadcast failed stays attested, or becomes failed or filtered.
pub message_loop-settled :
    (env : Env) (ms : List MessagePtr) (t t' : Turn)
    → t.batches ≡ []
    → All (λ p. settled_at t.world p ≡ true) ms
    → message_loop env ms t ≡ some t'
    → (t'.batches ≡ [])
      × ((q : MessagePtr) → settled_at t.world q ≡ true → settled_at t'.world q ≡ true)
unfolding message_loop
message_loop-settled env [] t t' h s e = subst (Keeps t) (some-injective e) (h, λ q sq. sq)
message_loop-settled env (p ∷ ps) t t' h (sp, s) e = elim (Option-cases (message_step env p t)) [
  | inl crashed ↦ absurd (ground arith)
  | inr (u, stepped) ↦
      let kept = message_step-Keeps env p t u h sp stepped in
      let later =
        message_loop-settled env ps u t' kept.0 (All-map (λ q sq. kept.1 q sq) ps s)
          (ground arith) in
      (later.0, λ q sq. later.1 q (kept.1 q sq))
]
