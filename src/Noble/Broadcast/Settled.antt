-- ===== src/Noble/Broadcast/Settled.antt =====
-- Broadcast of noble/broadcast.go: the statuses of the batch after it.
use noble_cctp_relayer.Base.{
  List, [], ◌∷◌, Bool, true, false, Option, none, if◌then◌else◌, ◌==◌, not, ◌≡◌, refl, ◌⊎◌, inl,
  inr, subst, arith, All, Bool-cases, All-map, pos_part,
}
use noble_cctp_relayer.Types.State.{MessageState, MessagePtr, status_eq, complete, failed}
use noble_cctp_relayer.Types.State.Equality.{status_eq_iff}
use noble_cctp_relayer.Types.World.{World, Run, done, crash, ◌>>=◌, BroadcastError, set_message}
use noble_cctp_relayer.Noble.Broadcast.{
  NobleSettings, CosmosNode, attempts, mark_failed, conclude, broadcast,
}
use noble_cctp_relayer.Noble.Broadcast.Attempts.{IsComplete, Heap, Attempted, attempts-Attempted}

abbrev pub IsSettled : Heap → MessagePtr → Type 0
IsSettled heap p = ((heap p).status ≡ complete) ⊎ ((heap p).status ≡ failed)

set-IsSettled :
    (w : World) (p q : MessagePtr) (m : MessageState)
    → m.status ≡ failed
    → IsSettled w.heap q
    → IsSettled (set_message p m w).heap q
set-IsSettled w p q m e h = elim (Bool-cases (p == q)) [
  | inl same ↦ rw same (inr e)
  | inr other ↦ rw other h
]

failed_here :
    (w : World) (p : MessagePtr) (m : MessageState)
    → m.status ≡ failed
    → ((set_message p m w).heap p).status ≡ failed
failed_here w p m e = ground arith

set_failed_keeps :
    (w : World) (p q : MessagePtr)
    → IsSettled w.heap q
    → IsSettled
        (if not (status_eq (w.heap p).status complete)
          then set_message p (record (w.heap p) { status = failed }) w
          else w).heap
        q
set_failed_keeps w p q h = elim (Bool-cases (status_eq (w.heap p).status complete)) [
  | inl already ↦ rw already h
  | inr open_still ↦
      rw open_still (set-IsSettled w p q (record (w.heap p) { status = failed }) refl h)
]

mark_failed_keeps :
    (ps : List MessagePtr) (w : World) (q : MessagePtr)
    → IsSettled w.heap q
    → IsSettled (mark_failed ps w).heap q
unfolding mark_failed
mark_failed_keeps [] w q h = h
mark_failed_keeps (p ∷ ps) w q h = mark_failed_keeps ps _ q (set_failed_keeps w p q h)

set_failed_here :
    (w : World) (p : MessagePtr)
    → IsSettled
        (if not (status_eq (w.heap p).status complete)
          then set_message p (record (w.heap p) { status = failed }) w
          else w).heap
        p
set_failed_here w p = elim (Bool-cases (status_eq (w.heap p).status complete)) [
  | inl already ↦ rw already (inl ((status_eq_iff _ _).0 already))
  | inr open_still ↦
      rw open_still (inr (failed_here w p (record (w.heap p) { status = failed }) refl))
]

mark_failed-IsSettled :
    (ps : List MessagePtr) (w : World) → All (IsSettled (mark_failed ps w).heap) ps
unfolding mark_failed
mark_failed-IsSettled [] w = tt
mark_failed-IsSettled (p ∷ ps) w =
    (mark_failed_keeps ps _ p (set_failed_here w p), mark_failed-IsSettled ps _)

-- However the node answers: a broadcast that returns without an error has completed every message
-- of the batch, and one that returns an error leaves every message complete or failed.
pub broadcast-IsSettled :
    (node : CosmosNode) (settings : NobleSettings) (msgs : List MessagePtr) (w w' : World)
    (e : Option BroadcastError)
    → broadcast node settings msgs w ≡ done e w'
    → (e ≡ none → All (IsComplete w'.heap) msgs) × All (IsSettled w'.heap) msgs
unfolding broadcast
broadcast-IsSettled node settings msgs w w' e eq =
    go (attempts node settings msgs (pos_part settings.max_retries) w)
      (attempts-Attempted node settings msgs (pos_part settings.max_retries) w) eq
  where
    Settled : Run (Option BroadcastError) → Type 0
    Settled crash = Unit {0}
    Settled (done x v) = (x ≡ none → All (IsComplete v.heap) msgs) × All (IsSettled v.heap) msgs

    settle : (r : Run Bool) → Attempted msgs r → Settled (r >>= conclude msgs)
    settle crash h = tt
    settle (done true v) h = (λ _. h, All-map (λ p c. inl c) msgs h)
    settle (done false v) h = (λ bad. absurd (cc), mark_failed-IsSettled msgs v)

    go :
        (r : Run Bool)
        → Attempted msgs r
        → r >>= conclude msgs ≡ done e w'
        → (e ≡ none → All (IsComplete w'.heap) msgs) × All (IsSettled w'.heap) msgs
    go r h eq' = subst Settled eq' (settle r h)
