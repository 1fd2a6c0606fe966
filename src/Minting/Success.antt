-- ===== src/Minting/Success.antt =====
-- What the loops of Broadcast have done when they report no error.
use noble_cctp_relayer.Base.{
  ℕ, zero, suc, List, [], ◌∷◌, Bool, true, false, Option, some, none, ◌≡◌, refl, ◌∙◌, sym, inl, inr,
  subst, arith, All, Bool-cases, rounds_from_zero,
}
use noble_cctp_relayer.Types.State.{MessageState, MessagePtr, status_eq, complete}
use noble_cctp_relayer.Types.State.Equality.{status_eq_iff}
use noble_cctp_relayer.Types.World.{
  World, Run, done, crash, ◌>>=◌, BroadcastError, retries_exhausted, inc_broadcast_errors,
  set_message, observe,
}
use noble_cctp_relayer.Types.World.Payload.{payload, payload_at, SamePayload, RunKeeps}
use noble_cctp_relayer.Minting.{
  Minter, attempts, message_loop, stop_or, with_attestation, next_message, attestation_bytes,
}

abbrev pub Heap : Type 0
Heap = MessagePtr → MessageState

abbrev pub IsComplete : Heap → MessagePtr → Type 0
IsComplete heap p = (heap p).status ≡ complete

-- What was complete stays so, and `p` is complete if `ok`.
abbrev pub Progress : Heap → MessagePtr → Bool → Heap → Type 0
Progress heap p ok heap' =
    ((q : MessagePtr) → IsComplete heap q → IsComplete heap' q)
    × (ok ≡ true → IsComplete heap' p)
    × SamePayload heap heap'

abbrev pub Outcome : Heap → MessagePtr → Run Bool → Type 0
Outcome heap p crash = Unit {0}
Outcome heap p (done ok w') = Progress heap p ok w'.heap

abbrev pub Keeps {ℓ} : {A : Type ℓ} → Heap → Run A → Type 0
Keeps heap crash = Unit {0}
Keeps heap (done x w') = heap ≡ w'.heap

pub Outcome-bind {ℓ} :
    {A : Type ℓ} (heap : Heap) (p : MessagePtr) (r : Run A) (k : A → World → Run Bool)
    → Keeps heap r
    → ((x : A) (w : World) → Outcome w.heap p (k x w))
    → Outcome heap p (r >>= k)
Outcome-bind heap p crash k h f = tt
Outcome-bind heap p (done x w) k h f = subst (λ g. Outcome g p (k x w)) (sym h) (f x w)

pub set-Outcome :
    (w : World) (p : MessagePtr) (m : MessageState)
    → m.status ≡ complete
    → payload m ≡ payload (w.heap p)
    → Outcome w.heap p (done true (set_message p m w))
set-Outcome w p m e same = (λ q h. ground arith, (λ _. ground arith), λ q. payload_at p q w m same)

pub same-Outcome : (w : World) (p : MessagePtr) → Outcome w.heap p (done false w)
same-Outcome w p = (λ q h. h, (λ e. absurd (cc)), λ q. refl)

Outcome-after :
    (heap heap' : Heap) (p : MessagePtr) (ok : Bool) (r : Run Bool)
    → Progress heap p ok heap'
    → Outcome heap' p r
    → Outcome heap p r
Outcome-after heap heap' p ok crash h k = tt
Outcome-after heap heap' p ok (done b w) h k = (λ q c. k.0 q (h.0 q c), k.1, λ q. k.2 q ∙ h.2 q)

stop_or-Outcome :
    (heap : Heap) (p : MessagePtr) (r : Run Bool) (again : World → Run Bool)
    → Outcome heap p r
    → ((w : World) → Outcome w.heap p (again w))
    → Outcome heap p (r >>= stop_or again)
stop_or-Outcome heap p crash again h f = tt
stop_or-Outcome heap p (done true w) again h f = h
stop_or-Outcome heap p (done false w) again h f =
    Outcome-after heap w.heap p false (again w) h (f w)

-- What the loops rely on: an attempt without an error has completed its message, and none undoes
-- a completion.
abbrev pub IsMinter : Minter → Type 0
IsMinter minter =
    (p : MessagePtr) (bytes : List ℕ) (w : World) → Outcome w.heap p (minter.attempt p bytes w)

attempts-Outcome :
    (minter : Minter) (law : IsMinter minter) (p : MessagePtr) (bytes : List ℕ) (n : ℕ) (w : World)
    → Outcome w.heap p (attempts minter p bytes n w)
unfolding attempts
attempts-Outcome minter law p bytes zero w = same-Outcome w p
attempts-Outcome minter law p bytes (suc n) w =
    elim (Bool-cases (status_eq (w.heap p).status complete)) [
      | inl already ↦ rw already (λ q h. h, (λ _. (status_eq_iff _ _).0 already), λ q. refl)
      | inr waiting ↦ rw waiting (
          stop_or-Outcome w.heap p (minter.attempt p bytes w) _ (law p bytes w)
            (attempts-Outcome minter law p bytes n))
    ]

-- The end of the loop over messages that began with these errors.
abbrev LoopEnd :
    Heap → List MessagePtr → Option BroadcastError → Run (Option BroadcastError) → Type 0
LoopEnd heap ps errors crash = Unit {0}
LoopEnd heap ps errors (done e w') =
    ((q : MessagePtr) → IsComplete heap q → IsComplete w'.heap q)
    × (e ≡ none → (errors ≡ none) × All (IsComplete w'.heap) ps)
    × SamePayload heap w'.heap

next_message-LoopEnd :
    (heap : Heap) (p : MessagePtr) (ps : List MessagePtr) (minter : Minter)
    (errors : Option BroadcastError) (r : Run Bool)
    (rest : Option BroadcastError → World → Run (Option BroadcastError))
    → Outcome heap p r
    → ((e : Option BroadcastError) (w : World) → LoopEnd w.heap ps e (rest e w))
    → LoopEnd heap (p ∷ ps) errors (r >>= next_message rest minter errors)
next_message-LoopEnd heap p ps minter errors crash rest h f = tt
next_message-LoopEnd heap p ps minter errors (done true w) rest h f =
    success (rest errors w) (f errors w)
  where
    success :
        (r : Run (Option BroadcastError))
        → LoopEnd w.heap ps errors r
        → LoopEnd heap (p ∷ ps) errors r
    success crash k = tt
    success (done e w') k = (
      λ q c. k.0 q (h.0 q c),
      (λ n. ((k.1 n).0, (k.0 p (h.1 refl), (k.1 n).1))),
      λ q. k.2 q ∙ h.2 q,
    )
next_message-LoopEnd heap p ps minter errors (done false w) rest h f =
    failure (rest (some retries_exhausted) w2) (f (some retries_exhausted) w2)
  where
    w2 : World
    w2 = observe (inc_broadcast_errors minter.name minter.domain) w

    failure :
        (r : Run (Option BroadcastError))
        → LoopEnd w.heap ps (some retries_exhausted) r
        → LoopEnd heap (p ∷ ps) errors r
    failure crash k = tt
    failure (done e w') k =
        (λ q c. k.0 q (h.0 q c), (λ n. absurd (let bad = (k.1 n).0 in cc)), λ q. k.2 q ∙ h.2 q)

message_loop-LoopEnd :
    (minter : Minter) (law : IsMinter minter) (ps : List MessagePtr)
    (errors : Option BroadcastError) (w : World)
    → LoopEnd w.heap ps errors (message_loop minter ps errors w)
unfolding message_loop
message_loop-LoopEnd minter law [] errors w = (λ q h. h, (λ e. (e, tt)), λ q. refl)
message_loop-LoopEnd minter law (p ∷ ps) errors w =
    go (attestation_bytes (w.heap p).attestation) (message_loop-LoopEnd minter law ps)
  where
    go :
        (t : Option (Option (List ℕ)))
        → ((e : Option BroadcastError) (w' : World)
            → LoopEnd w'.heap ps e (message_loop minter ps e w'))
        → LoopEnd w.heap (p ∷ ps) errors (
            with_attestation t w (λ bytes.
              attempts minter p bytes (rounds_from_zero minter.max_retries) w
              >>= next_message (message_loop minter ps) minter errors))
    go none later = tt
    go (some none) later = (λ q h. h, (λ e. absurd (cc)), λ q. refl)
    go (some (some bytes)) later =
        next_message-LoopEnd w.heap p ps minter errors
          (attempts minter p bytes (rounds_from_zero minter.max_retries) w) _
          (attempts-Outcome minter law p bytes (rounds_from_zero minter.max_retries) w) later

-- Loops that end without an error have completed all messages, and undone no completion.
pub message_loop-completes :
    (minter : Minter)
    → IsMinter minter
    → (msgs : List MessagePtr) (w w' : World) → message_loop minter msgs none w ≡ done none w'
    → All (IsComplete w'.heap) msgs
      × ((q : MessagePtr) → IsComplete w.heap q → IsComplete w'.heap q)
message_loop-completes minter law msgs w w' e =
    let ended = subst (LoopEnd w.heap msgs none) e (message_loop-LoopEnd minter law msgs none w) in
    ((ended.1 refl).1, ended.0)

-- The loops keep the payloads, errors or not.
pub message_loop-RunKeeps :
    (minter : Minter)
    → IsMinter minter
    → (msgs : List MessagePtr) (w : World) → RunKeeps w (message_loop minter msgs none w)
message_loop-RunKeeps minter law msgs w = loop_end _ (message_loop-LoopEnd minter law msgs none w)
  where
    loop_end : (r : Run (Option BroadcastError)) → LoopEnd w.heap msgs none r → RunKeeps w r
    loop_end crash h = tt
    loop_end (done e w') h = h.2
