-- ===== src/Noble/Broadcast/Faithful.antt =====
-- What noble/broadcast.go asks Noble to mint.
use noble_cctp_relayer.Base.{
  ℕ, List, [], ◌∷◌, ◌++◌, Text, Bool, true, false, Option, some, none, ◌≡◌, refl, sym, ◌∙◌, inl,
  inr, arith, All, All-append, All-map, Any, Bool-cases, hex_decode, subst,
}
use noble_cctp_relayer.Types.State.{MessageState, MessagePtr, status_eq, complete}
use noble_cctp_relayer.Types.World.{World, Run, done, crash, set_message, update, tick}
use noble_cctp_relayer.Noble.Broadcast.{
  ReceiveMessage, NobleSettings, CosmosNode, Rest, append_message, gather_one, gather,
}

abbrev Heap : Type 0
Heap = MessagePtr → MessageState

-- The request names the relayer, the bytes that the source chain sent and the attestation of Circle,
-- which is text whose two first characters are not part of the number.
abbrev pub IsReceiveOf : NobleSettings → MessageState → ReceiveMessage → Type 0
IsReceiveOf settings m r =
    (a : ℕ) × (b : ℕ) × (digits : Text) × (m.attestation ≡ a ∷ b ∷ digits)
    × (hex_decode digits ≡ some r.attestation)
    × (r.message ≡ m.msg_sent_bytes)
    × (r.from ≡ settings.minter_address)

-- What a request depends on is the same.
abbrev SameMints : Heap → Heap → Type 0
SameMints heap heap' =
    (q : MessagePtr)
    → ((heap' q).attestation ≡ (heap q).attestation)
      × ((heap' q).msg_sent_bytes ≡ (heap q).msg_sent_bytes)

module _ (settings : NobleSettings) (heap : Heap) where
  -- A request for one of the messages.
  abbrev pub IsFor : List MessagePtr → ReceiveMessage → Type 0
  IsFor ps r = Any (λ p. IsReceiveOf settings (heap p) r) ps

  abbrev Out : (ReceiveMessage → Type 0) → Run (Option (List ReceiveMessage)) → Type 0
  Out P crash = Unit
  Out P (done none w) = Unit
  Out P (done (some out) w) = All P out

  set-SameMints :
      (w : World) (p : MessagePtr)
      → SameMints heap w.heap
      → SameMints heap (set_message p (record (w.heap p) { status = complete }) w).heap
  set-SameMints w p h q = (set_attestation w p q ∙ (h q).0, set_bytes w p q ∙ (h q).1)
    where
      set_attestation :
          (w : World) (p q : MessagePtr)
          → (update w.heap p (record (w.heap p) { status = complete }) q).attestation
            ≡ (w.heap q).attestation
      set_attestation w p q = ground arith

      set_bytes :
          (w : World) (p q : MessagePtr)
          → (update w.heap p (record (w.heap p) { status = complete }) q).msg_sent_bytes
            ≡ (w.heap q).msg_sent_bytes
      set_bytes w p q = ground arith

  append_message-Out :
      (P : ReceiveMessage → Type 0) (m : MessageState) (rest : Rest) (attestation : Text)
      (before : List ReceiveMessage) (w : World)
      → m.attestation ≡ attestation
      → All P before
      → ((r : ReceiveMessage) → IsReceiveOf settings m r → P r)
      → ((b : List ReceiveMessage) → All P b → Out P (rest b w))
      → Out P (append_message settings m rest attestation before w)
  append_message-Out P m rest [] before w e all here h = tt
  append_message-Out P m rest (a ∷ []) before w e all here h = tt
  append_message-Out P m rest (a ∷ b ∷ digits) before w e all here h = go (hex_decode digits) refl
    where
      receive : List ℕ → ReceiveMessage
      receive bytes = record {
        from = settings.minter_address;
        message = m.msg_sent_bytes;
        attestation = bytes;
      }

      go :
          (t : Option (List ℕ))
          → hex_decode digits ≡ t
          → Out P
              (elim t [ none ↦ done none w | some bytes ↦ rest (before ++ (receive bytes ∷ [])) w ])
      go none x = tt
      go (some bytes) x = h (before ++ (receive bytes ∷ [])) (
          All-append P before (receive bytes ∷ []) all
            (here (receive bytes) (a, b, digits, e, x, refl, refl), tt))

  IsReceiveOf-same :
      (m m' : MessageState) (r : ReceiveMessage)
      → m'.attestation ≡ m.attestation
      → m'.msg_sent_bytes ≡ m.msg_sent_bytes
      → IsReceiveOf settings m' r
      → IsReceiveOf settings m r
  IsReceiveOf-same m m' r e f (a, b, digits, x, y, z, u) = (a, b, digits, sym e ∙ x, y, z ∙ f, u)

  gather-Out :
      (node : CosmosNode) (P : ReceiveMessage → Type 0) (ps : List MessagePtr)
      (before : List ReceiveMessage) (w : World)
      → SameMints heap w.heap
      → All P before
      → All (λ p. (r : ReceiveMessage) → IsReceiveOf settings (heap p) r → P r) ps
      → Out P (gather node settings ps before w)
  unfolding gather
  gather-Out node P [] before w same all here = all
  gather-Out node P (p ∷ ps) before w same all (one, here) =
      go (node.query_used_nonce w.clock (w.heap p).source_domain (w.heap p).nonce)
        (λ b w' s x. gather-Out node P ps b w' s x here)
    where
      go :
          (used : Option Bool)
          → ((b : List ReceiveMessage) (w' : World)
              → SameMints heap w'.heap
              → All P b
              → Out P (gather node settings ps b w'))
          → Out P (gather_one settings p (gather node settings ps) used before (tick w))
      go none h = tt
      go (some true) h = h before _ (set-SameMints (tick w) p same) all
      go (some false) h = elim (Bool-cases (status_eq (w.heap p).status complete)) [
        | inl already ↦ rw already (h before (tick w) same all)
        | inr waiting ↦ rw waiting (
            append_message-Out P (w.heap p) (gather node settings ps) (w.heap p).attestation before
              (tick w) refl all
              (λ r is. one r (IsReceiveOf-same (heap p) (w.heap p) r (same p).0 (same p).1 is))
              (λ b x. h b (tick w) same x))
      ]

each-IsFor :
    (settings : NobleSettings) (heap : Heap) (ps : List MessagePtr)
    → All
        (λ p. (r : ReceiveMessage) → IsReceiveOf settings (heap p) r → IsFor settings heap ps r)
        ps
each-IsFor settings heap [] = tt
each-IsFor settings heap (p ∷ ps) =
    (λ r is. inl is, All-map (λ q f r is. inr (f r is)) ps (each-IsFor settings heap ps))

-- Whatever the node answers about nonces: each request that attemptBroadcast gathers for the
-- transaction is for a message of the batch, with its bytes, its attestation decoded and the
-- relayer's address.
pub gather-IsFor :
    (node : CosmosNode) (settings : NobleSettings) (ps : List MessagePtr) (w w' : World)
    (out : List ReceiveMessage)
    → gather node settings ps [] w ≡ done (some out) w'
    → All (IsFor settings w.heap ps) out
gather-IsFor node settings ps w w' out e =
    subst (Out settings w.heap (IsFor settings w.heap ps)) e (
      gather-Out settings w.heap node (IsFor settings w.heap ps) ps [] w (λ q. (refl, refl)) tt
        (each-IsFor settings w.heap ps))
