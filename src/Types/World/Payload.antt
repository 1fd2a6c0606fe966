-- ===== src/Types/World/Payload.antt =====
-- The part of a message that says where it comes from and goes to, and which bytes a chain is asked
-- to mint, and when a step leaves it as it is.
use noble_cctp_relayer.Base.{ℕ, Bool-cases, inl, inr, refl, ◌∙◌, ap, arith, ◌==◌, List, Text, ◌≡◌}
use noble_cctp_relayer.Types.State.{MessageState, MessagePtr}
use noble_cctp_relayer.Types.World.{World, Chain, Run, done, crash, ◌>>=◌, update}

-- The fields that the listener set for good.
pub record Payload : Type 0 where
  pub lookup_id : Text
  pub source_domain : ℕ
  pub dest_domain : ℕ
  pub source_tx_hash : Text
  pub sent_bytes : List ℕ
  pub body : List ℕ
  pub caller : List ℕ
  pub nonce : ℕ

abbrev pub payload : MessageState → Payload
payload m = record {
  lookup_id = m.iris_lookup_id;
  source_domain = m.source_domain;
  dest_domain = m.dest_domain;
  source_tx_hash = m.source_tx_hash;
  sent_bytes = m.msg_sent_bytes;
  body = m.msg_body;
  caller = m.destination_caller;
  nonce = m.nonce;
}

abbrev pub SamePayload : (MessagePtr → MessageState) → (MessagePtr → MessageState) → Type 0
SamePayload heap heap' = (q : MessagePtr) → payload (heap' q) ≡ payload (heap q)

abbrev pub KeepsPayload : World → World → Type 0
KeepsPayload w w' = SamePayload w.heap w'.heap

pub payload_at :
    (p q : MessagePtr) (w : World) (m : MessageState)
    → payload m ≡ payload (w.heap p)
    → payload (update w.heap p m q) ≡ payload (w.heap q)
payload_at p q w m h = elim (Bool-cases (p == q)) [
  | inl here ↦ rw here (h ∙ ap (λ (r : MessagePtr). payload (w.heap r)) (ground arith))
  | inr other ↦ rw other refl
]

-- A call that returns, if it does, with the payloads unchanged.
abbrev pub RunKeeps {ℓ} : {A : Type ℓ} → World → Run A → Type 0
RunKeeps w crash = Unit {0}
RunKeeps w (done x w') = KeepsPayload w w'

pub after-RunKeeps {ℓ} :
    {A : Type ℓ} (w v : World) (r : Run A) → KeepsPayload w v → RunKeeps v r → RunKeeps w r
after-RunKeeps w v crash h k = tt
after-RunKeeps w v (done x u) h k = λ q. k q ∙ h q

pub bind-RunKeeps {ℓ κ} :
    {A : Type ℓ} {B : Type κ} (w : World) (r : Run A) (k : A → World → Run B)
    → RunKeeps w r
    → ((x : A) (v : World) → RunKeeps v (k x v))
    → RunKeeps w (r >>= k)
bind-RunKeeps w crash k h f = tt
bind-RunKeeps w (done x v) k h f = after-RunKeeps w v (k x v) h (f x v)

-- Broadcast of the chain keeps the payloads, errors or not.
abbrev pub IsFaithful : Chain → Type 0
IsFaithful chain = (msgs : List MessagePtr) (w : World) → RunKeeps w (chain.broadcast msgs w)
