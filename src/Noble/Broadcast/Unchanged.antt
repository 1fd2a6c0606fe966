-- ===== src/Noble/Broadcast/Unchanged.antt =====
-- Broadcast of noble/broadcast.go: what it keeps of the messages.
use noble_cctp_relayer.Base.{
  ℕ, zero, suc, List, [], ◌∷◌, Text, Bool, true, false, Option, some, none, ◌==◌, not,
  if◌then◌else◌, refl, inl, inr, Option-cases, ◌∙◌, Bool-cases, hex_decode, pos_part,
  find_two_numbers, text,
}
use noble_cctp_relayer.Types.State.{MessageState, MessagePtr, status_eq, complete, failed}
use noble_cctp_relayer.Types.SequenceMap.{next}
use noble_cctp_relayer.Types.World.{World, tick, set_message}
use noble_cctp_relayer.Types.World.Payload.{
  payload_at, KeepsPayload, RunKeeps, after-RunKeeps, bind-RunKeeps,
}
use noble_cctp_relayer.Noble.Broadcast.{
  ReceiveMessage, TxReply, NobleSettings, CosmosNode, Rest, append_message, gather_one, gather,
  mark_sent, after_reply, send, after_gather, attempt_broadcast, stop_or, attempts, mark_failed,
  conclude, broadcast, extract_account_sequence,
}

append_message-RunKeeps :
    (settings : NobleSettings) (m : MessageState) (rest : Rest) (attestation : Text)
    (out : List ReceiveMessage) (w : World)
    → ((b : List ReceiveMessage) → RunKeeps w (rest b w))
    → RunKeeps w (append_message settings m rest attestation out w)
append_message-RunKeeps settings m rest [] out w h = tt
append_message-RunKeeps settings m rest (a ∷ []) out w h = tt
append_message-RunKeeps settings m rest (a ∷ b ∷ digits) out w h =
    elim (Option-cases (hex_decode digits)) [
      | inl undecodable ↦ rw (undecodable, append_message) (λ q. refl)
      | inr (bytes, decoded) ↦ rw (decoded, append_message) (h _)
    ]

gather_one-RunKeeps :
    (settings : NobleSettings) (p : MessagePtr) (rest : Rest) (used : Option Bool)
    (out : List ReceiveMessage) (w : World)
    → ((b : List ReceiveMessage) (v : World) → RunKeeps v (rest b v))
    → RunKeeps w (gather_one settings p rest used out w)
gather_one-RunKeeps settings p rest none out w h = λ q. refl
gather_one-RunKeeps settings p rest (some true) out w h =
    let w' = set_message p (record (w.heap p) { status = complete }) w in
    after-RunKeeps w w' (rest out w') (λ q. payload_at p q w _ refl) (h out w')
gather_one-RunKeeps settings p rest (some false) out w h =
    elim (Bool-cases (status_eq (w.heap p).status complete)) [
      | inl already ↦ rw already (h out w)
      | inr waiting ↦ rw waiting (
          append_message-RunKeeps settings (w.heap p) rest (w.heap p).attestation out w
            (λ b. h b w))
    ]

module _ (node : CosmosNode) (settings : NobleSettings) where
  gather-RunKeeps :
      (ps : List MessagePtr) (out : List ReceiveMessage) (w : World)
      → RunKeeps w (gather node settings ps out w)
  unfolding gather
  gather-RunKeeps [] out w = λ q. refl
  gather-RunKeeps (p ∷ ps) out w =
      gather_one-RunKeeps settings p (gather node settings ps) _ out (tick w) (gather-RunKeeps ps)

  mark_sent-KeepsPayload :
      (hash : Text) (ps : List MessagePtr) (w : World) → KeepsPayload w (mark_sent hash ps w)
  unfolding mark_sent
  mark_sent-KeepsPayload hash [] w = λ q. refl
  mark_sent-KeepsPayload hash (p ∷ ps) w =
      λ q. mark_sent-KeepsPayload hash ps _ q ∙ payload_at p q w _ refl

  extract-KeepsPayload :
      (log : Text) (w : World) → KeepsPayload w (extract_account_sequence node log w).1
  unfolding extract_account_sequence
  extract-KeepsPayload log w =
      elim (Option-cases (find_two_numbers (text "expected ") (text ", got ") log)) [
        | inl unnamed ↦ rw unnamed (λ q. refl)
        | inr (digits, named) ↦ rw named (λ q. refl)
      ]

  after_reply-RunKeeps :
      (ps : List MessagePtr) (r : Option TxReply) (w : World) → RunKeeps w (after_reply node ps r w)
  after_reply-RunKeeps ps none w = λ q. refl
  after_reply-RunKeeps ps (some reply) w = elim (Bool-cases (reply.code == 32)) [
    | inl mismatch ↦ rw mismatch (extract-KeepsPayload reply.log w)
    | inr other ↦ rw other (elim (Bool-cases (reply.code == 0)) [
      | inl ok ↦ rw ok (mark_sent-KeepsPayload reply.hash ps w)
      | inr bad ↦ rw bad (λ q. refl)
    ])
  ]

  send-RunKeeps :
      (ps : List MessagePtr) (t : Option (List ℕ)) (w : World) → RunKeeps w (send node ps t w)
  send-RunKeeps ps none w = λ q. refl
  send-RunKeeps ps (some bytes) w =
      after_reply-RunKeeps ps (node.broadcast_tx w.clock bytes) (tick w)

  after_gather-RunKeeps :
      (ps : List MessagePtr) (out : Option (List ReceiveMessage)) (w : World)
      → RunKeeps w (after_gather node settings ps out w)
  after_gather-RunKeeps ps none w = λ q. refl
  after_gather-RunKeeps ps (some []) w = λ q. refl
  after_gather-RunKeeps ps (some (m ∷ ms)) w = elim (Bool-cases (node.set_msgs (m ∷ ms))) [
    | inl accepted ↦ rw accepted (
        let taken = next 4 w.sequences in
        send-RunKeeps ps (node.sign settings taken.0 (m ∷ ms)) (record w { sequences = taken.1 }))
    | inr refused ↦ rw refused (λ q. refl)
  ]

  stop_or-RunKeeps :
      (ps : List MessagePtr) (n : ℕ)
      → ((w : World) → RunKeeps w (attempts node settings ps n w))
      → (ok : Bool) (w : World) → RunKeeps w (stop_or (attempts node settings ps n) ok w)
  stop_or-RunKeeps ps n h true w = λ q. refl
  stop_or-RunKeeps ps n h false w = h w

  attempts-RunKeeps :
      (ps : List MessagePtr) (n : ℕ) (w : World) → RunKeeps w (attempts node settings ps n w)
  unfolding attempts attempt_broadcast
  attempts-RunKeeps ps zero w = λ q. refl
  attempts-RunKeeps ps (suc n) w =
      bind-RunKeeps w (attempt_broadcast node settings ps w) _
        (bind-RunKeeps w (gather node settings ps [] w) _ (gather-RunKeeps ps [] w)
          (after_gather-RunKeeps ps))
        (stop_or-RunKeeps ps n (attempts-RunKeeps ps n))

  fail_one-KeepsPayload :
      (p : MessagePtr) (w : World)
      → KeepsPayload w (
          if not (status_eq (w.heap p).status complete)
          then set_message p (record (w.heap p) { status = failed }) w
          else w)
  fail_one-KeepsPayload p w = elim (Bool-cases (status_eq (w.heap p).status complete)) [
    | inl already ↦ rw already (λ q. refl)
    | inr waiting ↦ rw waiting (λ q. payload_at p q w _ refl)
  ]

  mark_failed-KeepsPayload : (ps : List MessagePtr) (w : World) → KeepsPayload w (mark_failed ps w)
  unfolding mark_failed
  mark_failed-KeepsPayload [] w = λ q. refl
  mark_failed-KeepsPayload (p ∷ ps) w =
      λ q. mark_failed-KeepsPayload ps _ q ∙ fail_one-KeepsPayload p w q

  -- Whatever the node answers: a broadcast to Noble keeps what makes up each message.
  pub noble_broadcast-RunKeeps :
      (msgs : List MessagePtr) (w : World) → RunKeeps w (broadcast node settings msgs w)
  unfolding broadcast
  noble_broadcast-RunKeeps msgs w =
      bind-RunKeeps w (attempts node settings msgs (pos_part settings.max_retries) w) _
        (attempts-RunKeeps msgs (pos_part settings.max_retries) w) concluded
    where
      concluded : (ok : Bool) (v : World) → RunKeeps v (conclude msgs ok v)
      concluded true v = λ q. refl
      concluded false v = mark_failed-KeepsPayload msgs v
