-- ===== src/Noble/Broadcast/Attempts.antt =====
-- attemptBroadcast of noble/broadcast.go: the statuses of the batch after it.
use noble_cctp_relayer.Base.{
  ℕ, zero, suc, List, [], ◌∷◌, ◌++◌, Text, Bool, true, false, Option, some, none, ◌==◌, ◌≡◌, refl,
  inl, inr, arith, All, Bool-cases, hex_decode,
}
use noble_cctp_relayer.Types.State.{MessageState, MessagePtr, status_eq, complete}
use noble_cctp_relayer.Types.State.Equality.{status_eq_iff}
use noble_cctp_relayer.Types.SequenceMap.{next}
use noble_cctp_relayer.Types.World.{World, Run, done, crash, ◌>>=◌, set_message, update, tick}
use noble_cctp_relayer.Noble.Broadcast.{
  ReceiveMessage, TxReply, NobleSettings, CosmosNode, Rest, append_message, gather_one, gather,
  mark_sent, after_reply, send, after_gather, attempt_broadcast, stop_or, attempts,
}

abbrev pub Heap : Type 0
Heap = MessagePtr → MessageState

abbrev pub IsComplete : Heap → MessagePtr → Type 0
IsComplete heap p = (heap p).status ≡ complete

-- The end of the first loop: without a message to send, all are complete.
abbrev Gathered :
    Heap → List MessagePtr → List ReceiveMessage → Run (Option (List ReceiveMessage)) → Type 0
Gathered heap ps before crash = Unit {0}
Gathered heap ps before (done none w') = Unit {0}
Gathered heap ps before (done (some out) w') =
    ((q : MessagePtr) → IsComplete heap q → IsComplete w'.heap q)
    × (out ≡ [] → (before ≡ []) × All (IsComplete w'.heap) ps)

set_complete :
    (w : World) (p q : MessagePtr) (m : MessageState)
    → m.status ≡ complete
    → IsComplete w.heap q
    → IsComplete (set_message p m w).heap q
set_complete w p q m e h = ground arith

set_here :
    (w : World) (p : MessagePtr) (m : MessageState)
    → m.status ≡ complete
    → IsComplete (set_message p m w).heap p
set_here w p m e = ground arith

done_one :
    (heap heap' : Heap) (p : MessagePtr) (ps : List MessagePtr) (before : List ReceiveMessage)
    (r : Run (Option (List ReceiveMessage)))
    → ((q : MessagePtr) → IsComplete heap q → IsComplete heap' q)
    → IsComplete heap' p
    → Gathered heap' ps before r
    → Gathered heap (p ∷ ps) before r
done_one heap heap' p ps before crash h c k = tt
done_one heap heap' p ps before (done none w') h c k = tt
done_one heap heap' p ps before (done (some out) w') h c k =
    (λ q x. k.0 q (h q x), λ e. ((k.1 e).0, (k.0 p c, (k.1 e).1)))

append_one :
    (heap : Heap) (p : MessagePtr) (ps : List MessagePtr) (before : List ReceiveMessage)
    (m : ReceiveMessage) (r : Run (Option (List ReceiveMessage)))
    → Gathered heap ps (before ++ (m ∷ [])) r
    → Gathered heap (p ∷ ps) before r
append_one heap p ps before m crash k = tt
append_one heap p ps before m (done none w') k = tt
append_one heap p ps before m (done (some out) w') k =
    (k.0, λ e. absurd (append-cons before m (k.1 e).0))
  where
    append-cons : (xs : List ReceiveMessage) (x : ReceiveMessage) → ¬ (xs ++ (x ∷ []) ≡ [])
    append-cons [] x e = cc
    append-cons (y ∷ ys) x e = cc

append_message-Gathered :
    (settings : NobleSettings) (m : MessageState) (p : MessagePtr) (ps : List MessagePtr)
    (rest : Rest) (attestation : Text) (before : List ReceiveMessage) (w : World)
    → ((b : List ReceiveMessage) (w' : World) → Gathered w'.heap ps b (rest b w'))
    → Gathered w.heap (p ∷ ps) before (append_message settings m rest attestation before w)
append_message-Gathered settings m p ps rest [] before w h = tt
append_message-Gathered settings m p ps rest (a ∷ []) before w h = tt
append_message-Gathered settings m p ps rest (a ∷ b ∷ digits) before w h = go (hex_decode digits)
  where
    go :
        (t : Option (List ℕ))
        → Gathered w.heap (p ∷ ps) before (elim t [
          | none ↦ done none w
          | some bytes ↦
              rest
                (before
                  ++ (record {
                    from = settings.minter_address;
                    message = m.msg_sent_bytes;
                    attestation = bytes;
                  }
                      ∷ []))
                w
        ])
    go none = tt
    go (some bytes) =
        let out : ReceiveMessage = record {
          from = settings.minter_address;
          message = m.msg_sent_bytes;
          attestation = bytes;
        } in
        append_one w.heap p ps before out (rest (before ++ (out ∷ [])) w)
          (h (before ++ (out ∷ [])) w)

gather-Gathered :
    (node : CosmosNode) (settings : NobleSettings) (ps : List MessagePtr)
    (before : List ReceiveMessage) (w : World)
    → Gathered w.heap ps before (gather node settings ps before w)
unfolding gather
gather-Gathered node settings [] before w = (λ q h. h, λ e. (e, tt))
gather-Gathered node settings (p ∷ ps) before w =
    go (node.query_used_nonce w.clock (w.heap p).source_domain (w.heap p).nonce)
      (gather-Gathered node settings ps)
  where
    go :
        (used : Option Bool)
        → ((b : List ReceiveMessage) (w' : World)
            → Gathered w'.heap ps b (gather node settings ps b w'))
        → Gathered w.heap
            (p ∷ ps)
            before
            (gather_one settings p (gather node settings ps) used before (tick w))
    go none h = tt
    go (some true) h =
        let m : MessageState = record (w.heap p) { status = complete } in
        done_one w.heap (update w.heap p m) p ps before
          (gather node settings ps before (set_message p m (tick w)))
          (λ q c. set_complete (tick w) p q m refl c) (set_here (tick w) p m refl)
          (h before (set_message p m (tick w)))
    go (some false) h = elim (Bool-cases (status_eq (w.heap p).status complete)) [
      | inl already ↦ rw already (
          done_one w.heap w.heap p ps before (gather node settings ps before (tick w)) (λ q c. c)
            ((status_eq_iff _ _).0 already) (h before (tick w)))
      | inr waiting ↦ rw waiting (
          append_message-Gathered settings (w.heap p) p ps (gather node settings ps)
            (w.heap p).attestation before (tick w) h)
    ]

mark_sent_keeps :
    (hash : Text) (ps : List MessagePtr) (w : World) (q : MessagePtr)
    → IsComplete w.heap q
    → IsComplete (mark_sent hash ps w).heap q
unfolding mark_sent
mark_sent_keeps hash [] w q h = h
mark_sent_keeps hash (p ∷ ps) w q h = mark_sent_keeps hash ps _ q (set_complete w p q _ refl h)

mark_sent-IsComplete :
    (hash : Text) (ps : List MessagePtr) (w : World)
    → All (IsComplete (mark_sent hash ps w).heap) ps
unfolding mark_sent
mark_sent-IsComplete hash [] w = tt
mark_sent-IsComplete hash (p ∷ ps) w =
    let w' = set_message p (record (w.heap p) { dest_tx_hash = hash; status = complete }) w in
    (mark_sent_keeps hash ps w' p (set_here w p _ refl), mark_sent-IsComplete hash ps w')

-- An attempt without an error has completed the batch.
abbrev pub Attempted : List MessagePtr → Run Bool → Type 0
Attempted ps crash = Unit {0}
Attempted ps (done false w) = Unit {0}
Attempted ps (done true w) = All (IsComplete w.heap) ps

after_reply-Attempted :
    (node : CosmosNode) (ps : List MessagePtr) (r : Option TxReply) (w : World)
    → Attempted ps (after_reply node ps r w)
after_reply-Attempted node ps none w = tt
after_reply-Attempted node ps (some reply) w = elim (Bool-cases (reply.code == 32)) [
  | inl mismatch ↦ rw mismatch tt
  | inr other ↦ rw other (elim (Bool-cases (reply.code == 0)) [
    | inl ok ↦ rw ok (mark_sent-IsComplete reply.hash ps w)
    | inr bad ↦ rw bad tt
  ])
]

send-Attempted :
    (node : CosmosNode) (ps : List MessagePtr) (t : Option (List ℕ)) (w : World)
    → Attempted ps (send node ps t w)
send-Attempted node ps none w = tt
send-Attempted node ps (some bytes) w =
    after_reply-Attempted node ps (node.broadcast_tx w.clock bytes) (tick w)

after_gather-Attempted :
    (node : CosmosNode) (settings : NobleSettings) (ps : List MessagePtr) (heap : Heap)
    (r : Run (Option (List ReceiveMessage)))
    → Gathered heap ps [] r
    → Attempted ps (r >>= after_gather node settings ps)
after_gather-Attempted node settings ps heap crash h = tt
after_gather-Attempted node settings ps heap (done none w) h = tt
after_gather-Attempted node settings ps heap (done (some []) w) h = (h.1 refl).1
after_gather-Attempted node settings ps heap (done (some (m ∷ ms)) w) h =
    elim (Bool-cases (node.set_msgs (m ∷ ms))) [
      | inl accepted ↦ rw accepted (
          let taken = next 4 w.sequences in
          send-Attempted node ps (node.sign settings taken.0 (m ∷ ms))
            (record w { sequences = taken.1 }))
      | inr refused ↦ rw refused tt
    ]

pub attempts-Attempted :
    (node : CosmosNode) (settings : NobleSettings) (ps : List MessagePtr) (n : ℕ) (w : World)
    → Attempted ps (attempts node settings ps n w)
unfolding attempts attempt_broadcast
attempts-Attempted node settings ps zero w = tt
attempts-Attempted node settings ps (suc n) w =
    go (attempt_broadcast node settings ps w)
      (after_gather-Attempted node settings ps w.heap (gather node settings ps [] w)
        (gather-Gathered node settings ps [] w))
      (attempts-Attempted node settings ps n)
  where
    go :
        (r : Run Bool)
        → Attempted ps r
        → ((w' : World) → Attempted ps (attempts node settings ps n w'))
        → Attempted ps (r >>= stop_or (attempts node settings ps n))
    go crash h f = tt
    go (done true w') h f = h
    go (done false w') h f = f w'
