-- ===== src/Noble/Broadcast.antt =====
-- noble/broadcast.go: the messages of a batch are minted on Noble in one transaction. The node
-- and the signing library are a parameter; a call counts on the clock of the world. The lines
-- of the log that read `msgs[0]` run only when there is a message.
pub mod Attempts
pub mod Settled
pub mod Faithful
pub mod Unchanged
use noble_cctp_relayer.Base.{
  ℕ, zero, suc, List, [], ◌∷◌, ◌++◌, Text, text, Bool, true, false, Option, some, none,
  if◌then◌else◌, ltb, ◌==◌, not, ℤ, pos_part, hex_decode, find_two_numbers, number_of,
}
use noble_cctp_relayer.Types.State.{MessageState, MessagePtr, status_eq, complete, failed}
use noble_cctp_relayer.Types.SequenceMap.{put, next}
use noble_cctp_relayer.Types.World.{
  World, Run, done, crash, ◌>>=◌, BroadcastError, retries_exhausted, setup_failed,
  inc_broadcast_errors, set_message, observe, tick,
}

-- MsgReceiveMessage.
pub record ReceiveMessage : Type 0 where
  pub from : Text
  pub message : List ℕ
  pub attestation : List ℕ

-- The reply of BroadcastTxSync.
pub record TxReply : Type 0 where
  pub code : ℕ
  pub log : Text
  pub hash : Text

-- The fields of Noble that Broadcast reads.
pub record NobleSettings : Type 0 where
  pub minter_address : Text
  pub chain_id : Text
  pub account_number : ℕ
  pub gas_limit : ℕ
  pub tx_memo : Text
  pub max_retries : ℤ

-- The node at a time, and the building and the signing of a transaction with a sequence.
pub record CosmosNode : Type 0 where
  pub account_info : ℕ → Option (ℕ × ℕ)
  pub query_used_nonce : ℕ → (source_domain nonce : ℕ) → Option Bool
  pub set_msgs : List ReceiveMessage → Bool
  pub sign : NobleSettings → (account_sequence : ℕ) → List ReceiveMessage → Option (List ℕ)
  pub broadcast_tx : ℕ → List ℕ → Option TxReply

abbrev pub domain : ℕ
domain = 4

abbrev set_account :
    NobleSettings → Option (ℕ × ℕ) → World → Option BroadcastError × NobleSettings × World
set_account settings none w = (some setup_failed, settings, w)
set_account settings (some (number, sequence)) w = (
  none,
  record settings { account_number = number },
  record w { sequences = put domain sequence w.sequences },
)

unfoldable pub initialize_broadcaster :
    CosmosNode → NobleSettings → World → Option BroadcastError × NobleSettings × World
initialize_broadcaster node settings w = set_account settings (node.account_info w.clock) (tick w)

-- ParseUint gives the largest uint64 when the number is larger.
abbrev saturated : ℕ → ℕ
saturated n = if ltb n 0x1_0000_0000_0000_0000 then n else 0xFFFF_FFFF_FFFF_FFFF

abbrev sequence_of : Option (ℕ × ℕ) → ℕ
sequence_of none = 0
sequence_of (some (number, sequence)) = sequence

abbrev named_or_asked : CosmosNode → Option Text → World → ℕ × World
named_or_asked node (some digits) w = (saturated (number_of digits), w)
named_or_asked node none w = (sequence_of (node.account_info w.clock), tick w)

unfoldable pub extract_account_sequence : CosmosNode → Text → World → ℕ × World
extract_account_sequence node log w =
    named_or_asked node (find_two_numbers (text "expected ") (text ", got ") log) w

abbrev pub Rest : Type 0
Rest = List ReceiveMessage → World → Run (Option (List ReceiveMessage))

-- msg.Attestation[2:] panics on a shorter text.
abbrev pub append_message :
    NobleSettings
    → MessageState
    → Rest
    → Text
    → List ReceiveMessage
    → World
    → Run (Option (List ReceiveMessage))
append_message settings m rest (a ∷ b ∷ digits) receive_msgs w = elim (hex_decode digits) [
  | none ↦ done none w
  | some bytes ↦
      rest
        (receive_msgs
          ++ (record {
            from = settings.minter_address;
            message = m.msg_sent_bytes;
            attestation = bytes;
          }
              ∷ []))
        w
]
append_message settings m rest _ receive_msgs w = crash

abbrev pub gather_one :
    NobleSettings
    → MessagePtr
    → Rest
    → Option Bool
    → List ReceiveMessage
    → World
    → Run (Option (List ReceiveMessage))
gather_one settings p rest none receive_msgs w = done none w
gather_one settings p rest (some true) receive_msgs w =
    rest receive_msgs (set_message p (record (w.heap p) { status = complete }) w)
gather_one settings p rest (some false) receive_msgs w =
    if status_eq (w.heap p).status complete
    then rest receive_msgs w
    else append_message settings (w.heap p) rest (w.heap p).attestation receive_msgs w

-- The first loop of attemptBroadcast; `none` is a return with an error.
unfoldable pub gather : CosmosNode → NobleSettings → List MessagePtr → Rest
gather node settings [] receive_msgs w = done (some receive_msgs) w
gather node settings (p ∷ ps) receive_msgs w =
    gather_one settings p (gather node settings ps)
      (node.query_used_nonce w.clock (w.heap p).source_domain (w.heap p).nonce) receive_msgs
      (tick w)

unfoldable pub mark_sent : Text → List MessagePtr → World → World
mark_sent hash [] w = w
mark_sent hash (p ∷ ps) w =
    mark_sent hash ps
      (set_message p (record (w.heap p) { dest_tx_hash = hash; status = complete }) w)

abbrev put_sequence : ℕ × World → World
put_sequence (sequence, w) = record w { sequences = put domain sequence w.sequences }

abbrev pub after_reply : CosmosNode → List MessagePtr → Option TxReply → World → Run Bool
after_reply node msgs none w = done false w
after_reply node msgs (some reply) w =
    if reply.code == 32
    then done false (put_sequence (extract_account_sequence node reply.log w))
    else if not (reply.code == 0)
    then done false w
    else done true (mark_sent reply.hash msgs w)

abbrev pub send : CosmosNode → List MessagePtr → Option (List ℕ) → World → Run Bool
send node msgs none w = done false w
send node msgs (some tx_bytes) w =
    after_reply node msgs (node.broadcast_tx w.clock tx_bytes) (tick w)

abbrev pub sign_and_send :
    CosmosNode → NobleSettings → List MessagePtr → List ReceiveMessage → World → Run Bool
sign_and_send node settings msgs receive_msgs w =
    let taken = next domain w.sequences in
    send node msgs (node.sign settings taken.0 receive_msgs) (record w { sequences = taken.1 })

abbrev pub after_gather :
    CosmosNode → NobleSettings → List MessagePtr → Option (List ReceiveMessage) → World → Run Bool
after_gather node settings msgs none w = done false w
after_gather node settings msgs (some []) w = done true w
after_gather node settings msgs (some (r ∷ rs)) w =
    if node.set_msgs (r ∷ rs) then sign_and_send node settings msgs (r ∷ rs) w else done false w

-- Whether attemptBroadcast returns without an error.
unfoldable pub attempt_broadcast : CosmosNode → NobleSettings → List MessagePtr → World → Run Bool
attempt_broadcast node settings msgs w =
    gather node settings msgs [] w >>= after_gather node settings msgs

abbrev pub stop_or : (World → Run Bool) → Bool → World → Run Bool
stop_or again true w = done true w
stop_or again false w = again w

unfoldable pub attempts : CosmosNode → NobleSettings → List MessagePtr → ℕ → World → Run Bool
attempts node settings msgs zero w = done false w
attempts node settings msgs (suc n) w =
    attempt_broadcast node settings msgs w >>= stop_or (attempts node settings msgs n)

unfoldable pub mark_failed : List MessagePtr → World → World
mark_failed [] w = w
mark_failed (p ∷ ps) w = mark_failed ps (
    if not (status_eq (w.heap p).status complete)
    then set_message p (record (w.heap p) { status = failed }) w
    else w)

abbrev pub conclude : List MessagePtr → Bool → World → Run (Option BroadcastError)
conclude msgs true w = done none w
conclude msgs false w =
    done (some retries_exhausted)
      (observe (inc_broadcast_errors (text "Noble") domain) (mark_failed msgs w))

unfoldable pub broadcast :
    CosmosNode → NobleSettings → List MessagePtr → World → Run (Option BroadcastError)
broadcast node settings msgs w =
    attempts node settings msgs (pos_part settings.max_retries) w >>= conclude msgs
