-- ===== src/Types/State/Equality.antt =====
-- What Equal of types/message_state.go compares, and the laws of the StateMap.
use noble_cctp_relayer.Base.{
  Text, ◌≡◌, ◌↔◌, true, arith, none, some, if◌then◌else◌, text_eq, text_eq_iff, lookup-insert,
  lookup-erase, text_key,
}
use noble_cctp_relayer.Types.State.{
  Status, status_eq, MessageState, equal, StateMap, TxPtr, load, store, delete,
}

pub status_eq_iff : (a b : Status) → (status_eq a b ≡ true) ↔ (a ≡ b)
unfolding status_eq
status_eq_iff a b = ground arith

-- Equal holds exactly when the two states agree in every field but the message body, the nonce
-- and the time of the last re-attestation, which it does not look at.
pub equal_iff :
    (m other : MessageState)
    → (equal m other ≡ true) ↔ (
        record m {
          msg_body = other.msg_body;
          nonce = other.nonce;
          last_reattest_time = other.last_reattest_time;
        }
        ≡ other)
unfolding equal
equal_iff m other = ground (
  arith,
  text_eq_iff m.iris_lookup_id other.iris_lookup_id,
  status_eq_iff m.status other.status,
  text_eq_iff m.attestation other.attestation,
  text_eq_iff m.source_tx_hash other.source_tx_hash,
  text_eq_iff m.dest_tx_hash other.dest_tx_hash,
  text_eq_iff m.msg_sent_bytes other.msg_sent_bytes,
  text_eq_iff m.destination_caller other.destination_caller,
  text_eq_iff m.channel other.channel,
  text_eq_iff m.cctp_version other.cctp_version,
)

-- Store and Delete act on their own key only.
pub load-store :
    (k j : Text) (v : TxPtr) (m : StateMap)
    → load j (store k v m) ≡ (if text_eq k j then some v else load j m)
unfolding load store
load-store k j v m = lookup-insert k j v m

pub load-delete :
    (k j : Text) (m : StateMap) → load j (delete k m) ≡ (if text_eq k j then none else load j m)
unfolding load delete
load-delete k j m = lookup-erase k j m
