-- ===== src/Ethereum/Broadcast.antt =====
-- ethereum/broadcast.go: the minting of messages on an EVM chain, and GetEthereumAccountNonce of
-- ethereum/util.go. The network is a parameter; a call counts on the clock of the world.
pub mod Success
use noble_cctp_relayer.Base.{
  ℕ, zero, suc, List, [], ◌∷◌, ◌++◌, Text, text, Bool, true, false, Option, some, none,
  if◌then◌else◌, ltb, text_eq, ◌==◌, ◌&&◌, ◌%◌, ℤ, pos, as_int64, as_uint64, absolute,
  rounds_from_zero, be_bytes, hex_decode, find_two_numbers, first_number, number_of,
}
use noble_cctp_relayer.Types.State.{MessageState, MessagePtr, status_eq, complete}
use noble_cctp_relayer.Types.SequenceMap.{put, next}
use noble_cctp_relayer.Minting.{Minter, message_loop}
use noble_cctp_relayer.Types.World.{
  World, Run, done, crash, ◌>>=◌, BroadcastError, undecodable_attestation, retries_exhausted,
  setup_failed, inc_broadcast_errors, set_message, observe, tick,
}

-- The reply of ReceiveMessage: the hash of the transaction, or an error, which may be a JSONError.
pub data SendReply : Type 0 where
  sent : Text → SendReply
  json_error : (code : ℤ) → Text → SendReply
  other_error : SendReply

-- go-ethereum and the node, at a time.
pub record EvmNode : Type 0 where
  pub set_up : ℕ → Bool  -- the transactor and the contract binding are there
  pub transaction_count : ℕ → Option Text  -- eth_getTransactionCount, `none` is an error
  pub parse_base16 : Text → ℕ  -- big.Int.SetString(…, 16)
  pub used_nonces : ℕ → List ℕ → Option ℕ
  pub keccak256 : List ℕ → List ℕ
  pub receive_message : ℕ → ℤ → List ℕ → List ℕ → SendReply

-- The fields of Ethereum that Broadcast reads.
pub record EthereumSettings : Type 0 where
  pub name : Text
  pub domain : ℕ
  pub max_retries : ℤ

abbrev pub count_of : EvmNode → Option Text → World → Run (Option ℤ)
count_of node none w = done none w
count_of node (some (a ∷ b ∷ digits)) w = done (some (as_int64 (node.parse_base16 digits))) w
count_of node (some _) w = crash

unfoldable pub get_ethereum_account_nonce : EvmNode → World → Run (Option ℤ)
get_ethereum_account_nonce node w = count_of node (node.transaction_count w.clock) (tick w)

abbrev pub put_nonce : ℕ → Option ℤ → World → Run (Option BroadcastError)
put_nonce domain none w = done (some setup_failed) w
put_nonce domain (some nonce) w =
    done none (record w { sequences = put domain (as_uint64 nonce) w.sequences })

unfoldable pub initialize_broadcaster :
    EvmNode → EthereumSettings → World → Run (Option BroadcastError)
initialize_broadcaster node settings w =
    get_ethereum_account_nonce node w >>= put_nonce settings.domain

unfoldable pub used_nonce_key : MessageState → List ℕ
used_nonce_key m = be_bytes 4 m.source_domain ++ be_bytes 8 (absolute (as_int64 m.nonce))

abbrev pub or_zero : Option ℤ → ℤ
or_zero none = pos 0
or_zero (some x) = x

abbrev pub put_next : ℕ → ℤ → World → Run Bool
put_next domain nonce w =
    done false (record w { sequences = put domain (as_uint64 nonce) w.sequences })

-- The nonce named first in the text of the error; one that is no int64 is asked for instead.
abbrev pub correct_nonce : EvmNode → ℕ → Text → World → Run Bool
correct_nonce node domain message w =
    if ltb (number_of (first_number message)) 0x8000_0000_0000_0000
    then put_next domain (pos (number_of (first_number message))) w
    else (get_ethereum_account_nonce node w >>= (λ nonce w'. put_next domain (or_zero nonce) w'))

abbrev pub too_low : EvmNode → ℕ → Text → Option Text → World → Run Bool
too_low node domain message none w = done false w
too_low node domain message (some digits) w = correct_nonce node domain message w

abbrev pub is_three : ℤ → Bool
is_three (pos n) = n == 3
is_three _ = false

-- What follows the reply; the result says whether attemptBroadcast returns without an error.
unfoldable pub after_send : EvmNode → EthereumSettings → MessagePtr → SendReply → World → Run Bool
unfolding get_ethereum_account_nonce
after_send node settings p (sent hash) w =
    done true (set_message p (record (w.heap p) { status = complete; dest_tx_hash = hash }) w)
after_send node settings p other_error w = done false w
after_send node settings p (json_error code message) w =
    if is_three code && text_eq message (text "execution reverted: Nonce already used")
    then done true (set_message p (record (w.heap p) { status = complete }) w)
    else too_low node settings.domain message
        (find_two_numbers (text "nonce too low: next nonce ") (text ", tx nonce ") message) w

abbrev pub send : EvmNode → EthereumSettings → MessagePtr → List ℕ → ℤ → World → Run Bool
send node settings p attestation nonce w =
    after_send node settings p
      (node.receive_message w.clock nonce (w.heap p).msg_sent_bytes attestation) (tick w)

abbrev pub after_check :
    EvmNode → EthereumSettings → MessagePtr → List ℕ → ℤ → Option ℕ → World → Run Bool
after_check node settings p attestation nonce none w = send node settings p attestation nonce w
after_check node settings p attestation nonce (some response) w =
    if response % 0x1_0000_0000_0000_0000 == 1
    then done true (set_message p (record (w.heap p) { status = complete }) w)
    else send node settings p attestation nonce w

abbrev pub nonce_or : ℤ → Option ℤ → ℤ
nonce_or nonce none = nonce
nonce_or nonce (some x) = x

-- Whether attemptBroadcast returns without an error.
unfoldable pub attempt_broadcast :
    EvmNode → EthereumSettings → MessagePtr → List ℕ → World → Run Bool
unfolding after_send
attempt_broadcast node settings p attestation w =
    let taken = next settings.domain w.sequences in
    get_ethereum_account_nonce node (record w { sequences = taken.1 }) >>= (λ counted w'.
      after_check node settings p attestation (nonce_or (as_int64 taken.0) counted)
        (node.used_nonces w'.clock (node.keccak256 (used_nonce_key (w'.heap p)))) (tick w'))

-- The loops over the messages and the attempts are those of Minting.
abbrev pub minter : EvmNode → EthereumSettings → Minter
minter node settings = record {
  name = settings.name;
  domain = settings.domain;
  max_retries = settings.max_retries;
  attempt = attempt_broadcast node settings;
}

unfoldable pub broadcast :
    EvmNode → EthereumSettings → List MessagePtr → World → Run (Option BroadcastError)
broadcast node settings msgs w =
    if node.set_up w.clock
    then message_loop (minter node settings) msgs none (tick w)
    else done (some setup_failed) (tick w)
