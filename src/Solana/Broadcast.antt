-- ===== src/Solana/Broadcast.antt =====
-- The rest of solana/broadcast.go, and InitializeBroadcaster of solana/chain.go: the minting of
-- messages on Solana. The node and solana-go are a parameter; a call counts on the clock of the
-- world.
pub mod Success
use noble_cctp_relayer.Base.{
  ℕ, List, Text, Bool, true, false, Option, some, none, Result, ok, err, panic, ℤ,
}
use noble_cctp_relayer.Types.State.{MessagePtr, complete}
use noble_cctp_relayer.Types.SequenceMap.{put}
use noble_cctp_relayer.Types.World.{
  World, Run, done, crash, ◌>>=◌, BroadcastError, set_message, tick,
}
use noble_cctp_relayer.Minting.{Minter, message_loop}
use noble_cctp_relayer.Solana.Address.{PublicKey}
use noble_cctp_relayer.Solana.Accounts.{CctpAccounts, Programs, AccountsError, derive_cctp_accounts}
use noble_cctp_relayer.Solana.Instruction.{
  Instruction, InstructionError, build_receive_message_instruction,
}

-- The node at a time: whether an account is there (an error of the call is `none`), the latest
-- hash, the creation and the signing of a transaction, and the sending of it, with the signature.
pub record SolanaNode : Type 0 where
  pub account_exists : ℕ → PublicKey → Option Bool
  pub latest_blockhash : ℕ → Option (List ℕ)
  pub new_transaction : Instruction → (blockhash : List ℕ) → (payer : PublicKey) → Option (List ℕ)
  pub sign : List ℕ → (signer : PublicKey) → Option (List ℕ)
  pub send_transaction : ℕ → List ℕ → Option Text

-- The fields of Solana that Broadcast reads.
pub record SolanaSettings : Type 0 where
  pub name : Text
  pub domain : ℕ
  pub max_retries : ℤ
  pub minter_address : PublicKey
  pub programs : Programs

unfoldable pub initialize_broadcaster : SolanaSettings → World → Option BroadcastError × World
initialize_broadcaster settings w =
    (none, record w { sequences = put settings.domain 0 w.sequences })

abbrev pub is_there : Option Bool → Bool
is_there none = false
is_there (some found) = found

unfoldable pub validate_user_token_account : SolanaNode → PublicKey → World → Run Bool
validate_user_token_account node user_token_account w =
    done (is_there (node.account_exists w.clock user_token_account)) (tick w)

-- msg.Status = types.Complete; msg.DestTxHash = sig.String()
abbrev pub after_sending : MessagePtr → Option Text → World → Run Bool
after_sending p none w = done false w
after_sending p (some sig) w =
    done true (set_message p (record (w.heap p) { status = complete; dest_tx_hash = sig }) w)

abbrev pub send_signed : SolanaNode → MessagePtr → Option (List ℕ) → World → Run Bool
send_signed node p none w = done false w
send_signed node p (some tx) w = after_sending p (node.send_transaction w.clock tx) (tick w)

abbrev pub sign_and_send :
    SolanaNode → SolanaSettings → MessagePtr → Option (List ℕ) → World → Run Bool
sign_and_send node settings p none w = done false w
sign_and_send node settings p (some tx) w =
    send_signed node p (node.sign tx settings.minter_address) w

abbrev pub with_blockhash :
    SolanaNode → SolanaSettings → MessagePtr → Instruction → Option (List ℕ) → World → Run Bool
with_blockhash node settings p instruction none w = done false w
with_blockhash node settings p instruction (some recent) w =
    sign_and_send node settings p (node.new_transaction instruction recent settings.minter_address)
      w

abbrev pub with_instruction :
    SolanaNode
    → SolanaSettings
    → MessagePtr
    → Result InstructionError Instruction
    → World
    → Run Bool
with_instruction node settings p (ok instruction) w =
    with_blockhash node settings p instruction (node.latest_blockhash w.clock) (tick w)
with_instruction node settings p (err e) w = done false w
with_instruction node settings p panic w = crash

abbrev pub with_valid_account :
    SolanaNode → SolanaSettings → MessagePtr → List ℕ → CctpAccounts → Bool → World → Run Bool
with_valid_account node settings p attestation accounts false w = done false w
with_valid_account node settings p attestation accounts true w =
    with_instruction node settings p
      (build_receive_message_instruction settings.programs.message_transmitter_program
        settings.minter_address (w.heap p).msg_sent_bytes attestation accounts)
      w

abbrev pub with_accounts :
    SolanaNode
    → SolanaSettings
    → MessagePtr
    → List ℕ
    → Result AccountsError CctpAccounts
    → World
    → Run Bool
with_accounts node settings p attestation (ok accounts) w =
    validate_user_token_account node accounts.user_token_account w
    >>= with_valid_account node settings p attestation accounts
with_accounts node settings p attestation (err e) w = done false w
with_accounts node settings p attestation panic w = crash

-- Whether attemptBroadcast returns without an error.
unfoldable pub attempt_broadcast :
    SolanaNode → SolanaSettings → MessagePtr → List ℕ → World → Run Bool
unfolding validate_user_token_account
attempt_broadcast node settings p attestation w =
    with_accounts node settings p attestation
      (derive_cctp_accounts settings.programs (w.heap p).msg_sent_bytes) w

-- The loops over the messages and the attempts are those of Minting.
abbrev pub minter : SolanaNode → SolanaSettings → Minter
minter node settings = record {
  name = settings.name;
  domain = settings.domain;
  max_retries = settings.max_retries;
  attempt = attempt_broadcast node settings;
}

unfoldable pub broadcast :
    SolanaNode → SolanaSettings → List MessagePtr → World → Run (Option BroadcastError)
broadcast node settings msgs w = message_loop (minter node settings) msgs none w
