-- ===== src/Solana/Broadcast/Success.antt =====
-- Broadcast of solana/broadcast.go: what it has done when it reports no error, and what an attempt
-- on a well-behaved node does.
use noble_cctp_relayer.Base.{
  ℕ, List, Text, Bool, true, false, Option, some, none, Result, ok, err, panic, ◌≡◌, refl, All,
}
use noble_cctp_relayer.Types.State.{MessagePtr}
use noble_cctp_relayer.Types.World.{World, done, tick}
use noble_cctp_relayer.Types.World.Payload.{RunKeeps}
use noble_cctp_relayer.Solana.Accounts.{CctpAccounts, AccountsError, derive_cctp_accounts}
use noble_cctp_relayer.Solana.Instruction.{Instruction, InstructionError}
use noble_cctp_relayer.Solana.Broadcast.{
  SolanaNode, SolanaSettings, after_sending, send_signed, sign_and_send, with_blockhash,
  with_instruction, with_valid_account, with_accounts, validate_user_token_account,
  attempt_broadcast, minter, broadcast,
}
use noble_cctp_relayer.Minting.Success.{
  IsComplete, Outcome, Outcome-bind, set-Outcome, same-Outcome, message_loop-completes,
  message_loop-RunKeeps,
}

after_sending-Outcome :
    (p : MessagePtr) (sig : Option Text) (w : World) → Outcome w.heap p (after_sending p sig w)
after_sending-Outcome p none w = same-Outcome w p
after_sending-Outcome p (some sig) w = set-Outcome w p _ refl refl

module _ (node : SolanaNode) (settings : SolanaSettings) (p : MessagePtr) where
  send_signed-Outcome :
      (tx : Option (List ℕ)) (w : World) → Outcome w.heap p (send_signed node p tx w)
  send_signed-Outcome none w = same-Outcome w p
  send_signed-Outcome (some tx) w = after_sending-Outcome p _ (tick w)

  sign_and_send-Outcome :
      (tx : Option (List ℕ)) (w : World) → Outcome w.heap p (sign_and_send node settings p tx w)
  sign_and_send-Outcome none w = same-Outcome w p
  sign_and_send-Outcome (some tx) w = send_signed-Outcome (node.sign tx settings.minter_address) w

  with_blockhash-Outcome :
      (instruction : Instruction) (recent : Option (List ℕ)) (w : World)
      → Outcome w.heap p (with_blockhash node settings p instruction recent w)
  with_blockhash-Outcome instruction none w = same-Outcome w p
  with_blockhash-Outcome instruction (some recent) w =
      sign_and_send-Outcome (node.new_transaction instruction recent settings.minter_address) w

  with_instruction-Outcome :
      (r : Result InstructionError Instruction) (w : World)
      → Outcome w.heap p (with_instruction node settings p r w)
  with_instruction-Outcome (ok instruction) w = with_blockhash-Outcome instruction _ (tick w)
  with_instruction-Outcome (err e) w = same-Outcome w p
  with_instruction-Outcome panic w = tt

  with_accounts-Outcome :
      (attestation : List ℕ) (r : Result AccountsError CctpAccounts) (w : World)
      → Outcome w.heap p (with_accounts node settings p attestation r w)
  unfolding validate_user_token_account
  with_accounts-Outcome attestation (ok accounts) w =
      Outcome-bind w.heap p (validate_user_token_account node accounts.user_token_account w) _ refl
        valid
    where
      valid :
          (there : Bool) (w' : World)
          → Outcome w'.heap p (with_valid_account node settings p attestation accounts there w')
      valid false w' = same-Outcome w' p
      valid true w' = with_instruction-Outcome _ w'
  with_accounts-Outcome attestation (err e) w = same-Outcome w p
  with_accounts-Outcome attestation panic w = tt

attempt_broadcast-Outcome :
    (node : SolanaNode) (settings : SolanaSettings) (p : MessagePtr) (attestation : List ℕ)
    (w : World)
    → Outcome w.heap p (attempt_broadcast node settings p attestation w)
unfolding attempt_broadcast
attempt_broadcast-Outcome node settings p attestation w =
    with_accounts-Outcome node settings p attestation
      (derive_cctp_accounts settings.programs (w.heap p).msg_sent_bytes) w

-- A broadcast to Solana that reports no error leaves every message of the batch complete, and a
-- message that was complete before, of the batch or not, is complete still.
pub solana_broadcast_success :
    (node : SolanaNode) (settings : SolanaSettings) (msgs : List MessagePtr) (w w' : World)
    → broadcast node settings msgs w ≡ done none w'
    → All (IsComplete w'.heap) msgs
      × ((q : MessagePtr) → IsComplete w.heap q → IsComplete w'.heap q)
unfolding broadcast
solana_broadcast_success node settings msgs w w' e =
    message_loop-completes (minter node settings) (attempt_broadcast-Outcome node settings) msgs w
      w' e

-- Whatever the node answers: a broadcast to Solana keeps what makes up each message.
pub solana_broadcast-RunKeeps :
    (node : SolanaNode) (settings : SolanaSettings) (msgs : List MessagePtr) (w : World)
    → RunKeeps w (broadcast node settings msgs w)
unfolding broadcast
solana_broadcast-RunKeeps node settings msgs w =
    message_loop-RunKeeps (minter node settings) (attempt_broadcast-Outcome node settings) msgs w
