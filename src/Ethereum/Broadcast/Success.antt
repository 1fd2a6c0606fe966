-- ===== src/Ethereum/Broadcast/Success.antt =====
-- Broadcast of ethereum/broadcast.go: what it has done when it reports no error.
use noble_cctp_relayer.Base.{
  ℕ, List, [], ◌∷◌, Text, Bool, true, false, Option, some, none, if◌then◌else◌, ◌==◌, ◌≡◌, refl,
  inl, inr, All, ℤ, Bool-cases, ltb, text, text_eq, ◌&&◌, ◌%◌, number_of, first_number, as_int64,
}
use noble_cctp_relayer.Types.State.{MessagePtr}
use noble_cctp_relayer.Types.SequenceMap.{next}
use noble_cctp_relayer.Types.World.{World, done, setup_failed, tick}
use noble_cctp_relayer.Types.World.Payload.{RunKeeps}
use noble_cctp_relayer.Ethereum.Broadcast.{
  SendReply, sent, json_error, other_error, EvmNode, EthereumSettings, get_ethereum_account_nonce,
  after_send, attempt_broadcast, broadcast, too_low, after_check, count_of, is_three, nonce_or,
  used_nonce_key, minter,
}
use noble_cctp_relayer.Minting.{message_loop}
use noble_cctp_relayer.Minting.Success.{
  IsComplete, Outcome, Keeps, Outcome-bind, set-Outcome, same-Outcome, message_loop-completes,
  message_loop-RunKeeps,
}

nonce-Keeps : (node : EvmNode) (w : World) → Keeps w.heap (get_ethereum_account_nonce node w)
unfolding get_ethereum_account_nonce
nonce-Keeps node w = go (node.transaction_count w.clock)
  where
    go : (t : Option Text) → Keeps w.heap (count_of node t (tick w))
    go none = refl
    go (some []) = tt
    go (some (a ∷ [])) = tt
    go (some (a ∷ b ∷ digits)) = refl

too_low-Outcome :
    (node : EvmNode) (domain : ℕ) (message : Text) (t : Option Text) (p : MessagePtr) (w : World)
    → Outcome w.heap p (too_low node domain message t w)
too_low-Outcome node domain message none p w = same-Outcome w p
too_low-Outcome node domain message (some digits) p w =
    elim (Bool-cases (ltb (number_of (first_number message)) 0x8000_0000_0000_0000)) [
      | inl fits ↦ rw fits (same-Outcome w p)
      | inr large ↦ rw large (
          Outcome-bind w.heap p (get_ethereum_account_nonce node w) _ (nonce-Keeps node w)
            (λ x w'. same-Outcome w' p))
    ]

after_send-Outcome :
    (node : EvmNode) (settings : EthereumSettings) (p : MessagePtr) (r : SendReply) (w : World)
    → Outcome w.heap p (after_send node settings p r w)
unfolding after_send
after_send-Outcome node settings p (sent hash) w = set-Outcome w p _ refl refl
after_send-Outcome node settings p other_error w = same-Outcome w p
after_send-Outcome node settings p (json_error code message) w =
    elim (Bool-cases
      (is_three code && text_eq message (text "execution reverted: Nonce already used"))) [
        | inl used ↦ rw used (set-Outcome w p _ refl refl)
        | inr not_used ↦ rw not_used (too_low-Outcome node settings.domain message _ p w)
      ]

after_check-Outcome :
    (node : EvmNode) (settings : EthereumSettings) (p : MessagePtr) (bytes : List ℕ) (nonce : ℤ)
    (reply : Option ℕ) (w : World)
    → Outcome w.heap p (after_check node settings p bytes nonce reply w)
after_check-Outcome node settings p bytes nonce none w =
    after_send-Outcome node settings p _ (tick w)
after_check-Outcome node settings p bytes nonce (some response) w =
    elim (Bool-cases (response % 0x1_0000_0000_0000_0000 == 1)) [
      | inl used ↦ rw used (set-Outcome w p _ refl refl)
      | inr fresh ↦ rw fresh (after_send-Outcome node settings p _ (tick w))
    ]

attempt_broadcast-Outcome :
    (node : EvmNode) (settings : EthereumSettings) (p : MessagePtr) (bytes : List ℕ) (w : World)
    → Outcome w.heap p (attempt_broadcast node settings p bytes w)
unfolding attempt_broadcast
attempt_broadcast-Outcome node settings p bytes w =
    let taken = next settings.domain w.sequences in
    let w' : World = record w { sequences = taken.1 } in
    Outcome-bind w.heap p (get_ethereum_account_nonce node w') _ (nonce-Keeps node w') (λ x w''.
      after_check-Outcome node settings p bytes (nonce_or (as_int64 taken.0) x)
        (node.used_nonces w''.clock (node.keccak256 (used_nonce_key (w''.heap p)))) (tick w''))

-- A broadcast that reports no error leaves every message of the batch complete, and a message
-- that was complete before, of the batch or not, is complete still.
pub broadcast_success :
    (node : EvmNode) (settings : EthereumSettings) (msgs : List MessagePtr) (w w' : World)
    → broadcast node settings msgs w ≡ done none w'
    → All (IsComplete w'.heap) msgs
      × ((q : MessagePtr) → IsComplete w.heap q → IsComplete w'.heap q)
unfolding broadcast
broadcast_success node settings msgs w w' e = go (node.set_up w.clock) e
  where
    go :
        (up : Bool)
        → (if up
            then message_loop (minter node settings) msgs none (tick w)
            else done (some setup_failed) (tick w))
          ≡ done none w'
        → All (IsComplete w'.heap) msgs
          × ((q : MessagePtr) → IsComplete w.heap q → IsComplete w'.heap q)
    go false e' = absurd (cc)
    go true e' =
        message_loop-completes (minter node settings) (attempt_broadcast-Outcome node settings) msgs
          (tick w) w' e'

-- Whatever the node answers: a broadcast keeps what makes up each message.
pub broadcast-RunKeeps :
    (node : EvmNode) (settings : EthereumSettings) (msgs : List MessagePtr) (w : World)
    → RunKeeps w (broadcast node settings msgs w)
unfolding broadcast
broadcast-RunKeeps node settings msgs w = go (node.set_up w.clock)
  where
    go :
        (up : Bool)
        → RunKeeps w (
            if up
            then message_loop (minter node settings) msgs none (tick w)
            else done (some setup_failed) (tick w))
    go false = λ q. refl
    go true =
        message_loop-RunKeeps (minter node settings) (attempt_broadcast-Outcome node settings) msgs
          (tick w)
