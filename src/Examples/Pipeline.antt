-- ===== src/Examples/Pipeline.antt =====
-- Examples for the processing pipeline.
use noble_cctp_relayer.Base.{
  ℕ, zero, suc, ◌-◌, ◌<◌, List, [], ◌∷◌, Text, text, Bool, true, false, ok, err, ◌≡◌, ◌≢◌, ◌⊎◌, inl,
  inr, refl, arith, Option, some, none, All, Any, Map, ◌↔◌, pos,
}
use noble_cctp_relayer.Types.State.{MessageState, MessagePtr, TxState, complete, Status, attested}
use noble_cctp_relayer.Cmd.Process.{Turn, verdict, message_step, message_loop}
use noble_cctp_relayer.Cmd.Process.Moves.{may_move}
use noble_cctp_relayer.Cmd.Process.Transitions.{message_step-Move}
use noble_cctp_relayer.Cmd.Process.Stuck.{settled_at, message_loop-settled}
use noble_cctp_relayer.Cmd.Process.Gauge.{Balanced, pending_at, lost_by, message_step-Balanced}
use noble_cctp_relayer.Cmd.Worker.{Node, process_turns}
use noble_cctp_relayer.Cmd.Worker.Drained.{Ends, process_turns-drained}
use noble_cctp_relayer.Examples.Samples.{transfer, attested_transfer, world_of, env, turn_of}

-- The turn after the attestation of a transfer has arrived.
abbrev after_one : Option Turn → Turn
after_one none = turn_of transfer
after_one (some t) = t

stepped :
    message_step env 1 (turn_of transfer) ≡ some (after_one (message_step env 1 (turn_of transfer)))
unfolding message_step verdict
stepped = refl

message_step-Move_example :
    (may_move
        ((turn_of transfer).world.heap 1).status
        ((after_one (message_step env 1 (turn_of transfer))).world.heap 1).status
      ≡ true)
    × ((q : MessagePtr)
        → 1 ≢ q
        → (after_one (message_step env 1 (turn_of transfer))).world.heap q
          ≡ (turn_of transfer).world.heap q)
message_step-Move_example =
    message_step-Move env 1 (turn_of transfer) (after_one (message_step env 1 (turn_of transfer)))
      stepped

message_step-Balanced_example :
    Balanced
      (λ s d.
        lost_by (verdict env (world_of transfer) 1) (pending_at s d ((world_of transfer).heap 1)))
      1
      (world_of transfer)
      []
      (after_one (message_step env 1 (turn_of transfer))).world
message_step-Balanced_example =
    message_step-Balanced env 1 (turn_of transfer)
      (after_one (message_step env 1 (turn_of transfer))) [] stepped refl

abbrev waiting : Turn
waiting = turn_of (record attested_transfer { expiration_block = 0 })

looped : message_loop env (1 ∷ 2 ∷ []) waiting ≡ some waiting
unfolding message_loop verdict message_step noble_cctp_relayer.Cmd.Process.attestation_step
    noble_cctp_relayer.Types.State.status_eq noble_cctp_relayer.Cmd.Process.expiry_step
    noble_cctp_relayer.Types.Settings.get_api_version
    noble_cctp_relayer.Types.Settings.parse_api_version noble_cctp_relayer.Base.text_eq
    noble_cctp_relayer.Base.to_lower noble_cctp_relayer.Base.trim_space
looped = refl

message_loop-settled_example :
    (waiting.batches ≡ [])
    × ((q : MessagePtr) → settled_at waiting.world q ≡ true → settled_at waiting.world q ≡ true)
message_loop-settled_example =
    message_loop-settled env (1 ∷ 2 ∷ []) waiting waiting refl (refl, (refl, tt)) looped

abbrev tx : TxState
tx = record { tx_hash = text "0xfeed"; msgs = 1 ∷ []; retry_attempt = 0 }

abbrev node : Node
node = record { txs = λ p. tx; state = []; queue = 7 ∷ []; world = world_of transfer }

process_turns-drained_example : Ends (process_turns 3 env node)
unfolding noble_cctp_relayer.Types.State.load noble_cctp_relayer.Base.lookup
process_turns-drained_example = process_turns-drained 3 env node 7 refl (inr refl) (omega arith)
