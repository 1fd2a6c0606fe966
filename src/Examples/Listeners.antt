-- ===== src/Examples/Listeners.antt =====
-- Examples for the listeners.
use noble_cctp_relayer.Base.{
  inl, ℕ, zero, suc, subst, some-injective, ◌+◌, ◌≤◌, ◌<◌, List, [], ◌∷◌, ◌++◌, map, Text, text,
  Bool, true, ok, panic, ◌≡◌, ◌↔◌, ◌⊎◌, refl, arith, Option, some, none, All, Any, length, drop,
  replicate, hex_encode, IsByte, base64_encode, hex_decode,
}
use noble_cctp_relayer.Types.Message.{message_fields}
use noble_cctp_relayer.Types.State.{MessageState}
use noble_cctp_relayer.Noble.Transactions.{
  Event, Attribute, ResultTx, new_message_state, tx_to_message_state, message_sent,
}
use noble_cctp_relayer.Noble.Transactions.Parsed.{
  IsSent, Emitted, other, sent, nothing, tx_to_message_state-Emitted,
}
use noble_cctp_relayer.Noble.Transactions.Sound.{IsReadFrom, count_sent, tx_to_message_state_sound}
use noble_cctp_relayer.Noble.Listener.{queued_blocks}
use noble_cctp_relayer.Noble.Listener.Workers.{returning, Setting, Workers, Step, Reach}
use noble_cctp_relayer.Noble.Listener.Conserved.{IsConserved, Reach-IsConserved}
use noble_cctp_relayer.Noble.Listener.Delivered.{Has, IsIn, IsDelivered, drained-IsDelivered}
use noble_cctp_relayer.Noble.Listener.Blocked.{history_blocked}
use noble_cctp_relayer.Noble.Listener.Drains.{Jammed}
use noble_cctp_relayer.Ethereum.Caller.{is_destination_caller}
use noble_cctp_relayer.Ethereum.Caller.Recognised.{is_destination_caller-recognised}
use noble_cctp_relayer.Examples.Samples.{repeat, All-all_bytes}

abbrev raw : List ℕ
raw = repeat 130 5

abbrev transfer_event : Event
transfer_event = record { event_type = text "transfer"; attributes = [] }

abbrev index : Attribute
index = record { key = text "msg_index"; value = text "0" }

abbrev sent_event : Event
sent_event = record {
  event_type = message_sent;
  attributes =
      index ∷ record { key = text "message"; value = 34 ∷ base64_encode raw ++ (34 ∷ []) } ∷ [];
}

abbrev tx : ResultTx
tx = record { hash = text "AB12"; code = 0; events = transfer_event ∷ sent_event ∷ [] }

sent_event-IsSent : IsSent sent_event raw
unfolding noble_cctp_relayer.Base.text_eq
sent_event-IsSent = record {
  type_named = refl;
  before = index ∷ [];
  after = [];
  shape = refl;
  before_others = (refl, tt);
  after_others = tt;
  bytes = All-all_bytes raw refl;
  long_enough = omega arith;
}

emitted : Emitted tx.events (raw ∷ [])
unfolding noble_cctp_relayer.Base.text_eq
emitted = other refl (sent sent_event-IsSent nothing)

abbrev same_bytes : List ℕ → List ℕ
same_bytes bytes = bytes

abbrev states : List MessageState
states = new_message_state same_bytes 9 (text "AB12") raw (message_fields raw) ∷ []

tx_to_message_state-Emitted_example : tx_to_message_state same_bytes 9 tx ≡ ok states
tx_to_message_state-Emitted_example =
    tx_to_message_state-Emitted same_bytes 9 tx (raw ∷ []) refl emitted

tx_to_message_state_sound_example :
    All (IsReadFrom same_bytes (text "AB12")) states
    × (tx.code ≡ 0 → count_sent tx.events ≤ length states)
tx_to_message_state_sound_example =
    tx_to_message_state_sound same_bytes 9 tx states
      (tx_to_message_state-Emitted same_bytes 9 tx (raw ∷ []) refl emitted)

abbrev later_tips : List ℕ
later_tips = 102 ∷ 101 ∷ 104 ∷ []

abbrev failed_tx : ResultTx
failed_tx = record { hash = text "CD"; code = 1; events = [] }

-- The node fails at first, and answers with one transaction from then on.
abbrev node : (now block : ℕ) → Option (List ResultTx)
node zero block = none
node (suc now) block = some (failed_tx ∷ [])

abbrev setting : Setting
setting = record {
  workers = 2;
  capacity = 1;
  history = [];
  tx_search = node;
  keccak256 = same_bytes;
}

-- A block is queued, asked for in vain, asked for again, and its transaction dealt with.
abbrev reached : Workers
reached = record {
  history = [];
  queue = [];
  working = [];
  processing = record { tx_hash = text "CD"; msgs = [] } ∷ [];
  produced = 7 ∷ [];
  replied = failed_tx ∷ [];
  consumed = failed_tx ∷ [];
  finished = 7 ∷ [];
}

run : Reach setting reached
unfolding noble_cctp_relayer.Noble.Listener.consume_tx tx_to_message_state
run =
    Reach.later
      (Reach.later
        (Reach.later
          (Reach.later
            (Reach.later
              (Reach.later
                (Reach.later (Reach.later Reach.here (Step.produce 7 refl (omega arith)))
                  (Step.receive 7 [] refl refl (omega arith)))
                (Step.fail [] [] 7 0 refl refl))
              (Step.put_back [] [] 7 refl (omega arith)))
            (Step.receive 7 [] refl refl (omega arith)))
          (Step.reply [] [] 7 1 (failed_tx ∷ []) refl refl))
        (Step.consume [] [] 7 9 failed_tx [] (record { tx_hash = text "CD"; msgs = [] } ∷ []) refl
          refl))
      (Step.finish [] [] 7 refl)

Reach-IsConserved_example : IsConserved setting reached
Reach-IsConserved_example = Reach-IsConserved setting reached run

-- A block is queued and waits.
abbrev waiting : Workers
waiting = record {
  history = [];
  queue = 7 ∷ [];
  working = [];
  processing = [];
  produced = 7 ∷ [];
  replied = [];
  consumed = [];
  finished = [];
}

always : (now block : ℕ) (txs : List ResultTx) → node now block ≡ some txs → failed_tx ∷ [] ≡ txs
always zero block txs e = cc
always (suc now) block txs e = some-injective e

failed_tx-IsIn : IsIn setting 7 failed_tx
failed_tx-IsIn =
    λ now txs e. subst (λ (xs : List ResultTx). Has failed_tx xs) (always now 7 txs e) (inl refl)

drained-IsDelivered_example : IsDelivered same_bytes reached.processing failed_tx
unfolding queued_blocks noble_cctp_relayer.Noble.Listener.queue_loop
    noble_cctp_relayer.Noble.Listener.new_blocks
drained-IsDelivered_example =
    drained-IsDelivered setting reached 7 0 7 7 [] (7 ∷ []) 8 7 failed_tx run (omega arith)
      (omega arith) (omega arith, tt) refl (inl refl, tt) refl refl (omega arith)
      (inl (omega arith)) failed_tx-IsIn

-- The only worker has asked for a block in vain, and the queue is full in the meantime.
abbrev single : Setting
single = record setting { workers = 1 }

abbrev full : Workers
full = record waiting { queue = 8 ∷ []; working = returning 7 ∷ []; produced = 8 ∷ 7 ∷ [] }

full-Jammed : Reach single full × Jammed single full
full-Jammed = (
  Reach.later
      (Reach.later
        (Reach.later (Reach.later Reach.here (Step.produce 7 refl (omega arith)))
          (Step.receive 7 [] refl refl (omega arith)))
        (Step.produce 8 refl (omega arith)))
      (Step.fail [] [] 7 0 refl refl),
  record { full = omega arith; all_workers = omega arith; all_wait = (tt, tt) },
)

-- A history of three blocks, and room for two.
abbrev narrow : Setting
narrow = record setting { capacity = 2; history = 5 ∷ 6 ∷ 7 ∷ [] }

history_blocked_example :
    (((s : Workers) × Reach narrow s × (s.history ≡ [])) ↔ (3 ≤ 2))
    × (2 < 3 → (s : Workers) → Reach narrow s → (s.working ≡ []) × (s.processing ≡ []))
history_blocked_example = history_blocked narrow

abbrev minter_digits : Text
minter_digits = text "ABabABabABabABabABabABabABabABabABabABab"

minter_read : hex_decode minter_digits ≡ some (repeat 20 171)
unfolding hex_decode
minter_read = refl

is_destination_caller-recognised_example :
    ((12 ≤ 32)
      × (b : Bool) × (is_destination_caller (text "0x" ++ minter_digits) (repeat 32 0)
          ≡ ok (b, text "0x" ++ drop 24 (hex_encode (repeat 32 0))))
      × ((b ≡ true)
          ↔ ((repeat 32 0 ≡ replicate 32 0) ⊎ (repeat 32 0 ≡ replicate 12 0 ++ repeat 20 171))))
    ⊎ ((32 < 12) × (is_destination_caller (text "0x" ++ minter_digits) (repeat 32 0) ≡ panic))
is_destination_caller-recognised_example =
    is_destination_caller-recognised minter_digits (repeat 20 171) (repeat 32 0) minter_read refl
