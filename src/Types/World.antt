-- ===== src/Types/World.antt =====
-- What the workers share while the program runs: the message states behind the pointers, the
-- sequence map, the Prometheus counters (relayer/metrics.go) and the time.
-- `clock` also counts the calls to the outside, so that two calls may be answered differently.
pub mod Payload
use noble_cctp_relayer.Base.{
  ℕ, ◌+◌, ℤ, List, ◌∷◌, Text, Option, some, none, Result, Bool, ◌==◌, if◌then◌else◌, ◌≡◌, ◌≢◌,
  arith,
}
use noble_cctp_relayer.Types.State.{MessageState, MessagePtr}
use noble_cctp_relayer.Types.SequenceMap.{SequenceMap}

-- The label `status` of AttestationTotal.
pub data AttestationLabel : Type 0 where
  observed pending complete failed filtered minted : AttestationLabel

-- The calls on PromMetrics; a domain label is the number that fmt.Sprint prints.
pub data Metric : Type 0 where
  inc_attestation : AttestationLabel → (src_domain dest_domain : ℕ) → Metric
  inc_pending dec_pending : (src_domain dest_domain : ℕ) → Metric
  inc_broadcast_errors : Text → ℕ → Metric
  set_fast_transfer_allowance : ℕ → Text → ℕ → Metric  -- in millionths of the exported number
  set_latest_height : Text → (domain : ℕ) → (height : ℤ) → Metric
  -- The exported number is the balance over the divisor.
  set_wallet_balance : (chain address denom : Text) → (balance : ℕ) → (divisor : ℤ) → Metric

pub record World : Type 0 where
  pub heap : MessagePtr → MessageState
  pub sequences : SequenceMap
  pub metrics : Option (List Metric)  -- `none` is a nil *PromMetrics; the last call comes first
  pub clock : ℕ

abbrev pub update :
    (MessagePtr → MessageState) → MessagePtr → MessageState → MessagePtr → MessageState
update heap p m q = if p == q then m else heap q

abbrev pub set_message : MessagePtr → MessageState → World → World
set_message p m w = record w { heap = update w.heap p m }

-- `if metrics != nil { … }`
abbrev pub observe : Metric → World → World
observe e w = record w { metrics = elim w.metrics [ none ↦ none | some es ↦ some (e ∷ es) ] }

abbrev pub tick : World → World
tick w = record w { clock = w.clock + 1 }

-- A call that returns, or a panic, which ends the program.
pub data Run {ℓ} (A : Type ℓ) : Type ℓ where
  done : A → World → Run A
  crash : Run A

infixl 5 ◌>>=◌
abbrev pub ◌>>=◌ {ℓ κ} : {A : Type ℓ} {B : Type κ} → Run A → (A → World → Run B) → Run B
done a w >>= f = f a w
crash >>= f = crash

-- The error of Broadcast.
pub data BroadcastError : Type 0 where
  undecodable_attestation retries_exhausted setup_failed : BroadcastError

-- types/chain.go: what the processor and the filters use of a chain.
pub record Chain : Type 0 where
  pub name : Text
  pub domain : ℕ
  pub latest_block : ℕ → ℕ
  pub is_destination_caller : List ℕ → Result ⊥ (Bool × Text)
  pub broadcast : List MessagePtr → World → Run (Option BroadcastError)

pub update_self :
    (heap : MessagePtr → MessageState) (p : MessagePtr) (m : MessageState) → update heap p m p ≡ m
update_self heap p m = ground arith

pub update_ne :
    (heap : MessagePtr → MessageState) (p q : MessagePtr) (m : MessageState)
    → p ≢ q
    → update heap p m q ≡ heap q
update_ne heap p q m h = ground arith
