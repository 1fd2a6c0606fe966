-- ===== src/Noble/Listener/Workers.antt =====
-- The block queue of StartListener of noble/listener.go, a channel of bounded size, and its workers,
-- interleaved in any order: each takes a block from the queue, asks for its transactions, and puts
-- what they hold on the processing queue; a block that could not be asked for goes back to the
-- queue. The workers start when the blocks of the history are queued.
use noble_cctp_relayer.Base.{ℕ, ◌<◌, List, [], ◌∷◌, ◌++◌, Option, some, none, ◌≡◌, length}
use noble_cctp_relayer.Ethereum.History.{ObservedTx}
use noble_cctp_relayer.Noble.Transactions.{ResultTx}
use noble_cctp_relayer.Noble.Listener.{consume_tx}

-- What a worker does: it waits for the reply for its block, has transactions left to consume, or
-- waits at `blockQueue <- block` after a failed request.
pub data Work : Type 0 where
  asking : (block : ℕ) → Work
  consuming : (block : ℕ) → (left : List ResultTx) → Work
  returning : (block : ℕ) → Work

-- `history` are the blocks of the history that are not queued yet. `produced` and `replied` are what
-- was put on the queue by the other routines and the transactions of all replies, `consumed` those
-- that were dealt with, the last one first; `finished` are the blocks whose transactions are all
-- consumed.
pub record Workers : Type 0 where
  pub history : List ℕ
  pub queue : List ℕ
  pub working : List Work
  pub processing : List ObservedTx
  pub produced : List ℕ
  pub replied : List ResultTx
  pub consumed : List ResultTx
  pub finished : List ℕ

-- `n.workers`, the size of the channel, a default in place of 0, the blocks of the history, and the node: its answer to
-- TxSearch at a time is an error or the first page of the transactions of a block.
pub record Setting : Type 0 where
  pub workers : ℕ
  pub capacity : ℕ
  pub history : List ℕ
  pub tx_search : (now block : ℕ) → Option (List ResultTx)
  pub keccak256 : List ℕ → List ℕ

pub data Step (setting : Setting) (s : Workers) : Workers → Type 0 where
  queue_history :
      (block : ℕ) (rest : List ℕ)
      → s.history ≡ block ∷ rest
      → length s.queue < setting.capacity
      → Step setting s (record s {
        history = rest;
        queue = s.queue ++ (block ∷ []);
        produced = block ∷ s.produced;
      })
  produce :
      (block : ℕ)
      → s.history ≡ []
      → length s.queue < setting.capacity
      → Step setting s (record s { queue = s.queue ++ (block ∷ []); produced = block ∷ s.produced })
  receive :
      (block : ℕ) (rest : List ℕ)
      → s.history ≡ []
      → s.queue ≡ block ∷ rest
      → length s.working < setting.workers
      → Step setting s (record s { queue = rest; working = asking block ∷ s.working })
  fail :
      (before after : List Work) (block now : ℕ)
      → s.working ≡ before ++ (asking block ∷ after)
      → setting.tx_search now block ≡ none
      → Step setting s (record s { working = before ++ (returning block ∷ after) })
  put_back :
      (before after : List Work) (block : ℕ)
      → s.working ≡ before ++ (returning block ∷ after)
      → length s.queue < setting.capacity
      → Step setting s (record s { queue = s.queue ++ (block ∷ []); working = before ++ after })
  reply :
      (before after : List Work) (block now : ℕ) (txs : List ResultTx)
      → s.working ≡ before ++ (asking block ∷ after)
      → setting.tx_search now block ≡ some txs
      → Step setting s (record s {
        working = before ++ (consuming block txs ∷ after);
        replied = txs ++ s.replied;
      })
  consume :
      (before after : List Work) (block now : ℕ) (tx : ResultTx) (left : List ResultTx)
      (observed : List ObservedTx)
      → s.working ≡ before ++ (consuming block (tx ∷ left) ∷ after)
      → consume_tx setting.keccak256 now tx ≡ some observed
      → Step setting s (record s {
        working = before ++ (consuming block left ∷ after);
        processing = s.processing ++ observed;
        consumed = tx ∷ s.consumed;
      })
  finish :
      (before after : List Work) (block : ℕ)
      → s.working ≡ before ++ (consuming block [] ∷ after)
      → Step setting s (record s { working = before ++ after; finished = block ∷ s.finished })

abbrev pub start : Setting → Workers
start setting = record {
  history = setting.history;
  queue = [];
  working = [];
  processing = [];
  produced = [];
  replied = [];
  consumed = [];
  finished = [];
}

pub data Reach (setting : Setting) : Workers → Type 0 where
  here : Reach setting (start setting)
  later : {s t : Workers} → Reach setting s → Step setting s t → Reach setting t
