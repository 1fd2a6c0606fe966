-- ===== src/Noble/Listener/Conserved.antt =====
-- The blocks and transactions that the workers of noble/listener.go pass on, by their numbers.
use noble_cctp_relayer.Base.{
  ℕ, suc, ◌+◌, ◌≤◌, List, [], ◌∷◌, ◌++◌, some, Text, text_eq, if◌then◌else◌, ◌==◌, ◌≡◌, refl, ap,
  arith, length, length-append,
}
use noble_cctp_relayer.Ethereum.History.{ObservedTx}
use noble_cctp_relayer.Noble.Transactions.{ResultTx}
use noble_cctp_relayer.Noble.Listener.{consume_tx}
use noble_cctp_relayer.Noble.Listener.Workers.{
  Work, asking, consuming, returning, Workers, Setting, Step, Reach,
}

abbrev pub total {ℓ} : {A : Type ℓ} → (A → ℕ) → List A → ℕ
total f [] = 0
total f (x ∷ xs) = f x + total f xs

total-append {ℓ} :
    {A : Type ℓ} (f : A → ℕ) (xs ys : List A) → total f (xs ++ ys) ≡ total f xs + total f ys
total-append f [] ys = omega arith
total-append f (x ∷ xs) ys = omega (arith, total-append f xs ys)

-- A measure of a list in which an element is known.
total_at {ℓ} :
    {A : Type ℓ} (f : A → ℕ) (before after : List A) (x : A) {xs : List A}
    → xs ≡ before ++ (x ∷ after)
    → total f xs ≡ total f before + f x + total f after
total_at f before after x e =
    let q = ap (total f) e in omega (arith, total-append f before (x ∷ after))

length_at {ℓ} :
    {A : Type ℓ} (before after : List A) (x : A) {xs : List A}
    → xs ≡ before ++ (x ∷ after)
    → length xs ≡ length before + suc (length after)
length_at before after x e =
    let q = ap (λ (ys : List _). length ys) e in omega (arith, length-append before (x ∷ after))

abbrev pub same_block : ℕ → ℕ → ℕ
same_block block b = if b == block then 1 else 0

abbrev pub works_on : ℕ → Work → ℕ
works_on block (asking b) = same_block block b
works_on block (consuming b left) = same_block block b
works_on block (returning b) = same_block block b

abbrev pub same_hash : Text → ResultTx → ℕ
same_hash hash tx = if text_eq tx.hash hash then 1 else 0

abbrev pub left_of : Text → Work → ℕ
left_of hash (asking b) = 0
left_of hash (consuming b left) = total (same_hash hash) left
left_of hash (returning b) = 0

-- The processing queue after the transactions, the last of which comes first.
pub data Outputs (keccak256 : List ℕ → List ℕ) : List ResultTx → List ObservedTx → Type 0 where
  nothing : Outputs keccak256 [] []
  next :
      {txs : List ResultTx} {queued observed : List ObservedTx} (now : ℕ) (tx : ResultTx)
      → Outputs keccak256 txs queued
      → consume_tx keccak256 now tx ≡ some observed
      → Outputs keccak256 (tx ∷ txs) (queued ++ observed)

pub record IsConserved (setting : Setting) (s : Workers) : Type 0 where
  pub enough_workers : length s.working ≤ setting.workers
  pub blocks :
      (block : ℕ)
      → total (same_block block) s.produced
        ≡ total (same_block block) s.queue
          + total (works_on block) s.working
          + total (same_block block) s.finished
  pub transactions :
      (hash : Text)
      → total (same_hash hash) s.replied
        ≡ total (same_hash hash) s.consumed + total (left_of hash) s.working
  pub outputs : Outputs setting.keccak256 s.consumed s.processing

Step-IsConserved :
    (setting : Setting) (s t : Workers)
    → Step setting s t
    → IsConserved setting s
    → IsConserved setting t
Step-IsConserved setting s t (Step.queue_history block rest e room) h = record {
  enough_workers = h.enough_workers;
  blocks = λ b. omega (arith, h.blocks b, total-append (same_block b) s.queue (block ∷ []));
  transactions = h.transactions;
  outputs = h.outputs;
}
Step-IsConserved setting s t (Step.produce block begun room) h = record {
  enough_workers = h.enough_workers;
  blocks = λ b. omega (arith, h.blocks b, total-append (same_block b) s.queue (block ∷ []));
  transactions = h.transactions;
  outputs = h.outputs;
}
Step-IsConserved setting s t (Step.receive block rest begun e free) h = record {
  enough_workers = omega arith;
  blocks = λ b. (let q = ap (total (same_block b)) e in omega (arith, h.blocks b));
  transactions = λ hash. omega (arith, h.transactions hash);
  outputs = h.outputs;
}
Step-IsConserved setting s t (Step.fail before after block now e failed) h = record {
  enough_workers =
      (let was = length_at before after (asking block) e in
        let now_is = length_at before after (returning block) refl in
        omega (arith, h.enough_workers));
  blocks = λ b. omega (
    arith,
    h.blocks b,
    total_at (works_on b) before after (asking block) e,
    total-append (works_on b) before (returning block ∷ after),
  );
  transactions = λ hash. omega (
    arith,
    h.transactions hash,
    total_at (left_of hash) before after (asking block) e,
    total-append (left_of hash) before (returning block ∷ after),
  );
  outputs = h.outputs;
}
Step-IsConserved setting s t (Step.put_back before after block e room) h = record {
  enough_workers = omega (
    arith,
    h.enough_workers,
    length_at before after (returning block) e,
    length-append before after,
  );
  blocks = λ b. omega (
    arith,
    h.blocks b,
    total_at (works_on b) before after (returning block) e,
    total-append (works_on b) before after,
    total-append (same_block b) s.queue (block ∷ []),
  );
  transactions = λ hash. omega (
    arith,
    h.transactions hash,
    total_at (left_of hash) before after (returning block) e,
    total-append (left_of hash) before after,
  );
  outputs = h.outputs;
}
Step-IsConserved setting s t (Step.reply before after block now txs e found) h = record {
  enough_workers =
      (let was = length_at before after (asking block) e in
        let now_is = length_at before after (consuming block txs) refl in
        omega (arith, h.enough_workers));
  blocks = λ b. omega (
    arith,
    h.blocks b,
    total_at (works_on b) before after (asking block) e,
    total-append (works_on b) before (consuming block txs ∷ after),
  );
  transactions = λ hash. omega (
    arith,
    h.transactions hash,
    total_at (left_of hash) before after (asking block) e,
    total-append (left_of hash) before (consuming block txs ∷ after),
    total-append (same_hash hash) txs s.replied,
  );
  outputs = h.outputs;
}
Step-IsConserved setting s t (Step.consume before after block now tx left observed e done) h =
    record {
      enough_workers =
          (let was = length_at before after (consuming block (tx ∷ left)) e in
            let now_is = length_at before after (consuming block left) refl in
            omega (arith, h.enough_workers));
      blocks = λ b. omega (
        arith,
        h.blocks b,
        total_at (works_on b) before after (consuming block (tx ∷ left)) e,
        total-append (works_on b) before (consuming block left ∷ after),
      );
      transactions = λ hash. omega (
        arith,
        h.transactions hash,
        total_at (left_of hash) before after (consuming block (tx ∷ left)) e,
        total-append (left_of hash) before (consuming block left ∷ after),
      );
      outputs = Outputs.next now tx h.outputs done;
    }
Step-IsConserved setting s t (Step.finish before after block e) h = record {
  enough_workers = omega (
    arith,
    h.enough_workers,
    length_at before after (consuming block []) e,
    length-append before after,
  );
  blocks = λ b. omega (
    arith,
    h.blocks b,
    total_at (works_on b) before after (consuming block []) e,
    total-append (works_on b) before after,
  );
  transactions = λ hash. omega (
    arith,
    h.transactions hash,
    total_at (left_of hash) before after (consuming block []) e,
    total-append (left_of hash) before after,
  );
  outputs = h.outputs;
}

-- In every state that the routines reach, at most the configured number of workers is at work, each
-- block put on the queue is on the queue, with a worker, or finished, as often as it was put there,
-- each transaction of a reply is dealt with once or waits with a worker, and the processing queue
-- holds exactly what the transactions dealt with give, in that order.
pub Reach-IsConserved : (setting : Setting) (s : Workers) → Reach setting s → IsConserved setting s
Reach-IsConserved setting s Reach.here = record {
  enough_workers = omega arith;
  blocks = λ b. omega arith;
  transactions = λ hash. omega arith;
  outputs = Outputs.nothing;
}
Reach-IsConserved setting s (Reach.later {s = before} r step) =
    Step-IsConserved setting before s step (Reach-IsConserved setting before r)
