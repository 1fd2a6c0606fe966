-- ===== src/Cmd/Worker/Drained.antt =====
-- How long the workers of cmd/process.go keep a transaction on the queue.
use noble_cctp_relayer.Base.{
  ℕ, zero, suc, ◌+◌, ◌-◌, ◌<◌, List, [], ◌∷◌, ◌++◌, true, false, ◌≡◌, refl, ◌⊎◌, inl, inr, arith,
  Option, some, none, some-injective, ◌∙◌, sym, ap, subst, Option-cases, text_key, text_eq_refl,
}
use noble_cctp_relayer.Types.State.{TxPtr, load, store}
use noble_cctp_relayer.Types.State.Equality.{load-store}
use noble_cctp_relayer.Cmd.Process.{Env}
use noble_cctp_relayer.Cmd.Worker.{
  Node, Broadcasts, admit, retry, finish, process_tx, process_next, process_turns, next_of,
  and_then, turn_on, observe_created,
}

-- The transaction is not known by another object: it is stored itself, or not yet.
abbrev pub IsOwn : Node → TxPtr → Type 0
IsOwn n p = let found = load (n.txs p).tx_hash n.state in (found ≡ some p) ⊎ (found ≡ none)

-- What a turn does to the queue and to the retries of its transaction.
abbrev Turned : Env → TxPtr → Node → Node → Type 0
Turned env p n n' =
    IsOwn n' p
    × (((n'.queue ≡ n.queue) × ((n'.txs p).retry_attempt ≡ (n.txs p).retry_attempt))
        ⊎ ((n'.queue ≡ n.queue ++ (p ∷ []))
            × ((n.txs p).retry_attempt < env.circle.fetch_retries)
            × ((n'.txs p).retry_attempt ≡ (n.txs p).retry_attempt + 1)))

retry-Turned :
    (env : Env) (p : TxPtr) (n : Node)
    → load (n.txs p).tx_hash n.state ≡ some p
    → Turned env p n (retry env p p n)
unfolding retry
retry-Turned env p n stored = ground arith

finish-Turned :
    (env : Env) (p : TxPtr) (n n' : Node) (b : Broadcasts)
    → load (n.txs p).tx_hash n.state ≡ some p
    → finish env p p n b ≡ some n'
    → Turned env p n n'
finish-Turned env p n n' none stored e = absurd (cc)
finish-Turned env p n n' (some (w, true)) stored e =
    subst (Turned env p n) (some-injective e) (retry-Turned env p (record n { world = w }) stored)
finish-Turned env p n n' (some (w, false)) stored e =
    subst (Turned env p n) (some-injective e) (inl stored, inl (refl, refl))

admit_stored : (p : TxPtr) (n : Node) → load (n.txs p).tx_hash n.state ≡ some p → admit p n ≡ (p, n)
unfolding admit
admit_stored p n h = rw (h, admit)

abbrev first_seen : TxPtr → Node → Node
first_seen p n = record n {
  state = store (n.txs p).tx_hash p n.state;
  world = observe_created (n.txs p).msgs n.world;
}

admit_new :
    (p : TxPtr) (n : Node) → load (n.txs p).tx_hash n.state ≡ none → admit p n ≡ (p, first_seen p n)
unfolding admit
admit_new p n h = rw (h, admit)

first_seen_stored : (p : TxPtr) (n : Node) → load (n.txs p).tx_hash (first_seen p n).state ≡ some p
first_seen_stored p n =
    rw (load-store (n.txs p).tx_hash (n.txs p).tx_hash p n.state, text_eq_refl (n.txs p).tx_hash)

process_tx-Turned :
    (env : Env) (p : TxPtr) (n n' : Node)
    → IsOwn n p
    → process_tx env p n ≡ some n'
    → Turned env p n n'
unfolding process_tx turn_on
process_tx-Turned env p n n' (inl stored) e =
    finish-Turned env p n n' _ stored (sym (ap (turn_on env p) (admit_stored p n stored)) ∙ e)
process_tx-Turned env p n n' (inr new) e =
    finish-Turned env p (first_seen p n) n' _ (first_seen_stored p n)
      (sym (ap (turn_on env p) (admit_new p n new)) ∙ e)

next_idle : (env : Env) (n : Node) → n.queue ≡ [] → process_next env n ≡ some n
unfolding process_next
next_idle env n h = ap (λ (q : List TxPtr). next_of env q n) h

next_single :
    (env : Env) (n : Node) (p : TxPtr)
    → n.queue ≡ p ∷ []
    → process_next env n ≡ process_tx env p (record n { queue = [] })
unfolding process_next
next_single env n p h = ap (λ (q : List TxPtr). next_of env q n) h

one_turn :
    (k : ℕ) (env : Env) (n : Node) (m : Option Node)
    → process_next env n ≡ m
    → process_turns (suc k) env n ≡ and_then m (process_turns k env)
unfolding process_turns
one_turn k env n m h = ap (λ (o : Option Node). and_then o (process_turns k env)) h

process_turns_idle : (k : ℕ) (env : Env) (n : Node) → n.queue ≡ [] → process_turns k env n ≡ some n
process_turns_idle zero env n h = unfold process_turns in refl
process_turns_idle (suc k) env n h =
    one_turn k env n (some n) (next_idle env n h) ∙ process_turns_idle k env n h

-- The turns panic, or leave the queue empty.
abbrev pub Ends : Option Node → Type 0
Ends m = (m ≡ none) ⊎ ((n' : Node) × (m ≡ some n') × (n'.queue ≡ []))

-- A transaction that alone is on the queue, and that no other object stands for in the State map,
-- is off it for good after as many turns as it has retries left, and one: it is not requeued
-- without end. (Unless a turn panics.)
pub process_turns-drained :
    (k : ℕ) (env : Env) (n : Node) (p : TxPtr)
    → n.queue ≡ p ∷ []
    → IsOwn n p
    → env.circle.fetch_retries - (n.txs p).retry_attempt < k
    → Ends (process_turns k env n)
process_turns-drained zero env n p h own left = absurd (omega arith)
process_turns-drained (suc k) env n p h own left =
    elim (Option-cases (process_tx env p (record n { queue = [] }))) [
      | inl crashed ↦ inl (one_turn k env n none (next_single env n p h ∙ crashed))
      | inr (n₁, turned) ↦
          subst Ends (sym (one_turn k env n (some n₁) (next_single env n p h ∙ turned))) (
            later n₁ (process_turns-drained k env n₁ p)
              (process_tx-Turned env p (record n { queue = [] }) n₁ own turned))
    ]
  where
    later :
        (n₁ : Node)
        → (n₁.queue ≡ p ∷ []
            → IsOwn n₁ p
            → env.circle.fetch_retries - (n₁.txs p).retry_attempt < k
            → Ends (process_turns k env n₁))
        → Turned env p (record n { queue = [] }) n₁
        → Ends (process_turns k env n₁)
    later n₁ again (own₁, inl (empty, same)) = inr (n₁, process_turns_idle k env n₁ empty, empty)
    later n₁ again (own₁, inr (queued, limit, counted)) = again queued own₁ (omega arith)
