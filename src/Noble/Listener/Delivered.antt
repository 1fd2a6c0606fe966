-- ===== src/Noble/Listener/Delivered.antt =====
-- What of the blocks that noble/listener.go queues has reached the processing queue when its workers
-- have nothing left to do.
use noble_cctp_relayer.Base.{
  false, ℕ, zero, suc, ◌+◌, ◌-◌, ◌^◌, ◌≤◌, ◌<◌, ◌==◌, List, [], ◌∷◌, ◌++◌, some, ◌≡◌, sym, ap, ◌∙◌,
  ◌⊎◌, inl, inr, All, All-map, Any, Any-append_left, Any-append_right, arith, subst, Bool-cases,
  some-injective,
}
use noble_cctp_relayer.Ethereum.History.{ObservedTx}
use noble_cctp_relayer.Noble.Transactions.{ResultTx}
use noble_cctp_relayer.Noble.Listener.{consume_tx, first_block, queued_blocks}
use noble_cctp_relayer.Noble.Listener.Blocks.{count_from}
use noble_cctp_relayer.Noble.Listener.Queue.{queued_blocks-consecutive}
use noble_cctp_relayer.Noble.Listener.Workers.{
  Work, asking, consuming, returning, Workers, Setting, Step, Reach,
}
use noble_cctp_relayer.Noble.Listener.Conserved.{
  total, same_block, works_on, Outputs, Reach-IsConserved,
}

abbrev pub Has : {A : Type 0} → A → List A → Type 0
Has a xs = Any (λ x. x ≡ a) xs

-- An element in the middle taken out and put in.
pub All-taken :
    {A : Type 0} (P : A → Type 0) (before after : List A) (x : A)
    → All P (before ++ (x ∷ after))
    → P x × All P (before ++ after)
All-taken P [] after x h = h
All-taken P (b ∷ before) after x (hb, h) =
    let (p, rest) = All-taken P before after x h in (p, (hb, rest))

pub All-put :
    {A : Type 0} (P : A → Type 0) (before after : List A) (x : A)
    → P x
    → All P (before ++ after)
    → All P (before ++ (x ∷ after))
All-put P [] after x p h = (p, h)
All-put P (b ∷ before) after x p (hb, h) = (hb, All-put P before after x p h)

All-Has : {A : Type 0} (P : A → Type 0) (a : A) (xs : List A) → All P xs → Has a xs → P a
All-Has P a [] h place = absurd place
All-Has P a (x ∷ xs) (p, h) (inl same) = subst P same p
All-Has P a (x ∷ xs) (p, h) (inr later) = All-Has P a xs h later

counted : (block : ℕ) (bs : List ℕ) → Has block bs → 1 ≤ total (same_block block) bs
counted block [] h = absurd h
counted block (b ∷ bs) (inl same) = ground arith
counted block (b ∷ bs) (inr later) = let more = counted block bs later in omega arith

counted_back : (block : ℕ) (bs : List ℕ) → 1 ≤ total (same_block block) bs → Has block bs
counted_back block [] h = absurd (omega arith)
counted_back block (b ∷ bs) h = elim (Bool-cases (b == block)) [
  | inl same ↦ inl (ground arith)
  | inr other ↦ inr (counted_back block bs (ground arith))
]

count_from-Has : (a n b : ℕ) → a ≤ b → b < a + n → Has b (count_from a n)
count_from-Has a zero b low high = absurd (omega arith)
count_from-Has a (suc n) b low high = elim (Bool-cases (a == b)) [
  | inl same ↦ inl (ground arith)
  | inr other ↦ inr (count_from-Has (a + 1) n b (ground arith) (omega arith))
]

-- What consumed transactions give is on the processing queue.
abbrev pub IsDelivered : (List ℕ → List ℕ) → List ObservedTx → ResultTx → Type 0
IsDelivered keccak256 processing tx =
    (now : ℕ) × (observed : List ObservedTx) × (consume_tx keccak256 now tx ≡ some observed)
    × ((o : ObservedTx) → Has o observed → Has o processing)

Outputs-IsDelivered :
    (keccak256 : List ℕ → List ℕ) (txs : List ResultTx) (queued : List ObservedTx) (tx : ResultTx)
    → Outputs keccak256 txs queued
    → Has tx txs
    → IsDelivered keccak256 queued tx
Outputs-IsDelivered keccak256 txs queued tx Outputs.nothing h = absurd h
Outputs-IsDelivered keccak256 txs queued tx
      (Outputs.next {txs = before} {queued = first} {observed = observed} now t out e) (inl same) =
    (
      now,
      observed,
      subst (λ (x : ResultTx). consume_tx keccak256 now x ≡ some observed) same e,
      λ o h. Any-append_right (λ x. x ≡ o) first observed h,
    )
Outputs-IsDelivered keccak256 txs queued tx
      (Outputs.next {txs = before} {queued = first} {observed = observed} now t out e) (inr later) =
    let (then, seen, e', h) = Outputs-IsDelivered keccak256 before first tx out later in
    (then, seen, e', λ o place. Any-append_left (λ x. x ≡ o) first observed (h o place))

module _ (setting : Setting) where
  -- A transaction of every reply that the node gives for the block.
  abbrev pub IsIn : ℕ → ResultTx → Type 0
  IsIn block tx =
      (now : ℕ) (txs : List ResultTx) → setting.tx_search now block ≡ some txs → Has tx txs

  abbrev Pending : List ResultTx → Work → Type 0
  Pending consumed (asking block) = Unit {0}
  Pending consumed (returning block) = Unit {0}
  Pending consumed (consuming block left) =
      (tx : ResultTx) → IsIn block tx → Has tx consumed ⊎ Has tx left

  abbrev Consumed : List ResultTx → ℕ → Type 0
  Consumed consumed block = (tx : ResultTx) → IsIn block tx → Has tx consumed

  -- No transaction of a block that a worker has a reply for is forgotten.
  abbrev Remembered : Workers → Type 0
  Remembered s = All (Pending s.consumed) s.working × All (Consumed s.consumed) s.finished

  Pending-more :
      (tx : ResultTx) (consumed : List ResultTx) (w : Work)
      → Pending consumed w
      → Pending (tx ∷ consumed) w
  Pending-more tx consumed (asking block) h = tt
  Pending-more tx consumed (returning block) h = tt
  Pending-more tx consumed (consuming block left) h =
      λ t is_in. elim (h t is_in) [ inl was ↦ inl (inr was) | inr ahead ↦ inr ahead ]

  Step-Remembered : (s t : Workers) → Step setting s t → Remembered s → Remembered t
  Step-Remembered s t (Step.queue_history block rest e room) h = h
  Step-Remembered s t (Step.produce block begun room) h = h
  Step-Remembered s t (Step.receive block rest begun e free) (working, finished) =
      ((tt, working), finished)
  Step-Remembered s t (Step.put_back before after block e room) (working, finished) = (
    (All-taken (Pending s.consumed) before after (returning block)
        (subst (All (Pending s.consumed)) e working)).1,
    finished,
  )
  Step-Remembered s t (Step.fail before after block now e failed) (working, finished) = (
    All-put (Pending s.consumed) before after (returning block) tt
        (All-taken (Pending s.consumed) before after (asking block)
          (subst (All (Pending s.consumed)) e working)).1,
    finished,
  )
  Step-Remembered s t (Step.reply before after block now txs e found) (working, finished) = (
    All-put (Pending s.consumed) before after (consuming block txs)
        (λ tx is_in. inr (is_in now txs found))
        (All-taken (Pending s.consumed) before after (asking block)
          (subst (All (Pending s.consumed)) e working)).1,
    finished,
  )
  Step-Remembered s t (Step.consume before after block now tx left observed e done)
        (working, finished) =
      let (here, others) =
        All-taken (Pending s.consumed) before after (consuming block (tx ∷ left))
          (subst (All (Pending s.consumed)) e working) in
      (
        All-put (Pending (tx ∷ s.consumed)) before after (consuming block left)
            (λ x is_in. elim (here x is_in) [
              | inl was ↦ inl (inr was)
              | inr ahead ↦ elim ahead [ inl same ↦ inl (inl same) | inr later ↦ inr later ]
            ])
            (All-map (Pending-more tx s.consumed) (before ++ after) others),
        All-map (λ b h x is_in. inr (h x is_in)) s.finished finished,
      )
  Step-Remembered s t (Step.finish before after block e) (working, finished) =
      let (here, others) =
        All-taken (Pending s.consumed) before after (consuming block [])
          (subst (All (Pending s.consumed)) e working) in
      (
        others,
        (
          (λ x is_in. elim (here x is_in) [ inl was ↦ was | inr none_left ↦ absurd none_left ]),
          finished,
        ),
      )

  Reach-Remembered : (s : Workers) → Reach setting s → Remembered s
  Reach-Remembered s Reach.here = (tt, tt)
  Reach-Remembered s (Reach.later {s = before} r step) =
      Step-Remembered before s step (Reach-Remembered before r)

  -- Outside flush-only mode, with a first block not below the lookback period and tips below 2 ^ 64
  -- - 1: in every state that the workers reach in any interleaving, in which the blocks of the
  -- listener have been queued and no block waits or is worked on, each transaction that is on the
  -- first page of every answer of the node without an error for a block, from the first one less
  -- the lookback period up to one of the tips, has been read without a panic, and what it gives is
  -- on the processing queue.
  pub drained-IsDelivered :
      (s : Workers) (start_block lookback latest chain_tip : ℕ) (tips blocks : List ℕ)
      (end block : ℕ) (tx : ResultTx)
      → Reach setting s
      → lookback ≤ first_block start_block latest
      → first_block start_block latest < 2 ^ 64
      → All (λ tip. suc tip < 2 ^ 64) (chain_tip ∷ tips)
      → queued_blocks false start_block lookback latest chain_tip tips ≡ some (blocks, end)
      → All (λ b. Has b s.produced) blocks
      → s.queue ≡ []
      → s.working ≡ []
      → first_block start_block latest - lookback ≤ block
      → Any (λ tip. block ≤ tip) (chain_tip ∷ tips)
      → IsIn block tx
      → IsDelivered setting.keccak256 s.processing tx
  drained-IsDelivered s start_block lookback latest chain_tip tips blocks end block tx r low small
        bounds queued produced idle free above below is_in =
      let (n, last, e, is_last, reached) =
        queued_blocks-consecutive start_block lookback latest chain_tip tips low small bounds in
      let first = first_block start_block latest - lookback in
      let under = (reached block above).1 below in
      let same : blocks ≡ count_from first n =
        ap (λ (x : List ℕ × ℕ). x.0) (some-injective (sym queued ∙ e)) in
      let put : Has block s.produced =
        All-Has (λ b. Has b s.produced) block (count_from first n)
          (subst (All (λ b. Has b s.produced)) same produced)
          (count_from-Has first n block above (omega arith)) in
      let kept = Reach-IsConserved setting s r in
      let no_queue = ap (total (same_block block)) idle in
      let no_work = ap (total (works_on block)) free in
      let finished : 1 ≤ total (same_block block) s.finished =
        (let c = counted block s.produced put in omega (arith, kept.blocks block)) in
      Outputs-IsDelivered setting.keccak256 s.consumed s.processing tx kept.outputs (
        All-Has (Consumed s.consumed) block s.finished (Reach-Remembered s r).1
          (counted_back block s.finished finished) tx is_in)
