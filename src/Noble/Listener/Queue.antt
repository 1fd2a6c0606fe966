-- ===== src/Noble/Listener/Queue.antt =====
-- The blocks that StartListener of noble/listener.go queues.
use noble_cctp_relayer.Base.{
  ℕ, suc, ◌+◌, ◌-◌, ◌≤◌, ◌<◌, ◌^◌, List, [], ◌∷◌, ◌++◌, false, some, ◌≡◌, refl, ap, sym, ◌∙◌, ◌↔◌,
  ◌⊎◌, inl, inr, arith, leb, if◌then◌else◌, add64, sub64, All, Any, Bool-cases,
}
use noble_cctp_relayer.Noble.Listener.{
  QueueState, and_then, append_to, set_current, queue_loop, block_fuel, queue_blocks, new_blocks,
  first_block, queued_blocks,
}
use noble_cctp_relayer.Noble.Listener.Blocks.{
  count_from, join_ranges, if_true, if_false, queue_loop_lem,
}

-- The block after the highest tip of those that are not below the current block.
abbrev next_block : ℕ → ℕ → ℕ
next_block current tip = if leb current tip then suc tip else current

abbrev last_block : ℕ → List ℕ → ℕ
last_block current [] = current
last_block current (tip ∷ tips) = last_block (next_block current tip) tips

-- The queue holds the blocks from `first` to before the current one, each once.
abbrev Consecutive : ℕ → QueueState → Type 0
Consecutive first (queued, current) =
    (first ≤ current) × (queued ≡ count_from first (current - first))

queue_blocks-Consecutive :
    (first tip : ℕ) (queued : List ℕ) (current : ℕ)
    → Consecutive first (queued, current)
    → suc tip < 2 ^ 64
    → (blocks : List ℕ) × (queue_blocks tip (queued, current)
        ≡ some (blocks, next_block current tip))
      × Consecutive first (blocks, next_block current tip)
unfolding queue_blocks
queue_blocks-Consecutive first tip queued current (low, e) b = elim (Bool-cases (leb current tip)) [
  | inl more ↦
      let reached : current ≤ tip = ground arith in
      let n = suc tip - current in
      let looped =
        queue_loop_lem n current tip (block_fuel current tip) (omega arith) (omega arith) b in
      let wrapped : add64 tip 1 ≡ suc tip = omega arith in
      (
        queued ++ count_from current n,
        if_true _ _ more
            ∙ ap (λ r. set_current (add64 tip 1) (append_to queued r)) looped
            ∙ ap (λ (c : ℕ). some (queued ++ count_from current n, c)) wrapped
            ∙ ap (λ (c : ℕ). some (queued ++ count_from current n, c)) (sym (if_true _ _ more)),
        rw more (
          omega arith,
          ap (λ (xs : List ℕ). xs ++ count_from current n) e ∙ join_ranges low (omega arith),
        ),
      )
  | inr less ↦ (queued, rw less refl, rw less (low, e))
]

new_blocks-Consecutive :
    (first : ℕ) (tips : List ℕ) (queued : List ℕ) (current : ℕ)
    → Consecutive first (queued, current)
    → All (λ tip. suc tip < 2 ^ 64) tips
    → (blocks : List ℕ) × (new_blocks tips (queued, current)
        ≡ some (blocks, last_block current tips))
      × Consecutive first (blocks, last_block current tips)
unfolding new_blocks
new_blocks-Consecutive first [] queued current h b = (queued, refl, h)
new_blocks-Consecutive first (tip ∷ tips) queued current h (b, bs) =
    let (blocks, e, k) = queue_blocks-Consecutive first tip queued current h b in
    let (more, e', k') = new_blocks-Consecutive first tips blocks (next_block current tip) k bs in
    (more, rw e e', k')

history-Consecutive :
    (first tip : ℕ)
    → Consecutive first (count_from first (next_block first tip - first), next_block first tip)
history-Consecutive first tip = (ground arith, refl)

history_lem :
    (first tip : ℕ)
    → suc tip < 2 ^ 64
    → queue_loop (block_fuel first tip) first tip
      ≡ some (count_from first (next_block first tip - first), next_block first tip)
unfolding queue_loop
history_lem first tip b = elim (Bool-cases (leb first tip)) [
  | inl more ↦
      let reached : first ≤ tip = ground arith in
      let up : suc tip ≡ next_block first tip = sym (if_true _ _ more) in
      queue_loop_lem (suc tip - first) first tip (block_fuel first tip) (omega arith) (omega arith)
        b
      ∙ ap (λ (c : ℕ). some (count_from first (c - first), c)) up
  | inr less ↦
      let same : first ≡ next_block first tip = sym (if_false _ _ less) in
      let nothing : 0 ≡ first - first = omega arith in
      if_false _ _ less
      ∙ ap (λ (k : ℕ). some (count_from first k, first)) nothing
      ∙ ap (λ (c : ℕ). some (count_from first (c - first), c)) same
]

-- A block is below the end exactly if it is below the first end or some tip reaches it.
last_block_iff :
    (current : ℕ) (tips : List ℕ) (block : ℕ)
    → (block < last_block current tips) ↔ ((block < current) ⊎ Any (λ tip. block ≤ tip) tips)
last_block_iff current [] block = (inl, λ h. elim h [ inl x ↦ x | inr x ↦ absurd x ])
last_block_iff current (tip ∷ tips) block =
    let (to, from) = last_block_iff (next_block current tip) tips block in
    elim (Bool-cases (leb current tip)) [
      | inl more ↦
          let up : next_block current tip ≡ suc tip = if_true _ _ more in
          (
            λ h. elim (to h) [ inl x ↦ inr (inl (omega arith)) | inr x ↦ inr (inr x) ],
            λ h. from (elim h [
              | inl x ↦ inl (ground arith)
              | inr y ↦ elim y [ inl x ↦ inl (omega arith) | inr z ↦ inr z ]
            ]),
          )
      | inr less ↦
          let same : next_block current tip ≡ current = if_false _ _ less in
          (
            λ h. elim (to h) [ inl x ↦ inl (omega arith) | inr x ↦ inr (inr x) ],
            λ h. from (elim h [
              | inl x ↦ inl (omega arith)
              | inr y ↦ elim y [ inl x ↦ inl (ground arith) | inr z ↦ inr z ]
            ]),
          )
    ]

-- Outside flush-only mode, with a first block not below the lookback period and tips below 2 ^ 64
-- - 1, the queue is the sequence of the blocks from the first one less the lookback period, in
-- order and none twice, up to the end; and the end is past a block that is at least the first
-- queued exactly if one of the tips reaches the block.
pub queued_blocks-consecutive :
    (start_block lookback latest chain_tip : ℕ) (tips : List ℕ)
    → lookback ≤ first_block start_block latest
    → first_block start_block latest < 2 ^ 64
    → All (λ tip. suc tip < 2 ^ 64) (chain_tip ∷ tips)
    → (n : ℕ) × (end : ℕ) × (queued_blocks false start_block lookback latest chain_tip tips
        ≡ some (count_from (first_block start_block latest - lookback) n, end))
      × (end ≡ first_block start_block latest - lookback + n)
      × ((block : ℕ)
          → first_block start_block latest - lookback ≤ block
          → (block < end) ↔ Any (λ tip. block ≤ tip) (chain_tip ∷ tips))
unfolding queued_blocks
queued_blocks-consecutive start_block lookback latest chain_tip tips h s (b, bs) =
    let first = first_block start_block latest - lookback in
    let back : sub64 (first_block start_block latest) lookback ≡ first = omega arith in
    let (blocks, e, k) =
      new_blocks-Consecutive first tips _ _ (history-Consecutive first chain_tip) bs in
    let end = last_block first (chain_tip ∷ tips) in
    (
      end - first,
      end,
      ap (λ (c : ℕ). and_then (queue_loop (block_fuel c chain_tip) c chain_tip) (new_blocks tips))
            back
          ∙ ap (λ r. and_then r (new_blocks tips)) (history_lem first chain_tip b)
          ∙ e
          ∙ ap (λ (xs : List ℕ). some (xs, end)) k.1,
      (let up = k.0 in omega arith),
      λ block low.
          (let (to, from) = last_block_iff first (chain_tip ∷ tips) block in
            (λ h. elim (to h) [ inl x ↦ absurd (omega arith) | inr x ↦ x ], λ h. from (inr h))),
    )
