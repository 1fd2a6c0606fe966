-- ===== src/Noble/Flush/Covers.antt =====
-- The blocks that the flush of noble/listener.go queues.
use noble_cctp_relayer.Base.{
  ℕ, suc, ◌-◌, ◌^◌, ◌≤◌, ◌<◌, List, [], ◌∷◌, ◌++◌, append_assoc, append-nil, Bool, true, false,
  some, none, Option, ◌≡◌, refl, sym, ap, ◌∙◌, inl, inr, All, All-map, All-append, Any,
  Any-append_left, Any-append_right, arith, leb, Bool-cases,
}
use noble_cctp_relayer.Timer.{Wake, act_all, fired, run_timer_lem}
use noble_cctp_relayer.Flush.Coverage.{gap, IsHigh, flush_once_later}
use noble_cctp_relayer.Noble.Listener.{queue_loop, block_fuel}
use noble_cctp_relayer.Noble.Listener.Blocks.{
  count_from, queue_loop_lem, count_from-Any, count_from-All,
}
use noble_cctp_relayer.Noble.Flush.{Firing, FlushState, on_timer, flush_mechanism}

-- A flush at a node that is in step passes the block.
abbrev pub Passes : ℕ → Option Bool → ℕ → Type 0
Passes block (some false) end = block ≤ end
Passes block (some true) end = Unit
Passes block none end = Unit

Passes-up :
    (block : ℕ) (status : Option Bool) (mid end : ℕ)
    → mid ≤ end
    → Passes block status mid
    → Passes block status end
Passes-up block (some false) mid end h p = omega arith
Passes-up block (some true) mid end h p = tt
Passes-up block none mid end h p = tt

-- From `s` to `end` the queue gets blocks from the one lastFlushedBlock to the other only, and every
-- one of them but perhaps the first.
abbrev pub Queued : FlushState → FlushState → Type 0
Queued s end =
    (s.last_flushed_block ≤ end.last_flushed_block)
    × (blocks : List ℕ) × (end.block_queue ≡ s.block_queue ++ blocks)
    × All (λ b. (s.last_flushed_block ≤ b) × (b ≤ end.last_flushed_block)) blocks
    × ((b : ℕ) → s.last_flushed_block < b → b ≤ end.last_flushed_block → Any (λ c. c ≡ b) blocks)

Queued-refl : (s : FlushState) → Queued s s
Queued-refl s =
    (omega arith, [], sym (append-nil s.block_queue), tt, λ b low high. absurd (omega arith))

Queued-trans : (s t u : FlushState) → Queued s t → Queued t u → Queued s u
Queued-trans s t u (up, blocks, e, within, holds) (up', blocks', e', within', holds') = (
  omega arith,
  blocks ++ blocks',
  e' ∙ ap (λ (xs : List ℕ). xs ++ blocks') e ∙ append_assoc s.block_queue blocks blocks',
  All-append _ blocks blocks' (All-map (λ b h. (h.0, omega arith)) blocks within)
      (All-map (λ b h. (omega arith, h.1)) blocks' within'),
  λ b low high. elim (Bool-cases (leb b t.last_flushed_block)) [
    | inl before ↦ Any-append_left _ blocks blocks' (holds b low (ground arith))
    | inr after ↦ Any-append_right _ blocks blocks' (holds' b (ground arith) high)
  ],
)

module _ (flush_only : Bool) (lookback : ℕ) where
  flush_range_lem :
      (f : Firing) (s : FlushState)
      → s.last_flushed_block < f.latest - gap flush_only lookback
      → suc f.latest < 2 ^ 64
      → let finish = f.latest - gap flush_only lookback in
        let n = suc finish - s.last_flushed_block in
        queue_loop (block_fuel s.last_flushed_block finish) s.last_flushed_block finish
        ≡ some (count_from s.last_flushed_block n, suc finish)
  flush_range_lem f s above bound =
      let finish = f.latest - gap flush_only lookback in
      let n = suc finish - s.last_flushed_block in
      queue_loop_lem n s.last_flushed_block finish (block_fuel s.last_flushed_block finish)
        (omega arith) (omega arith) (omega arith)

  -- A node that is in step.
  healthy-Queued :
      (f : Firing) (s : FlushState)
      → f.catching_up ≡ some false
      → 0 < s.last_flushed_block
      → IsHigh flush_only lookback f.latest
      → suc f.latest < 2 ^ 64
      → (end : FlushState) × (on_timer flush_only lookback f (some s) ≡ some end)
        × (f.latest - gap flush_only lookback ≤ end.last_flushed_block)
        × Queued s end
  unfolding on_timer
  healthy-Queued f s healthy started high bound =
      elim (flush_once_later flush_only lookback f.latest s.last_flushed_block started high) [
        | inl (flushed, still) ↦ (s, rw (healthy, flushed) refl, still, Queued-refl s)
        | inr (above, flushed) ↦
            let finish = f.latest - gap flush_only lookback in
            let start = s.last_flushed_block in
            let blocks = count_from start (suc finish - start) in
            (
              record { last_flushed_block = finish; block_queue = s.block_queue ++ blocks },
              rw (healthy, flushed, flush_range_lem f s above bound) refl,
              omega arith,
              (
                omega arith,
                blocks,
                refl,
                count_from-All start (suc finish - start) start finish (omega arith) (omega arith),
                λ b low top.
                    count_from-Any start (suc finish - start) b (omega arith) (omega arith),
              ),
            )
      ]

  on_timer-Queued :
      (f : Firing) (status : Option Bool) (s : FlushState)
      → f.catching_up ≡ status
      → 0 < s.last_flushed_block
      → IsHigh flush_only lookback f.latest × (suc f.latest < 2 ^ 64)
      → (end : FlushState) × (on_timer flush_only lookback f (some s) ≡ some end)
        × Passes (f.latest - gap flush_only lookback) f.catching_up end.last_flushed_block
        × Queued s end
  unfolding on_timer
  on_timer-Queued f none s e started h = (s, rw e refl, rw e tt, Queued-refl s)
  on_timer-Queued f (some true) s e started h = (s, rw e refl, rw e tt, Queued-refl s)
  on_timer-Queued f (some false) s e started (high, bound) =
      let (end, ran, passed, queued) = healthy-Queued f s e started high bound in
      (end, ran, rw e passed, queued)

  flush-All :
      (answers : List Firing) (s : FlushState)
      → 0 < s.last_flushed_block
      → All (λ f. IsHigh flush_only lookback f.latest × (suc f.latest < 2 ^ 64)) answers
      → (end : FlushState) × (act_all (on_timer flush_only lookback) answers (some s) ≡ some end)
        × All
            (λ f. Passes (f.latest - gap flush_only lookback) f.catching_up end.last_flushed_block)
            answers
        × Queued s end
  flush-All [] s started high = (s, refl, tt, Queued-refl s)
  flush-All (f ∷ answers) s started (high, rest) =
      let (mid, e, passed, queued) = on_timer-Queued f f.catching_up s refl started high in
      let (end, e', passes, queued') =
        flush-All answers mid (let up = queued.0 in omega arith) rest in
      (
        end,
        rw e e',
        (
          Passes-up _ f.catching_up mid.last_flushed_block end.last_flushed_block queued'.0 passed,
          passes,
        ),
        Queued-trans s mid end queued queued',
      )

-- Once a flush has set lastFlushedBlock, at any heights that do not wrap: the flush of Noble passes
-- every block up to the gap below the height of each firing at which the node answers that it is in
-- step, and the blocks that it queues lie between the lastFlushedBlock before and after, each of
-- these but perhaps the first being one of them.
pub noble_flush_covers :
    (flush_only : Bool) (lookback : ℕ) (wakes : List (Wake Firing)) (s : FlushState)
    → 0 < s.last_flushed_block
    → All (λ f. IsHigh flush_only lookback f.latest × (suc f.latest < 2 ^ 64)) (fired wakes)
    → (end : FlushState) × (flush_mechanism flush_only lookback wakes s ≡ some end)
      × All
          (λ f. Passes (f.latest - gap flush_only lookback) f.catching_up end.last_flushed_block)
          (fired wakes)
      × Queued s end
unfolding flush_mechanism
noble_flush_covers flush_only lookback wakes s started high =
    rw (run_timer_lem (on_timer flush_only lookback) wakes (some s))
      (flush-All flush_only lookback (fired wakes) s started high)
