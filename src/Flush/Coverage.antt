-- ===== src/Flush/Coverage.antt =====
-- What the flushes of ethereum/listener.go and noble/listener.go cover between them.
use noble_cctp_relayer.Base.{
  ℕ, ◌+◌, ◌-◌, ◌*◌, ◌^◌, ◌≤◌, ◌<◌, ◌≡◌, refl, ◌⊎◌, inl, inr, Bool-cases, arith, Bool, some, none,
  if◌then◌else◌, leb, ◌==◌, List, [], ◌∷◌, All,
}
use noble_cctp_relayer.Flush.{flush_once, flush_run}

-- The distance of a finished flush from the tip: one lookback period, or three in flush-only mode.
abbrev pub gap : Bool → ℕ → ℕ
gap flush_only lookback = if flush_only then 3 * lookback else lookback

-- The chain is long enough for the block numbers not to wrap: one lookback period below the gap.
abbrev pub IsHigh : Bool → ℕ → ℕ → Type 0
IsHigh flush_only lookback latest =
    (gap flush_only lookback + lookback ≤ latest) × (latest < 2 ^ 64)

-- One firing at such a height.
flush_once_lem :
    (flush_only : Bool) (lookback latest last : ℕ)
    → IsHigh flush_only lookback latest
    → let start = (if last == 0 then latest - (gap flush_only lookback + lookback) else last) in
      let finish = latest - gap flush_only lookback in
      flush_once flush_only lookback latest last
      ≡ (if leb finish start then (start, none) else (finish, some (start, finish)))
unfolding flush_once
flush_once_lem flush_only lookback latest last h = ground arith

-- After the first flush: nothing, or up to the gap below the tip.
pub flush_once_later :
    (flush_only : Bool) (lookback latest last : ℕ)
    → 0 < last
    → IsHigh flush_only lookback latest
    → ((flush_once flush_only lookback latest last ≡ (last, none))
        × (latest - gap flush_only lookback ≤ last))
      ⊎ ((last < latest - gap flush_only lookback)
          × (flush_once flush_only lookback latest last
              ≡ (latest - gap flush_only lookback, some (last, latest - gap flush_only lookback))))
flush_once_later flush_only lookback latest last h high =
    elim (Bool-cases (leb (latest - gap flush_only lookback) last)) [
      | inl below ↦
          inl (ground (arith, flush_once_lem flush_only lookback latest last), ground arith)
      | inr above ↦
          inr (ground arith, ground (arith, flush_once_lem flush_only lookback latest last))
    ]

-- The ranges join: each starts at the block where the one before it ended.
abbrev pub Joined : ℕ → List (ℕ × ℕ) → ℕ → Type 0
Joined start [] end = start ≡ end
Joined start ((a, b) ∷ rs) end = (a ≡ start) × (a < b) × Joined b rs end

-- Once a flush has set lastFlushedBlock, later firings at any heights that do not wrap flush
-- ranges that follow each other without a gap, from there to the new lastFlushedBlock.
pub flush_run-Joined :
    (flush_only : Bool) (lookback : ℕ) (heights : List ℕ) (last : ℕ)
    → 0 < last
    → All (IsHigh flush_only lookback) heights
    → let (end, ranges) = flush_run flush_only lookback heights last in Joined last ranges end
unfolding flush_run
flush_run-Joined flush_only lookback [] last h hs = refl
flush_run-Joined flush_only lookback (latest ∷ rest) last h (high, hs) =
    elim (flush_once_later flush_only lookback latest last h high) [
      | inl (nothing, still) ↦ rw nothing (flush_run-Joined flush_only lookback rest last h hs)
      | inr (above, flushed) ↦ rw flushed (
        refl,
        above,
        flush_run-Joined flush_only lookback rest (latest - gap flush_only lookback) (omega arith)
            hs,
      )
    ]
