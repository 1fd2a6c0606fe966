-- ===== src/Ethereum/History/Chunks.antt =====
-- The chunks of getAndConsumeHistory of ethereum/listener.go cover the range asked for.
use noble_cctp_relayer.Base.{
  ℕ, zero, suc, ◌+◌, ◌-◌, ◌/◌, ◌^◌, ◌≤◌, ◌<◌, ◌≡◌, inl, inr, refl, arith, true, false, some, ltb,
  leb, add64, List, [], ◌∷◌, All, Any, Bool-cases, length, All-map, pos, as_int64, ◌%◌,
}
use noble_cctp_relayer.Ethereum.History.{chunk_loop, chunk_size, min64, push, query_of}

-- The block lies in the range, ends included.
abbrev pub Within : ℕ → ℕ × ℕ → Type 0
Within b r = (r.0 ≤ b) × (b ≤ r.1)

abbrev pub IsChunk : ℕ → ℕ → ℕ × ℕ → Type 0
IsChunk start end r = (start ≤ r.0) × (r.0 < r.1) × (r.1 ≤ end) × (r.1 ≤ r.0 + 100)

IsChunk-widen : (start end : ℕ) (r : ℕ × ℕ) → IsChunk (start + 100) end r → IsChunk start end r
IsChunk-widen start end r h = omega arith

chunk_step :
    (fuel start end : ℕ)
    → start < end
    → end + 100 < 2 ^ 64
    → chunk_loop (suc fuel) start end
      ≡ push (start, min64 (start + 100) end) (chunk_loop fuel (start + 100) end)
unfolding chunk_loop
chunk_step fuel start end h bound =
    let small : add64 start chunk_size ≡ start + 100 = omega arith in
    let more : ltb start end ≡ true = ground arith in rw (small, more) refl

chunk_stop :
    (fuel start end : ℕ) → ltb start end ≡ false → chunk_loop (suc fuel) start end ≡ some []
unfolding chunk_loop
chunk_stop fuel start end e = rw e refl

chunk_last :
    (fuel start end : ℕ)
    → start < end
    → ltb (start + 100) end ≡ false
    → end + 100 < 2 ^ 64
    → chunk_loop (suc (suc fuel)) start end ≡ some ((start, end) ∷ [])
chunk_last fuel start end h last bound =
    let bounded : min64 (start + 100) end ≡ end = ground arith in
    rw (chunk_step (suc fuel) start end h bound, chunk_stop fuel (start + 100) end last, bounded)
      refl

-- The ranges of the loop between two blocks that are not the same, below 2 ^ 64 by more than 100.
pub chunk_loop_covers :
    (fuel start end : ℕ)
    → start < end
    → end - start ≤ fuel
    → end + 100 < 2 ^ 64
    → (rs : List (ℕ × ℕ)) × (chunk_loop (suc fuel) start end ≡ some rs)
      × All (IsChunk start end) rs
      × (length rs ≡ (end - start + 99) / 100)
      × ((b : ℕ) → start ≤ b → b ≤ end → Any (Within b) rs)
chunk_loop_covers zero start end h f bound = absurd (omega arith)
chunk_loop_covers (suc fuel) start end h f bound = elim (Bool-cases (ltb (start + 100) end)) [
  | inl more ↦
      let more' : start + 100 < end = ground arith in
      let f' : end - (start + 100) ≤ fuel = omega arith in
      let rest = chunk_loop_covers fuel (start + 100) end more' f' bound in
      (
        (start, start + 100) ∷ rest.0,
        ground (arith, chunk_step (suc fuel) start end h bound, rest.1),
        (omega arith, All-map (IsChunk-widen start end) rest.0 rest.2),
        let l = rest.3 in omega arith,
        λ b low high. elim (Bool-cases (leb b (start + 100))) [
          | inl near ↦ inl (low, ground arith)
          | inr far ↦ inr (rest.4 b (ground arith) high)
        ],
      )
  | inr last ↦ (
    (start, end) ∷ [],
    ground (arith, chunk_last fuel start end h last bound),
    (ground arith, tt),
    ground arith,
    λ b low high. inl (low, high),
  )
]

as_int64-pos : (v : ℕ) → v < 2 ^ 63 → as_int64 v ≡ pos v
as_int64-pos v h =
    let same : v % 0x1_0000_0000_0000_0000 ≡ v = omega arith in
    let small : ltb v 0x8000_0000_0000_0000 ≡ true = ground arith in rw (same, small) refl

-- Between two blocks that are not the same, below 2 ^ 63, the loop ends with fuel for each block; its
-- queries hold the numbers of blocks of the range, are for 100 blocks and the one after them at most,
-- and as many as the log line says, and every block of the range, both ends included, is in one of
-- them.
pub queries_cover :
    (fuel start end : ℕ)
    → start < end
    → end - start ≤ fuel
    → end < 2 ^ 63
    → (rs : List (ℕ × ℕ)) × (chunk_loop (suc fuel) start end ≡ some rs)
      × All (λ r. IsChunk start end r × (query_of r ≡ (pos r.0, pos r.1))) rs
      × (length rs ≡ (end - start + 99) / 100)
      × ((b : ℕ) → start ≤ b → b ≤ end → Any (Within b) rs)
queries_cover fuel start end h f bound =
    let (rs, looped, chunks, count, covered) = chunk_loop_covers fuel start end h f (omega arith) in
    (rs, looped, All-map asked rs chunks, count, covered)
  where
    asked :
        (r : ℕ × ℕ) → IsChunk start end r → IsChunk start end r × (query_of r ≡ (pos r.0, pos r.1))
    asked r c = (c, rw (as_int64-pos r.0 (omega arith), as_int64-pos r.1 (omega arith)) refl)
