-- ===== src/Ethereum/Listener/Restart.antt =====
-- Which blocks of the past the next session of ethereum/listener.go asks for after a disconnect.
use noble_cctp_relayer.Base.{
  ℕ, suc, ◌+◌, ◌-◌, ◌≤◌, ◌<◌, ◌^◌, ◌≢◌, List, Bool, some, sub64, ◌≡◌, ap, ◌∙◌, arith, Any,
}
use noble_cctp_relayer.Ethereum.History.{chunk_loop}
use noble_cctp_relayer.Ethereum.History.Chunks.{Within, chunk_loop_covers}
use noble_cctp_relayer.Ethereum.Listener.{
  ListenerState, Session, first_block, start_lookback, end_session,
}

restart_first :
    (flushing : Bool) (lookback : ℕ) (s : ListenerState) (session next : Session)
    → (end_session flushing lookback s session).0.last_flushed_block ≢ 0
    → first_block (end_session flushing lookback s session).0 next
      ≡ (end_session flushing lookback s session).0.last_flushed_block
unfolding end_session
restart_first flushing lookback s session next h = ground arith

-- When the stream ends after a flush up to a block that is not below the lookback period, the
-- session that follows asks for every block from a lookback period below that one to its latest
-- block, if that is higher.
pub restart_covers :
    (flushing : Bool) (lookback : ℕ) (s : ListenerState) (session next : Session) (flushed : ℕ)
    → (end_session flushing lookback s session).0.last_flushed_block ≡ flushed
    → 0 < flushed
    → lookback ≤ flushed
    → flushed - lookback < next.latest
    → next.latest + 100 < 2 ^ 64
    → flushed < 2 ^ 64
    → (rs : List (ℕ × ℕ)) × (chunk_loop
          (suc next.latest)
          (start_lookback lookback (end_session flushing lookback s session).0 next)
          next.latest
        ≡ some rs)
      × ((b : ℕ) → flushed - lookback ≤ b → b ≤ next.latest → Any (Within b) rs)
unfolding start_lookback
restart_covers flushing lookback s session next flushed e positive low behind bound small =
    let first : first_block (end_session flushing lookback s session).0 next ≡ flushed =
      restart_first flushing lookback s session next (λ z. omega arith) ∙ e in
    let back : sub64 flushed lookback ≡ flushed - lookback = omega arith in
    let (rs, looped, chunks, count, covered) =
      chunk_loop_covers next.latest (flushed - lookback) next.latest behind (omega arith) bound in
    (
      rs,
      ap (λ (c : ℕ). chunk_loop (suc next.latest) c next.latest)
            (ap (λ (x : ℕ). sub64 x lookback) first ∙ back)
          ∙ looped,
      covered,
    )
