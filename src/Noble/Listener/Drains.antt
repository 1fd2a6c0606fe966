-- ===== src/Noble/Listener/Drains.antt =====
-- When the workers of noble/listener.go can go on to the end of their work, and when none can go on
-- because all wait for room in the full block queue.
use noble_cctp_relayer.Base.{◌≤◌, [], ◌≡◌, All, arith, subst, length}
use noble_cctp_relayer.Noble.Listener.Workers.{Workers, Setting, Step}
use noble_cctp_relayer.Noble.Listener.Delivered.{All-taken}
use noble_cctp_relayer.Noble.Listener.Settles.{More, IsReturning}

module _ (setting : Setting) where
  -- The queue is full, and every worker waits to put a block back.
  pub record Jammed (s : Workers) : Type 0 where
    pub full : setting.capacity ≤ length s.queue
    pub all_workers : setting.workers ≤ length s.working
    pub all_wait : All IsReturning s.working

  -- The workers can go on until no block waits or is worked on.
  abbrev CanDrain : Workers → Type 0
  CanDrain s =
      (t : Workers) × More setting s t
      × (t.queue ≡ [])
      × (t.working ≡ [])
      × (t.produced ≡ s.produced)

  -- Nothing can happen any more.
  pub Jammed-stuck : (s t : Workers) → s.history ≡ [] → Jammed s → ¬ Step setting s t
  Jammed-stuck s t begun jam (Step.queue_history block rest e room) =
      absurd (omega (arith, jam.full))
  Jammed-stuck s t begun jam (Step.produce block e room) = absurd (omega (arith, jam.full))
  Jammed-stuck s t begun jam (Step.receive block rest e f free) =
      absurd (omega (arith, jam.all_workers))
  Jammed-stuck s t begun jam (Step.put_back before after block e room) =
      absurd (omega (arith, jam.full))
  Jammed-stuck s t begun jam (Step.fail before after block now e failed) =
      absurd (All-taken IsReturning before after _ (subst (All IsReturning) e jam.all_wait)).0
  Jammed-stuck s t begun jam (Step.reply before after block now txs e found) =
      absurd (All-taken IsReturning before after _ (subst (All IsReturning) e jam.all_wait)).0
  Jammed-stuck s t begun jam (Step.consume before after block now tx left observed e done) =
      absurd (All-taken IsReturning before after _ (subst (All IsReturning) e jam.all_wait)).0
  Jammed-stuck s t begun jam (Step.finish before after block e) =
      absurd (All-taken IsReturning before after _ (subst (All IsReturning) e jam.all_wait)).0
