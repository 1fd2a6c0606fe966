-- ===== src/Noble/Listener/Blocked.antt =====
-- The history that StartListener of noble/listener.go queues before its workers start, in a block
-- queue of bounded size.
use noble_cctp_relayer.Base.{
  ℕ, ◌+◌, ◌≤◌, ◌<◌, List, [], ◌∷◌, ◌++◌, append_assoc, ◌≡◌, ◌↔◌, refl, sym, ap, ◌∙◌, arith, length,
  length-append, Bool-cases, leb, inl, inr,
}
use noble_cctp_relayer.Noble.Listener.Workers.{
  Work, asking, consuming, returning, Workers, Setting, Step, Reach, start,
}

module _ (setting : Setting) where
  -- A state before the whole history is queued.
  record IsQueuing (s : Workers) : Type 0 where
    in_order : s.queue ++ s.history ≡ setting.history
    in_bounds : length s.queue ≤ setting.capacity
    none_works : s.working ≡ []
    none_sent : s.processing ≡ []

  not_done :
      (s : Workers) → IsQueuing s → s.history ≡ [] → length setting.history ≤ setting.capacity
  not_done s h e =
      let whole = ap (λ (bs : List ℕ). length bs) h.in_order in
      let rest = ap (λ (bs : List ℕ). length bs) e in
      omega (arith, length-append s.queue s.history, h.in_bounds)

  no_worker :
      (s : Workers) (before after : List Work) (w : Work)
      → s.working ≡ []
      → ¬ (s.working ≡ before ++ (w ∷ after))
  no_worker s before after w idle e =
      let none_works = ap (λ (ws : List Work). length ws) idle in
      let one_works = ap (λ (ws : List Work). length ws) e in
      omega (arith, length-append before (w ∷ after))

  Step-IsQueuing :
      (s t : Workers)
      → setting.capacity < length setting.history
      → Step setting s t
      → IsQueuing s
      → IsQueuing t
  Step-IsQueuing s t more (Step.queue_history block rest e room) h = record {
    in_order =
        append_assoc s.queue (block ∷ []) rest
        ∙ ap (λ (bs : List ℕ). s.queue ++ bs) (sym e)
        ∙ h.in_order;
    in_bounds = omega (arith, length-append s.queue (block ∷ []));
    none_works = h.none_works;
    none_sent = h.none_sent;
  }
  Step-IsQueuing s t more (Step.produce block begun room) h =
      absurd (let done = not_done s h begun in omega arith)
  Step-IsQueuing s t more (Step.receive block rest begun e free) h =
      absurd (let done = not_done s h begun in omega arith)
  Step-IsQueuing s t more (Step.fail before after block now e failed) h =
      absurd (no_worker s before after (asking block) h.none_works e)
  Step-IsQueuing s t more (Step.put_back before after block e room) h =
      absurd (no_worker s before after (returning block) h.none_works e)
  Step-IsQueuing s t more (Step.reply before after block now txs e found) h =
      absurd (no_worker s before after (asking block) h.none_works e)
  Step-IsQueuing s t more (Step.consume before after block now tx left observed e done) h =
      absurd (no_worker s before after (consuming block (tx ∷ left)) h.none_works e)
  Step-IsQueuing s t more (Step.finish before after block e) h =
      absurd (no_worker s before after (consuming block []) h.none_works e)

  Reach-IsQueuing :
      (s : Workers) → setting.capacity < length setting.history → Reach setting s → IsQueuing s
  Reach-IsQueuing s more Reach.here = record {
    in_order = refl;
    in_bounds = omega arith;
    none_works = refl;
    none_sent = refl;
  }
  Reach-IsQueuing s more (Reach.later {s = before} r step) =
      Step-IsQueuing before s more step (Reach-IsQueuing before more r)

  -- A history for which there is room is queued.
  queue_all :
      (rest : List ℕ) (s : Workers)
      → Reach setting s
      → s.history ≡ rest
      → length s.queue + length rest ≤ setting.capacity
      → (t : Workers) × Reach setting t × (t.history ≡ [])
  queue_all [] s r e room = (s, r, e)
  queue_all (block ∷ rest) s r e room =
      queue_all rest _ (Reach.later r (Step.queue_history block rest e (omega arith))) refl
        (omega (arith, length-append s.queue (block ∷ [])))

  begun_fits :
      (s : Workers) → Reach setting s → s.history ≡ [] → length setting.history ≤ setting.capacity
  begun_fits s r e = elim (Bool-cases (leb (length setting.history) setting.capacity)) [
    | inl fits ↦ ground arith
    | inr more ↦ not_done s (Reach-IsQueuing s (ground arith) r) e
  ]

  -- A state in which the whole history is queued, and workers may begin, can be reached exactly if
  -- the block queue holds as many blocks as the history has; otherwise no worker ever begins, and
  -- nothing is put on the processing queue.
  pub history_blocked :
      (((s : Workers) × Reach setting s × (s.history ≡ []))
        ↔ (length setting.history ≤ setting.capacity))
      × (setting.capacity < length setting.history
          → (s : Workers) → Reach setting s
          → (s.working ≡ []) × (s.processing ≡ []))
  history_blocked = (
    (
      λ (s, r, e). begun_fits s r e,
      λ room. queue_all setting.history (start setting) Reach.here refl (omega arith),
    ),
    λ more s r. (let h = Reach-IsQueuing s more r in (h.none_works, h.none_sent)),
  )
