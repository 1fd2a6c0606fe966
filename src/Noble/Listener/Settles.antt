-- ===== src/Noble/Listener/Settles.antt =====
-- How far the workers of noble/listener.go can go on without room in the block queue: each that
-- does not wait at the queue itself comes to the end of its block.
use noble_cctp_relayer.Base.{
  ℕ, ◌+◌, List, [], ◌∷◌, ◌++◌, append_assoc, some, ◌≡◌, refl, sym, ◌∙◌, All, arith, subst, length,
}
use noble_cctp_relayer.Ethereum.History.{ObservedTx}
use noble_cctp_relayer.Noble.Transactions.{ResultTx}
use noble_cctp_relayer.Noble.Listener.{consume_tx}
use noble_cctp_relayer.Noble.Listener.Workers.{
  Work, asking, consuming, returning, Workers, Setting, Step, Reach,
}
use noble_cctp_relayer.Noble.Listener.Delivered.{All-taken, All-put}

-- The workers go on from a state.
pub data More (setting : Setting) (s : Workers) : Workers → Type 0 where
  same : More setting s s
  further : {t u : Workers} → More setting s t → Step setting t u → More setting s u

-- The worker waits at `blockQueue <- block`.
abbrev pub IsReturning : Work → Type 0
IsReturning (asking block) = ⊥
IsReturning (consuming block left) = ⊥
IsReturning (returning block) = Unit {0}

abbrev busy : List Work → ℕ
busy [] = 0
busy (asking block ∷ rest) = 1 + busy rest
busy (consuming block left ∷ rest) = 1 + busy rest
busy (returning block ∷ rest) = busy rest

pub busy-IsReturning : (working : List Work) → busy working ≡ 0 → All IsReturning working
busy-IsReturning [] e = tt
busy-IsReturning (asking block ∷ rest) e = absurd (omega (arith, e))
busy-IsReturning (consuming block left ∷ rest) e = absurd (omega (arith, e))
busy-IsReturning (returning block ∷ rest) e = (tt, busy-IsReturning rest e)

module _ (setting : Setting) where
  pub More-trans : {s t u : Workers} → More setting s t → More setting t u → More setting s u
  More-trans h More.same = h
  More-trans h (More.further k step) = More.further (More-trans h k) step

  pub one : {s t : Workers} → Step setting s t → More setting s t
  one step = More.further More.same step

  pub More-Reach : {s t : Workers} → Reach setting s → More setting s t → Reach setting t
  More-Reach r More.same = r
  More-Reach r (More.further h step) = Reach.later (More-Reach r h) step

  -- The workers go on without the queue.
  pub record Quiet (s t : Workers) : Type 0 where
    pub more : More setting s t
    pub queue : t.queue ≡ s.queue
    pub produced : t.produced ≡ s.produced
    pub history : t.history ≡ s.history

  Quiet-trans : {s t u : Workers} → Quiet s t → Quiet t u → Quiet s u
  Quiet-trans h k = record {
    more = More-trans h.more k.more;
    queue = k.queue ∙ h.queue;
    produced = k.produced ∙ h.produced;
    history = k.history ∙ h.history;
  }

  -- The transaction can be dealt with without a panic.
  abbrev pub CanRead : ResultTx → Type 0
  CanRead tx =
      (now : ℕ) × (observed : List ObservedTx) × (consume_tx setting.keccak256 now tx
        ≡ some observed)

  -- For every block the node answers at some time without an error, and the transactions of its
  -- answers can be dealt with.
  pub record Answers : Type 0 where
    pub answered :
        (block : ℕ) → (now : ℕ) × (txs : List ResultTx) × (setting.tx_search now block ≡ some txs)
    pub readable :
        (now block : ℕ) (txs : List ResultTx)
        → setting.tx_search now block ≡ some txs
        → All CanRead txs

  abbrev Workable : Work → Type 0
  Workable (asking block) = Unit {0}
  Workable (consuming block left) = All CanRead left
  Workable (returning block) = Unit {0}

  Step-Workable :
      Answers → (s t : Workers) → Step setting s t → All Workable s.working → All Workable t.working
  Step-Workable answers s t (Step.queue_history block rest e room) h = h
  Step-Workable answers s t (Step.produce block begun room) h = h
  Step-Workable answers s t (Step.receive block rest begun e free) h = (tt, h)
  Step-Workable answers s t (Step.fail before after block now e failed) h =
      All-put Workable before after (returning block) tt
        (All-taken Workable before after (asking block) (subst (All Workable) e h)).1
  Step-Workable answers s t (Step.put_back before after block e room) h =
      (All-taken Workable before after (returning block) (subst (All Workable) e h)).1
  Step-Workable answers s t (Step.reply before after block now txs e found) h =
      All-put Workable before after (consuming block txs) (answers.readable now block txs found)
        (All-taken Workable before after (asking block) (subst (All Workable) e h)).1
  Step-Workable answers s t (Step.consume before after block now tx left observed e done) h =
      let (here, others) =
        All-taken Workable before after (consuming block (tx ∷ left)) (subst (All Workable) e h) in
      All-put Workable before after (consuming block left) here.1 others
  Step-Workable answers s t (Step.finish before after block e) h =
      (All-taken Workable before after (consuming block []) (subst (All Workable) e h)).1

  pub Reach-Workable : Answers → (s : Workers) → Reach setting s → All Workable s.working
  Reach-Workable answers s Reach.here = tt
  Reach-Workable answers s (Reach.later {s = before} r step) =
      Step-Workable answers before s step (Reach-Workable answers before r)

  -- A worker comes to the end of its block.
  finish_block :
      (before after : List Work) (block : ℕ) (left : List ResultTx) (s : Workers)
      → All CanRead left
      → s.working ≡ before ++ (consuming block left ∷ after)
      → (t : Workers) × Quiet s t × (t.working ≡ before ++ after)
  finish_block before after block [] s readable e = (
    _,
    record {
      more = one (Step.finish before after block e);
      queue = refl;
      produced = refl;
      history = refl;
    },
    refl,
  )
  finish_block before after block (tx ∷ left) s ((now, observed, done), readable) e =
      let consumed : Workers = record s {
        working = before ++ (consuming block left ∷ after);
        processing = s.processing ++ observed;
        consumed = tx ∷ s.consumed;
      } in
      let (t, quiet, working) = finish_block before after block left consumed readable refl in
      let step : Quiet s consumed = record {
        more = one (Step.consume before after block now tx left observed e done);
        queue = refl;
        produced = refl;
        history = refl;
      } in
      (t, Quiet-trans step quiet, working)

  -- A worker whose block is asked for comes to the end of it.
  pub ask_block :
      Answers
      → (before after : List Work) (block : ℕ) (s : Workers)
      → s.working ≡ before ++ (asking block ∷ after)
      → (t : Workers) × Quiet s t × (t.working ≡ before ++ after)
  ask_block answers before after block s e =
      let (now, txs, found) = answers.answered block in
      let asked : Workers = record s {
        working = before ++ (consuming block txs ∷ after);
        replied = txs ++ s.replied;
      } in
      let (t, quiet, working) =
        finish_block before after block txs asked (answers.readable now block txs found) refl in
      let step : Quiet s asked = record {
        more = one (Step.reply before after block now txs e found);
        queue = refl;
        produced = refl;
        history = refl;
      } in
      (t, Quiet-trans step quiet, working)

  -- All workers that do not wait at the queue come to the end of their blocks.
  pub settle :
      Answers
      → (before todo : List Work) (s : Workers) → All Workable todo
      → s.working ≡ before ++ todo
      → (t : Workers) × (waiting : List Work) × Quiet s t
        × (t.working ≡ before ++ waiting)
        × All IsReturning waiting
        × (length waiting + busy todo ≡ length todo)
  settle answers before [] s h e = (
    s,
    [],
    record { more = More.same; queue = refl; produced = refl; history = refl },
    e,
    tt,
    omega arith,
  )
  settle answers before (asking block ∷ rest) s (here, h) e =
      let (t, quiet, working) = ask_block answers before rest block s e in
      let (u, waiting, quiet', working', are, count) = settle answers before rest t h working in
      (u, waiting, Quiet-trans quiet quiet', working', are, omega (arith, count))
  settle answers before (consuming block left ∷ rest) s (here, h) e =
      let (t, quiet, working) = finish_block before rest block left s here e in
      let (u, waiting, quiet', working', are, count) = settle answers before rest t h working in
      (u, waiting, Quiet-trans quiet quiet', working', are, omega (arith, count))
  settle answers before (returning block ∷ rest) s (here, h) e =
      let (u, waiting, quiet, working, are, count) =
        settle answers (before ++ (returning block ∷ [])) rest s h
          (e ∙ sym (append_assoc before (returning block ∷ []) rest)) in
      (
        u,
        returning block ∷ waiting,
        quiet,
        working ∙ append_assoc before (returning block ∷ []) waiting,
        (tt, are),
        omega (arith, count),
      )
