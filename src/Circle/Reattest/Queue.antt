-- ===== src/Circle/Reattest/Queue.antt =====
-- RemoveMessageFromQueue of circle/reattest.go.
use noble_cctp_relayer.Base.{
  ℕ, ◌≡◌, ◌≢◌, arith, List, [], ◌∷◌, Option, some, none, if◌then◌else◌, ◌==◌, lookup, lookup-insert,
  lookup-erase, nat_key, All, Option-cases, inl, inr,
}
use noble_cctp_relayer.Types.State.{MessagePtr}
use noble_cctp_relayer.Circle.Reattest.{Batches, without, put_back, remove_message_from_queue}

abbrev pub or_empty : Option (List MessagePtr) → List MessagePtr
or_empty none = []
or_empty (some ms) = ms

-- The batch of a domain.
abbrev pub batch : ℕ → Batches → List MessagePtr
batch d queue = or_empty (lookup d queue)

put_back_lem :
    (d j : ℕ) (ms : List MessagePtr) (queue : Batches)
    → (batch j (put_back d ms queue) ≡ (if d == j then ms else batch j queue))
      × (lookup d (put_back d ms queue) ≢ some [])
put_back_lem d j [] queue = ground (arith, lookup-erase d j queue, lookup-erase d d queue)
put_back_lem d j (m ∷ ms) queue =
    ground (arith, lookup-insert d j (m ∷ ms) queue, lookup-insert d d (m ∷ ms) queue)

without-All : (msg : MessagePtr) (ms : List MessagePtr) → All (λ m. m ≢ msg) (without msg ms)
unfolding without
without-All msg [] = tt
without-All msg (m ∷ ms) = ground (arith, without-All msg ms)

-- The message leaves the batch of its domain, in which the rest keep their order; the other
-- batches stay, and no empty batch is left behind, if there was none.
pub remove_message_from_queue_lem :
    (msg : MessagePtr) (d j : ℕ) (queue : Batches)
    → lookup d queue ≢ some []
    → (batch j (remove_message_from_queue msg d queue)
        ≡ (if d == j then without msg (batch d queue) else batch j queue))
      × (lookup d (remove_message_from_queue msg d queue) ≢ some [])
      × All (λ m. m ≢ msg) (batch d (remove_message_from_queue msg d queue))
unfolding remove_message_from_queue without
remove_message_from_queue_lem msg d j queue h = elim (Option-cases (lookup d queue)) [
  | inl missing ↦ ground arith
  | inr (ms, found) ↦ ground (
    arith,
    put_back_lem d j (without msg ms) queue,
    put_back_lem d d (without msg ms) queue,
    without-All msg ms,
  )
]
