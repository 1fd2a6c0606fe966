-- ===== src/Ethereum/Stream/Gathered.antt =====
-- consumeStream of ethereum/listener.go neither loses nor mixes up messages.
use noble_cctp_relayer.Base.{
  List, [], ◌∷◌, ◌++◌, append_assoc, append-nil, Option, some, none, some-injective, text_eq,
  text_eq_iff, ok, err, panic, ◌≡◌, refl, sym, ap, ◌∙◌, inl, inr, All, All-append, subst,
  Bool-cases,
}
use noble_cctp_relayer.Types.State.{MessageState}
use noble_cctp_relayer.Ethereum.History.{ObservedTx}
use noble_cctp_relayer.Ethereum.Stream.{
  StreamEvent, stream_log, nothing_waits, StreamState, on_message, on_default, on_event,
  consume_stream, initial,
}

-- The messages of the logs that parse, in the order of the stream.
abbrev pub parsed : List StreamEvent → List MessageState
parsed [] = []
parsed (stream_log (ok m) ∷ es) = m ∷ parsed es
parsed (stream_log (err e) ∷ es) = parsed es
parsed (stream_log panic ∷ es) = parsed es
parsed (nothing_waits ∷ es) = parsed es

abbrev pub messages : List ObservedTx → List MessageState
messages [] = []
messages (tx ∷ older) = messages older ++ tx.msgs

abbrev pub held : Option ObservedTx → List MessageState
held none = []
held (some tx) = tx.msgs

-- All messages taken from the stream so far, in order.
abbrev pub taken : StreamState → List MessageState
taken s = messages s.queued ++ held s.tx_state

abbrev pub IsOneTx : ObservedTx → Type 0
IsOneTx tx = All (λ m. m.source_tx_hash ≡ tx.tx_hash) tx.msgs

abbrev HeldIsOneTx : Option ObservedTx → Type 0
HeldIsOneTx none = Unit {0}
HeldIsOneTx (some tx) = IsOneTx tx

abbrev pub IsSorted : StreamState → Type 0
IsSorted s = All IsOneTx s.queued × HeldIsOneTx s.tx_state

on_message_lem :
    (tx : Option ObservedTx) (m : MessageState) (queued : List ObservedTx)
    → (taken (on_message tx m queued)
        ≡ taken (record { tx_state = tx; queued = queued }) ++ (m ∷ []))
      × (IsSorted (record { tx_state = tx; queued = queued }) → IsSorted (on_message tx m queued))
unfolding on_message
on_message_lem none m queued = (rw append-nil, λ h. (h.0, (refl, tt)))
on_message_lem (some tx) m queued = elim (Bool-cases (text_eq m.source_tx_hash tx.tx_hash)) [
  | inl same ↦ rw same (
    sym (append_assoc (messages queued) tx.msgs (m ∷ [])),
    λ h. (
      h.0,
      All-append (λ m. m.source_tx_hash ≡ tx.tx_hash) tx.msgs (m ∷ []) h.1
          ((text_eq_iff _ _).0 same, tt),
    ),
  )
  | inr other ↦ rw other (refl, λ h. ((h.1, h.0), (refl, tt)))
]

on_default_lem :
    (tx : Option ObservedTx) (queued : List ObservedTx)
    → (taken (on_default tx queued) ≡ taken (record { tx_state = tx; queued = queued }))
      × (IsSorted (record { tx_state = tx; queued = queued }) → IsSorted (on_default tx queued))
unfolding on_default
on_default_lem none queued = (refl, λ h. h)
on_default_lem (some tx) queued = (append-nil _, λ h. ((h.1, h.0), tt))

consume_stream_from :
    (es : List StreamEvent) (s s' : StreamState)
    → consume_stream es s ≡ some s'
    → (taken s' ≡ taken s ++ parsed es) × (IsSorted s → IsSorted s')
unfolding consume_stream on_event
consume_stream_from [] s s' e = (
  ap taken (sym (some-injective e)) ∙ sym (append-nil _),
  λ h. subst IsSorted (some-injective e) h,
)
consume_stream_from (stream_log (ok m) ∷ es) s s' e =
    let later = consume_stream_from es (on_message s.tx_state m s.queued) s' e in
    let now = on_message_lem s.tx_state m s.queued in
    (
      later.0
          ∙ ap (λ (l : List MessageState). l ++ parsed es) now.0
          ∙ append_assoc (taken s) (m ∷ []) (parsed es),
      λ h. later.1 (now.1 h),
    )
consume_stream_from (stream_log (err x) ∷ es) s s' e = consume_stream_from es s s' e
consume_stream_from (stream_log panic ∷ es) s s' e = absurd (cc)
consume_stream_from (nothing_waits ∷ es) s s' e =
    let later = consume_stream_from es (on_default s.tx_state s.queued) s' e in
    let now = on_default_lem s.tx_state s.queued in
    (later.0 ∙ ap (λ (l : List MessageState). l ++ parsed es) now.0, λ h. later.1 (now.1 h))

-- Whatever the moments at which the worker finds no log waiting: the transactions put on the
-- queue, with the one still held, have the messages of the stream, all of them in their order,
-- and each transaction has messages of its own hash only.
pub consume_stream_lem :
    (es : List StreamEvent) (s : StreamState)
    → consume_stream es initial ≡ some s
    → (taken s ≡ parsed es) × IsSorted s
consume_stream_lem es s e =
    let result = consume_stream_from es initial s e in (result.0, result.1 (tt, tt))
