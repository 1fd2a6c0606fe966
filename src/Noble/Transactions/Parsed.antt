-- ===== src/Noble/Transactions/Parsed.antt =====
-- What txToMessageState reads from the events of a transaction.
use noble_cctp_relayer.Base.{
  ℕ, suc, ◌+◌, ◌-◌, ◌≤◌, List, [], ◌∷◌, ◌++◌, map, append_assoc, append-nil, Text, text, text_eq,
  text_eq_refl, Bool, true, false, some, ok, ◌≡◌, refl, ◌∙◌, arith, ltb, length, length-append,
  slice, take_whole, All, IsByte, base64_encode, base64_decode-base64_encode, subst,
}
use noble_cctp_relayer.Types.Message.{parse_message, message_fields}
use noble_cctp_relayer.Types.State.{MessageState}
use noble_cctp_relayer.Noble.Transactions.{
  Attribute, Event, ResultTx, inner, new_message_state, read_value, read_attributes, read_events,
  message_sent, tx_to_message_state,
}

abbrev quoted : List ℕ → Text
quoted raw = 34 ∷ base64_encode raw ++ (34 ∷ [])

inner-quoted : (s : Text) → inner (34 ∷ s ++ (34 ∷ [])) ≡ ok s
unfolding inner slice
inner-quoted s =
    let long : ltb (suc (length s + 1)) 2 ≡ false = ground arith in
    let cut : suc (length s + 1) - 1 - 1 ≡ length s = omega arith in
    rw (length-append s (34 ∷ []), long, cut, take_whole (length s) s (34 ∷ []) refl) refl

parse_long : (raw : List ℕ) → 116 ≤ length raw → parse_message raw ≡ ok (message_fields raw)
unfolding parse_message
parse_long raw h = let long : ltb (length raw) 116 ≡ false = ground arith in rw long refl

abbrev pub IsOther : Attribute → Type 0
IsOther attr = text_eq attr.key (text "message") ≡ false

-- The event of a message that Noble sends: one attribute holds the bytes of the message, in base64
-- and in quotes.
pub record IsSent (event : Event) (raw : List ℕ) : Type 0 where
  pub type_named : event.event_type ≡ message_sent
  pub before : List Attribute
  pub after : List Attribute
  pub shape :
      event.attributes ≡ before ++ (record { key = text "message"; value = quoted raw } ∷ after)
  pub before_others : All IsOther before
  pub after_others : All IsOther after
  pub bytes : All IsByte raw
  pub long_enough : 116 ≤ length raw

-- The events of a transaction and the messages in them, in order.
pub data Emitted : List Event → List (List ℕ) → Type 0 where
  nothing : Emitted [] []
  other :
      {event : Event} {events : List Event} {raws : List (List ℕ)}
      → text_eq event.event_type message_sent ≡ false
      → Emitted events raws
      → Emitted (event ∷ events) raws
  sent :
      {event : Event} {events : List Event} {raw : List ℕ} {raws : List (List ℕ)}
      → IsSent event raw
      → Emitted events raws
      → Emitted (event ∷ events) (raw ∷ raws)

module _ (keccak256 : List ℕ → List ℕ) (now : ℕ) (tx_hash : Text) where
  state_of : List ℕ → MessageState
  state_of raw = new_message_state keccak256 now tx_hash raw (message_fields raw)

  read_value-quoted :
      (raw : List ℕ)
      → All IsByte raw
      → 116 ≤ length raw
      → read_value keccak256 now tx_hash (quoted raw) ≡ ok (some (state_of raw))
  unfolding read_value state_of
  read_value-quoted raw bytes n =
      rw (inner-quoted (base64_encode raw))
        (rw (base64_decode-base64_encode raw bytes) (rw (parse_long raw n) refl))

  skip_others :
      (attrs rest : List Attribute) (found : Bool × List MessageState)
      → All IsOther attrs
      → read_attributes keccak256 now tx_hash (attrs ++ rest) found
        ≡ read_attributes keccak256 now tx_hash rest found
  unfolding read_attributes
  skip_others [] rest found h = refl
  skip_others (attr ∷ attrs) rest found (other_key, h) =
      rw other_key (skip_others attrs rest found h)

  only_others :
      (attrs : List Attribute) (found : Bool × List MessageState)
      → All IsOther attrs
      → read_attributes keccak256 now tx_hash attrs found ≡ ok found
  unfolding read_attributes
  only_others attrs found h =
      subst (λ xs. read_attributes keccak256 now tx_hash xs found ≡ ok found) (append-nil attrs)
        (skip_others attrs [] found h)

  read_sent :
      (event : Event) (raw : List ℕ) (states : List MessageState)
      → IsSent event raw
      → read_attributes keccak256 now tx_hash event.attributes (false, states)
        ≡ ok (true, states ++ (state_of raw ∷ []))
  unfolding read_attributes
  read_sent event raw states h = rw h.shape (
      skip_others h.before _ (false, states) h.before_others
      ∙ rw (text_eq_refl (text "message"))
          (rw (read_value-quoted raw h.bytes h.long_enough) (only_others h.after _ h.after_others)))

  read_events-Emitted :
      (events : List Event) (raws : List (List ℕ)) (states : List MessageState)
      → Emitted events raws
      → read_events keccak256 now tx_hash events states ≡ ok (states ++ map state_of raws)
  unfolding read_events
  read_events-Emitted [] [] states nothing = rw (append-nil states) refl
  read_events-Emitted [] (raw ∷ raws) states impossible = elim impossible [ ]
  read_events-Emitted (event ∷ events) raws states (other h more) =
      rw h (read_events-Emitted events raws states more)
  read_events-Emitted (event ∷ events) (raw ∷ raws) states (sent h more) =
      rw (h.type_named, text_eq_refl message_sent)
        (rw (read_sent event raw states h) (
          read_events-Emitted events raws (states ++ (state_of raw ∷ [])) more
          ∙ rw (append_assoc states (state_of raw ∷ []) (map state_of raws)) refl))

-- A transaction without an error code gives one message state for each message that its events
-- carry, in their order, whatever other events and attributes stand between them.
pub tx_to_message_state-Emitted :
    (keccak256 : List ℕ → List ℕ) (now : ℕ) (tx : ResultTx) (raws : List (List ℕ))
    → tx.code ≡ 0
    → Emitted tx.events raws
    → tx_to_message_state keccak256 now tx
      ≡ ok (map (λ raw. new_message_state keccak256 now tx.hash raw (message_fields raw)) raws)
unfolding tx_to_message_state state_of
tx_to_message_state-Emitted keccak256 now tx raws succeeded h =
    rw succeeded (read_events-Emitted keccak256 now tx.hash tx.events raws [] h)
