-- ===== src/Noble/Transactions/Sound.antt =====
-- Every message state that txToMessageState gives comes from a message, and no MessageSent event
-- is passed over.
use noble_cctp_relayer.Base.{
  ℕ, suc, ◌+◌, ◌≤◌, List, [], ◌∷◌, Text, text, text_eq, Bool, true, false, Option, some, none,
  Result, ok, err, panic, ◌>>=◌, ◌≡◌, refl, arith, inl, inr, length, length-append, All, All-append,
  Bool-cases, if◌then◌else◌, ◌==◌, base64_decode, base64_decode-AllBytes, IsByte, subst,
  ok-injective, hex_encode,
}
use noble_cctp_relayer.Types.Message.{Message, ParseError, parse_message}
use noble_cctp_relayer.Types.State.{MessageState, created}
use noble_cctp_relayer.Noble.Transactions.{
  Attribute, Event, ResultTx, TxError, inner, from_message, from_decoded, add_found,
  new_message_state, read_value, read_attributes, checked, read_events, message_sent,
  tx_to_message_state,
}

-- What holds of the value, if the call returns one.
abbrev Yields {ℓ} : {E : Type 0} {A : Type ℓ} → (A → Type 0) → Result E A → Type 0
Yields P (ok a) = P a
Yields P _ = Unit

bind-Yields {ℓ κ} :
    {E : Type 0} {A : Type ℓ} {B : Type κ} (P : A → Type 0) (Q : B → Type 0) (r : Result E A)
    (k : A → Result E B)
    → Yields P r
    → ((a : A) → P a → Yields Q (k a))
    → Yields Q (r >>= k)
bind-Yields P Q (ok a) k h f = f a h
bind-Yields P Q (err e) k h f = tt
bind-Yields P Q panic k h f = tt

map-Yields {ℓ} :
    {E : Type 0} {A : Type ℓ} (P Q : A → Type 0) (r : Result E A)
    → ((a : A) → P a → Q a)
    → Yields P r
    → Yields Q r
map-Yields P Q (ok a) f h = f a h
map-Yields P Q (err e) f h = tt
map-Yields P Q panic f h = tt

-- The number of MessageSent events.
unfoldable pub count_sent : List Event → ℕ
count_sent [] = 0
count_sent (event ∷ events) =
    let rest = count_sent events in if text_eq event.event_type message_sent then suc rest else rest

-- What the message state takes over from the message, its bytes and the transaction.
pub record Describes (keccak256 : List ℕ → List ℕ) (tx_hash : Text) (raw : List ℕ) (msg : Message)
    (m : MessageState) : Type 0 where
  pub lookup_id : m.iris_lookup_id ≡ hex_encode (keccak256 raw)
  pub starts_created : m.status ≡ created
  pub from_domain : m.source_domain ≡ msg.source_domain
  pub to_domain : m.dest_domain ≡ msg.destination_domain
  pub of_tx : m.source_tx_hash ≡ tx_hash
  pub sent : m.msg_sent_bytes ≡ raw
  pub body : m.msg_body ≡ msg.message_body
  pub caller : m.destination_caller ≡ msg.destination_caller
  pub same_nonce : m.nonce ≡ msg.nonce

abbrev pub IsReadFrom : (List ℕ → List ℕ) → Text → MessageState → Type 0
IsReadFrom keccak256 tx_hash m =
    (raw : List ℕ) × (msg : Message) × All IsByte raw
    × (parse_message raw ≡ ok msg)
    × Describes keccak256 tx_hash raw msg m

module _ (keccak256 : List ℕ → List ℕ) (now : ℕ) (tx_hash : Text) where
  abbrev Good : MessageState → Type 0
  Good m = IsReadFrom keccak256 tx_hash m

  abbrev GoodOption : Option MessageState → Type 0
  GoodOption none = Unit
  GoodOption (some m) = Good m

  from_decoded-Good :
      (o : Option (List ℕ))
      → ((raw : List ℕ) → o ≡ some raw → All IsByte raw)
      → GoodOption (from_decoded keccak256 now tx_hash o)
  unfolding new_message_state
  from_decoded-Good none bytes = tt
  from_decoded-Good (some raw) bytes = go (parse_message raw) refl
    where
      go :
          (r : Result ParseError Message)
          → parse_message raw ≡ r
          → GoodOption (from_message keccak256 now tx_hash raw r)
      go (ok msg) e = (
        raw,
        msg,
        bytes raw refl,
        e,
        record {
          lookup_id = refl;
          starts_created = refl;
          from_domain = refl;
          to_domain = refl;
          of_tx = refl;
          sent = refl;
          body = refl;
          caller = refl;
          same_nonce = refl;
        },
      )
      go (err x) e = tt
      go panic e = tt

  read_value-Good : (value : Text) → Yields GoodOption (read_value keccak256 now tx_hash value)
  unfolding read_value
  read_value-Good value =
      bind-Yields (λ s. Unit {0}) GoodOption (inner value) _ (trivial (inner value))
        (λ encoded _. from_decoded-Good (base64_decode encoded) (base64_decode-AllBytes encoded))
    where
      trivial : (r : Result TxError Text) → Yields (λ s. Unit {0}) r
      trivial (ok s) = tt
      trivial (err e) = tt
      trivial panic = tt

  -- The loop over the attributes of an event that began with `base` message states.
  abbrev Inside : ℕ → Bool × List MessageState → Type 0
  Inside base (parsed, states) =
      All Good states × (base ≤ length states) × (parsed ≡ true → suc base ≤ length states)

  add_found-Inside :
      (base : ℕ) (o : Option MessageState) (found : Bool × List MessageState)
      → GoodOption o
      → Inside base found
      → Inside base (add_found o found)
  add_found-Inside base none found good h = h
  add_found-Inside base (some m) (parsed, states) good (all, enough, more) = (
    All-append Good states (m ∷ []) all (good, tt),
    omega (arith, length-append states (m ∷ [])),
    λ e. omega (arith, length-append states (m ∷ [])),
  )

  read_attributes-Inside :
      (base : ℕ) (attrs : List Attribute) (found : Bool × List MessageState)
      → Inside base found
      → Yields (Inside base) (read_attributes keccak256 now tx_hash attrs found)
  unfolding read_attributes
  read_attributes-Inside base [] found h = h
  read_attributes-Inside base (attr ∷ attrs) found h =
      elim (Bool-cases (text_eq attr.key (text "message"))) [
        | inl named ↦ rw named (
            bind-Yields GoodOption (Inside base) (read_value keccak256 now tx_hash attr.value) _
              (read_value-Good attr.value)
              (λ o good.
                read_attributes-Inside base attrs (add_found o found)
                  (add_found-Inside base o found good h)))
        | inr other ↦ rw other (read_attributes-Inside base attrs found h)
      ]

  checked-Good :
      (base : ℕ) (found : Bool × List MessageState)
      → Inside base found
      → Yields (λ states. All Good states × (suc base ≤ length states)) (checked tx_hash found)
  checked-Good base (true, states) (all, enough, more) = (all, more refl)
  checked-Good base (false, states) h = tt

  read_events-Good :
      (events : List Event) (states : List MessageState)
      → All Good states
      → Yields
          (λ found. All Good found × (length states + count_sent events ≤ length found))
          (read_events keccak256 now tx_hash events states)
  unfolding read_events count_sent
  read_events-Good [] states h = (h, omega arith)
  read_events-Good (event ∷ events) states h =
      let base = length states in
      elim (Bool-cases (text_eq event.event_type message_sent)) [
        | inl named ↦ rw named (
            bind-Yields (λ found. All Good found × (suc base ≤ length found)) _
              (read_attributes keccak256 now tx_hash event.attributes (false, states)
                >>= checked tx_hash)
              _
              (bind-Yields (Inside base) _ _ (checked tx_hash)
                (read_attributes-Inside base event.attributes (false, states)
                  (h, omega arith, λ e. absurd (cc)))
                (checked-Good base))
              (λ states' (all, more).
                map-Yields _ _ (read_events keccak256 now tx_hash events states')
                  (λ found (good, enough). (good, omega arith))
                  (read_events-Good events states' all)))
        | inr other ↦ rw other (read_events-Good events states h)
      ]

-- When the transaction is accepted, each message state is created for a message that parses: it has
-- the hash and the bytes of the message, and the domains, nonce, caller and body that parse from
-- them; and there is at least one for each MessageSent event.
pub tx_to_message_state_sound :
    (keccak256 : List ℕ → List ℕ) (now : ℕ) (tx : ResultTx) (states : List MessageState)
    → tx_to_message_state keccak256 now tx ≡ ok states
    → All (IsReadFrom keccak256 tx.hash) states
      × (tx.code ≡ 0 → count_sent tx.events ≤ length states)
unfolding tx_to_message_state
tx_to_message_state_sound keccak256 now tx states e = elim (Bool-cases (tx.code == 0)) [
  | inl zero_code ↦
      let good = read_events-Good keccak256 now tx.hash tx.events [] tt in
      let e' : read_events keccak256 now tx.hash tx.events [] ≡ ok states = rw zero_code at e in
      let (all, enough) = subst (Yields _) e' good in (all, λ c. omega arith)
  | inr other ↦
      let e' : ok [] ≡ ok states = rw other at e in
      subst
        (λ xs.
          All (IsReadFrom keccak256 tx.hash) xs × (tx.code ≡ 0 → count_sent tx.events ≤ length xs))
        (ok-injective e') (tt, λ c. absurd (ground arith))
]
