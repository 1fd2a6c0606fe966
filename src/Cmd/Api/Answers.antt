-- ===== src/Cmd/Api/Answers.antt =====
-- When getTxByHash answers with messages, and when it panics.
use noble_cctp_relayer.Base.{
  ℕ, List, [], ◌∷◌, Text, text_eq, text_eq_iff, Bool, true, false, Option, some, none, ◌&&◌, not,
  ◌≡◌, ◌≢◌, ◌↔◌, ◌⊎◌, inl, inr, refl, arith, ap, text_key, some-injective,
}
use noble_cctp_relayer.Types.State.{MessageState, MessagePtr, TxState, TxPtr, StateMap, load}
use noble_cctp_relayer.Cmd.Api.{
  Response, is_error, parse_int32, domain_number, lookup_answer, get_tx_by_hash, after_error,
  msgs_of,
}

after_error-none : (bad : Bool) (r : Option Response) → (after_error bad r ≡ none) ↔ (r ≡ none)
after_error-none bad none = (λ e. refl, λ e. refl)
after_error-none true (some r) = (λ e. absurd (cc), λ e. absurd (cc))
after_error-none false (some r) = (λ e. absurd (cc), λ e. absurd (cc))

lookup_answer-none :
    (heap : MessagePtr → MessageState) (msgs : Option (List MessagePtr)) (domain : Text)
    (wanted : ℕ)
    → (lookup_answer heap msgs domain wanted ≡ none)
      ↔ ((domain ≢ []) × ((msgs ≡ none) ⊎ (msgs ≡ some [])))
unfolding lookup_answer
lookup_answer-none heap none domain wanted = ground (arith, text_eq_iff domain [])
lookup_answer-none heap (some []) domain wanted = ground (arith, text_eq_iff domain [])
lookup_answer-none heap (some (p ∷ ps)) domain wanted = ground (arith, text_eq_iff domain [])

missing_iff :
    (txs : TxPtr → TxState) (o : Option TxPtr)
    → ((msgs_of txs o ≡ none) ⊎ (msgs_of txs o ≡ some []))
      ↔ ((o ≡ none) ⊎ ((tx : TxPtr) × (o ≡ some tx) × ((txs tx).msgs ≡ [])))
missing_iff txs none = (λ h. inl refl, λ h. inl refl)
missing_iff txs (some tx) = (
  λ h. elim h [ inl e ↦ absurd (cc) | inr e ↦ inr (tx, refl, some-injective e) ],
  λ h. elim h [ inl e ↦ absurd (cc) | inr (tx', e, k) ↦ inr (ap some (rw (some-injective e) k)) ],
)

-- The handler panics exactly if a domain is asked for and the transaction is unknown or has no
-- messages.
pub get_tx_by_hash_panics :
    (state : StateMap) (txs : TxPtr → TxState) (heap : MessagePtr → MessageState)
    (tx_hash domain : Text)
    → (get_tx_by_hash state txs heap tx_hash domain ≡ none) ↔ (
        (domain ≢ [])
        × ((load tx_hash state ≡ none)
            ⊎ ((tx : TxPtr) × (load tx_hash state ≡ some tx) × ((txs tx).msgs ≡ []))))
unfolding get_tx_by_hash
get_tx_by_hash_panics state txs heap tx_hash domain =
    let parsed = parse_int32 domain in
    let msgs = msgs_of txs (load tx_hash state) in
    let answer = lookup_answer heap msgs domain (domain_number parsed) in
    let (strip, add) = after_error-none (not (text_eq domain []) && is_error parsed) answer in
    let (to, from) = lookup_answer-none heap msgs domain (domain_number parsed) in
    let (to', from') = missing_iff txs (load tx_hash state) in
    (
      λ e. (let (asked, gone) = to (strip e) in (asked, to' gone)),
      λ (asked, gone). add (from (asked, from' gone)),
    )
