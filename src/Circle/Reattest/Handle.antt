-- ===== src/Circle/Reattest/Handle.antt =====
-- HandleExpiringAttestation of circle/reattest.go, in terms of the blocks left.
use noble_cctp_relayer.Base.{
  ℕ, ◌+◌, ◌^◌, ◌≤◌, ◌<◌, ◌≡◌, ◌≢◌, ◌⊎◌, inl, inr, arith, Text, true, Option, some, none, Result, ok,
  err, panic, ltb, leb, ◌==◌, refl, Bool-cases, format_uint, parse_uint, parse_uint-format_uint,
}
use noble_cctp_relayer.Http.{HttpError, http_request}
use noble_cctp_relayer.Types.Settings.{CircleSettings}
use noble_cctp_relayer.Types.State.{MessageState}
use noble_cctp_relayer.Circle.Attestation.{
  CircleApi, AttestationResponse, MessagesError, MessageResponseV2, get_attestation_v2_message,
}
use noble_cctp_relayer.Circle.Reattest.{
  ReattestResult, ReattestError, max_attempts_reached, reattestation_failed, no_result, max_retries,
  request_reattestation, handle_expiring_attestation, updated_expiration, parse_expiration_block,
}

-- The attestation expires within the buffer.
abbrev pub IsDue : CircleSettings → ℕ → MessageState → Type 0
IsDue cfg current_block msg =
    (msg.expiration_block ≢ 0)
    × (msg.expiration_block ≤ current_block + cfg.expiration_buffer_blocks)

-- The number of attempts: three if none is configured.
abbrev pub IsLimit : CircleSettings → ℕ → Type 0
IsLimit cfg limit =
    ((cfg.reattest_max_retries ≡ 0) × (limit ≡ 3))
    ⊎ ((0 < cfg.reattest_max_retries) × (limit ≡ cfg.reattest_max_retries))

max_retries-IsLimit : (cfg : CircleSettings) → IsLimit cfg (max_retries cfg)
unfolding max_retries
max_retries-IsLimit cfg = elim (Bool-cases (cfg.reattest_max_retries == 0)) [
  | inl unset ↦ inl (ground arith, ground arith)
  | inr set ↦ inr (ground arith, ground arith)
]

-- The expiration block that the answer about the message holds, in decimal digits; 0 without one.
abbrev pub IsExpirationIn : Result MessagesError MessageResponseV2 → ℕ → Type 0
IsExpirationIn (ok m) n =
    ((block : ℕ) → block < 2 ^ 64 → m.expiration_block ≡ format_uint block → n ≡ block)
    × (parse_uint m.expiration_block ≡ none → n ≡ 0)
IsExpirationIn (err e) n = n ≡ 0
IsExpirationIn panic n = n ≡ 0

updated_expiration-IsExpirationIn :
    (r : Result MessagesError MessageResponseV2) → IsExpirationIn r (updated_expiration r)
unfolding parse_expiration_block
updated_expiration-IsExpirationIn (ok m) =
    (λ block small e. rw (e, parse_uint-format_uint block small) refl, λ e. rw e refl)
updated_expiration-IsExpirationIn (err e) = refl
updated_expiration-IsExpirationIn panic = refl

module _ (api : CircleApi) (now : ℕ) (msg : MessageState) (cfg : CircleSettings)
    (current_block : ℕ) where
  -- What Circle answers about the message after the request.
  abbrev pub follow_up : Result MessagesError MessageResponseV2
  follow_up =
      get_attestation_v2_message api (now + 1) cfg.attestation_base_url msg.source_tx_hash
        msg.source_domain

  abbrev pub requested : Result HttpError AttestationResponse
  requested = request_reattestation api now cfg.attestation_base_url msg.source_domain msg.nonce

  abbrev outcome : ReattestResult × Option ReattestError
  outcome = handle_expiring_attestation api now msg cfg current_block

  abbrev pub HandleCases : ℕ → Type 0
  HandleCases limit =
      (¬ IsDue cfg current_block msg × (outcome ≡ (no_result, none)))
      ⊎ (IsDue cfg current_block msg
          × (limit ≤ msg.reattest_count)
          × (outcome ≡ (
            record no_result { should_reattest = true; exhausted_retries = true },
            some max_attempts_reached,
          )))
      ⊎ (IsDue cfg current_block msg
          × (msg.reattest_count < limit)
          × (((e : HttpError) × (requested ≡ err e)
                × (outcome ≡ (
                  record no_result { should_reattest = true; remove_from_queue = true },
                  some (reattestation_failed e),
                )))
              ⊎ ((r : AttestationResponse) × (requested ≡ ok r)
                  × (block : ℕ) × IsExpirationIn follow_up block
                  × (outcome ≡ (
                    record no_result {
                      should_reattest = true;
                      new_attestation = r.attestation;
                      new_expiration_block = block;
                    },
                    none,
                  )))))

Reply-cases :
    (r : Result HttpError AttestationResponse)
    → r ≢ panic
    → ((e : HttpError) × (r ≡ err e)) ⊎ ((a : AttestationResponse) × (r ≡ ok a))
Reply-cases (ok a) h = inr (a, refl)
Reply-cases (err e) h = inl (e, refl)
Reply-cases panic h = absurd (h refl)

-- A request to Circle returns or fails.
requested-ne-panic :
    (api : CircleApi) (now : ℕ) (base_url : Text) (d n : ℕ)
    → request_reattestation api now base_url d n ≢ panic
unfolding request_reattestation http_request
requested-ne-panic api now base_url d n = λ e. ground arith

cases :
    (api : CircleApi) (now : ℕ) (msg : MessageState) (cfg : CircleSettings) (current_block : ℕ)
    → current_block + cfg.expiration_buffer_blocks < 2 ^ 64
    → HandleCases api now msg cfg current_block (max_retries cfg)
unfolding handle_expiring_attestation
cases api now msg cfg current_block fits = elim (Bool-cases (msg.expiration_block == 0)) [
  | inl never ↦ inl (λ due. ground arith, ground arith)
  | inr set ↦
      elim (Bool-cases (ltb (current_block + cfg.expiration_buffer_blocks) msg.expiration_block)) [
        | inl fresh ↦ inl (λ due. ground arith, ground arith)
        | inr due ↦ elim (Bool-cases (leb (max_retries cfg) msg.reattest_count)) [
          | inl used_up ↦ inr (inl ((ground arith, ground arith), ground arith, ground arith))
          | inr left ↦
              elim (Reply-cases (requested api now msg cfg current_block)
                (requested-ne-panic api now cfg.attestation_base_url msg.source_domain msg.nonce)) [
                  | inl (e, failing) ↦ inr (
                      inr (
                        (ground arith, ground arith),
                        ground arith,
                        inl (e, failing, ground arith),
                      ))
                  | inr (r, answered) ↦ inr (
                      inr (
                        (ground arith, ground arith),
                        ground arith,
                        inr (
                          r,
                          answered,
                          updated_expiration (follow_up api now msg cfg current_block),
                          updated_expiration-IsExpirationIn
                              (follow_up api now msg cfg current_block),
                          ground arith,
                        ),
                      ))
                ]
        ]
      ]
]

-- While block numbers stay below 2 ^ 64: nothing is done before the attestation is within the
-- buffer of its expiry; from then on it is asked for again, unless the attempts, three by default,
-- are used up, which is an error; a failed request takes the message out of the queue, and one that
-- succeeds gives its attestation, the expiration block that Circle then answers for the message, or
-- 0 without one, and no error.
pub handle_expiring_attestation_cases :
    (api : CircleApi) (now : ℕ) (msg : MessageState) (cfg : CircleSettings) (current_block : ℕ)
    → current_block + cfg.expiration_buffer_blocks < 2 ^ 64
    → (limit : ℕ) × IsLimit cfg limit × HandleCases api now msg cfg current_block limit
handle_expiring_attestation_cases api now msg cfg current_block fits =
    (max_retries cfg, max_retries-IsLimit cfg, cases api now msg cfg current_block fits)
