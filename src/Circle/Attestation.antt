-- ===== src/Circle/Attestation.antt =====
-- circle/attestation.go and the responses of types/attestation.go. Circle's service is a
-- parameter: what it replies to a request, by the time of the request and its address.
pub mod Urls
pub mod Check
use noble_cctp_relayer.Base.{
  ℕ, List, [], ◌∷◌, ◌++◌, Text, text, Bool, Option, some, none, Result, ok, err, panic, ◌>>=◌, ◌&&◌,
  not, ltb, length, take, if◌then◌else◌, text_eq, format_uint,
}
use noble_cctp_relayer.Http.{Reply, HttpError, http_request}
use noble_cctp_relayer.Types.Settings.{CircleSettings, ApiVersion, v1, v2, get_api_version}

pub record AttestationResponse : Type 0 where
  pub attestation : Text
  pub status : Text

pub record MessageResponseV2 : Type 0 where
  pub message : Text
  pub attestation : Text
  pub status : Text
  pub event_nonce : Text
  pub source_domain : Text
  pub destination_domain : Text
  pub cctp_version : Text
  pub finality_threshold_executed : Text
  pub expiration_block : Text

-- `allowance` and `max_allowance` are json.Number, which is text.
pub record FastTransferAllowance : Type 0 where
  pub source_domain : Text
  pub token : Text
  pub allowance : Text
  pub max_allowance : Text

-- The three GET endpoints and the POST endpoint.
pub record CircleApi : Type 0 where
  pub get_attestation : ℕ → Text → Reply AttestationResponse
  pub get_messages : ℕ → Text → Reply (List MessageResponseV2)
  pub get_allowance : ℕ → Text → Reply FastTransferAllowance
  pub post_reattest : ℕ → Text → Reply AttestationResponse

unfoldable pub normalize_message_hash : Text → Text
normalize_message_hash hash =
    if ltb 2 (length hash) && not (text_eq (take 2 hash) (text "0x"))
    then text "0x" ++ hash
    else hash

-- strings.TrimSuffix
unfoldable pub trim_suffix : Text → Text → Text
trim_suffix suffix [] = []
trim_suffix suffix (c ∷ cs) =
    let rest = trim_suffix suffix cs in if text_eq (c ∷ cs) suffix then [] else c ∷ rest

unfoldable pub normalize_base_url : Text → Text
normalize_base_url url = trim_suffix (text "/attestations") (trim_suffix (text "/") url)

unfoldable pub build_v2_messages_url : Text → ℕ → Text → Text
build_v2_messages_url base_url source_domain tx_hash =
    base_url
    ++ (text "/v2/messages/"
        ++ (format_uint source_domain ++ (text "?transactionHash=" ++ tx_hash)))

abbrev to_option {ℓ} : {A : Type ℓ} → Result HttpError A → Option A
to_option (ok a) = some a
to_option (err e) = none
to_option panic = none

unfoldable pub check_attestation_v1 : CircleApi → ℕ → Text → Text → Option AttestationResponse
check_attestation_v1 api now base_url iris_lookup_id = to_option (
    http_request (
      api.get_attestation now (
        normalize_base_url base_url
        ++ (text "/attestations/" ++ normalize_message_hash iris_lookup_id))))

-- The request of the v2 calls.
unfoldable pub v2_messages :
    CircleApi → ℕ → Text → Text → ℕ → Result HttpError (List MessageResponseV2)
v2_messages api now base_url tx_hash source_domain = http_request (
    api.get_messages now (
      build_v2_messages_url (normalize_base_url base_url) source_domain
        (normalize_message_hash tx_hash)))

abbrev first_response : Option (List MessageResponseV2) → Option AttestationResponse
first_response none = none
first_response (some []) = none
first_response (some (msg ∷ rest)) =
    some (record { attestation = msg.attestation; status = msg.status })

unfoldable pub check_attestation_v2 : CircleApi → ℕ → Text → Text → ℕ → Option AttestationResponse
check_attestation_v2 api now base_url tx_hash source_domain =
    first_response (to_option (v2_messages api now base_url tx_hash source_domain))

abbrev by_version :
    Option ApiVersion
    → Option AttestationResponse
    → Option AttestationResponse
    → Option AttestationResponse
by_version none r1 r2 = none
by_version (some v1) r1 r2 = r1
by_version (some v2) r1 r2 = r2

unfoldable pub check_attestation :
    CircleApi → ℕ → CircleSettings → Text → Text → ℕ → Option AttestationResponse
check_attestation api now cfg iris_lookup_id tx_hash source_domain =
    by_version (get_api_version cfg)
      (check_attestation_v1 api now cfg.attestation_base_url iris_lookup_id)
      (check_attestation_v2 api now cfg.attestation_base_url tx_hash source_domain)

pub data MessagesError : Type 0 where
  request_failed : HttpError → MessagesError
  no_messages_found : MessagesError

abbrev non_empty :
    Result HttpError (List MessageResponseV2)
    → Result MessagesError (MessageResponseV2 × List MessageResponseV2)
non_empty (ok []) = err no_messages_found
non_empty (ok (m ∷ ms)) = ok (m, ms)
non_empty (err e) = err (request_failed e)
non_empty panic = panic

unfoldable pub check_attestation_v2_all :
    CircleApi → ℕ → Text → Text → ℕ → Result MessagesError (List MessageResponseV2)
check_attestation_v2_all api now base_url tx_hash source_domain = do
  (m, ms) ← non_empty (v2_messages api now base_url tx_hash source_domain)
  ok (m ∷ ms)

unfoldable pub get_attestation_v2_message :
    CircleApi → ℕ → Text → Text → ℕ → Result MessagesError MessageResponseV2
get_attestation_v2_message api now base_url tx_hash source_domain = do
  (m, ms) ← non_empty (v2_messages api now base_url tx_hash source_domain)
  ok m
