-- ===== src/Cosmos.antt =====
-- cosmos/grpc_shim.go and cosmos/query.go: gRPC queries as ABCI queries of a node, and the question
-- whether a nonce is used. The codec, the RPC client, the errors of the Cosmos SDK and the request of
-- the generated query client are a parameter.
pub mod Nonces
use noble_cctp_relayer.Base.{
  ℕ, zero, suc, List, [], ◌∷◌, ◌++◌, Text, text, text_eq, Bool, true, false, Option, some, none,
  Result, ok, err, panic, ◌>>=◌, wrap, ◌==◌, ltb, leb, if◌then◌else◌, ℤ, pos, negsuc, Map, lookup,
  insert, text_key, parse_uint, format_uint,
}

abbrev pub Metadata : Type 0
Metadata = Map Text (List Text)

-- grpc.CallOption: the header that it points to, or any other option.
pub data CallOption : Type 0 where
  header : Metadata → CallOption
  other_option : CallOption

-- abci.ResponseQuery.
pub record ResponseQuery : Type 0 where
  pub code : ℕ
  pub log : Text
  pub value : List ℕ
  pub height : ℤ

pub data GrpcCode : Type 0 where
  invalid_argument unauthenticated not_found unknown : GrpcCode

pub data QueryError : Type 0 where
  nil_request unmarshalled bad_height bad_prove unreadable_reply not_unpacked : QueryError
  negative_height : ℤ → QueryError
  request_failed : Text → QueryError
  status_error : GrpcCode → Text → QueryError

pub record CosmosNode (Request Reply : Type 0) : Type 0 where
  pub marshal : Request → Option (List ℕ)
  pub unmarshal : List ℕ → Option Reply
  pub has_registry : Bool
  pub unpack_interfaces : Reply → Option Reply
  pub abci_query :
      ℕ → (path : Text) → List ℕ → (height : ℤ) → (prove : Bool) → Result Text ResponseQuery
  pub is_ok : ResponseQuery → Bool
  pub invalid_request_code : ℕ
  pub unauthorized_code : ℕ
  pub key_not_found_code : ℕ
  pub block_height_header : Text  -- in lower case, as MD.Get looks it up
  pub error_text : QueryError → Text
  pub used_nonce_method : Text
  pub used_nonce_request : (source_domain nonce : ℕ) → Request

abbrev signed_int : Bool → Option ℕ → Option ℤ
signed_int negative none = none
signed_int false (some v) = if ltb v 0x8000_0000_0000_0000 then some (pos v) else none
signed_int true (some zero) = some (pos 0)
signed_int true (some (suc v)) = if ltb v 0x8000_0000_0000_0000 then some (negsuc v) else none

-- strconv.ParseInt(s, 10, 64): 45 and 43 are the signs.
unfoldable pub parse_int : Text → Option ℤ
parse_int [] = none
parse_int (c ∷ cs) =
    if c == 45
    then signed_int true (parse_uint cs)
    else if c == 43
    then signed_int false (parse_uint cs)
    else signed_int false (parse_uint (c ∷ cs))

-- strconv.FormatInt(x, 10).
unfoldable pub format_int : ℤ → Text
format_int (pos v) = format_uint v
format_int (negsuc v) = 45 ∷ format_uint (suc v)

-- strconv.ParseBool.
unfoldable pub parse_bool : Text → Option Bool
parse_bool s =
    if one_of s (text "1" ∷ text "t" ∷ text "T" ∷ text "TRUE" ∷ text "true" ∷ text "True" ∷ [])
    then some true
    else if one_of s
        (text "0" ∷ text "f" ∷ text "F" ∷ text "FALSE" ∷ text "false" ∷ text "False" ∷ [])
    then some false
    else none
  where
    one_of : Text → List Text → Bool
    one_of s [] = false
    one_of s (t ∷ ts) = if text_eq s t then true else one_of s ts

-- md.Get, with nil for a missing key.
abbrev values : Option (List Text) → List Text
values none = []
values (some vs) = vs

abbrev pub or_error {ℓ} : {A : Type ℓ} → QueryError → Option A → Result QueryError A
or_error e none = err e
or_error e (some a) = ok a

abbrev only_height : List Text → Result QueryError ℤ
only_height (s ∷ []) = or_error bad_height (parse_int s)
only_height _ = ok (pos 0)

abbrev only_prove : List Text → Result QueryError Bool
only_prove (s ∷ []) = or_error bad_prove (parse_bool s)
only_prove _ = ok false

unfoldable pub height_from_metadata : Text → Metadata → Result QueryError ℤ
height_from_metadata key md = only_height (values (lookup key md))

unfoldable pub prove_from_metadata : Metadata → Result QueryError Bool
prove_from_metadata md = only_prove (values (lookup (text "x-cosmos-query-prove") md))

abbrev not_negative : Option ℤ → Result QueryError (Unit {0})
not_negative none = err bad_height
not_negative (some (pos v)) = ok tt
not_negative (some (negsuc v)) = err (negative_height (negsuc v))

-- The test of the first height of the header, if there is one.
unfoldable pub check_height : List Text → Result QueryError (Unit {0})
check_height [] = ok tt
check_height (s ∷ rest) = not_negative (parse_int s)

abbrev add_values : Metadata → Metadata → Metadata
add_values [] md = md
add_values ((k, vs) ∷ rest) md = add_values rest (insert k (values (lookup k md) ++ vs) md)

unfoldable pub request_metadata : List CallOption → Metadata → Metadata
request_metadata [] md = md
request_metadata (other_option ∷ opts) md = request_metadata opts md
request_metadata (header h ∷ opts) md = request_metadata opts (add_values h md)

unfoldable pub set_headers : Metadata → List CallOption → List CallOption
set_headers md [] = []
set_headers md (other_option ∷ opts) = other_option ∷ set_headers md opts
set_headers md (header h ∷ opts) = header md ∷ set_headers md opts

module _ {Request Reply : Type 0} (node : CosmosNode Request Reply) where
  unfoldable pub sdk_error_to_grpc_error : ResponseQuery → QueryError
  sdk_error_to_grpc_error resp =
      if resp.code == node.invalid_request_code
      then status_error invalid_argument resp.log
      else if resp.code == node.unauthorized_code
      then status_error unauthenticated resp.log
      else if resp.code == node.key_not_found_code
      then status_error not_found resp.log
      else status_error unknown resp.log

  unfoldable pub query_abci : ℕ → Text → List ℕ → ℤ → Bool → Result QueryError ResponseQuery
  query_abci now path bytes height prove =
      wrap request_failed (node.abci_query now path bytes height prove) >>= λ response.
      if node.is_ok response then ok response else err (sdk_error_to_grpc_error response)

  unfoldable pub run_grpc_query :
      ℕ → Text → Request → Metadata → Result QueryError (ResponseQuery × Metadata)
  run_grpc_query now method req md = or_error unmarshalled (node.marshal req) >>= λ bytes.
      check_height (values (lookup node.block_height_header md)) >>= λ checked.
      height_from_metadata node.block_height_header md >>= λ height.
      prove_from_metadata md >>= λ prove. query_abci now method bytes height prove >>= λ response.
      ok (response, (node.block_height_header, format_int response.height ∷ []) ∷ [])

  abbrev pub unpacked : Bool → Reply → Result QueryError Reply
  unpacked false reply = ok reply
  unpacked true reply = or_error not_unpacked (node.unpack_interfaces reply)

  -- The reply with the call options, whose headers the call overwrites; `none` is a nil request.
  unfoldable pub invoke :
      ℕ → Text → Option Request → List CallOption → Result QueryError (Reply × List CallOption)
  invoke now method none opts = err nil_request
  invoke now method (some req) opts =
      run_grpc_query now method req (request_metadata opts []) >>= λ (response, out_md).
      or_error unreadable_reply (node.unmarshal response.value) >>= λ reply.
      unpacked node.has_registry reply >>= λ result. ok (result, set_headers out_md opts)

  abbrev pub key_not_found_text : Text
  key_not_found_text =
      text
        "rpc error: code = NotFound desc = rpc error: code = NotFound desc = not found: key not found"

  abbrev pub used_nonce_answer :
      Result QueryError (Reply × List CallOption) → Result QueryError Bool
  used_nonce_answer (ok reply) = ok true
  used_nonce_answer (err e) =
      if text_eq (node.error_text e) key_not_found_text then ok false else err e
  used_nonce_answer panic = panic

  unfoldable pub query_used_nonce : ℕ → (source_domain nonce : ℕ) → Result QueryError Bool
  query_used_nonce now source_domain nonce =
      used_nonce_answer
        (invoke now node.used_nonce_method (some (node.used_nonce_request source_domain nonce)) [])
