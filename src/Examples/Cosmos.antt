-- ===== src/Examples/Cosmos.antt =====
-- Examples for the queries of a Cosmos node.
use noble_cctp_relayer.Base.{
  ℕ, List, [], ◌∷◌, ◌++◌, Text, text, Bool, true, false, some, ok, if◌then◌else◌, ◌==◌, ◌≡◌, refl,
  arith, negsuc, pos,
}
use noble_cctp_relayer.Cosmos.{
  CosmosNode, ResponseQuery, QueryError, status_error, not_found, query_used_nonce, parse_int,
}
use noble_cctp_relayer.Cosmos.Nonces.{SaysUsed, query_used_nonce-used}

abbrev missing : ResponseQuery
missing = record {
  code = 22;
  log = text "rpc error: code = NotFound desc = not found: key not found";
  value = [];
  height = pos 0;
}

abbrev found : ResponseQuery
found = record { code = 0; log = []; value = 1 ∷ []; height = pos 900 }

-- The text of a status of gRPC.
abbrev error_text : QueryError → Text
error_text (status_error not_found log) = text "rpc error: code = NotFound desc = " ++ log
error_text _ = text "another error"

-- Nonce 7 is used, and no other.
abbrev answer : List ℕ → ResponseQuery
answer (d ∷ n ∷ []) = if n == 7 then found else missing
answer _ = missing

abbrev node : CosmosNode (ℕ × ℕ) (List ℕ)
node = record {
  marshal = λ request. some (request.0 ∷ request.1 ∷ []);
  unmarshal = λ bytes. some bytes;
  has_registry = true;
  unpack_interfaces = λ reply. some reply;
  abci_query = λ now path bytes height prove. ok (answer bytes);
  is_ok = λ response. response.code == 0;
  invalid_request_code = 18;
  unauthorized_code = 4;
  key_not_found_code = 22;
  block_height_header = text "x-cosmos-block-height";
  error_text = error_text;
  used_nonce_method = text "/circle.cctp.v1.Query/UsedNonce";
  used_nonce_request = λ domain nonce. (domain, nonce);
}

says_used : query_used_nonce node 3 0 7 ≡ ok true
unfolding query_used_nonce noble_cctp_relayer.Cosmos.invoke noble_cctp_relayer.Cosmos.run_grpc_query
    noble_cctp_relayer.Cosmos.query_abci noble_cctp_relayer.Cosmos.request_metadata
    noble_cctp_relayer.Cosmos.height_from_metadata noble_cctp_relayer.Cosmos.prove_from_metadata
    noble_cctp_relayer.Cosmos.check_height noble_cctp_relayer.Base.lookup
says_used = refl

query_used_nonce-used_example : SaysUsed node 3 0 7
query_used_nonce-used_example = query_used_nonce-used node 3 0 7 says_used

negative : parse_int (text "-12") ≡ some (negsuc 11)
unfolding parse_int noble_cctp_relayer.Base.parse_uint
negative = refl
