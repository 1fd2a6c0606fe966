-- ===== src/Cosmos/Nonces.antt =====
-- cosmos/query.go: what an answer of QueryUsedNonce says of the node.
use noble_cctp_relayer.Base.{
  ℕ, List, Bool, true, false, some, ok, pos, ◌≡◌, ap, refl, [], ok-injective, inl, inr, Bool-cases,
  arith, lookup, bind_ok, wrap_ok, Text, ℤ, wrap, if◌then◌else◌, ◌⊎◌, Option, none, Result, err,
  panic,
}
use noble_cctp_relayer.Cosmos.{
  CosmosNode, Metadata, unmarshalled, unreadable_reply, CallOption, request_failed, not_unpacked,
  QueryError, or_error, unpacked, used_nonce_answer, ResponseQuery, run_grpc_query, invoke,
  query_abci, query_used_nonce, request_metadata, sdk_error_to_grpc_error, height_from_metadata,
  prove_from_metadata, check_height,
}

-- The reply of a response can be read, its interfaces as well if there is a registry of them.
abbrev Readable : {Request Reply : Type 0} → CosmosNode Request Reply → ResponseQuery → Type 0
Readable {Reply = Reply} node response =
    (reply : Reply) × (node.unmarshal response.value ≡ some reply)
    × ((node.has_registry ≡ false)
        ⊎ ((result : Reply) × (node.unpack_interfaces reply ≡ some result)))

-- For the nonce the node answers the query, which asks at height 0 and without a proof, with a
-- success and a reply that can be read.
abbrev pub SaysUsed : {Request Reply : Type 0} → CosmosNode Request Reply → (now d n : ℕ) → Type 0
SaysUsed node now d n =
    (bytes : List ℕ) × (response : ResponseQuery) × (node.marshal (node.used_nonce_request d n)
      ≡ some bytes)
    × (node.abci_query now node.used_nonce_method bytes (pos 0) false ≡ ok response)
    × (node.is_ok response ≡ true)
    × Readable node response

or_error_ok :
    {A : Type 0} (e : QueryError) (o : Option A) (a : A) → or_error e o ≡ ok a → o ≡ some a
or_error_ok e none a h = cc
or_error_ok e (some b) a h = cc

unpacked_ok :
    {Request Reply : Type 0} (node : CosmosNode Request Reply) (reply result : Reply)
    → unpacked node node.has_registry reply ≡ ok result
    → (node.has_registry ≡ false) ⊎ ((u : Reply) × (node.unpack_interfaces reply ≡ some u))
unpacked_ok node reply result e = elim (Bool-cases node.has_registry) [
  | inl registry ↦
      inr
        (result, or_error_ok not_unpacked (node.unpack_interfaces reply) result (rw registry at e))
  | inr no_registry ↦ inl no_registry
]

used_nonce_answer_ok :
    {Request Reply : Type 0} (node : CosmosNode Request Reply)
    (x : Result QueryError (Reply × List CallOption))
    → used_nonce_answer node x ≡ ok true
    → (reply : Reply × List CallOption) × (x ≡ ok reply)
used_nonce_answer_ok node (ok reply) h = (reply, refl)
used_nonce_answer_ok node (err e) h = ground arith
used_nonce_answer_ok node panic h = cc

checked_ok :
    {E A : Type 0} (test : Bool) (a b : A) (e : E)
    → ◌≡◌ {A = Result E A} (if test then ok a else err e) (ok b)
    → (a ≡ b) × (test ≡ true)
checked_ok true a b e h = (ok-injective h, refl)
checked_ok false a b e h = cc

query_abci_ok :
    {Request Reply : Type 0} (node : CosmosNode Request Reply) (now : ℕ) (path : Text)
    (bytes : List ℕ) (height : ℤ) (prove : Bool) (r : ResponseQuery)
    → query_abci node now path bytes height prove ≡ ok r
    → (node.abci_query now path bytes height prove ≡ ok r) × (node.is_ok r ≡ true)
unfolding query_abci
query_abci_ok node now path bytes height prove r e =
    let (response, answered, h) =
      bind_ok (wrap request_failed (node.abci_query now path bytes height prove)) _ r e in
    let (same, good) =
      checked_ok (node.is_ok response) response r (sdk_error_to_grpc_error node response) h in
    let heard =
      wrap_ok request_failed (node.abci_query now path bytes height prove) response answered in
    (rw same at heard, rw same at good)

-- A query without metadata is at height 0 and without a proof.
run_grpc_query_ok :
    {Request Reply : Type 0} (node : CosmosNode Request Reply) (now : ℕ) (method : Text)
    (req : Request) (r : ResponseQuery) (md : Metadata)
    → run_grpc_query node now method req [] ≡ ok (r, md)
    → (bytes : List ℕ) × (node.marshal req ≡ some bytes)
      × (node.abci_query now method bytes (pos 0) false ≡ ok r)
      × (node.is_ok r ≡ true)
unfolding run_grpc_query height_from_metadata prove_from_metadata check_height lookup
run_grpc_query_ok node now method req r md e =
    let (bytes, marshalled, h) = bind_ok (or_error unmarshalled (node.marshal req)) _ (r, md) e in
    let (response, queried, h') =
      bind_ok (query_abci node now method bytes (pos 0) false) _ (r, md) h in
    let (asked, good) = query_abci_ok node now method bytes (pos 0) false response queried in
    let same = ap (λ p. p.0) (ok-injective h') in
    (
      bytes,
      or_error_ok unmarshalled (node.marshal req) bytes marshalled,
      rw same at asked,
      rw same at good,
    )

-- QueryUsedNonce answers without an error that a nonce is used only if the node, asked for it at
-- its latest height and without a proof, has answered with a success whose reply can be read.
pub query_used_nonce-used :
    {Request Reply : Type 0} (node : CosmosNode Request Reply) (now d n : ℕ)
    → query_used_nonce node now d n ≡ ok true
    → SaysUsed node now d n
unfolding query_used_nonce invoke request_metadata
query_used_nonce-used node now d n used =
    let req = node.used_nonce_request d n in
    let (reply, invoked) = used_nonce_answer_ok node _ used in
    let ((r, md), ran, read) =
      bind_ok (run_grpc_query node now node.used_nonce_method req []) _ reply invoked in
    let (bytes, m, a, good) = run_grpc_query_ok node now node.used_nonce_method req r md ran in
    let (plain, decoded, rest) =
      bind_ok (or_error unreadable_reply (node.unmarshal r.value)) _ reply read in
    let (result, unpacking, last) = bind_ok (unpacked node node.has_registry plain) _ reply rest in
    (
      bytes,
      r,
      m,
      a,
      good,
      (
        plain,
        or_error_ok unreadable_reply (node.unmarshal r.value) plain decoded,
        unpacked_ok node plain result unpacking,
      ),
    )
