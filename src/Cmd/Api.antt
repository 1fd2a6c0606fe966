-- ===== src/Cmd/Api.antt =====
-- getTxByHash of cmd/process.go, the handler of the API. `none` is a panic, which gin answers with
-- status 500.
pub mod Answers
use noble_cctp_relayer.Base.{
  ℕ, ◌+◌, ◌-◌, ◌*◌, List, [], ◌∷◌, Text, text_eq, Bool, true, false, Option, some, none, leb, ltb,
  ◌==◌, ◌&&◌, not, if◌then◌else◌,
}
use noble_cctp_relayer.Types.State.{MessageState, MessagePtr, TxState, TxPtr, StateMap, load}

-- What strconv.ParseInt(s, 10, 32) gives.
pub data ParsedInt : Type 0 where
  value : (negative : Bool) → ℕ → ParsedInt
  syntax_error : ParsedInt
  range_error : (negative : Bool) → ParsedInt

abbrev bounded : Bool → ℕ → ParsedInt
bounded true n = if leb n 0x8000_0000 then value true n else range_error true
bounded false n = if ltb n 0x8000_0000 then value false n else range_error false

-- The first digit at which the number leaves uint32 is a range error, whatever comes after it.
digits_loop : Bool → ℕ → Text → ParsedInt
digits_loop negative acc [] = bounded negative acc
digits_loop negative acc (c ∷ cs) =
    let acc' = acc * 10 + (c - 48) in
    let rest = digits_loop negative acc' cs in
    if leb 48 c && leb c 57
    then (if ltb acc' 0x1_0000_0000 then rest else range_error negative)
    else syntax_error

unsigned_digits : Bool → Text → ParsedInt
unfolding digits_loop
unsigned_digits negative [] = syntax_error
unsigned_digits negative (c ∷ cs) = digits_loop negative 0 (c ∷ cs)

unfoldable pub parse_int32 : Text → ParsedInt
unfolding unsigned_digits
parse_int32 [] = syntax_error
parse_int32 (c ∷ cs) =
    if c == 43
    then unsigned_digits false cs
    else if c == 45
    then unsigned_digits true cs
    else unsigned_digits false (c ∷ cs)

abbrev as_uint32 : Bool → ℕ → ℕ
as_uint32 true n = if n == 0 then 0 else 0x1_0000_0000 - n
as_uint32 false n = n

-- uint32(domainInt), which is 0 or the nearest int32 after an error.
unfoldable pub domain_number : ParsedInt → ℕ
domain_number (value negative n) = as_uint32 negative n
domain_number syntax_error = 0
domain_number (range_error true) = 0x8000_0000
domain_number (range_error false) = 0x7FFF_FFFF

abbrev pub is_error : ParsedInt → Bool
is_error (value negative n) = false
is_error _ = true

-- The bodies that are written, in order.
pub data Response : Type 0 where
  bad_request not_found : Response
  messages : List MessagePtr → Response

-- tx.Msgs[0].SourceDomain
abbrev first_domain : (MessagePtr → MessageState) → Option (List MessagePtr) → Option ℕ
first_domain heap none = none
first_domain heap (some []) = none
first_domain heap (some (p ∷ ps)) = some (heap p).source_domain

abbrev pub msgs_of : (TxPtr → TxState) → Option TxPtr → Option (List MessagePtr)
msgs_of txs none = none
msgs_of txs (some tx) = some (txs tx).msgs

abbrev answer_or : Option (List MessagePtr) → Response
answer_or none = not_found
answer_or (some msgs) = messages msgs

abbrev when_domain : Option (List MessagePtr) → ℕ → Option ℕ → Option Response
when_domain msgs wanted none = none
when_domain msgs wanted (some domain) =
    if domain == wanted then some (answer_or msgs) else some not_found

unfoldable pub lookup_answer :
    (MessagePtr → MessageState) → Option (List MessagePtr) → (domain : Text) → ℕ → Option Response
lookup_answer heap msgs domain wanted =
    if text_eq domain []
    then some (answer_or msgs)
    else when_domain msgs wanted (first_domain heap msgs)

abbrev pub after_error : Bool → Option Response → Option (List Response)
after_error bad none = none
after_error true (some r) = some (bad_request ∷ r ∷ [])
after_error false (some r) = some (r ∷ [])

-- An unreadable domain is answered with status 400, and the handler goes on.
unfoldable pub get_tx_by_hash :
    StateMap
    → (TxPtr → TxState)
    → (MessagePtr → MessageState)
    → (tx_hash domain : Text) → Option (List Response)
unfolding lookup_answer parse_int32 domain_number
get_tx_by_hash state txs heap tx_hash domain =
    let parsed = parse_int32 domain in
    after_error (not (text_eq domain []) && is_error parsed)
      (lookup_answer heap (msgs_of txs (load tx_hash state)) domain (domain_number parsed))
