-- ===== src/Filters/Whitelist.antt =====
-- filters/depositor_whitelist.go, with the list that types/quicknode_kv.go fetches for it.
-- go-ethereum's address functions are parameters, and the key-value store answers by a reply.
pub mod Refresh
pub mod Initialize
pub mod Routine
use noble_cctp_relayer.Base.{
  ℕ, List, [], ◌∷◌, ◌++◌, ◌==◌, ◌||◌, ◌-◌, ltb, Text, text, Bool, true, false, Option, some, none,
  ok, err, panic, Result, ◌>>=◌, wrap, Map, lookup, insert, text_key, if◌then◌else◌, not,
  format_uint, text_eq, length, drop, hex_encode, trim_space, to_lower,
}
use noble_cctp_relayer.Http.{Reply, HttpError, http_request}
use noble_cctp_relayer.Types.Message.{BurnMessage, ParseError, parse_burn_message}
use noble_cctp_relayer.Types.State.{MessageState}
use noble_cctp_relayer.Types.Filter.{MessageFilter, FilterError}

-- common.IsHexAddress(s) and common.HexToAddress(s).Hex().
pub record AddressLibrary : Type 0 where
  pub is_hex_address : Text → Bool
  pub address_hex : Text → Text

unfoldable pub is_evm_domain : ℕ → Bool
is_evm_domain domain = not (domain == 4 || domain == 5 || domain == 15 || domain == 25)

unfoldable pub normalize_address : AddressLibrary → Text → Text
normalize_address lib address =
    let trimmed = trim_space address in
    if lib.is_hex_address trimmed then to_lower (lib.address_hex trimmed) else []

pub data DepositorError : Type 0 where
  bad_burn_message : ParseError → DepositorError
  bad_sender_length : ℕ → DepositorError

-- "0x" and the last 20 bytes in hexadecimal.
sender_address : List ℕ → Result DepositorError Text
sender_address sender =
    if ltb (length sender) 20
    then err (bad_sender_length (length sender))
    else ok (text "0x" ++ hex_encode (drop (length sender - 20) sender))

unfoldable pub get_depositor : MessageState → Result DepositorError Text
unfolding sender_address
get_depositor msg = do
  burn_msg ← wrap bad_burn_message (parse_burn_message msg.msg_body)
  sender_address burn_msg.message_sender

-- `f.whitelist`: a missing key reads as false.
abbrev pub Whitelist : Type 0
Whitelist = Map Text Bool

abbrev or_false : Option Bool → Bool
or_false none = false
or_false (some b) = b

unfoldable pub add_address : AddressLibrary → Text → Whitelist → Whitelist
add_address lib addr whitelist =
    let normalized = normalize_address lib addr in
    if text_eq normalized [] then whitelist else insert normalized true whitelist

unfoldable pub build_whitelist : AddressLibrary → List Text → Whitelist → Whitelist
build_whitelist lib [] whitelist = whitelist
build_whitelist lib (addr ∷ addrs) whitelist =
    build_whitelist lib addrs (add_address lib addr whitelist)

unfoldable pub is_whitelisted : AddressLibrary → Whitelist → Text → Bool
is_whitelisted lib whitelist address =
    let normalized = normalize_address lib address in
    if text_eq normalized [] then false else or_false (lookup normalized whitelist)

pub data FetchError : Type 0 where
  empty_key : FetchError
  failed_request : HttpError → FetchError

-- FetchList of the provider, on the reply to its request.
unfoldable pub fetch_list : Text → Reply (List Text) → Result FetchError (List Text)
fetch_list key reply =
    if text_eq key [] then err empty_key else wrap failed_request (http_request reply)

abbrev replace :
    AddressLibrary → Whitelist → Result FetchError (List Text) → Result FetchError Whitelist
replace lib old (ok addresses) = ok (build_whitelist lib addresses [])
replace lib old (err e) = err e
replace lib old panic = panic

-- The new value of `f.whitelist`. After an error the field keeps its old value.
unfoldable pub refresh :
    AddressLibrary → Text → Reply (List Text) → Whitelist → Result FetchError Whitelist
refresh lib key reply old = replace lib old (fetch_list key reply)

unfoldable pub rejected_reason : Text → MessageState → Text
rejected_reason depositor msg =
    text "non-whitelisted depositor: "
    ++ (depositor
        ++ (text " (source_domain="
            ++ (format_uint msg.source_domain
                ++ (text ", dest_domain=" ++ (format_uint msg.dest_domain ++ text ")")))))

unfoldable pub unextracted_reason : Text
unextracted_reason = text "failed to extract depositor address"

unfoldable pub depositor_answer :
    AddressLibrary
    → Whitelist
    → MessageState
    → Result DepositorError Text
    → Result FilterError (Bool × Text)
depositor_answer lib whitelist msg (ok depositor) =
    if is_whitelisted lib whitelist depositor
    then ok (false, [])
    else ok (true, rejected_reason depositor msg)
depositor_answer lib whitelist msg (err e) = ok (true, unextracted_reason)
depositor_answer lib whitelist msg panic = panic

unfoldable pub whitelist_filter :
    AddressLibrary → Whitelist → MessageState → Result FilterError (Bool × Text)
unfolding depositor_answer
whitelist_filter lib whitelist msg =
    if is_evm_domain msg.source_domain
    then depositor_answer lib whitelist msg (get_depositor msg)
    else ok (false, [])

-- The filter at a time reads the whitelist that the last refresh before it left.
unfoldable pub new_whitelist_filter : AddressLibrary → (ℕ → Whitelist) → MessageFilter
new_whitelist_filter lib whitelist_at = record {
  name = text "depositor-whitelist";
  filter = λ now msg. whitelist_filter lib (whitelist_at now) msg;
}
