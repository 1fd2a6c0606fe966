-- ===== src/Noble.antt =====
-- noble/chain.go: the destination caller on Noble. The bech32 encoding is a parameter.
pub mod Broadcast
pub mod Transactions
pub mod Listener
pub mod Flush
use noble_cctp_relayer.Base.{
  ℕ, List, [], ◌∷◌, Text, text_eq, Bool, true, false, Option, some, none, if◌then◌else◌, leb,
  length, drop,
}

-- The domain of Noble.
abbrev pub noble_domain : ℕ
noble_domain = 4

abbrev pub zero_caller : List ℕ
zero_caller =
    0 ∷ 0 ∷ 0 ∷ 0 ∷ 0 ∷ 0 ∷ 0 ∷ 0 ∷ 0 ∷ 0 ∷ 0 ∷ 0 ∷ 0 ∷ 0 ∷ 0 ∷ 0 ∷ 0 ∷ 0 ∷ 0 ∷ 0 ∷ 0 ∷ 0 ∷ 0 ∷ 0
    ∷ 0 ∷ 0 ∷ 0 ∷ 0 ∷ 0 ∷ 0 ∷ 0 ∷ 0 ∷ []

-- bech32.ConvertAndEncode("noble", bytes); `none` is an error.
unfoldable pub decode_destination_caller : (List ℕ → Option Text) → List ℕ → Option Text
decode_destination_caller bech32 input =
    if leb (length input) 12 then none else bech32 (drop 12 input)

abbrev compare_minter : Text → Option Text → Bool × Text
compare_minter minter none = (false, [])
compare_minter minter (some address) = (text_eq address minter, address)

unfoldable pub is_destination_caller : (List ℕ → Option Text) → Text → List ℕ → Bool × Text
unfolding decode_destination_caller
is_destination_caller bech32 minter_address destination_caller =
    if text_eq destination_caller zero_caller
    then (true, [])
    else compare_minter minter_address (decode_destination_caller bech32 destination_caller)
