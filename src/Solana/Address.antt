-- ===== src/Solana/Address.antt =====
-- solana/address.go, and IsDestinationCaller of solana/chain.go. A public key is its bytes; the
-- base58 text of it is a parameter.
pub mod Callers
use noble_cctp_relayer.Base.{
  ℕ, List, [], ◌∷◌, Text, text, text_eq, Bool, true, false, not, Option, some, none, Result, ok,
  err, panic, ◌>>=◌, if◌then◌else◌, ◌==◌, length, take, drop, hex_decode, hex_encode, replicate,
}

-- solana.PublicKey, 32 bytes.
abbrev pub PublicKey : Type 0
PublicKey = List ℕ

pub data AddressError : Type 0 where
  invalid_hex : AddressError
  bad_length : ℕ → AddressError

unfoldable pub bytes_to_solana_public_key : List ℕ → Result AddressError PublicKey
bytes_to_solana_public_key addr_bytes =
    if not (length addr_bytes == 32) then err (bad_length (length addr_bytes)) else ok addr_bytes

-- strings.TrimPrefix(s, "0x")
unfoldable pub trim_0x : Text → Text
trim_0x s = if text_eq (take 2 s) (text "0x") then drop 2 s else s

abbrev pub checked_hex : Option (List ℕ) → Result AddressError PublicKey
checked_hex none = err invalid_hex
checked_hex (some addr_bytes) = bytes_to_solana_public_key addr_bytes

unfoldable pub hex_to_solana_public_key : Text → Result AddressError PublicKey
unfolding trim_0x bytes_to_solana_public_key
hex_to_solana_public_key hex_addr = checked_hex (hex_decode (trim_0x hex_addr))

abbrev pub compare_minter :
    (PublicKey → Text) → PublicKey → List ℕ → Result AddressError PublicKey → Bool × Text
compare_minter base58 minter caller (ok key) = (text_eq key minter, base58 key)
compare_minter base58 minter caller (err e) = (false, hex_encode caller)
compare_minter base58 minter caller panic = (false, [])

unfoldable pub is_destination_caller : (PublicKey → Text) → PublicKey → List ℕ → Bool × Text
unfolding bytes_to_solana_public_key
is_destination_caller base58 minter_address destination_caller =
    if text_eq destination_caller (replicate 32 0)
    then (true, [])
    else compare_minter base58 minter_address destination_caller
        (bytes_to_solana_public_key destination_caller)
