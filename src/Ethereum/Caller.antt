-- ===== src/Ethereum/Caller.antt =====
-- IsDestinationCaller of ethereum/chain.go.
pub mod Recognised
use noble_cctp_relayer.Base.{
  ℕ, ◌+◌, ◌*◌, List, [], ◌∷◌, ◌++◌, Text, text, text_eq, Bool, true, false, ◌&&◌, ◌||◌, Option,
  some, none, Result, ok, panic, ltb, ◌==◌, if◌then◌else◌, length, take, drop, replicate,
  hex_decode, hex_encode,
}

-- strings.ReplaceAll(s, "0x", "")
unfoldable pub without_0x : Text → Text
without_0x [] = []
without_0x (c ∷ []) = c ∷ []
without_0x (c ∷ d ∷ rest) =
    let kept = without_0x (d ∷ rest) in
    let cut = without_0x rest in if c == 48 && d == 120 then cut else c ∷ kept

abbrev prefix_bytes : Option (List ℕ) → List ℕ → List ℕ
prefix_bytes none rest = []
prefix_bytes (some bytes) rest = bytes ++ rest

-- The bytes that hex.DecodeString returns, with an error or without: those in front of the first
-- pair that cannot be read.
unfoldable pub decoded_bytes : Text → List ℕ
decoded_bytes (c ∷ d ∷ rest) = prefix_bytes (hex_decode (c ∷ d ∷ [])) (decoded_bytes rest)
decoded_bytes _ = []

abbrev pub is_none : Option (List ℕ) → Bool
is_none none = true
is_none (some bytes) = false

-- copy(decodedMinterPadded[12:], decodedMinter)
unfoldable pub padded : List ℕ → List ℕ
padded minter = replicate 12 0 ++ take 20 (minter ++ replicate 20 0)

-- "0x" + hex.EncodeToString(destinationCaller)[24:], which panics on a shorter text.
unfoldable pub encoded_caller : List ℕ → Result ⊥ Text
encoded_caller caller =
    let digits = hex_encode caller in
    if ltb (length digits) 24 then panic else ok (text "0x" ++ drop 24 digits)

abbrev pub recognised : Bool → Result ⊥ Text → Result ⊥ (Bool × Text)
recognised is_caller (ok address) = ok (is_caller, address)
recognised is_caller _ = panic

unfoldable pub is_destination_caller : (minter_address : Text) → List ℕ → Result ⊥ (Bool × Text)
unfolding without_0x decoded_bytes padded encoded_caller
is_destination_caller minter_address caller =
    let digits = without_0x minter_address in
    if is_none (hex_decode digits) && text_eq caller (replicate 32 0)
    then ok (true, [])
    else recognised
        (text_eq caller (replicate 32 0) || text_eq caller (padded (decoded_bytes digits)))
        (encoded_caller caller)
