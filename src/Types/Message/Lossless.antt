-- ===== src/Types/Message/Lossless.antt =====
-- Parse loses nothing: the bytes of a message of types/message.go are those of its fields.
use noble_cctp_relayer.Base.{
  ℕ, ◌-◌, ◌≤◌, ◌<◌, ◌≡◌, List, ok, err, arith, length, append_assoc, All, IsByte, slice, slice-drop,
  length-slice, All-slice, be_uint, be_bytes, Bool-cases, inl, inr, ltb, subst, ◌⊎◌, ◌≢◌, ◌==◌,
  be_bytes-be_uint,
}
use noble_cctp_relayer.Types.Message.{
  Message, BurnMessage, message_fields, burn_message_fields, parse_message, parse_burn_message,
  invalid_message_length, invalid_burn_message_length,
}
use noble_cctp_relayer.Types.Message.Layout.{message_bytes, burn_message_bytes}

-- A number read from a slice and written again.
reread :
    (a b : ℕ) (bz : List ℕ)
    → a ≤ b
    → b ≤ length bz
    → All IsByte bz
    → be_bytes (b - a) (be_uint (slice a b bz)) ≡ slice a b bz
reread a b bz h k bytes =
    subst (λ (n : ℕ). be_bytes n (be_uint (slice a b bz)) ≡ slice a b bz) (length-slice a b bz h k)
      (be_bytes-be_uint (slice a b bz) (All-slice IsByte a b bz bytes))

message_bytes-message_fields :
    (bz : List ℕ) → 116 ≤ length bz → All IsByte bz → message_bytes (message_fields bz) ≡ bz
unfolding message_fields
message_bytes-message_fields bz h bytes = rw (
  reread 0 4 bz (omega arith) (omega arith) bytes,
  reread 4 8 bz (omega arith) (omega arith) bytes,
  reread 8 12 bz (omega arith) (omega arith) bytes,
  reread 12 20 bz (omega arith) (omega arith) bytes,
  slice-drop 84 116 bz (omega arith),
  slice-drop 52 84 bz (omega arith),
  slice-drop 20 52 bz (omega arith),
  append_assoc,
  append_assoc,
  append_assoc,
  slice-drop 12 20 bz (omega arith),
  slice-drop 8 12 bz (omega arith),
  slice-drop 4 8 bz (omega arith),
  slice-drop 0 4 bz (omega arith),
)

burn_message_bytes-burn_message_fields :
    (bz : List ℕ)
    → length bz ≡ 132
    → All IsByte bz
    → burn_message_bytes (burn_message_fields bz) ≡ bz
unfolding burn_message_fields
burn_message_bytes-burn_message_fields bz h bytes = rw (
  reread 0 4 bz (omega arith) (omega arith) bytes,
  reread 68 100 bz (omega arith) (omega arith) bytes,
  slice-drop 68 100 bz (omega arith),
  slice-drop 36 68 bz (omega arith),
  slice-drop 4 36 bz (omega arith),
  slice-drop 0 4 bz (omega arith),
)

-- On any byte string Message.Parse returns the error exactly below 116 bytes; from there on it
-- succeeds, and the fields written back in order are the input.
pub parse_message_lossless :
    (bz : List ℕ)
    → All IsByte bz
    → ((length bz < 116) × (parse_message bz ≡ err invalid_message_length))
      ⊎ ((116 ≤ length bz) × (m : Message) × (parse_message bz ≡ ok m) × (message_bytes m ≡ bz))
unfolding parse_message
parse_message_lossless bz bytes = elim (Bool-cases (ltb (length bz) 116)) [
  | inl short ↦ inl (ground arith, rw short)
  | inr long ↦ inr (
    ground arith,
    message_fields bz,
    rw long,
    message_bytes-message_fields bz (ground arith) bytes,
  )
]

-- On any byte string BurnMessage.Parse succeeds exactly at 132 bytes, and then the fields written
-- back in order are the input.
pub parse_burn_message_lossless :
    (bz : List ℕ)
    → All IsByte bz
    → ((length bz ≢ 132) × (parse_burn_message bz ≡ err invalid_burn_message_length))
      ⊎ ((length bz ≡ 132)
          × (m : BurnMessage) × (parse_burn_message bz ≡ ok m)
          × (burn_message_bytes m ≡ bz))
unfolding parse_burn_message
parse_burn_message_lossless bz bytes = elim (Bool-cases (length bz == 132)) [
  | inl exact ↦ inr (
    ground arith,
    burn_message_fields bz,
    rw exact,
    burn_message_bytes-burn_message_fields bz (ground arith) bytes,
  )
  | inr other ↦ inl (ground arith, rw other)
]
