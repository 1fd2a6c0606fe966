-- ===== src/Solana/Address/Callers.antt =====
-- Which callers Solana takes for the relayer, and which addresses solana/address.go reads.
use noble_cctp_relayer.Base.{
  ℕ, List, ◌++◌, Text, text, text_eq, text_eq_iff, true, ok, ◌≡◌, ◌↔◌, ◌⊎◌, refl, ap, inl, inr,
  arith, ◌==◌, ==_iff, length, replicate, All, IsByte, hex_encode, hex_decode-hex_encode,
  Bool-cases,
}
use noble_cctp_relayer.Solana.Address.{
  PublicKey, bytes_to_solana_public_key, hex_to_solana_public_key, trim_0x, is_destination_caller,
}

-- For a minter key of 32 bytes: the caller is taken for the relayer exactly if it is unset (32
-- zero bytes) or the key of the minter.
pub is_destination_caller_lem :
    (base58 : PublicKey → Text) (minter : PublicKey) (caller : List ℕ)
    → length minter ≡ 32
    → ((is_destination_caller base58 minter caller).0 ≡ true)
      ↔ ((caller ≡ replicate 32 0) ⊎ (caller ≡ minter))
unfolding is_destination_caller bytes_to_solana_public_key
is_destination_caller_lem base58 minter caller h =
    elim (Bool-cases (text_eq caller (replicate 32 0))) [
      | inl unset ↦ rw unset ((λ e. inl ((text_eq_iff caller (replicate 32 0)).0 unset)), λ k. refl)
      | inr other ↦ rw other (elim (Bool-cases (length caller == 32)) [
        | inl fits ↦ rw fits (
          (λ e. inr ((text_eq_iff caller minter).0 e)),
          λ k. elim k [
            | inl z ↦ absurd (let q = (text_eq_iff caller (replicate 32 0)).1 z in cc)
            | inr m ↦ (text_eq_iff caller minter).1 m
          ],
        )
        | inr short ↦ rw short (
          (λ e. absurd (cc)),
          λ k. elim k [
            | inl z ↦ absurd (let q = (text_eq_iff caller (replicate 32 0)).1 z in cc)
            | inr m ↦ absurd (
                let q = ap (λ (xs : List ℕ). length xs) m in
                grind (arith, ==_iff (length caller) 32))
          ],
        )
      ])
    ]

-- The hexadecimal form of a key is read back, with the prefix 0x.
pub hex_to_solana_public_key-hex_encode :
    (key : PublicKey)
    → All IsByte key
    → length key ≡ 32
    → hex_to_solana_public_key (text "0x" ++ hex_encode key) ≡ ok key
unfolding hex_to_solana_public_key trim_0x bytes_to_solana_public_key text_eq
hex_to_solana_public_key-hex_encode key h n = rw (hex_decode-hex_encode key h) (rw n refl)
