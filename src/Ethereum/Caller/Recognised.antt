-- ===== src/Ethereum/Caller/Recognised.antt =====
-- Which callers an EVM chain takes for the relayer.
use noble_cctp_relayer.Base.{
  ℕ, ◌≤◌, ◌<◌, List, [], ◌∷◌, ◌++◌, Text, text, text_eq, text_eq_iff, Bool, true, false, ◌&&◌, ◌||◌,
  some, ok, panic, ltb, ◌==◌, length, drop, replicate, hex_decode, hex_value, hex_decode-HexPair,
  hex_encode, length-hex_encode, ◌≡◌, ◌↔◌, ◌⊎◌, inl, inr, refl, ap, sym, ◌∙◌, arith, All,
  Bool-cases, some-injective, take_whole,
}
use noble_cctp_relayer.Ethereum.Caller.{
  without_0x, decoded_bytes, padded, encoded_caller, is_destination_caller, recognised,
}

digit_not_x : (c h : ℕ) → hex_value c ≡ some h → (c == 120) ≡ false
digit_not_x c h e = ground arith

and_false : (b : Bool) → (b && false) ≡ false
and_false true = refl
and_false false = refl

-- A text that reads as hexadecimal has no x in it.
no_x : (s : Text) (bytes : List ℕ) → hex_decode s ≡ some bytes → All (λ c. (c == 120) ≡ false) s
unfolding hex_decode
no_x [] bytes e = tt
no_x (c ∷ []) bytes e = absurd (ground arith)
no_x (c ∷ d ∷ rest) bytes e =
    let (h, l, bs, x, y, z, k) = hex_decode-HexPair c d rest bytes e in
    (digit_not_x c h x, (digit_not_x d l y, no_x rest bs z))

without_0x-hex : (s : Text) → All (λ c. (c == 120) ≡ false) s → without_0x s ≡ s
unfolding without_0x
without_0x-hex [] h = refl
without_0x-hex (c ∷ []) h = refl
without_0x-hex (c ∷ d ∷ rest) (hc, (hd, h)) =
    rw (hd, and_false (c == 48)) (ap (◌∷◌ c) (without_0x-hex (d ∷ rest) (hd, h)))

decoded_bytes-hex :
    (s : Text) (bytes : List ℕ) → hex_decode s ≡ some bytes → decoded_bytes s ≡ bytes
unfolding decoded_bytes hex_decode
decoded_bytes-hex [] bytes e = some-injective e
decoded_bytes-hex (c ∷ []) bytes e = absurd (ground arith)
decoded_bytes-hex (c ∷ d ∷ rest) bytes e =
    let (h, l, bs, x, y, z, k) = hex_decode-HexPair c d rest bytes e in
    rw (x, y, decoded_bytes-hex rest bs z) (sym k)

stripped :
    (digits : Text) (minter : List ℕ)
    → hex_decode digits ≡ some minter
    → without_0x (text "0x" ++ digits) ≡ digits
unfolding without_0x
stripped digits minter e = without_0x-hex digits (no_x digits minter e)

padded-minter : (minter : List ℕ) → length minter ≡ 20 → padded minter ≡ replicate 12 0 ++ minter
unfolding padded
padded-minter minter n =
    ap (λ (xs : List ℕ). replicate 12 0 ++ xs) (take_whole 20 minter (replicate 20 0) n)

recognised_answer :
    (digits : Text) (minter caller : List ℕ)
    → hex_decode digits ≡ some minter
    → length minter ≡ 20
    → is_destination_caller (text "0x" ++ digits) caller
      ≡ recognised
          (text_eq caller (replicate 32 0) || text_eq caller (replicate 12 0 ++ minter))
          (encoded_caller caller)
unfolding is_destination_caller
recognised_answer digits minter caller e n =
    rw (stripped digits minter e)
      (rw e (rw (decoded_bytes-hex digits minter e) (rw (padded-minter minter n) refl)))

or_iff :
    (caller xs ys : List ℕ)
    → ((text_eq caller xs || text_eq caller ys) ≡ true) ↔ ((caller ≡ xs) ⊎ (caller ≡ ys))
or_iff caller xs ys = ground (arith, text_eq_iff caller xs, text_eq_iff caller ys)

-- For a minter address of the prefix 0x and the hexadecimal form of 20 bytes: a caller of 12 bytes
-- or more is taken for the relayer exactly if it is unset (32 zero bytes) or the minter behind 12
-- zero bytes, and the last bytes are shown; a shorter one makes the check panic.
pub is_destination_caller-recognised :
    (digits : Text) (minter caller : List ℕ)
    → hex_decode digits ≡ some minter
    → length minter ≡ 20
    → ((12 ≤ length caller)
        × (b : Bool) × (is_destination_caller (text "0x" ++ digits) caller
            ≡ ok (b, text "0x" ++ drop 24 (hex_encode caller)))
        × ((b ≡ true) ↔ ((caller ≡ replicate 32 0) ⊎ (caller ≡ replicate 12 0 ++ minter))))
      ⊎ ((length caller < 12) × (is_destination_caller (text "0x" ++ digits) caller ≡ panic))
unfolding encoded_caller
is_destination_caller-recognised digits minter caller e n =
    let answer = recognised_answer digits minter caller e n in
    elim (Bool-cases (ltb (length (hex_encode caller)) 24)) [
      | inl short ↦ inr (ground (arith, length-hex_encode caller), answer ∙ rw short refl)
      | inr long ↦ inl (
        ground (arith, length-hex_encode caller),
        text_eq caller (replicate 32 0) || text_eq caller (replicate 12 0 ++ minter),
        answer ∙ rw long refl,
        or_iff caller (replicate 32 0) (replicate 12 0 ++ minter),
      )
    ]
