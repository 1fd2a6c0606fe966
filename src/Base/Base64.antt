-- ===== src/Base/Base64.antt =====
-- encoding/base64: StdEncoding, whose decoding skips the characters \r and \n, wants padding and
-- does not look at the bits that the padding leaves over.
use Prim.Native.Nat.{ℕ, ◌+◌, ◌-◌, ◌*◌, ◌/◌, ◌%◌, ◌<◌}
use mathlib.Core.Path.{◌≡◌, refl, ap, ap₂, ◌∙◌, subst}
use mathlib.Core.Logic.{inl, inr}
use mathlib.Core.Bool.{false, ◌&&◌, ◌||◌}
use mathlib.Core.Option.{Option, none, some}
use mathlib.Core.List.{List, [], ◌∷◌}
use native.Mathlib.Omega.{arith}
use noble_cctp_relayer.Base.Tests.{ltb, leb, ◌==◌, if◌then◌else◌, Bool-cases}
use noble_cctp_relayer.Base.Lists.{All}
use noble_cctp_relayer.Base.Bytes.{Text, IsByte}

-- The character of a value below 64: A-Z, a-z, 0-9, + and /.
abbrev base64_char : ℕ → ℕ
base64_char n =
    if ltb n 26
    then 65 + n
    else if ltb n 52
    then 71 + n
    else if ltb n 62
    then n - 4
    else if n == 62
    then 43
    else 47

unfoldable pub base64_encode : List ℕ → Text
base64_encode [] = []
base64_encode (a ∷ []) = base64_char (a / 4) ∷ base64_char (a % 4 * 16) ∷ 61 ∷ 61 ∷ []
base64_encode (a ∷ b ∷ []) =
    base64_char (a / 4) ∷ base64_char (a % 4 * 16 + b / 16) ∷ base64_char (b % 16 * 4) ∷ 61 ∷ []
base64_encode (a ∷ b ∷ c ∷ rest) =
    base64_char (a / 4)
    ∷ base64_char (a % 4 * 16 + b / 16)
    ∷ base64_char (b % 16 * 4 + c / 64)
    ∷ base64_char (c % 64)
    ∷ base64_encode rest

abbrev base64_value : ℕ → Option ℕ
base64_value c =
    if leb 65 c && leb c 90
    then some (c - 65)
    else if leb 97 c && leb c 122
    then some (c - 71)
    else if leb 48 c && leb c 57
    then some (c + 4)
    else if c == 43
    then some 62
    else if c == 47
    then some 63
    else none

unfoldable pub without_newlines : Text → Text
without_newlines [] = []
without_newlines (c ∷ cs) =
    let rest = without_newlines cs in if c == 10 || c == 13 then rest else c ∷ rest

abbrev full : Option ℕ → Option ℕ → Option ℕ → Option ℕ → Option (List ℕ) → Option (List ℕ)
full (some p) (some q) (some r) (some s) (some bytes) =
    some ((p * 4 + q / 16) ∷ (q % 16 * 16 + r / 4) ∷ (r % 4 * 64 + s) ∷ bytes)
full _ _ _ _ _ = none

abbrev two_bytes : Option ℕ → Option ℕ → Option ℕ → Option (List ℕ)
two_bytes (some p) (some q) (some r) = some ((p * 4 + q / 16) ∷ (q % 16 * 16 + r / 4) ∷ [])
two_bytes _ _ _ = none

abbrev one_byte : Option ℕ → Option ℕ → Option (List ℕ)
one_byte (some p) (some q) = some ((p * 4 + q / 16) ∷ [])
one_byte _ _ = none

-- The last quantum of four characters, which may be padded.
abbrev last_quantum : ℕ → ℕ → ℕ → ℕ → Option (List ℕ)
last_quantum a b c d =
    if d == 61
    then (if c == 61
        then one_byte (base64_value a) (base64_value b)
        else two_bytes (base64_value a) (base64_value b) (base64_value c))
    else full (base64_value a) (base64_value b) (base64_value c) (base64_value d) (some [])

unfoldable pub quanta : Text → Option (List ℕ)
quanta [] = some []
quanta (a ∷ b ∷ c ∷ d ∷ []) = last_quantum a b c d
quanta (a ∷ b ∷ c ∷ d ∷ e ∷ rest) =
    full (base64_value a) (base64_value b) (base64_value c) (base64_value d) (quanta (e ∷ rest))
quanta _ = none

-- `none` is an error.
unfoldable pub base64_decode : Text → Option (List ℕ)
unfolding quanta without_newlines
base64_decode s = quanta (without_newlines s)

abbrev IsChar : ℕ → ℕ → Type 0
IsChar n c = (base64_value c ≡ some n) × ((c == 61) ≡ false) × ((c == 10 || c == 13) ≡ false)

base64_char-IsChar : (n : ℕ) → n < 64 → IsChar n (base64_char n)
base64_char-IsChar n h = (ground arith, ground arith, ground arith)

quanta-full :
    (a b c d : ℕ) (t : Text)
    → (d == 61) ≡ false
    → quanta (a ∷ b ∷ c ∷ d ∷ t)
      ≡ full (base64_value a) (base64_value b) (base64_value c) (base64_value d) (quanta t)
unfolding quanta
quanta-full a b c d [] h = rw h refl
quanta-full a b c d (e ∷ t) h = refl

pub base64_decode-base64_encode :
    (bytes : List ℕ) → All IsByte bytes → base64_decode (base64_encode bytes) ≡ some bytes
unfolding base64_decode base64_encode quanta without_newlines
base64_decode-base64_encode [] h = refl
base64_decode-base64_encode (a ∷ []) (ha, h) =
    let (v1, p1, n1) = base64_char-IsChar (a / 4) (omega arith) in
    let (v2, p2, n2) = base64_char-IsChar (a % 4 * 16) (omega arith) in
    rw (n1, n2, v1, v2) (ap (λ (n : ℕ). some (n ∷ [])) (omega arith))
base64_decode-base64_encode (a ∷ b ∷ []) (ha, (hb, h)) =
    let (v1, p1, n1) = base64_char-IsChar (a / 4) (omega arith) in
    let (v2, p2, n2) = base64_char-IsChar (a % 4 * 16 + b / 16) (omega arith) in
    let (v3, p3, n3) = base64_char-IsChar (b % 16 * 4) (omega arith) in
    rw (n1, n2, n3, p3, v1, v2, v3)
      (ap₂ (λ (m n : ℕ). some (m ∷ n ∷ [])) (omega arith) (omega arith))
base64_decode-base64_encode (a ∷ b ∷ c ∷ rest) (ha, (hb, (hc, h))) =
    let (v1, p1, n1) = base64_char-IsChar (a / 4) (omega arith) in
    let (v2, p2, n2) = base64_char-IsChar (a % 4 * 16 + b / 16) (omega arith) in
    let (v3, p3, n3) = base64_char-IsChar (b % 16 * 4 + c / 64) (omega arith) in
    let (v4, p4, n4) = base64_char-IsChar (c % 64) (omega arith) in
    rw (n1, n2, n3, n4)
      (quanta-full (base64_char (a / 4)) (base64_char (a % 4 * 16 + b / 16))
          (base64_char (b % 16 * 4 + c / 64)) _ (without_newlines (base64_encode rest)) p4
        ∙ rw (v1, v2, v3, v4, base64_decode-base64_encode rest h) (ground arith))

base64_value-lt : (c n : ℕ) → base64_value c ≡ some n → n < 64
base64_value-lt c n h = ground arith

abbrev AllBytes : Option (List ℕ) → Type 0
AllBytes none = Unit
AllBytes (some bytes) = All IsByte bytes

one_byte-AllBytes :
    (p q : Option ℕ)
    → ((n : ℕ) → p ≡ some n → n < 64)
    → ((n : ℕ) → q ≡ some n → n < 64)
    → AllBytes (one_byte p q)
one_byte-AllBytes none q h k = tt
one_byte-AllBytes (some x) none h k = tt
one_byte-AllBytes (some x) (some y) h k = let a = h x refl in let b = k y refl in (omega arith, tt)

two_bytes-AllBytes :
    (p q r : Option ℕ)
    → ((n : ℕ) → p ≡ some n → n < 64)
    → ((n : ℕ) → q ≡ some n → n < 64)
    → ((n : ℕ) → r ≡ some n → n < 64)
    → AllBytes (two_bytes p q r)
two_bytes-AllBytes none q r h k l = tt
two_bytes-AllBytes (some x) none r h k l = tt
two_bytes-AllBytes (some x) (some y) none h k l = tt
two_bytes-AllBytes (some x) (some y) (some z) h k l =
    let a = h x refl in let b = k y refl in let c = l z refl in (omega arith, (omega arith, tt))

full-AllBytes :
    (p q r s : Option ℕ) (rest : Option (List ℕ))
    → ((n : ℕ) → p ≡ some n → n < 64)
    → ((n : ℕ) → q ≡ some n → n < 64)
    → ((n : ℕ) → r ≡ some n → n < 64)
    → ((n : ℕ) → s ≡ some n → n < 64)
    → AllBytes rest
    → AllBytes (full p q r s rest)
full-AllBytes none q r s rest h k l m all = tt
full-AllBytes (some x) none r s rest h k l m all = tt
full-AllBytes (some x) (some y) none s rest h k l m all = tt
full-AllBytes (some x) (some y) (some z) none rest h k l m all = tt
full-AllBytes (some x) (some y) (some z) (some u) none h k l m all = tt
full-AllBytes (some x) (some y) (some z) (some u) (some bytes) h k l m all =
    let a = h x refl in
    let b = k y refl in
    let c = l z refl in let d = m u refl in (omega arith, (omega arith, (omega arith, all)))

last_quantum-AllBytes : (a b c d : ℕ) → AllBytes (last_quantum a b c d)
last_quantum-AllBytes a b c d = elim (Bool-cases (d == 61)) [
  | inl padded ↦ rw padded (elim (Bool-cases (c == 61)) [
    | inl twice ↦ rw twice (
        one_byte-AllBytes (base64_value a) (base64_value b) (base64_value-lt a) (base64_value-lt b))
    | inr once ↦ rw once (
        two_bytes-AllBytes (base64_value a) (base64_value b) (base64_value c) (base64_value-lt a)
          (base64_value-lt b) (base64_value-lt c))
  ])
  | inr unpadded ↦ rw unpadded (
      full-AllBytes (base64_value a) (base64_value b) (base64_value c) (base64_value d) (some [])
        (base64_value-lt a) (base64_value-lt b) (base64_value-lt c) (base64_value-lt d) tt)
]

quanta-AllBytes : (s : Text) → AllBytes (quanta s)
unfolding quanta
quanta-AllBytes [] = tt
quanta-AllBytes (a ∷ []) = tt
quanta-AllBytes (a ∷ b ∷ []) = tt
quanta-AllBytes (a ∷ b ∷ c ∷ []) = tt
quanta-AllBytes (a ∷ b ∷ c ∷ d ∷ []) = last_quantum-AllBytes a b c d
quanta-AllBytes (a ∷ b ∷ c ∷ d ∷ e ∷ rest) =
    full-AllBytes (base64_value a) (base64_value b) (base64_value c) (base64_value d)
      (quanta (e ∷ rest)) (base64_value-lt a) (base64_value-lt b) (base64_value-lt c)
      (base64_value-lt d) (quanta-AllBytes (e ∷ rest))

-- What is decoded is bytes.
pub base64_decode-AllBytes :
    (s : Text) (bytes : List ℕ) → base64_decode s ≡ some bytes → All IsByte bytes
unfolding base64_decode
base64_decode-AllBytes s bytes e = subst AllBytes e (quanta-AllBytes (without_newlines s))
