-- ===== src/Types/SequenceMap.antt =====
-- types/sequence_map.go: the next account sequence (or nonce) of the minter on each domain.
-- A uint64 wraps; the mutex makes each call one step, so calls of several workers interleave
-- as a list of calls.
pub mod Nonces
use noble_cctp_relayer.Base.{
  ℕ, ◌+◌, ◌%◌, List, [], ◌∷◌, Option, some, none, Map, lookup, insert, nat_key,
}

abbrev pub SequenceMap : Type 0
SequenceMap = Map ℕ ℕ

-- A missing key of a Go map reads as 0.
abbrev pub or_zero : Option ℕ → ℕ
or_zero none = 0
or_zero (some v) = v

unfoldable pub put : ℕ → ℕ → SequenceMap → SequenceMap
put dest_domain val m = insert dest_domain val m

unfoldable pub next : ℕ → SequenceMap → ℕ × SequenceMap
next dest_domain m =
    let result = or_zero (lookup dest_domain m) in
    (result, insert dest_domain ((result + 1) % 0x1_0000_0000_0000_0000) m)
