-- ===== src/Types/SequenceMap/Nonces.antt =====
-- What the workers that share a SequenceMap of types/sequence_map.go are handed.
use noble_cctp_relayer.Base.{
  ℕ, zero, suc, ◌+◌, ◌%◌, ◌^◌, ◌<◌, ◌≡◌, refl, List, [], ◌∷◌, arith, length, lookup, insert,
  lookup-insert, nat_key, if◌then◌else◌, ◌==◌,
}
use noble_cctp_relayer.Types.SequenceMap.{SequenceMap, put, next, or_zero}

-- The numbers handed out for domain `d` by calls of Next on the domains of a list.
unfoldable pub handed : ℕ → List ℕ → SequenceMap → List ℕ
unfolding next
handed d [] m = []
handed d (c ∷ cs) m =
    let (result, m') = next c m in
    let rest = handed d cs m' in if c == d then result ∷ rest else rest

abbrev pub count_up : ℕ → ℕ → List ℕ
count_up start zero = []
count_up start (suc n) = start ∷ count_up (start + 1) n

abbrev pub calls_of : ℕ → List ℕ → ℕ
calls_of d [] = 0
calls_of d (c ∷ cs) = let rest = calls_of d cs in if c == d then suc rest else rest

-- What a call of Next leaves for `d`.
after_next :
    (d c v w : ℕ) (m : SequenceMap)
    → or_zero (lookup d (insert c w m)) ≡ (if c == d then w else or_zero (lookup d m))
after_next d c v w m = ground (arith, lookup-insert c d w m)

handed-count_up :
    (d : ℕ) (cs : List ℕ) (m : SequenceMap) (v : ℕ)
    → or_zero (lookup d m) ≡ v
    → v + length cs < 2 ^ 64
    → handed d cs m ≡ count_up v (calls_of d cs)
unfolding handed next
handed-count_up d [] m v e h = refl
handed-count_up d (c ∷ cs) m v e h =
    let w : ℕ = (or_zero (lookup c m) + 1) % 0x1_0000_0000_0000_0000 in
    ground (
      arith,
      after_next d c v w m,
      handed-count_up d cs (insert c w m) v,
      handed-count_up d cs (insert c w m) (v + 1),
    )

-- However calls of Next on several domains interleave, those on one domain get consecutive
-- numbers from the one that Put set, as long as the uint64 does not wrap.
pub handed-put :
    (d v : ℕ) (cs : List ℕ) (m : SequenceMap)
    → v + length cs < 2 ^ 64
    → handed d cs (put d v m) ≡ count_up v (calls_of d cs)
unfolding put
handed-put d v cs m h =
    handed-count_up d cs (insert d v m) v (ground (arith, lookup-insert d d v m)) h
