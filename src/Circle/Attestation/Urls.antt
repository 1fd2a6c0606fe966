-- ===== src/Circle/Attestation/Urls.antt =====
-- The addresses that circle/attestation.go builds.
use noble_cctp_relayer.Base.{
  ℕ, ◌<◌, [], ◌∷◌, ◌++◌, Text, text, false, ◌≡◌, ◌≢◌, refl, ap, ◌∙◌, arith, length, length-append,
  text_eq, text_eq_iff, append_assoc, Bool-cases, inl, inr,
}
use noble_cctp_relayer.Circle.Attestation.{trim_suffix, normalize_base_url}

longer-ne : (s t : Text) → length t < length s → text_eq s t ≡ false
longer-ne s t h = elim (Bool-cases (text_eq s t)) [
  | inl same ↦ absurd (omega (arith, ap length ((text_eq_iff s t).0 same)))
  | inr other ↦ other
]

trim_suffix-append : (suffix s : Text) → suffix ≢ [] → trim_suffix suffix (s ++ suffix) ≡ s
unfolding trim_suffix
trim_suffix-append [] [] h = absurd (h refl)
trim_suffix-append (c ∷ cs) [] h = ground (arith, (text_eq_iff (c ∷ cs) (c ∷ cs)).1 refl)
trim_suffix-append suffix (c ∷ cs) h =
    rw (longer-ne (c ∷ (cs ++ suffix)) suffix (omega (arith, length-append cs suffix)))
      (ap (◌∷◌ c) (trim_suffix-append suffix cs h))

-- A text that ends in another character than the one of the suffix.
trim_suffix_other :
    (c d : ℕ) (s : Text) → c ≢ d → trim_suffix (c ∷ []) (s ++ (d ∷ [])) ≡ s ++ (d ∷ [])
unfolding trim_suffix
trim_suffix_other c d [] h = ground (arith, text_eq_iff (d ∷ []) (c ∷ []))
trim_suffix_other c d (x ∷ xs) h =
    rw (longer-ne (x ∷ (xs ++ (d ∷ []))) (c ∷ []) (omega (arith, length-append xs (d ∷ []))))
      (ap (◌∷◌ x) (trim_suffix_other c d xs h))

without_slash :
    (base : Text)
    → trim_suffix (text "/") (base ++ text "/attestations") ≡ base ++ text "/attestations"
without_slash base =
    rw (append_assoc base (text "/attestation") (text "s")) at
      (trim_suffix_other b'/' b's' (base ++ text "/attestation") (omega arith))

with_slash :
    (base : Text)
    → trim_suffix (text "/") (base ++ text "/attestations/") ≡ base ++ text "/attestations"
with_slash base =
    rw (append_assoc base (text "/attestations") (text "/")) at
      (trim_suffix-append (text "/") (base ++ text "/attestations") (λ e. cc))

-- The base address may be configured with the path of the v1 API, with or without a slash
-- behind it: the requests go to the same addresses.
pub normalize_base_url_forms :
    (base : Text)
    → (normalize_base_url (base ++ text "/attestations") ≡ base)
      × (normalize_base_url (base ++ text "/attestations/") ≡ base)
      × (normalize_base_url (base ++ text "/") ≡ trim_suffix (text "/attestations") base)
unfolding normalize_base_url
normalize_base_url_forms base = (
  ap (trim_suffix (text "/attestations")) (without_slash base)
      ∙ trim_suffix-append (text "/attestations") base (λ e. cc),
  ap (trim_suffix (text "/attestations")) (with_slash base)
      ∙ trim_suffix-append (text "/attestations") base (λ e. cc),
  ap (trim_suffix (text "/attestations")) (trim_suffix-append (text "/") base (λ e. cc)),
)
