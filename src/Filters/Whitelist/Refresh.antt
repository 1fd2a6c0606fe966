-- ===== src/Filters/Whitelist/Refresh.antt =====
-- Who is on the whitelist of filters/depositor_whitelist.go after a refresh.
use noble_cctp_relayer.Base.{
  List, [], ◌∷◌, Text, Bool, true, false, ok, err, panic, Result, lookup, lookup-insert, text_key,
  Any, text_eq, text_eq_iff, ◌≡◌, ◌≢◌, ◌↔◌, ◌⊎◌, inl, inr, arith, Bool-cases, refl,
}
use noble_cctp_relayer.Http.{Reply}
use noble_cctp_relayer.Types.State.{MessageState}
use noble_cctp_relayer.Filters.Whitelist.{
  AddressLibrary, Whitelist, normalize_address, add_address, build_whitelist, is_whitelisted,
  refresh, fetch_list, or_false, is_evm_domain, get_depositor, whitelist_filter, DepositorError,
  depositor_answer,
}

-- An address of the list that names the same account, in the normal form.
abbrev pub Listed : AddressLibrary → Text → List Text → Type 0
Listed lib n addrs = Any (λ a. normalize_address lib a ≡ n) addrs

on : Whitelist → Text → Bool
on w n = or_false (lookup n w)

on-add_address :
    (lib : AddressLibrary) (addr n : Text) (w : Whitelist)
    → n ≢ []
    → (on (add_address lib addr w) n ≡ true) ↔ ((normalize_address lib addr ≡ n) ⊎ (on w n ≡ true))
unfolding on add_address
on-add_address lib addr n w h = ground (
  arith,
  text_eq_iff (normalize_address lib addr) [],
  text_eq_iff (normalize_address lib addr) n,
  lookup-insert (normalize_address lib addr) n true w,
)

on-build_whitelist :
    (lib : AddressLibrary) (n : Text) (addrs : List Text) (w : Whitelist)
    → n ≢ []
    → (on (build_whitelist lib addrs w) n ≡ true) ↔ (Listed lib n addrs ⊎ (on w n ≡ true))
unfolding build_whitelist
on-build_whitelist lib n [] w h = (inr, elim [ inl e ↦ absurd e | inr e ↦ e ])
on-build_whitelist lib n (a ∷ as') w h =
    let ih = on-build_whitelist lib n as' (add_address lib a w) h in
    let step = on-add_address lib a n w h in ground (arith, ih, step)

-- The new list starts empty.
old_is_gone : {P : Type 0} (n : Text) → P ⊎ (on [] n ≡ true) → P
unfolding on lookup
old_is_gone n (inl p) = p
old_is_gone n (inr e) = absurd (cc)

-- After a refresh that fetched a list, an address is whitelisted exactly if it has a normal form
-- and some address of the list has the same one; entries that are no addresses count for nothing,
-- and nothing of the old whitelist is left.
pub is_whitelisted-refresh :
    (lib : AddressLibrary) (key : Text) (reply : Reply (List Text)) (addrs : List Text)
    (old new : Whitelist) (address : Text)
    → fetch_list key reply ≡ ok addrs
    → refresh lib key reply old ≡ ok new
    → (is_whitelisted lib new address ≡ true)
      ↔ ((normalize_address lib address ≢ []) × Listed lib (normalize_address lib address) addrs)
unfolding refresh is_whitelisted
is_whitelisted-refresh lib key reply addrs old new address fetched refreshed =
    rw built (whitelisted (Bool-cases (text_eq (normalize_address lib address) [])))
  where
    built : new ≡ build_whitelist lib addrs []
    built = ground arith

    whitelisted :
        (text_eq (normalize_address lib address) [] ≡ true)
          ⊎ (text_eq (normalize_address lib address) [] ≡ false)
        → (is_whitelisted lib (build_whitelist lib addrs []) address ≡ true) ↔ (
            (normalize_address lib address ≢ []) × Listed lib (normalize_address lib address) addrs)
    whitelisted (inl bad) =
        let is_nil = (text_eq_iff (normalize_address lib address) []).0 bad in
        ((λ h. ground arith), λ (valid, _). absurd (valid is_nil))
    whitelisted (inr good) =
        let valid : normalize_address lib address ≢ [] =
          λ e. ground (arith, text_eq_iff (normalize_address lib address) []) in
        let listed = on-build_whitelist lib (normalize_address lib address) addrs [] valid in
        (
          λ h. (
            valid,
            old_is_gone (normalize_address lib address) (listed.0 (unfold on in ground arith)),
          ),
          λ (_, h). unfold on in ground (arith, listed.1 (inl h)),
        )

depositor_answer_passes :
    (lib : AddressLibrary) (w : Whitelist) (msg : MessageState) (d : Result DepositorError Text)
    → (depositor_answer lib w msg d ≡ ok (false, []))
      ↔ ((depositor : Text) × (d ≡ ok depositor) × (is_whitelisted lib w depositor ≡ true))
unfolding depositor_answer
depositor_answer_passes lib w msg (ok depositor) =
    (λ h. (depositor, refl, ground arith), λ (d, e, h). ground arith)
depositor_answer_passes lib w msg (err e) = ground arith
depositor_answer_passes lib w msg panic = ground arith

-- What the filter decides: messages from domains without EVM addresses pass, and any other
-- passes exactly if its body is a burn message whose depositor is whitelisted.
pub whitelist_filter_passes :
    (lib : AddressLibrary) (w : Whitelist) (msg : MessageState)
    → (whitelist_filter lib w msg ≡ ok (false, [])) ↔ (
        (is_evm_domain msg.source_domain ≡ false)
        ⊎ ((depositor : Text) × (get_depositor msg ≡ ok depositor)
            × (is_whitelisted lib w depositor ≡ true)))
unfolding whitelist_filter
whitelist_filter_passes lib w msg = elim (Bool-cases (is_evm_domain msg.source_domain)) [
  | inl evm ↦ (
    λ h. inr (passes.0 (rw (evm, whitelist_filter) at h)),
    λ d. rw (evm, whitelist_filter) (passes.1 (evm_depositor evm d)),
  )
  | inr other ↦ (λ _. inl other, λ _. rw (other, whitelist_filter))
]
  where
    passes : (depositor_answer lib w msg (get_depositor msg) ≡ ok (false, [])) ↔ (
        (depositor : Text) × (get_depositor msg ≡ ok depositor)
        × (is_whitelisted lib w depositor ≡ true))
    passes = depositor_answer_passes lib w msg (get_depositor msg)

    evm_depositor :
        is_evm_domain msg.source_domain ≡ true
        → (is_evm_domain msg.source_domain ≡ false)
          ⊎ ((depositor : Text) × (get_depositor msg ≡ ok depositor)
              × (is_whitelisted lib w depositor ≡ true))
        → (depositor : Text) × (get_depositor msg ≡ ok depositor)
          × (is_whitelisted lib w depositor ≡ true)
    evm_depositor evm (inl other) = cc
    evm_depositor evm (inr d) = d
