-- ===== src/Cmd/Start/Registered.antt =====
-- What Start of cmd/process.go has registered when it succeeds.
use noble_cctp_relayer.Base.{
  ℕ, suc, ◌+◌, List, [], ◌∷◌, Bool, Option, some, none, Result, ok, err, panic, ◌>>=◌, ◌==◌, ◌&&◌,
  Map, lookup, insert, lookup-insert, nat_key, ◌≡◌, inl, inr, refl, sym, ap, ◌∙◌, arith, All,
  length, Bool-cases, Option-cases, ok-injective, ==_iff, subst,
}
use noble_cctp_relayer.Config.{Config}
use noble_cctp_relayer.Types.World.{Chain}
use noble_cctp_relayer.Types.SequenceMap.{SequenceMap}
use noble_cctp_relayer.Types.Filter.{FilterRegistry, FilterError}
use noble_cctp_relayer.Filters.Whitelist.Initialize.{WhitelistConfig}
use noble_cctp_relayer.Cmd.Setup.{FilterLibrary, initialize_filters}
use noble_cctp_relayer.Cmd.Start.{
  ChainSetup, StartError, Registration, height_retries, wait_for_height, add_chain,
  with_broadcaster, register_chain, register_chains, start, with_filters,
}

length-insert :
    (k : ℕ) (c : Chain) (m : Map ℕ Chain)
    → lookup k m ≡ none
    → length (insert k c m) ≡ suc (length m)
unfolding lookup insert
length-insert k c [] h = refl
length-insert k c ((j, d) ∷ m) h = elim (Bool-cases (j == k)) [
  | inl same ↦ absurd (let found : some d ≡ none = rw same at h in cc)
  | inr other ↦ rw other (ap suc (length-insert k c m (rw other at h)))
]

-- Every chain that was registered is found under its domain, and stays.
abbrev Kept : Map ℕ Chain → Map ℕ Chain → Type 0
Kept m m' = (d : ℕ) (c : Chain) → lookup d m ≡ some c → lookup d m' ≡ some c

insert-Kept :
    (chain : Chain) (m : Map ℕ Chain)
    → lookup chain.domain m ≡ none
    → Kept m (insert chain.domain chain m)
insert-Kept chain m h d c e =
    rw (lookup-insert chain.domain d chain m) (elim (Bool-cases (chain.domain == d)) [
      | inl same ↦ absurd (
          let eq = (==_iff chain.domain d).0 same in
          let clash : none ≡ some c = sym h ∙ ap (λ (k : ℕ). lookup k m) eq ∙ e in cc)
      | inr other ↦ rw other e
    ])

lookup-insert_self :
    (chain : Chain) (m : Map ℕ Chain)
    → lookup chain.domain (insert chain.domain chain m) ≡ some chain
lookup-insert_self chain m =
    rw (lookup-insert chain.domain chain.domain chain m, (==_iff chain.domain chain.domain).1 refl)
      refl

abbrev pub IsRegistered : Map ℕ Chain → ChainSetup → Type 0
IsRegistered m setup = (c : Chain) × (setup.chain ≡ some c) × (lookup c.domain m ≡ some c)

abbrev Grown : Chain → Map ℕ Chain → Map ℕ Chain → Type 0
Grown c m m' = Kept m m' × (lookup c.domain m' ≡ some c) × (length m' ≡ suc (length m))

add_chain-Grown :
    (c : Chain) (m : Map ℕ Chain) (s : SequenceMap) (r : Registration)
    → add_chain c m s (lookup c.domain m) ≡ ok r
    → Grown c m r.0
add_chain-Grown c m s r e = elim (Option-cases (lookup c.domain m)) [
  | inl free ↦
      subst (λ (x : Registration). Grown c m x.0) (ok-injective (rw free at e))
        (insert-Kept c m free, lookup-insert_self c m, length-insert c.domain c m free)
  | inr (other, taken) ↦ absurd (ground arith)
]

with_broadcaster-Grown :
    (c : Chain) (m : Map ℕ Chain) (o : Option SequenceMap) (r : Registration)
    → with_broadcaster c m o ≡ ok r
    → Grown c m r.0
with_broadcaster-Grown c m none r e = absurd (ground arith)
with_broadcaster-Grown c m (some s) r e = add_chain-Grown c m s r e

register_chain-Grown :
    (setup : ChainSetup) (o : Option Chain) (r r' : Registration)
    → register_chain setup o r ≡ ok r'
    → (c : Chain) × (o ≡ some c) × Grown c r.0 r'.0
unfolding register_chain
register_chain-Grown setup none r r' e = absurd (ground arith)
register_chain-Grown setup (some c) r r' e = elim (Bool-cases setup.clients) [
  | inl up ↦ elim (Bool-cases (wait_for_height height_retries 0 setup.height)) [
    | inl seen ↦
        (c, refl, with_broadcaster-Grown c r.0 (setup.broadcaster r.1) r' (rw (up, seen) at e))
    | inr unseen ↦ absurd (let bad = rw (up, unseen) at e in ground arith)
  ]
  | inr down ↦ absurd (let bad = rw down at e in ground arith)
]

-- The result of the loop over the chains.
abbrev AllRegistered : List ChainSetup → Map ℕ Chain → Map ℕ Chain → Type 0
AllRegistered setups m m' =
    Kept m m' × All (IsRegistered m') setups × (length m' ≡ length m + length setups)

register_chains-AllRegistered :
    (setups : List ChainSetup) (r r' : Registration)
    → register_chains setups r ≡ ok r'
    → AllRegistered setups r.0 r'.0
unfolding register_chains
register_chains-AllRegistered [] r r' e =
    subst (λ (x : Registration). AllRegistered [] r.0 x.0) (ok-injective e)
      (λ d c h. h, tt, omega arith)
register_chains-AllRegistered (setup ∷ setups) r r' e =
    go (register_chain setup setup.chain r) refl e (λ m. register_chains-AllRegistered setups m r')
  where
    go :
        (first : Result StartError Registration)
        → register_chain setup setup.chain r ≡ first
        → (first >>= register_chains setups) ≡ ok r'
        → ((m : Registration) → register_chains setups m ≡ ok r' → AllRegistered setups m.0 r'.0)
        → AllRegistered (setup ∷ setups) r.0 r'.0
    go (ok m) eq h later =
        let (c, is_c, (kept, found, longer)) = register_chain-Grown setup setup.chain r m eq in
        let (kept', all, n) = later m h in
        (λ d x k. kept' d x (kept d x k), ((c, is_c, kept' c.domain c found), all), omega arith)
    go (err x) eq h later = absurd (ground arith)
    go panic eq h later = absurd (ground arith)

-- When Start gets to its processors, every configured chain was made and is found under its domain,
-- there are as many domains as chains, so that no two chains share one, and the filters are
-- those of initializeFilters over these chains.
pub start-IsRegistered :
    (lib : FilterLibrary) (cfg : Config WhitelistConfig) (setups : List ChainSetup)
    (flush_interval : ℕ) (flush_only : Bool) (registered : Registration) (registry : FilterRegistry)
    → start lib cfg setups flush_interval flush_only ≡ ok (registered, registry)
    → All (IsRegistered registered.0) setups
      × (length registered.0 ≡ length setups)
      × (initialize_filters lib cfg registered.0 ≡ ok registry)
unfolding start
start-IsRegistered lib cfg setups flush_interval flush_only registered registry e =
    elim (Bool-cases (flush_interval == 0 && flush_only)) [
      | inl bad ↦ absurd (let no = rw bad at e in ground arith)
      | inr fine ↦ chains (register_chains setups ([], [])) refl (rw fine at e)
    ]
  where
    filters :
        (m : Registration) (f : Result FilterError FilterRegistry)
        → initialize_filters lib cfg m.0 ≡ f
        → with_filters m f ≡ ok (registered, registry)
        → AllRegistered setups [] m.0
        → All (IsRegistered registered.0) setups
          × (length registered.0 ≡ length setups)
          × (initialize_filters lib cfg registered.0 ≡ ok registry)
    filters m (ok f) eq h (kept, all, n) =
        let same : m ≡ registered =
          ap (λ (x : Registration × FilterRegistry). x.0) (ok-injective h) in
        let same' : f ≡ registry =
          ap (λ (x : Registration × FilterRegistry). x.1) (ok-injective h) in
        subst
          (λ (x : Registration).
            All (IsRegistered x.0) setups
            × (length x.0 ≡ length setups)
            × (initialize_filters lib cfg x.0 ≡ ok registry))
          same (all, omega arith, eq ∙ ap ok same')
    filters m (err x) eq h k = absurd (ground arith)
    filters m panic eq h k = absurd (ground arith)

    chains :
        (r : Result StartError Registration)
        → register_chains setups ([], []) ≡ r
        → (r >>= λ m. with_filters m (initialize_filters lib cfg m.0)) ≡ ok (registered, registry)
        → All (IsRegistered registered.0) setups
          × (length registered.0 ≡ length setups)
          × (initialize_filters lib cfg registered.0 ≡ ok registry)
    chains (ok m) eq h =
        filters m (initialize_filters lib cfg m.0) refl h
          (register_chains-AllRegistered setups ([], []) m eq)
    chains (err x) eq h = absurd (ground arith)
    chains panic eq h = absurd (ground arith)
