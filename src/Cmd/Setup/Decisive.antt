-- ===== src/Cmd/Setup/Decisive.antt =====
-- The filters of the registry give a reason only when they match, and a registry of such filters
-- lets a message pass only if each of them does.
use noble_cctp_relayer.Base.{
  ℕ, List, [], ◌∷◌, Text, text_eq, Bool, true, false, Option, some, none, Result, ok, err, panic,
  ◌≡◌, refl, ◌↔◌, arith, All, Map, lookup, nat_key, text_key, if◌then◌else◌, not, ◌||◌, ltb, ◌==◌,
}
use noble_cctp_relayer.Config.{Config}
use noble_cctp_relayer.Types.State.{MessageState}
use noble_cctp_relayer.Types.World.{Chain}
use noble_cctp_relayer.Types.Filter.{
  MessageFilter, FilterError, FilterRegistry, or_else, filter_message,
}
use noble_cctp_relayer.Filters.Route.{new_route_filter, route_filter, route_answer, contains}
use noble_cctp_relayer.Filters.DestinationCaller.{
  new_destination_caller_filter, destination_caller_filter, chain_answer, caller_answer,
}
use noble_cctp_relayer.Filters.LowTransfer.{
  BurnParse, amount, unparsed, new_low_transfer_filter, low_transfer_filter, low_answer,
  get_min_mint_amount,
}
use noble_cctp_relayer.Filters.Whitelist.{
  AddressLibrary, Whitelist, DepositorError, new_whitelist_filter, whitelist_filter,
  depositor_answer, is_evm_domain, is_whitelisted, get_depositor,
}
use noble_cctp_relayer.Filters.Whitelist.Initialize.{WhitelistConfig}
use noble_cctp_relayer.Cmd.Setup.{FilterLibrary}

-- A filter without errors, which gives a reason only when it matches.
abbrev pub Verdict : Result FilterError (Bool × Text) → Type 0
Verdict (ok (true, reason)) = Unit
Verdict (ok (false, reason)) = reason ≡ []
Verdict (err e) = ⊥
Verdict panic = Unit

abbrev pub IsDecisive : MessageFilter → Type 0
IsDecisive f = (now : ℕ) (msg : MessageState) → Verdict (f.filter now msg)

pub either {ℓ} :
    {A : Type ℓ} (P : A → Type 0) (b : Bool) {x y : A} → P x → P y → P (if b then x else y)
either P true h k = h
either P false h k = k

pub route-IsDecisive : (routes : Map ℕ (List ℕ)) → IsDecisive (new_route_filter routes)
unfolding new_route_filter route_filter route_answer
route-IsDecisive routes now msg = go (lookup msg.source_domain routes)
  where
    go : (o : Option (List ℕ)) → Verdict (ok (route_answer o msg))
    go none = tt
    go (some dests) = either (λ a. Verdict (ok a)) (contains msg.dest_domain dests) refl tt

pub caller-IsDecisive :
    (domains : Map ℕ Chain) (only : Bool) → IsDecisive (new_destination_caller_filter domains only)
unfolding new_destination_caller_filter destination_caller_filter chain_answer caller_answer
caller-IsDecisive domains only now msg = go (lookup msg.dest_domain domains)
  where
    answered : (a : Result ⊥ (Bool × Text)) → Verdict (caller_answer only msg a)
    answered (ok (true, address)) = refl
    answered (ok (false, address)) = either Verdict (only || not (text_eq address [])) tt refl
    answered (err e) = elim e [ ]
    answered panic = tt

    go : (o : Option Chain) → Verdict (chain_answer only msg o)
    go none = tt
    go (some chain) = answered (chain.is_destination_caller msg.destination_caller)

pub low-IsDecisive :
    (lib : FilterLibrary) (cfg : Config WhitelistConfig)
    → IsDecisive (new_low_transfer_filter lib.parse_burn cfg.chains)
unfolding new_low_transfer_filter low_transfer_filter low_answer
low-IsDecisive lib cfg now msg =
    go (get_min_mint_amount cfg.chains msg.dest_domain) (lib.parse_burn msg.msg_body)
  where
    go : (least : ℕ) (p : BurnParse) → Verdict (ok (low_answer least msg.dest_domain p))
    go least (unparsed error) = tt
    go least (amount burned) =
        either (λ a. Verdict (ok a)) (least == 0) refl
          (either (λ a. Verdict (ok a)) (ltb burned least) tt refl)

pub whitelist-IsDecisive :
    (lib : AddressLibrary) (list : ℕ → Whitelist) → IsDecisive (new_whitelist_filter lib list)
unfolding new_whitelist_filter whitelist_filter depositor_answer
whitelist-IsDecisive lib list now msg =
    either Verdict (is_evm_domain msg.source_domain) (go (get_depositor msg)) refl
  where
    go : (d : Result DepositorError Text) → Verdict (depositor_answer lib (list now) msg d)
    go (ok depositor) = either Verdict (is_whitelisted lib (list now) depositor) refl tt
    go (err e) = tt
    go panic = tt

pub first_passes :
    (a : Result FilterError (Bool × Text)) (rest : Result ⊥ (Bool × Text))
    → Verdict a
    → (or_else a rest ≡ ok (false, [])) ↔ ((a ≡ ok (false, [])) × (rest ≡ ok (false, [])))
first_passes (ok (true, reason)) rest v =
    (λ e. absurd (ground arith), λ (e, h). absurd (ground arith))
first_passes (ok (false, reason)) rest v = (λ e. (rw v refl, e), λ (e, h). h)
first_passes (err e) rest v = absurd v
first_passes panic rest v = (λ e. absurd (ground arith), λ (e, h). absurd (ground arith))

pub registry_passes :
    (r : FilterRegistry) (now : ℕ) (msg : MessageState)
    → All IsDecisive r
    → (filter_message r now msg ≡ ok (false, [])) ↔ All (λ f. f.filter now msg ≡ ok (false, [])) r
unfolding filter_message
registry_passes [] now msg h = (λ e. tt, λ h. refl)
registry_passes (f ∷ fs) now msg (decisive, h) =
    let (to, from) =
      first_passes (f.filter now msg) (filter_message fs now msg) (decisive now msg) in
    let (to', from') = registry_passes fs now msg h in
    (λ e. ((to e).0, to' (to e).1), λ (e, k). from (e, from' k))
