-- ===== src/Filters/Whitelist/Routine.antt =====
-- startRefresh of filters/depositor_whitelist.go: the whitelist while its routine runs, which ends
-- with its context or when the filter is closed.
use noble_cctp_relayer.Base.{List, [], ◌∷◌, Text, ok, err, panic, Result, true, ◌≡◌, ◌≢◌, ◌↔◌, refl}
use noble_cctp_relayer.Http.{Reply}
use noble_cctp_relayer.Timer.{Wake, run_timer, act_all, fired, run_timer_lem}
use noble_cctp_relayer.Filters.Whitelist.{
  AddressLibrary, Whitelist, FetchError, normalize_address, is_whitelisted, fetch_list, refresh,
}
use noble_cctp_relayer.Filters.Whitelist.Refresh.{Listed, is_whitelisted-refresh}

-- A failed refresh is logged. No request panics.
abbrev kept : Whitelist → Result FetchError Whitelist → Whitelist
kept old (ok new) = new
kept old (err e) = old
kept old panic = old

unfoldable pub on_timer : AddressLibrary → Text → Reply (List Text) → Whitelist → Whitelist
on_timer lib key reply old = kept old (refresh lib key reply old)

unfoldable pub start_refresh :
    AddressLibrary → Text → List (Wake (Reply (List Text))) → Whitelist → Whitelist
start_refresh lib key wakes whitelist = run_timer (on_timer lib key) wakes whitelist

abbrev newer : List Text → Result FetchError (List Text) → List Text
newer known (ok addrs) = addrs
newer known (err e) = known
newer known panic = known

-- The addresses of the last request that did not fail.
abbrev pub last_fetched : Text → List (Reply (List Text)) → List Text → List Text
last_fetched key [] known = known
last_fetched key (reply ∷ replies) known =
    last_fetched key replies (newer known (fetch_list key reply))

-- The whitelist is that of the addresses.
abbrev pub IsListOf : AddressLibrary → List Text → Whitelist → Type 0
IsListOf lib addrs w =
    (address : Text)
    → (is_whitelisted lib w address ≡ true)
      ↔ ((normalize_address lib address ≢ []) × Listed lib (normalize_address lib address) addrs)

on_timer-IsListOf :
    (lib : AddressLibrary) (key : Text) (reply : Reply (List Text)) (known : List Text)
    (w : Whitelist)
    → IsListOf lib known w
    → IsListOf lib (newer known (fetch_list key reply)) (on_timer lib key reply w)
unfolding on_timer refresh
on_timer-IsListOf lib key reply known w h = go (fetch_list key reply) refl
  where
    go :
        (r : Result FetchError (List Text))
        → fetch_list key reply ≡ r
        → IsListOf lib (newer known (fetch_list key reply)) (on_timer lib key reply w)
    go (ok addrs) e =
        λ address. rw e (is_whitelisted-refresh lib key reply addrs w _ address e (rw e refl))
    go (err x) e = rw e h
    go panic e = rw e h

act_all-IsListOf :
    (lib : AddressLibrary) (key : Text) (replies : List (Reply (List Text))) (known : List Text)
    (w : Whitelist)
    → IsListOf lib known w
    → IsListOf lib (last_fetched key replies known) (act_all (on_timer lib key) replies w)
act_all-IsListOf lib key [] known w h = h
act_all-IsListOf lib key (reply ∷ replies) known w h =
    act_all-IsListOf lib key replies (newer known (fetch_list key reply)) (on_timer lib key reply w)
      (on_timer-IsListOf lib key reply known w h)

-- From the refresh of the set-up on, with any failed requests in between: an address is on the
-- whitelist exactly if it has a normal form that some address has too of the list that was fetched
-- last before the routine ended.
pub start_refresh_lem :
    (lib : AddressLibrary) (key : Text) (first : Reply (List Text)) (addrs : List Text)
    (w : Whitelist) (wakes : List (Wake (Reply (List Text)))) (address : Text)
    → fetch_list key first ≡ ok addrs
    → refresh lib key first [] ≡ ok w
    → (is_whitelisted lib (start_refresh lib key wakes w) address ≡ true) ↔ (
        (normalize_address lib address ≢ [])
        × Listed lib (normalize_address lib address) (last_fetched key (fired wakes) addrs))
unfolding start_refresh
start_refresh_lem lib key first addrs w wakes address fetched refreshed =
    rw (run_timer_lem (on_timer lib key) wakes w) (
      act_all-IsListOf lib key (fired wakes) addrs w
        (λ a. is_whitelisted-refresh lib key first addrs [] w a fetched refreshed) address)
