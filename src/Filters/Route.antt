-- ===== src/Filters/Route.antt =====
-- filters/route.go.
use noble_cctp_relayer.Base.{
  ℕ, List, [], ◌∷◌, ◌++◌, Text, text, Bool, true, false, Option, some, none, ok, Result, Map,
  lookup, nat_key, ◌==◌, if◌then◌else◌, format_uint, ◌≡◌, ◌↔◌, arith, Any, ◌||◌, Option-cases, inl,
  inr,
}
use noble_cctp_relayer.Types.State.{MessageState}
use noble_cctp_relayer.Types.Filter.{MessageFilter, FilterError}

unfoldable pub contains : ℕ → List ℕ → Bool
contains d [] = false
contains d (x ∷ xs) = x == d || contains d xs

unfoldable pub route_reason : MessageState → Text → Text
route_reason msg why =
    text "route disabled: source_domain="
    ++ (format_uint msg.source_domain
        ++ (text " dest_domain=" ++ (format_uint msg.dest_domain ++ why)))

unfoldable pub route_answer : Option (List ℕ) → MessageState → Bool × Text
route_answer none msg = (true, route_reason msg (text " (source not configured)"))
route_answer (some dest_domains) msg =
    if contains msg.dest_domain dest_domains
    then (false, [])
    else (true, route_reason msg (text " (destination not in route)"))

unfoldable pub route_filter : Map ℕ (List ℕ) → MessageState → Result FilterError (Bool × Text)
unfolding route_answer
route_filter enabled_routes msg = ok (route_answer (lookup msg.source_domain enabled_routes) msg)

unfoldable pub new_route_filter : Map ℕ (List ℕ) → MessageFilter
new_route_filter enabled_routes = record {
  name = text "route";
  filter = λ now msg. route_filter enabled_routes msg;
}

-- The route is configured: its source has a list of destinations, and the destination is on it.
abbrev pub RouteEnabled : Map ℕ (List ℕ) → ℕ → ℕ → Type 0
RouteEnabled routes src dest =
    (dests : List ℕ) × (lookup src routes ≡ some dests) × Any (λ d. d ≡ dest) dests

contains_iff : (d : ℕ) (xs : List ℕ) → (contains d xs ≡ true) ↔ Any (λ x. x ≡ d) xs
unfolding contains
contains_iff d [] = (λ e. cc, λ h. absurd h)
contains_iff d (x ∷ xs) = ground (arith, contains_iff d xs)

-- The filter never fails, and lets a message pass exactly if its route is enabled.
pub route_filter_passes :
    (routes : Map ℕ (List ℕ)) (msg : MessageState)
    → (route_filter routes msg ≡ ok (false, []))
      ↔ RouteEnabled routes msg.source_domain msg.dest_domain
unfolding route_filter
route_filter_passes routes msg = elim (Option-cases (lookup msg.source_domain routes)) [
  | inl missing ↦ ground arith
  | inr (dests, found) ↦ passes dests found
]
  where
    passes :
        (dests : List ℕ)
        → lookup msg.source_domain routes ≡ some dests
        → (route_filter routes msg ≡ ok (false, []))
          ↔ RouteEnabled routes msg.source_domain msg.dest_domain
    passes dests found = (
      λ h. (dests, found, ground (arith, contains_iff msg.dest_domain dests)),
      λ h. ground (arith, contains_iff msg.dest_domain dests),
    )
