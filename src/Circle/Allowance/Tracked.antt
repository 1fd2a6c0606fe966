-- ===== src/Circle/Allowance/Tracked.antt =====
-- What the monitor of circle/allowance.go knows after a round of requests.
use noble_cctp_relayer.Base.{
  ◌+◌, ap₂, ◌∙◌, Bool, true, false, ℕ, List, [], ◌∷◌, Text, Option, some, Result, ok, err, panic,
  ◌≡◌, refl, arith, ◌==◌, lookup, lookup-insert, nat_key, length,
}
use noble_cctp_relayer.Http.{HttpError}
use noble_cctp_relayer.Types.World.{World, tick}
use noble_cctp_relayer.Circle.Attestation.{CircleApi, FastTransferAllowance}
use noble_cctp_relayer.Circle.Allowance.{
  AllowanceState, AllowanceMonitor, get, check_fast_transfer_allowance, record_allowance,
  query_loop, query_allowances,
}

abbrev pub newer :
    Bool
    → Result HttpError FastTransferAllowance
    → Option FastTransferAllowance
    → Option FastTransferAllowance
newer true (ok a) known = some a
newer true (err e) known = known
newer true panic known = known
newer false r known = known

-- The newest answer for `d` that the round got, or what was known before. The requests go out
-- one after another, so the domain at place k is asked k ticks after the start.
abbrev pub latest :
    CircleApi
    → Text
    → Text
    → List ℕ
    → ℕ
    → ℕ
    → Option FastTransferAllowance
    → Option FastTransferAllowance
latest api base_url token [] now d known = known
latest api base_url token (c ∷ cs) now d known =
    latest api base_url token cs (now + 1) d
      (newer (c == d) (check_fast_transfer_allowance api now base_url c token) known)

abbrev latest_at :
    CircleApi
    → Text
    → Text
    → List ℕ
    → ℕ
    → ℕ
    → Option FastTransferAllowance
    → Option FastTransferAllowance
latest_at api base_url token cs d now known = latest api base_url token cs now d known

clock-record_allowance :
    (c : ℕ) (token : Text) (r : Result HttpError FastTransferAllowance) (state : AllowanceState)
    (w : World)
    → (record_allowance c token r (state, w)).1.clock ≡ w.clock
unfolding record_allowance
clock-record_allowance c token r state w = ground arith

get-record_allowance :
    (c d : ℕ) (token : Text) (r : Result HttpError FastTransferAllowance) (state : AllowanceState)
    (w : World)
    → lookup d (record_allowance c token r (state, w)).0 ≡ newer (c == d) r (lookup d state)
unfolding record_allowance
get-record_allowance c d token (ok a) state w = ground (arith, lookup-insert c d a state)
get-record_allowance c d token (err e) state w = ground arith
get-record_allowance c d token panic state w = ground arith

get-query_loop :
    (api : CircleApi) (base_url token : Text) (cs : List ℕ) (d : ℕ) (state : AllowanceState)
    (w : World)
    → lookup d (query_loop api base_url token cs (state, w)).0
      ≡ latest api base_url token cs w.clock d (lookup d state)
unfolding query_loop
get-query_loop api base_url token [] d state w = refl
get-query_loop api base_url token (c ∷ cs) d state w =
    let r = check_fast_transfer_allowance api w.clock base_url c token in
    let q = record_allowance c token r (state, tick w) in
    get-query_loop api base_url token cs d q.0 q.1
    ∙ ap₂ (latest_at api base_url token cs d) (clock-record_allowance c token r state (tick w))
        (get-record_allowance c d token r state (tick w))

-- After a round the state of a domain is the newest answer got for it, and a failed request
-- leaves what was known before.
pub get-query_allowances :
    (api : CircleApi) (m : AllowanceMonitor) (d : ℕ) (w : World)
    → get d (query_allowances api m w).0.state
      ≡ latest api m.base_url m.token m.domains w.clock d (get d m.state)
unfolding get query_allowances
get-query_allowances api m d w = get-query_loop api m.base_url m.token m.domains d m.state w

clock-query_loop :
    (api : CircleApi) (base_url token : Text) (cs : List ℕ) (state : AllowanceState) (w : World)
    → (query_loop api base_url token cs (state, w)).1.clock ≡ w.clock + length cs
unfolding query_loop
clock-query_loop api base_url token [] state w = omega arith
clock-query_loop api base_url token (c ∷ cs) state w =
    let r = check_fast_transfer_allowance api w.clock base_url c token in
    let q = record_allowance c token r (state, tick w) in
    let ticked = clock-record_allowance c token r state (tick w) in
    let rest = clock-query_loop api base_url token cs q.0 q.1 in omega arith

pub clock-query_allowances :
    (api : CircleApi) (m : AllowanceMonitor) (w : World)
    → (query_allowances api m w).1.clock ≡ w.clock + length m.domains
unfolding query_allowances
clock-query_allowances api m w = clock-query_loop api m.base_url m.token m.domains m.state w
