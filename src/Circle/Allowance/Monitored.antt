-- ===== src/Circle/Allowance/Monitored.antt =====
-- What the monitor of circle/allowance.go knows while its routine runs.
use noble_cctp_relayer.Base.{
  ℕ, zero, suc, ◌+◌, List, [], ◌∷◌, ◌++◌, Text, Option, ◌≡◌, ap, ap₂, sym, ◌∙◌, arith, length,
  nat_key, ◌==◌, append-nil,
}
use noble_cctp_relayer.Timer.{Wake, act_all, fired, run_timer_lem}
use noble_cctp_relayer.Types.World.{World}
use noble_cctp_relayer.Circle.Attestation.{CircleApi, FastTransferAllowance}
use noble_cctp_relayer.Circle.Allowance.{
  AllowanceMonitor, get, query_allowances, run_monitor, check_fast_transfer_allowance,
}
use noble_cctp_relayer.Circle.Allowance.Tracked.{
  latest, newer, get-query_allowances, clock-query_allowances,
}

-- The domains asked for in some rounds.
abbrev pub asked : ℕ → List ℕ → List ℕ
asked zero domains = []
asked (suc rounds) domains = domains ++ asked rounds domains

latest-append :
    (api : CircleApi) (base_url token : Text) (cs ds : List ℕ) (now d : ℕ)
    (known : Option FastTransferAllowance)
    → latest api base_url token (cs ++ ds) now d known
      ≡ latest api base_url token ds (now + length cs) d (latest api base_url token cs now d known)
latest-append api base_url token [] ds now d known =
    ap (λ (c : ℕ). latest api base_url token ds c d known) (omega arith)
latest-append api base_url token (c ∷ cs) ds now d known =
    let known' = newer (c == d) (check_fast_transfer_allowance api now base_url c token) known in
    latest-append api base_url token cs ds (now + 1) d known'
    ∙ ap
        (λ (n : ℕ).
          latest api base_url token ds n d (latest api base_url token cs (now + 1) d known'))
        (omega arith)

abbrev round : CircleApi → Unit {0} → AllowanceMonitor × World → AllowanceMonitor × World
round api tick (m, w) = query_allowances api m w

rounds_lem :
    (api : CircleApi) (ticks : List (Unit {0})) (m : AllowanceMonitor) (w : World) (d : ℕ)
    → get d (act_all (round api) ticks (query_allowances api m w)).0.state
      ≡ latest api m.base_url m.token
          (asked (suc (length ticks)) m.domains)
          w.clock
          d
          (get d m.state)
unfolding query_allowances
rounds_lem api [] m w d = rw append-nil (get-query_allowances api m d w)
rounds_lem api (tick ∷ ticks) m w d =
    let q = query_allowances api m w in
    let later = asked (suc (length ticks)) m.domains in
    let known = latest api m.base_url m.token m.domains w.clock d (get d m.state) in
    rounds_lem api ticks q.0 q.1 d
    ∙ ap₂ (λ (n : ℕ) (k : Option FastTransferAllowance). latest api m.base_url m.token later n d k)
        (clock-query_allowances api m w) (get-query_allowances api m d w)
    ∙ sym (latest-append api m.base_url m.token m.domains later w.clock d (get d m.state))

-- Start asks for all domains once and again at each tick before its end, in their order, and at any
-- time it knows for a domain the newest answer of all these requests that did not fail, or what it
-- knew before the first.
pub get-run_monitor :
    (api : CircleApi) (wakes : List (Wake (Unit {0}))) (m : AllowanceMonitor) (w : World) (d : ℕ)
    → get d (run_monitor api wakes m w).0.state
      ≡ latest api m.base_url m.token
          (asked (suc (length (fired wakes))) m.domains)
          w.clock
          d
          (get d m.state)
unfolding run_monitor
get-run_monitor api wakes m w d =
    rw (run_timer_lem (round api) wakes (query_allowances api m w))
      (rounds_lem api (fired wakes) m w d)
