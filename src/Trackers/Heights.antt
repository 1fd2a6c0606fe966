-- ===== src/Trackers/Heights.antt =====
-- What LatestBlock answers, and what the gauge shows, while the trackers of the chains run.
use noble_cctp_relayer.Base.{
  ℕ, List, [], ◌∷◌, Text, text, text_eq, text_eq_refl, Option, some, none, ℤ, as_int64, as_uint64,
  ◌≡◌, refl, sym, ap, ◌∙◌, subst, ◌&&◌, ◌==◌, if◌then◌else◌, arith,
}
use noble_cctp_relayer.Timer.{Wake, run_timer, act_all, fired, run_timer_lem}
use noble_cctp_relayer.Types.World.{Metric, set_latest_height}
use noble_cctp_relayer.Noble.{noble_domain}
use noble_cctp_relayer.Trackers.{
  Tracked, on_height, track_evm_height, track_solana_height, on_noble_height, track_noble_height,
}

-- The last answer, or the one before them all.
abbrev pub last_answer {ℓ} : {A : Type ℓ} → List (Option A) → Option A → Option A
last_answer [] known = known
last_answer (none ∷ rest) known = last_answer rest known
last_answer (some a ∷ rest) known = last_answer rest (some a)

-- What the gauge of a chain shows, the last call first.
abbrev pub shown : Text → ℕ → List Metric → Option ℤ
shown name domain [] = none
shown name domain (set_latest_height chain d height ∷ es) =
    if text_eq name chain && domain == d then some height else shown name domain es
shown name domain (_ ∷ es) = shown name domain es

-- The gauge shows `height`, and LatestBlock answers `block`.
abbrev pub Shows : Text → ℕ → Tracked → ℕ → ℤ → Type 0
Shows name domain t block height =
    (t.latest_block ≡ block)
    × (es : List Metric) × (t.world.metrics ≡ some es)
    × (shown name domain es ≡ some height)

-- The state when `known` is the last answer since the state `t0`.
abbrev pub Follows {ℓ} :
    {A : Type ℓ} → Text → ℕ → (A → ℕ) → (A → ℤ) → Tracked → Option A → Tracked → Type 0
Follows name domain block height t0 none t = t ≡ t0
Follows name domain block height t0 (some a) t = Shows name domain t (block a) (height a)

-- What an answer does with the state: nothing if it is missing.
record IsReading {ℓ} {A : Type ℓ} (name : Text) (domain : ℕ) (block : A → ℕ) (height : A → ℤ)
    (act : Option A → Tracked → Tracked) : Type ℓ where
  missing : (t : Tracked) → act none t ≡ t
  heard :
      (a : A) (t : Tracked) (es : List Metric)
      → t.world.metrics ≡ some es
      → ((act (some a) t).latest_block ≡ block a)
        × ((act (some a) t).world.metrics ≡ some (set_latest_height name domain (height a) ∷ es))

newest_shown :
    (name : Text) (domain : ℕ) (h : ℤ) (es : List Metric)
    → shown name domain (set_latest_height name domain h ∷ es) ≡ some h
newest_shown name domain h es = ground (arith, text_eq_refl name)

module _ {ℓ} {A : Type ℓ} (name : Text) (domain : ℕ) (block : A → ℕ) (height : A → ℤ)
    (act : Option A → Tracked → Tracked) (reading : IsReading name domain block height act)
    (t0 : Tracked) (es0 : List Metric) (counted : t0.world.metrics ≡ some es0) where
  Follows-counted :
      (known : Option A) (t : Tracked)
      → Follows name domain block height t0 known t
      → (es : List Metric) × (t.world.metrics ≡ some es)
  Follows-counted none t h = (es0, ap (λ (u : Tracked). u.world.metrics) h ∙ counted)
  Follows-counted (some k) t (latest, es, e, newest) = (es, e)

  act-Follows :
      (answer known : Option A) (t : Tracked)
      → Follows name domain block height t0 known t
      → Follows name domain block height t0 (last_answer (answer ∷ []) known) (act answer t)
  act-Follows none known t h =
      subst (Follows name domain block height t0 known) (sym (reading.missing t)) h
  act-Follows (some a) known t h =
      let (es, e) = Follows-counted known t h in
      let (latest, reported) = reading.heard a t es e in
      (
        latest,
        set_latest_height name domain (height a) ∷ es,
        reported,
        newest_shown name domain (height a) es,
      )

  act_all-Follows :
      (answers : List (Option A)) (known : Option A) (t : Tracked)
      → Follows name domain block height t0 known t
      → Follows name domain block height t0 (last_answer answers known) (act_all act answers t)
  act_all-Follows [] known t h = h
  act_all-Follows (none ∷ answers) known t h =
      act_all-Follows answers known (act none t) (act-Follows none known t h)
  act_all-Follows (some a ∷ answers) known t h =
      act_all-Follows answers (some a) (act (some a) t) (act-Follows (some a) known t h)

  run_timer-Follows :
      (wakes : List (Wake (Option A))) (known : Option A) (t : Tracked)
      → Follows name domain block height t0 known t
      → Follows name domain block height t0
          (last_answer (fired wakes) known)
          (run_timer act wakes t)
  run_timer-Follows wakes known t h =
      rw (run_timer_lem act wakes t) (act_all-Follows (fired wakes) known t h)

  -- A routine that asks once before it waits.
  started-Follows :
      (first : Option A) (wakes : List (Wake (Option A)))
      → Follows name domain block height t0
          (last_answer (first ∷ fired wakes) none)
          (run_timer act wakes (act first t0))
  started-Follows none wakes =
      run_timer-Follows wakes none (act none t0) (act-Follows none none t0 refl)
  started-Follows (some a) wakes =
      run_timer-Follows wakes (some a) (act (some a) t0) (act-Follows (some a) none t0 refl)

on_height-IsReading :
    (name : Text) (domain : ℕ)
    → IsReading name domain (λ (h : ℕ). h) as_int64 (on_height name domain)
unfolding on_height
on_height-IsReading name domain = record {
  missing = λ t. refl;
  heard = λ a t es e. (refl, rw e refl);
}

on_noble_height-IsReading : IsReading (text "Noble") noble_domain as_uint64 (λ h. h) on_noble_height
unfolding on_noble_height
on_noble_height-IsReading = record { missing = λ t. refl; heard = λ a t es e. (refl, rw e refl) }

-- While metrics are kept, at any time of the tracker of an EVM chain, of Solana and of Noble, with
-- any failed requests: if there was an answer, LatestBlock is the last one before the routine's end
-- and the gauge shows it, and otherwise nothing has changed.
pub track_heights :
    (name : Text) (domain : ℕ) (first : Option ℕ) (wakes : List (Wake (Option ℕ)))
    (noble_first : Option ℤ) (noble_wakes : List (Wake (Option ℤ))) (t : Tracked) (es : List Metric)
    → t.world.metrics ≡ some es
    → Follows name domain
        (λ (h : ℕ). h)
        as_int64
        t
        (last_answer (first ∷ fired wakes) none)
        (track_evm_height name domain first wakes t)
      × Follows name domain
          (λ (h : ℕ). h)
          as_int64
          t
          (last_answer (fired wakes) none)
          (track_solana_height name domain wakes t)
      × Follows
          (text "Noble")
          noble_domain
          as_uint64
          (λ h. h)
          t
          (last_answer (noble_first ∷ fired noble_wakes) none)
          (track_noble_height noble_first noble_wakes t)
unfolding track_evm_height track_solana_height track_noble_height
track_heights name domain first wakes noble_first noble_wakes t es counted =
    let reading = on_height-IsReading name domain in
    let act = on_height name domain in
    (
      started-Follows name domain (λ h. h) as_int64 act reading t es counted first wakes,
      run_timer-Follows name domain (λ h. h) as_int64 act reading t es counted wakes none t refl,
      started-Follows (text "Noble") noble_domain as_uint64 (λ h. h) on_noble_height
          on_noble_height-IsReading t es counted noble_first noble_wakes,
    )
