-- ===== src/Timer.antt =====
-- The loop of a background routine: `for { timer := time.NewTimer(…); select { … } }`, which acts
-- whenever its timer fires and returns on the end of its context or on another signal. What the
-- outside answers at a firing is the item of the firing.
use noble_cctp_relayer.Base.{List, [], ◌∷◌, ◌≡◌, refl}

pub data Wake {ℓ} (A : Type ℓ) : Type ℓ where
  fires : A → Wake A
  stops : Wake A

module _ {ℓ κ} {A : Type ℓ} {S : Type κ} (act : A → S → S) where
  unfoldable pub run_timer : List (Wake A) → S → S
  run_timer [] s = s
  run_timer (fires a ∷ rest) s = run_timer rest (act a s)
  run_timer (stops ∷ rest) s = s

  abbrev pub act_all : List A → S → S
  act_all [] s = s
  act_all (a ∷ answers) s = act_all answers (act a s)

-- The firings before the routine returns.
abbrev pub fired {ℓ} : {A : Type ℓ} → List (Wake A) → List A
fired [] = []
fired (fires a ∷ rest) = a ∷ fired rest
fired (stops ∷ rest) = []

-- The routine acts on the firings before its end, in their order, and on no other.
pub run_timer_lem {ℓ κ} :
    {A : Type ℓ} {S : Type κ} (act : A → S → S) (wakes : List (Wake A)) (s : S)
    → run_timer act wakes s ≡ act_all act (fired wakes) s
unfolding run_timer
run_timer_lem act [] s = refl
run_timer_lem act (fires a ∷ rest) s = run_timer_lem act rest (act a s)
run_timer_lem act (stops ∷ rest) s = refl
