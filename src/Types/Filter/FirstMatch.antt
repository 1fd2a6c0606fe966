-- ===== src/Types/Filter/FirstMatch.antt =====
-- The registry of types/filter.go answers by the first filter that matches.
use noble_cctp_relayer.Base.{
  ℕ, [], ◌∷◌, ◌++◌, ◌≡◌, refl, sym, ap, ◌∙◌, ◌↔◌, ◌⊎◌, inl, inr, Text, Bool, true, false, Result,
  ok, err, panic, arith, All,
}
use noble_cctp_relayer.Types.State.{MessageState}
use noble_cctp_relayer.Types.Filter.{FilterError, MessageFilter, FilterRegistry, filter_message}

-- The filter lets the message pass, or fails.
abbrev pub Passes : ℕ → MessageState → MessageFilter → Type 0
Passes now msg f =
    ((reason : Text) × (f.filter now msg ≡ ok (false, reason)))
    ⊎ ((e : FilterError) × (f.filter now msg ≡ err e))

abbrev pub Matches : ℕ → MessageState → Text → MessageFilter → Type 0
Matches now msg reason f = f.filter now msg ≡ ok (true, reason)

filter_message-cons-Passes :
    (f : MessageFilter) (fs : FilterRegistry) (now : ℕ) (msg : MessageState)
    → Passes now msg f
    → filter_message (f ∷ fs) now msg ≡ filter_message fs now msg
unfolding filter_message
filter_message-cons-Passes f fs now msg (inl (r, e)) = rw e
filter_message-cons-Passes f fs now msg (inr (x, e)) = rw e

-- Filters that pass or fail do not change the answer of those behind them.
filter_message-append-Passes :
    (before after : FilterRegistry) (now : ℕ) (msg : MessageState)
    → All (Passes now msg) before
    → filter_message (before ++ after) now msg ≡ filter_message after now msg
filter_message-append-Passes [] after now msg h = refl
filter_message-append-Passes (f ∷ fs) after now msg (hf, h) =
    rw (filter_message-cons-Passes f (fs ++ after) now msg hf)
      (filter_message-append-Passes fs after now msg h)

-- Some filter gives the reason, and every filter registered before it passes or fails.
abbrev pub FirstMatch : ℕ → MessageState → Text → FilterRegistry → Type 0
FirstMatch now msg reason r =
    (before : FilterRegistry) × (f : MessageFilter) × (after : FilterRegistry) × (r
      ≡ before ++ (f ∷ after))
    × All (Passes now msg) before
    × Matches now msg reason f

abbrev Answer : Result FilterError (Bool × Text) → Type 0
Answer a =
    ((reason : Text) × (a ≡ ok (true, reason)))
    ⊎ (((reason : Text) × (a ≡ ok (false, reason))) ⊎ ((e : FilterError) × (a ≡ err e)))
    ⊎ (a ≡ panic)

Answer-cases : (a : Result FilterError (Bool × Text)) → Answer a
Answer-cases (ok (true, reason)) = inl (reason, refl)
Answer-cases (ok (false, reason)) = inr (inl (inl (reason, refl)))
Answer-cases (err e) = inr (inl (inr (e, refl)))
Answer-cases panic = inr (inr refl)

FirstMatch-to :
    (r : FilterRegistry) (now : ℕ) (msg : MessageState) (reason : Text)
    → filter_message r now msg ≡ ok (true, reason)
    → FirstMatch now msg reason r
FirstMatch-to [] now msg reason h = unfold filter_message in cc
FirstMatch-to (f ∷ fs) now msg reason h = elim (Answer-cases (f.filter now msg)) [
  | inl (r, e) ↦ ([], f, fs, refl, tt, unfold filter_message in ground arith)
  | inr (inl passes) ↦
      behind
        (FirstMatch-to fs now msg reason (sym (filter_message-cons-Passes f fs now msg passes) ∙ h))
        passes
  | inr (inr e) ↦ unfold filter_message in absurd (ground arith)
]
  where
    behind : FirstMatch now msg reason fs → Passes now msg f → FirstMatch now msg reason (f ∷ fs)
    behind (before, g, after, split, passed, matched) passes =
        (f ∷ before, g, after, ap (◌∷◌ f) split, (passes, passed), matched)

FirstMatch-from :
    (r : FilterRegistry) (now : ℕ) (msg : MessageState) (reason : Text)
    → FirstMatch now msg reason r
    → filter_message r now msg ≡ ok (true, reason)
FirstMatch-from r now msg reason (before, f, after, split, passed, matched) =
    rw (split, filter_message-append-Passes before (f ∷ after) now msg passed)
      (unfold filter_message in rw matched)

-- A message is filtered for a reason exactly when some filter gives that reason and every filter
-- registered before it lets the message pass or fails.
pub filter_message-FirstMatch :
    (r : FilterRegistry) (now : ℕ) (msg : MessageState) (reason : Text)
    → (filter_message r now msg ≡ ok (true, reason)) ↔ FirstMatch now msg reason r
filter_message-FirstMatch r now msg reason =
    (FirstMatch-to r now msg reason, FirstMatch-from r now msg reason)
