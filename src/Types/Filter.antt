-- ===== src/Types/Filter.antt =====
-- types/filter.go: the filter plugins and their registry.
pub mod FirstMatch
use noble_cctp_relayer.Base.{
  ℕ, List, [], ◌∷◌, ◌++◌, Text, Bool, true, false, Result, ok, err, panic,
}
use noble_cctp_relayer.Types.State.{MessageState}

-- The errors of Filter and of Initialize.
pub data FilterError : Type 0 where
  filter_failed missing_config invalid_type unknown_provider provider_failed refresh_failed :
      FilterError

-- A filter's answer may change with time: a background routine refreshes its data.
pub record MessageFilter : Type 0 where
  pub name : Text
  pub filter : ℕ → MessageState → Result FilterError (Bool × Text)

abbrev pub FilterRegistry : Type 0
FilterRegistry = List MessageFilter

unfoldable pub register : MessageFilter → FilterRegistry → FilterRegistry
register f r = r ++ (f ∷ [])

-- One round of the loop: an error and a message that passes both go on to the rest.
abbrev pub or_else :
    Result FilterError (Bool × Text) → Result ⊥ (Bool × Text) → Result ⊥ (Bool × Text)
or_else (ok (true, reason)) rest = ok (true, reason)
or_else (ok (false, reason)) rest = rest
or_else (err e) rest = rest
or_else panic rest = panic

unfoldable pub filter_message : FilterRegistry → ℕ → MessageState → Result ⊥ (Bool × Text)
filter_message [] now msg = ok (false, [])
filter_message (f ∷ fs) now msg =
    let rest = filter_message fs now msg in or_else (f.filter now msg) rest
