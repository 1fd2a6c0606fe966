-- ===== src/Filters/DestinationCaller.antt =====
-- filters/destination_caller.go.
use noble_cctp_relayer.Base.{
  ℕ, [], ◌++◌, Text, text, Bool, true, false, Option, some, none, ok, err, panic, Result, Map,
  lookup, nat_key, refl, text_eq, text_eq_iff, not, if◌then◌else◌, format_uint, ◌≡◌, ◌↔◌, arith,
  ◌||◌, Option-cases, inl, inr, ◌⊎◌,
}
use noble_cctp_relayer.Types.World.{Chain}
use noble_cctp_relayer.Types.State.{MessageState}
use noble_cctp_relayer.Types.Filter.{MessageFilter, FilterError}

unfoldable pub mismatch_reason : MessageState → Text → Text
mismatch_reason msg address =
    text "destination caller mismatch: source_domain="
    ++ (format_uint msg.source_domain
        ++ (text " dest_domain=" ++ (format_uint msg.dest_domain ++ (text " caller=" ++ address))))

unfoldable pub unregistered_reason : MessageState → Text
unregistered_reason msg =
    text "destination caller check failed: no chain registered for dest_domain="
    ++ format_uint msg.dest_domain

unfoldable pub caller_answer :
    Bool → MessageState → Result ⊥ (Bool × Text) → Result FilterError (Bool × Text)
caller_answer only msg (ok (true, address)) = ok (false, [])
caller_answer only msg (ok (false, address)) =
    if only || not (text_eq address [])
    then ok (true, mismatch_reason msg address)
    else ok (false, [])
caller_answer only msg (err e) = elim e [ ]
caller_answer only msg panic = panic

unfoldable pub chain_answer : Bool → MessageState → Option Chain → Result FilterError (Bool × Text)
unfolding caller_answer
chain_answer only msg none = ok (true, unregistered_reason msg)
chain_answer only msg (some chain) =
    caller_answer only msg (chain.is_destination_caller msg.destination_caller)

unfoldable pub destination_caller_filter :
    Map ℕ Chain → Bool → MessageState → Result FilterError (Bool × Text)
unfolding chain_answer
destination_caller_filter registered_domains only msg =
    chain_answer only msg (lookup msg.dest_domain registered_domains)

unfoldable pub new_destination_caller_filter : Map ℕ Chain → Bool → MessageFilter
new_destination_caller_filter registered_domains only = record {
  name = text "destination-caller";
  filter = λ now msg. destination_caller_filter registered_domains only msg;
}

-- When a message passes: its chain is registered and takes the relayer for the caller, or says
-- that it is not but shows no address, and only then if foreign callers are let pass.
abbrev pub AnswerAllowed : Bool → Result ⊥ (Bool × Text) → Type 0
AnswerAllowed only a =
    ((address : Text) × (a ≡ ok (true, address))) ⊎ ((only ≡ false) × (a ≡ ok (false, [])))

abbrev pub CallerAllowed : Map ℕ Chain → Bool → MessageState → Type 0
CallerAllowed domains only msg =
    (chain : Chain) × (lookup msg.dest_domain domains ≡ some chain)
    × AnswerAllowed only (chain.is_destination_caller msg.destination_caller)

caller_answer_passes :
    (only : Bool) (msg : MessageState) (a : Result ⊥ (Bool × Text))
    → (caller_answer only msg a ≡ ok (false, [])) ↔ AnswerAllowed only a
unfolding caller_answer
caller_answer_passes only msg (ok (true, address)) = (λ _. inl (address, refl), λ _. refl)
caller_answer_passes true msg (ok (false, address)) = ground arith
caller_answer_passes false msg (ok (false, address)) = ground (arith, text_eq_iff address [])
caller_answer_passes only msg (err e) = elim e [ ]
caller_answer_passes only msg panic = ground arith

-- The filter lets a message pass exactly in these cases.
pub destination_caller_filter_passes :
    (domains : Map ℕ Chain) (only : Bool) (msg : MessageState)
    → (destination_caller_filter domains only msg ≡ ok (false, [])) ↔ CallerAllowed domains only msg
unfolding destination_caller_filter
destination_caller_filter_passes domains only msg =
    elim (Option-cases (lookup msg.dest_domain domains)) [
      | inl missing ↦ ground arith
      | inr (chain, found) ↦ (
        λ h. (chain, found, (passes chain).0 (rw (found, destination_caller_filter) at h)),
        λ (c, other, allowed). rw (other, destination_caller_filter) ((passes c).1 allowed),
      )
    ]
  where
    passes :
        (chain : Chain)
        → (caller_answer only msg (chain.is_destination_caller msg.destination_caller)
            ≡ ok (false, []))
          ↔ AnswerAllowed only (chain.is_destination_caller msg.destination_caller)
    passes chain =
        caller_answer_passes only msg (chain.is_destination_caller msg.destination_caller)
