-- ===== src/Filters/LowTransfer.antt =====
-- filters/low_transfer.go. BurnMessage.Parse of the module circlefin/noble-cctp is a parameter:
-- it gives the amount of a burn message, or its error as `%v` prints it.
use noble_cctp_relayer.Base.{
  ℕ, List, [], ◌∷◌, ◌++◌, ◌≤◌, ◌==◌, ltb, Text, text, Bool, true, false, Option, some, ok, Result,
  Map, lookup, text_key, refl, ap, ok-injective, if◌then◌else◌, format_uint, ◌≡◌, ◌↔◌, arith,
}
use noble_cctp_relayer.Types.State.{MessageState}
use noble_cctp_relayer.Types.Filter.{MessageFilter, FilterError}
use noble_cctp_relayer.Config.{ChainConfig, noble_chain, ethereum_chain, solana_chain}

pub data BurnParse : Type 0 where
  amount : ℕ → BurnParse
  unparsed : Text → BurnParse

noble_min_mint : Option ChainConfig → ℕ
noble_min_mint (some (noble_chain c)) = c.min_mint_amount
noble_min_mint _ = 0

-- `range f.chains`: the first configured chain of the domain, in the order of the iteration.
first_min_mint : ℕ → Map Text ChainConfig → ℕ
first_min_mint dest_domain [] = 0
first_min_mint dest_domain ((name, noble_chain c) ∷ rest) = first_min_mint dest_domain rest
first_min_mint dest_domain ((name, ethereum_chain c) ∷ rest) =
    let others = first_min_mint dest_domain rest in
    if c.domain == dest_domain then c.min_mint_amount else others
first_min_mint dest_domain ((name, solana_chain c) ∷ rest) =
    let others = first_min_mint dest_domain rest in
    if c.domain == dest_domain then c.min_mint_amount else others

unfoldable pub get_min_mint_amount : Map Text ChainConfig → ℕ → ℕ
unfolding noble_min_mint first_min_mint
get_min_mint_amount chains dest_domain =
    if dest_domain == 4
    then noble_min_mint (lookup (text "noble") chains)
    else first_min_mint dest_domain chains

unfoldable pub too_low_reason : ℕ → ℕ → ℕ → Text
too_low_reason burned least dest_domain =
    text "transfer amount too low: amount="
    ++ (format_uint burned
        ++ (text " min_amount="
            ++ (format_uint least ++ (text " dest_domain=" ++ format_uint dest_domain))))

unfoldable pub low_answer : ℕ → ℕ → BurnParse → Bool × Text
low_answer least dest_domain (unparsed error) = (true, text "not a valid burn message: " ++ error)
low_answer least dest_domain (amount burned) =
    if least == 0
    then (false, [])
    else if ltb burned least
    then (true, too_low_reason burned least dest_domain)
    else (false, [])

unfoldable pub low_transfer_filter :
    (List ℕ → BurnParse) → Map Text ChainConfig → MessageState → Result FilterError (Bool × Text)
unfolding low_answer
low_transfer_filter parse_burn chains msg = ok (
    low_answer (get_min_mint_amount chains msg.dest_domain) msg.dest_domain
      (parse_burn msg.msg_body))

unfoldable pub new_low_transfer_filter : (List ℕ → BurnParse) → Map Text ChainConfig → MessageFilter
new_low_transfer_filter parse_burn chains = record {
  name = text "low-transfer";
  filter = λ now msg. low_transfer_filter parse_burn chains msg;
}

low_answer_passes :
    (least dest_domain : ℕ) (p : BurnParse)
    → (low_answer least dest_domain p ≡ (false, []))
      ↔ ((burned : ℕ) × (p ≡ amount burned) × (least ≤ burned))
unfolding low_answer
low_answer_passes least dest_domain (unparsed error) = ground arith
low_answer_passes least dest_domain (amount burned) =
    (λ h. (burned, refl, ground arith), λ (b, e, h). ground arith)

-- The filter never fails, and lets a message pass exactly if its body is a burn message of at
-- least the minimum configured for the destination.
pub low_transfer_filter_passes :
    (parse_burn : List ℕ → BurnParse) (chains : Map Text ChainConfig) (msg : MessageState)
    → (low_transfer_filter parse_burn chains msg ≡ ok (false, [])) ↔ (
        (burned : ℕ) × (parse_burn msg.msg_body ≡ amount burned)
        × (get_min_mint_amount chains msg.dest_domain ≤ burned))
unfolding low_transfer_filter
low_transfer_filter_passes parse_burn chains msg =
    let passes =
      low_answer_passes (get_min_mint_amount chains msg.dest_domain) msg.dest_domain
        (parse_burn msg.msg_body) in
    (λ h. passes.0 (ok-injective h), λ h. ap ok (passes.1 h))
