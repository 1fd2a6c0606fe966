-- ===== src/Solana/Instruction/Roles.antt =====
-- The roles of the accounts in the call of receiveMessage, from the bytes of a message to the
-- instruction.
use noble_cctp_relayer.Base.{ℕ, List, [], ◌∷◌, ◌++◌, if◌then◌else◌, ◌≡◌, length}
use noble_cctp_relayer.Solana.Address.{PublicKey}
use noble_cctp_relayer.Solana.Accounts.{CctpAccounts, Programs}
use noble_cctp_relayer.Solana.Accounts.Derived.{burn_message_of}
use noble_cctp_relayer.Solana.Instruction.{AccountMeta, Instruction}

abbrev pub signers : List AccountMeta → List PublicKey
signers [] = []
signers (m ∷ ms) = if m.is_signer then m.public_key ∷ signers ms else signers ms

abbrev pub writables : List AccountMeta → List PublicKey
writables [] = []
writables (m ∷ ms) = if m.is_writable then m.public_key ∷ writables ms else writables ms

-- What a call of receiveMessage for these bytes looks like.
abbrev pub IsCallFor :
    Programs → PublicKey → (message attestation : List ℕ) → CctpAccounts → Instruction → Type 0
IsCallFor programs minter_address message attestation accounts instruction =
    (instruction.program ≡ programs.message_transmitter_program)
    × (instruction.data_bytes ≡ message ++ attestation)
    × (length instruction.accounts ≡ 14)
    × (signers instruction.accounts ≡ minter_address ∷ [])
    × (writables instruction.accounts
        ≡ accounts.used_nonces
          ∷ accounts.token_minter
          ∷ accounts.local_token
          ∷ (burn_message_of message).mint_recipient
          ∷ accounts.custody_token_account
          ∷ [])
