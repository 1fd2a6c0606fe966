-- ===== src/Solana/Accounts/Derived.antt =====
-- When DeriveCCTPAccounts of solana/pda.go gives the accounts, and the account it mints to.
use noble_cctp_relayer.Base.{
  ℕ, ◌*◌, ◌+◌, ◌/◌, ◌≤◌, ◌<◌, be_bytes, format_uint, List, [], ◌∷◌, Text, text, some, wrap, ◌≡◌,
  refl, ◌↔◌, inl, inr, arith, ltb, ◌==◌, ==_iff, Bool-cases, length, drop, length-drop,
  length-slice, Gives, IsOk, bind-Gives, Gives-IsOk,
}
use noble_cctp_relayer.Types.Message.{
  Message, BurnMessage, parse_message, parse_burn_message, message_fields, burn_message_fields,
}
use noble_cctp_relayer.Solana.Address.{PublicKey, bytes_to_solana_public_key}
use noble_cctp_relayer.Solana.Accounts.{
  CctpAccounts, Programs, bad_key, derive, nonce_seed, derive_from, derive_cctp_accounts,
}

-- solana-go finds an address for all seeds; it fails only when none of 256 bumps gives one.
abbrev pub AlwaysFinds : Programs → Type 0
AlwaysFinds programs =
    (seeds : List (List ℕ)) (program : PublicKey)
    → (key : PublicKey) × (programs.find_program_address seeds program ≡ some key)

derive-Gives :
    (programs : Programs)
    → AlwaysFinds programs
    → (seed : Text) (more : List (List ℕ)) (program : PublicKey)
    → Gives
        (λ key. programs.find_program_address (seed ∷ more) program ≡ some key)
        (derive programs seed more program)
derive-Gives programs finds seed more program =
    let (key, e) = finds (seed ∷ more) program in (key, rw e refl, e)

key-Gives :
    (bytes : List ℕ)
    → length bytes ≡ 32
    → Gives (λ key. key ≡ bytes) (wrap bad_key (bytes_to_solana_public_key bytes))
unfolding bytes_to_solana_public_key
key-Gives bytes h = (bytes, rw h refl, refl)

-- The accounts of a call for this message: which address of which program each of them is. The
-- nonce lies in the bucket of 65536 nonces that its account is for, and the tokens go to the
-- recipient.
pub record AreAccountsOf (programs : Programs) (m : Message) (burn : BurnMessage)
    (accounts : CctpAccounts) : Type 0 where
  pub bucket : ℕ
  pub bucket_low : bucket * 65536 ≤ m.nonce
  pub bucket_high : m.nonce < (bucket + 1) * 65536
  pub nonces :
      programs.find_program_address
        (text "used_nonces" ∷ format_uint bucket ∷ [])
        programs.message_transmitter_program
      ≡ some accounts.used_nonces
  pub transmitter :
      programs.find_program_address
        (text "message_transmitter" ∷ [])
        programs.message_transmitter_program
      ≡ some accounts.message_transmitter
  pub remote :
      programs.find_program_address
        (text "remote_token_messenger" ∷ be_bytes 4 m.source_domain ∷ [])
        programs.token_messenger_minter_program
      ≡ some accounts.remote_token_messenger
  pub messenger :
      programs.find_program_address
        (text "token_messenger" ∷ [])
        programs.token_messenger_minter_program
      ≡ some accounts.token_messenger
  pub minter :
      programs.find_program_address
        (text "token_minter" ∷ [])
        programs.token_messenger_minter_program
      ≡ some accounts.token_minter
  pub local :
      programs.find_program_address
        (text "local_token" ∷ programs.local_token_mint ∷ [])
        programs.token_messenger_minter_program
      ≡ some accounts.local_token
  pub pair :
      programs.find_program_address
        (text "token_pair" ∷ be_bytes 4 m.source_domain ∷ burn.burn_token ∷ [])
        programs.token_messenger_minter_program
      ≡ some accounts.token_pair
  pub custody :
      programs.find_program_address
        (text "custody" ∷ programs.local_token_mint ∷ [])
        programs.token_messenger_minter_program
      ≡ some accounts.custody_token_account
  pub events :
      programs.find_program_address
        (text "__event_authority" ∷ [])
        programs.token_messenger_minter_program
      ≡ some accounts.event_authority
  pub recipient : accounts.user_token_account ≡ burn.mint_recipient
  pub spl_program : accounts.token_program ≡ programs.spl_token_program
  pub minter_program :
      accounts.token_messenger_minter_program ≡ programs.token_messenger_minter_program

derive_from-Gives :
    (programs : Programs)
    → AlwaysFinds programs
    → (m : Message) (burn : BurnMessage) → length burn.burn_token ≡ 32
    → length burn.mint_recipient ≡ 32
    → Gives (AreAccountsOf programs m burn) (derive_from programs m burn)
unfolding derive_from nonce_seed
derive_from-Gives programs finds m burn token recipient =
    let derived = derive-Gives programs finds in
    bind-Gives (derived _ _ _) λ message_transmitter transmitter.
      bind-Gives (derived _ _ _) λ used_nonces nonces.
        bind-Gives (derived _ _ _) λ remote is_remote.
          bind-Gives (derived _ _ _) λ token_messenger messenger.
            bind-Gives (derived _ _ _) λ token_minter minter.
              bind-Gives (derived _ _ _) λ local_token local.
                bind-Gives (key-Gives _ token) λ remote_burn_token same_token.
                  bind-Gives (derived _ _ _) λ token_pair pair.
                    bind-Gives (key-Gives _ recipient) λ user_token_account is_recipient.
                      bind-Gives (derived _ _ _) λ custody_account custody.
                        bind-Gives (derived _ _ _) λ event_authority events. (
                          _,
                          refl,
                          record {
                            bucket = m.nonce / 65536;
                            bucket_low = omega arith;
                            bucket_high = omega arith;
                            nonces = nonces;
                            transmitter = transmitter;
                            remote = is_remote;
                            messenger = messenger;
                            minter = minter;
                            local = local;
                            pair = rw same_token at pair;
                            custody = custody;
                            events = events;
                            recipient = is_recipient;
                            spl_program = refl;
                            minter_program = refl;
                          },
                        )

-- The burn message in a message.
abbrev pub burn_message_of : List ℕ → BurnMessage
burn_message_of bz = burn_message_fields (drop 116 bz)

pub derive_cctp_accounts-Gives :
    (programs : Programs)
    → AlwaysFinds programs
    → (bz : List ℕ) → length bz ≡ 248
    → Gives
        (AreAccountsOf programs (message_fields bz) (burn_message_of bz))
        (derive_cctp_accounts programs bz)
unfolding derive_cctp_accounts parse_message message_fields parse_burn_message burn_message_fields
derive_cctp_accounts-Gives programs finds bz h = rw h (
    rw (length-drop 116 bz) (
      rw h (
        derive_from-Gives programs finds (message_fields bz) (burn_message_of bz)
          (length-slice 4 36 (drop 116 bz) (omega arith) (omega (arith, length-drop 116 bz)))
          (length-slice 36 68 (drop 116 bz) (omega arith) (omega (arith, length-drop 116 bz))))))

long_enough :
    (programs : Programs) (bz : List ℕ) → IsOk (derive_cctp_accounts programs bz) → length bz ≡ 248
unfolding derive_cctp_accounts parse_message message_fields parse_burn_message
long_enough programs bz = elim (Bool-cases (ltb (length bz) 116)) [
  | inl short ↦ rw short (λ h. absurd h)
  | inr long ↦ rw long (elim (Bool-cases (length (drop 116 bz) == 132)) [
    | inl fits ↦ rw fits (λ h. grind (arith, ==_iff (length (drop 116 bz)) 132, length-drop 116 bz))
    | inr other ↦ rw other (λ h. absurd h)
  ])
]

-- A message has accounts exactly if it is 248 bytes long: a header of 116 bytes, then a burn
-- message of 132.
pub derive_cctp_accounts_iff :
    (programs : Programs)
    → AlwaysFinds programs
    → (msg_sent_bytes : List ℕ)
    → IsOk (derive_cctp_accounts programs msg_sent_bytes) ↔ (length msg_sent_bytes ≡ 248)
derive_cctp_accounts_iff programs finds bz =
    (long_enough programs bz, λ h. Gives-IsOk (derive_cctp_accounts-Gives programs finds bz h))
