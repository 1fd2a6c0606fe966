-- ===== src/Chains/Lawful.antt =====
-- What the processor may rely on of every chain that a configuration makes.
use noble_cctp_relayer.Base.{List, Text, Option, some, none, ◌≡◌, refl, All, subst, hex_decode}
use noble_cctp_relayer.Config.{
  ChainConfig, NobleConfig, EthereumConfig, SolanaConfig, noble_chain, ethereum_chain, solana_chain,
}
use noble_cctp_relayer.Types.State.{MessagePtr}
use noble_cctp_relayer.Types.World.{Chain, World, done}
use noble_cctp_relayer.Types.World.Payload.{IsFaithful}
use noble_cctp_relayer.Minting.Success.{IsComplete}
use noble_cctp_relayer.Ethereum.Broadcast.Success.{broadcast_success, broadcast-RunKeeps}
use noble_cctp_relayer.Noble.Broadcast.Settled.{broadcast-IsSettled}
use noble_cctp_relayer.Noble.Broadcast.Unchanged.{noble_broadcast-RunKeeps}
use noble_cctp_relayer.Solana.Broadcast.Success.{
  solana_broadcast_success, solana_broadcast-RunKeeps,
}
use noble_cctp_relayer.Chains.{
  ChainLibrary, and_then, minter_key, new_noble, new_ethereum, new_solana, local_token_mint,
  make_chain,
}

-- The contract of Broadcast: no error means that every message of the batch is complete, and with
-- or without an error every message keeps what the listener made of it but for its progress.
abbrev pub IsLawful : Chain → Type 0
IsLawful chain =
    IsFaithful chain
    × ((msgs : List MessagePtr) (w w' : World)
        → chain.broadcast msgs w ≡ done none w'
        → All (IsComplete w'.heap) msgs)

-- What holds of the value, if there is one.
abbrev Always {ℓ} : {A : Type ℓ} → (A → Type 0) → Option A → Type 0
Always P none = Unit
Always P (some a) = P a

and_then-Always {ℓ κ} :
    {A : Type ℓ} {B : Type κ} (P : B → Type 0) (o : Option A) (k : A → Option B)
    → ((a : A) → Always P (k a))
    → Always P (and_then o k)
and_then-Always P none k h = tt
and_then-Always P (some a) k h = h a

noble-Always :
    (lib : ChainLibrary) (c : NobleConfig) (key : Text) → Always IsLawful (new_noble lib c key)
unfolding new_noble
noble-Always lib c key = and_then-Always IsLawful (hex_decode key) _ (λ bytes. (
  noble_broadcast-RunKeeps (lib.cosmos c.rpc) _,
  λ msgs w w' e. (broadcast-IsSettled (lib.cosmos c.rpc) _ msgs w w' none e).0 refl,
))

ethereum-Always :
    (lib : ChainLibrary) (c : EthereumConfig) (name key : Text)
    → Always IsLawful (new_ethereum lib c name key)
unfolding new_ethereum
ethereum-Always lib c name key = and_then-Always IsLawful (lib.evm_address key) _ (λ minter.
    let node = lib.evm c.rpc c.ws c.message_transmitter in
    (broadcast-RunKeeps node _, λ msgs w w' e. (broadcast_success node _ msgs w w' e).0))

solana-Always :
    (lib : ChainLibrary) (c : SolanaConfig) (name key : Text)
    → Always IsLawful (new_solana lib c name key)
unfolding new_solana
solana-Always lib c name key = and_then-Always IsLawful (lib.solana_address key) _ λ minter.
    and_then-Always IsLawful (lib.public_key c.message_transmitter) _ λ transmitter.
      and_then-Always IsLawful (lib.public_key c.token_messenger_minter) _ λ token_minter.
        and_then-Always IsLawful (local_token_mint lib) _ λ mint. (
          solana_broadcast-RunKeeps (lib.solana c.rpc) _,
          λ msgs w w' e. (solana_broadcast_success (lib.solana c.rpc) _ msgs w w' e).0,
        )

make_chain-Always :
    (lib : ChainLibrary) (cfg : ChainConfig) (name : Text)
    → Always IsLawful (make_chain lib cfg name)
unfolding make_chain
make_chain-Always lib (noble_chain c) name =
    and_then-Always IsLawful (minter_key lib.env name c.minter_private_key) _ (noble-Always lib c)
make_chain-Always lib (ethereum_chain c) name =
    and_then-Always IsLawful (minter_key lib.env name c.minter_private_key) _
      (ethereum-Always lib c name)
make_chain-Always lib (solana_chain c) name =
    and_then-Always IsLawful (minter_key lib.env name c.minter_private_key) _
      (solana-Always lib c name)

-- Every chain that a configuration makes, of any of the three kinds, keeps the contract of
-- Broadcast: when it reports no error, every message of the batch is complete, and whatever it
-- returns, every message keeps its lookup id, domains, transaction, bytes, body, caller and nonce.
pub make_chain-IsLawful :
    (lib : ChainLibrary) (cfg : ChainConfig) (name : Text) (chain : Chain)
    → make_chain lib cfg name ≡ some chain
    → IsLawful chain
make_chain-IsLawful lib cfg name chain e =
    subst (Always IsLawful) e (make_chain-Always lib cfg name)
