-- ===== src/Circle/Attestation/Check.antt =====
-- What the v2 API answers for.
use noble_cctp_relayer.Base.{ℕ, Text, some, ◌≡◌}
use noble_cctp_relayer.Types.Settings.{CircleSettings, v2, get_api_version}
use noble_cctp_relayer.Circle.Attestation.{CircleApi, check_attestation}

-- With the v2 API the attestation is looked up by the source transaction alone: all messages of
-- one transaction get the same answer, whatever their lookup ids.
pub check_attestation_v2_by_tx :
    (api : CircleApi) (now : ℕ) (cfg : CircleSettings) (id other tx_hash : Text) (source_domain : ℕ)
    → get_api_version cfg ≡ some v2
    → check_attestation api now cfg id tx_hash source_domain
      ≡ check_attestation api now cfg other tx_hash source_domain
unfolding check_attestation
check_attestation_v2_by_tx api now cfg id other tx_hash source_domain version = rw version
