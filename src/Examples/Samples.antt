-- ===== src/Examples/Samples.antt =====
-- Concrete data of every kind for the examples.
use noble_cctp_relayer.Base.{
  pos, ℕ, suc, List, [], ◌∷◌, text, Bool, true, false, some, none, IsByte, All, ltb, ◌≡◌, arith,
  ◌&&◌, zero,
}
use noble_cctp_relayer.Http.{answer}
use noble_cctp_relayer.Types.Settings.{CircleSettings}
use noble_cctp_relayer.Types.State.{MessageState, created, attested}
use noble_cctp_relayer.Types.World.{World}
use noble_cctp_relayer.Circle.Attestation.{
  CircleApi, AttestationResponse, MessageResponseV2, FastTransferAllowance,
}
use noble_cctp_relayer.Cmd.Process.{Env, Turn}
use noble_cctp_relayer.Types.Filter.{FilterRegistry}

abbrev pub repeat : ℕ → ℕ → List ℕ
repeat zero b = []
repeat (suc n) b = b ∷ repeat n b

abbrev pub all_bytes : List ℕ → Bool
all_bytes [] = true
all_bytes (b ∷ bs) = ltb b 256 && all_bytes bs

pub All-all_bytes : (bs : List ℕ) → all_bytes bs ≡ true → All IsByte bs
All-all_bytes [] e = tt
All-all_bytes (b ∷ bs) e = (ground arith, All-all_bytes bs (ground arith))

-- A transfer from Ethereum (0) to Noble (4).
abbrev pub transfer : MessageState
transfer = record {
  iris_lookup_id = text "ab12";
  status = created;
  attestation = [];
  source_domain = 0;
  dest_domain = 4;
  source_tx_hash = text "0xfeed";
  dest_tx_hash = [];
  msg_sent_bytes = 1 ∷ 2 ∷ 3 ∷ [];
  msg_body = repeat 132 7;
  destination_caller = repeat 32 0;
  channel = [];
  created_at = 1;
  updated_at = 1;
  nonce = 55;
  cctp_version = [];
  expiration_block = 0;
  finality_threshold = 0;
  reattest_count = 0;
  last_reattest_time = 0;
}

abbrev pub attested_transfer : MessageState
attested_transfer = record transfer {
  status = attested;
  attestation = text "0x0a0b";
  expiration_block = 120;
}

abbrev pub settings : CircleSettings
settings = record {
  attestation_base_url = text "https://iris";
  api_version = text "v2";
  fetch_retries = 2;
  fetch_retry_interval = pos 3;
  enable_fast_transfer_monitoring = true;
  reattest_max_retries = 2;
  expiration_buffer_blocks = 50;
  allowance_monitor_token = text "USDC";
  allowance_monitor_interval = 30;
}

abbrev pub complete_answer : MessageResponseV2
complete_answer = record {
  message = [];
  attestation = text "0x0a0b";
  status = text "complete";
  event_nonce = [];
  source_domain = text "0";
  destination_domain = text "4";
  cctp_version = text "2";
  finality_threshold_executed = [];
  expiration_block = text "120";
}

abbrev pub allowance : FastTransferAllowance
allowance = record {
  source_domain = text "0";
  token = text "USDC";
  allowance = text "1000";
  max_allowance = text "2000";
}

abbrev pub new_attestation : AttestationResponse
new_attestation = record { attestation = text "0x0c0d"; status = text "complete" }

-- A service that answers every request.
abbrev pub iris : CircleApi
iris = record {
  get_attestation = λ now url. answer 200 [] (some new_attestation);
  get_messages = λ now url. answer 200 [] (some (complete_answer ∷ []));
  get_allowance = λ now url. answer 200 [] (some allowance);
  post_reattest = λ now url. answer 200 [] (some new_attestation);
}

abbrev pub world_of : MessageState → World
world_of m = record { heap = λ p. m; sequences = []; metrics = some []; clock = 9 }

abbrev pub env : Env
env = record {
  registry = none;
  api = iris;
  circle = settings;
  domains = [];
  map_order = λ batches. batches;
}

abbrev pub env_with : FilterRegistry → Env
env_with r = record env { registry = some r }

abbrev pub turn_of : MessageState → Turn
turn_of m = record { world = world_of m; batches = []; requeue = false }
