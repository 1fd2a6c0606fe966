-- ===== src/Circle/Reattest.antt =====
-- circle/reattest.go: a Fast Transfer attestation expires at a block of the destination chain, and
-- is asked for again before that. `uint64` sums wrap.
pub mod Handle
pub mod Bound
pub mod Queue
use noble_cctp_relayer.Base.{
  ℕ, ◌+◌, ◌%◌, List, [], ◌∷◌, ◌++◌, Text, text, Bool, true, false, Option, some, none, Result, ok,
  err, panic, leb, ltb, ◌==◌, not, if◌then◌else◌, text_eq, format_uint, parse_uint, Map, lookup,
  insert, erase, nat_key,
}
use noble_cctp_relayer.Http.{HttpError, http_request}
use noble_cctp_relayer.Types.Settings.{CircleSettings}
use noble_cctp_relayer.Types.State.{MessageState, MessagePtr, failed}
use noble_cctp_relayer.Types.World.{World, set_message}
use noble_cctp_relayer.Circle.Attestation.{
  CircleApi, AttestationResponse, MessageResponseV2, MessagesError, normalize_base_url,
  get_attestation_v2_message,
}

pub record ReattestResult : Type 0 where
  pub should_reattest : Bool
  pub new_attestation : Text
  pub new_expiration_block : ℕ
  pub exhausted_retries : Bool
  pub remove_from_queue : Bool

unfoldable pub request_reattestation :
    CircleApi → ℕ → Text → ℕ → ℕ → Result HttpError AttestationResponse
request_reattestation api now base_url source_domain nonce = http_request (
    api.post_reattest now (
      normalize_base_url base_url
      ++ (text "/v2/reattest/" ++ (format_uint source_domain ++ (text "/" ++ format_uint nonce)))))

abbrev or_zero : Option ℕ → ℕ
or_zero none = 0
or_zero (some v) = v

-- An empty text is no number either.
unfoldable pub parse_expiration_block : Text → ℕ
parse_expiration_block expiration_block = or_zero (parse_uint expiration_block)

pub data ReattestError : Type 0 where
  max_attempts_reached : ReattestError
  reattestation_failed : HttpError → ReattestError

abbrev pub no_result : ReattestResult
no_result = record {
  should_reattest = false;
  new_attestation = [];
  new_expiration_block = 0;
  exhausted_retries = false;
  remove_from_queue = false;
}

abbrev updated_expiration : Result MessagesError MessageResponseV2 → ℕ
updated_expiration (ok m) = parse_expiration_block m.expiration_block
updated_expiration (err e) = 0
updated_expiration panic = 0

-- The default of three attempts.
unfoldable pub max_retries : CircleSettings → ℕ
max_retries cfg = if cfg.reattest_max_retries == 0 then 3 else cfg.reattest_max_retries

-- What follows the POST request; the GET request comes after it.
after_request :
    CircleApi
    → ℕ
    → CircleSettings
    → MessageState
    → Result HttpError AttestationResponse
    → ReattestResult × Option ReattestError
after_request api now cfg msg (ok r) = (
  record no_result {
    should_reattest = true;
    new_attestation = r.attestation;
    new_expiration_block = updated_expiration (
        get_attestation_v2_message api (now + 1) cfg.attestation_base_url msg.source_tx_hash
          msg.source_domain);
  },
  none,
)
after_request api now cfg msg (err e) = (
  record no_result { should_reattest = true; remove_from_queue = true },
  some (reattestation_failed e),
)
after_request api now cfg msg panic = (no_result, none)

unfoldable pub handle_expiring_attestation :
    CircleApi → ℕ → MessageState → CircleSettings → ℕ → ReattestResult × Option ReattestError
unfolding after_request
handle_expiring_attestation api now msg cfg current_block =
    if msg.expiration_block == 0
    then (no_result, none)
    else if ltb ((current_block + cfg.expiration_buffer_blocks) % 0x1_0000_0000_0000_0000)
        msg.expiration_block
    then (no_result, none)
    else if leb (max_retries cfg) msg.reattest_count
    then (
      record no_result { should_reattest = true; exhausted_retries = true },
      some max_attempts_reached,
    )
    else after_request api now cfg msg
        (request_reattestation api now cfg.attestation_base_url msg.source_domain msg.nonce)

-- What ApplyReattestResult makes of the message; it is applied under the lock at `now`.
unfoldable pub reattested : ℕ → MessageState → ReattestResult → MessageState
reattested now msg result =
    let counted = record msg {
      reattest_count = msg.reattest_count + 1;
      last_reattest_time = now;
    } in
    let renewed =
      if not (text_eq result.new_attestation [])
      then record counted { attestation = result.new_attestation; updated_at = now }
      else counted in
    if not result.should_reattest
    then msg
    else if result.exhausted_retries
    then record counted { status = failed; updated_at = now }
    else if ltb 0 result.new_expiration_block
    then record renewed { expiration_block = result.new_expiration_block }
    else renewed

unfoldable pub apply_reattest_result : MessagePtr → ReattestResult → World → World
apply_reattest_result p result w = set_message p (reattested w.clock (w.heap p) result) w

-- The batches for Broadcast, by destination domain.
abbrev pub Batches : Type 0
Batches = Map ℕ (List MessagePtr)

-- The loop with `m != msg`, which compares pointers.
unfoldable pub without : MessagePtr → List MessagePtr → List MessagePtr
without msg [] = []
without msg (m ∷ ms) = let rest = without msg ms in if m == msg then rest else m ∷ rest

abbrev put_back : ℕ → List MessagePtr → Batches → Batches
put_back dest [] queue = erase dest queue
put_back dest (m ∷ ms) queue = insert dest (m ∷ ms) queue

abbrev remove_from : MessagePtr → ℕ → Option (List MessagePtr) → Batches → Batches
remove_from msg dest none queue = queue
remove_from msg dest (some domain_msgs) queue = put_back dest (without msg domain_msgs) queue

unfoldable pub remove_message_from_queue : MessagePtr → ℕ → Batches → Batches
remove_message_from_queue msg dest_domain queue =
    remove_from msg dest_domain (lookup dest_domain queue) queue
