-- ===== src/Http.antt =====
-- An HTTP exchange, as httpRequest of circle/attestation.go and FetchList of
-- types/quicknode_kv.go see it. The network and the server are not part of the program: a reply
-- is what they make of a request, with what json.Unmarshal makes of its body.
use noble_cctp_relayer.Base.{ℕ, Text, Option, some, none, Result, ok, err, ◌==◌, if◌then◌else◌}

pub data Reply (A : Type 0) : Type 0 where
  transport_error : Text → Reply A
  answer : (status_code : ℕ) (body : Text) → Option A → Reply A

-- `status` carries the code and the body, which Error() prints as "status %d: %s".
pub data HttpError : Type 0 where
  transport : Text → HttpError
  status : ℕ → Text → HttpError
  bad_json : HttpError

abbrev unmarshal : {A : Type 0} → Option A → Result HttpError A
unmarshal none = err bad_json
unmarshal (some a) = ok a

unfoldable pub http_request : {A : Type 0} → Reply A → Result HttpError A
http_request (transport_error e) = err (transport e)
http_request (answer status_code body decoded) =
    if status_code == 200 then unmarshal decoded else err (status status_code body)
