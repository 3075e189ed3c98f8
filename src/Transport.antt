-- ===== src/Transport.antt =====
-- crates/matter-sdk/src/transport.rs: the requests to a committee node, and the reading of a response
-- body up to a cap.
pub mod Sound
mod Tests
use matter_sdk.Common.{
  trim_end, ◌==◌, ℕ, ◌+◌, ◌^◌, ◌≤◌, ◌≡◌, refl, ap, sym, subst, ◌∙◌, Bool, true, false, List, [],
  ◌∷◌, ◌++◌, append_assoc, append-nil, map, Option, none, some, Text, codes, length, length-append,
  ltb, if◌then◌else◌, Result, ok, err, ◌>>=◌, ◌>>◌, >>=-eq-ok, fail_if, fail_if-passed, map_err,
  arith,
}
use matter_sdk.Common.Decimal.{to_decimal}
use matter_sdk.Core.Crypto.{Bytes}
use matter_sdk.Core.Limits.{max_committee_response_bytes}
use matter_sdk.Error.{SdkError, transport}

-- `MAX_RESPONSE_BYTES`.
abbrev pub max_response_bytes : ℕ
max_response_bytes = max_committee_response_bytes

-- Of the crate reqwest: the announced length, and what the calls of `chunk` return until there is
-- no more.
pub record Response : Type 0 where
  pub content_length : Option ℕ
  pub chunks : List (Result Text Bytes)

abbrev pub too_large : Option ℕ → Bool
too_large none = false
too_large (some len) = ltb max_response_bytes len

abbrev pub announced : Option ℕ → ℕ
announced none = 0
announced (some len) = len

-- The loop over the chunks, with what is buffered.
unfoldable pub read_chunks : Text → Bytes → List (Result Text Bytes) → Result SdkError Bytes
read_chunks endpoint buf [] = ok buf
read_chunks endpoint buf (err e ∷ rest) = err (transport endpoint e)
read_chunks endpoint buf (ok chunk ∷ rest) =
    let more = read_chunks endpoint (buf ++ chunk) rest in
    if ltb max_response_bytes (length buf + length chunk)
    then err (transport endpoint (codes "response body exceeded size cap"))
    else more

-- `decode` is `serde_json::from_slice`.
unfoldable pub read_json :
    {T : Type 0} → (Bytes → Result Text T) → Text → Response → Result SdkError T
unfolding read_chunks
read_json decode endpoint resp = do
  fail_if (too_large resp.content_length) (
      transport endpoint (
        codes "response body too large ("
        ++ (to_decimal (announced resp.content_length) ++ codes " bytes)")))
  buf ← read_chunks endpoint [] resp.chunks
  map_err (transport endpoint) (decode buf)

-- Of the crate reqwest: sending a request to a URL, and the check of the answer's status. Errors are
-- rendered. `Request` is a `PartialDecryptRequest`, sent as JSON.
pub record Http : Type 1 where
  pub Request : Type 0
  pub Answered : Type 0
  pub get : Text → Result Text Answered
  pub post : Text → Request → Result Text Answered
  pub error_for_status : Answered → Result Text Response

unfoldable pub node_url : Text → Text → Text
node_url endpoint path = trim_end (λ c. c == b'/') endpoint ++ path

-- What both requests do with their answer.
unfoldable pub receive :
    {T : Type 0} (http : Http)
    → (Bytes → Result Text T)
    → Text
    → Result Text http.Answered
    → Result SdkError T
unfolding read_json
receive http decode endpoint answered = do
  answer ← map_err (transport endpoint) answered
  resp ← map_err (transport endpoint) (http.error_for_status answer)
  read_json decode endpoint resp

-- `decode` is that of `Health`, here and of `PartialDecryptResponse` below.
unfoldable pub health : {T : Type 0} → Http → (Bytes → Result Text T) → Text → Result SdkError T
unfolding receive node_url
health http decode endpoint =
    receive http decode endpoint (http.get (node_url endpoint (codes "/health")))

unfoldable pub partial_decrypt :
    {T : Type 0} (http : Http) → (Bytes → Result Text T) → Text → http.Request → Result SdkError T
unfolding receive node_url
partial_decrypt http decode endpoint req =
    receive http decode endpoint (http.post (node_url endpoint (codes "/partial-decrypt")) req)
