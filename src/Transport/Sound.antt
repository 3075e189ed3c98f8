-- ===== src/Transport/Sound.antt =====
-- What is decoded was received whole, from an answer without an error status, and fits the cap.
use matter_sdk.Common.{
  ◌+◌, ◌≤◌, ◌≡◌, refl, ap, sym, subst, ◌∙◌, List, [], ◌∷◌, ◌++◌, append_assoc, append-nil, map,
  Text, codes, length, length-append, Result, ok, err, >>=-eq-ok, map_err-eq-ok, fail_if, map_err,
  arith,
}
use matter_sdk.Core.Crypto.{Bytes}
use matter_sdk.Error.{transport}
use matter_sdk.Transport.{
  max_response_bytes, Response, too_large, read_chunks, read_json, Http, node_url, receive, health,
  partial_decrypt,
}

-- The bytes of chunks that were all received.
unfoldable pub joined : List Bytes → Bytes
joined [] = []
joined (c ∷ cs) = c ++ joined cs

Whole : Bytes → List (Result Text Bytes) → Bytes → Type 0
Whole buf chunks body =
    (pieces : List Bytes) × (chunks ≡ map ok pieces) × (body ≡ buf ++ joined pieces)

read_chunks_sound :
    (endpoint : Text) (buf : Bytes) (chunks : List (Result Text Bytes)) {body : Bytes}
    → length buf ≤ max_response_bytes
    → read_chunks endpoint buf chunks ≡ ok body
    → (length body ≤ max_response_bytes) × Whole buf chunks body
unfolding read_chunks Whole joined
read_chunks_sound endpoint buf [] {body} small h =
    let same : buf ≡ body = ground arith in
    (
      subst (λ b. length b ≤ max_response_bytes) same small,
      ([], refl, sym same ∙ sym (append-nil buf)),
    )
read_chunks_sound endpoint buf (err e ∷ rest) small h = absurd (ground arith)
read_chunks_sound endpoint buf (ok chunk ∷ rest) small h =
    let fits : length buf + length chunk ≤ max_response_bytes = ground arith in
    let (bounded, (pieces, came, spelled)) =
      read_chunks_sound endpoint (buf ++ chunk) rest (omega (arith, fits, length-append buf chunk))
        (ground arith) in
    (
      bounded,
      (
        chunk ∷ pieces,
        ap (λ cs. ok chunk ∷ cs) came,
        spelled ∙ append_assoc buf chunk (joined pieces),
      ),
    )

-- A response is decoded from the whole of its body, in the order of its chunks, each of which was
-- received, and the body is not longer than the cap.
read_json_sound :
    {T : Type 0} (decode : Bytes → Result Text T) (endpoint : Text) (resp : Response) {t : T}
    → read_json decode endpoint resp ≡ ok t
    → (pieces : List Bytes) × (resp.chunks ≡ map ok pieces)
      × (length (joined pieces) ≤ max_response_bytes)
      × (decode (joined pieces) ≡ ok t)
unfolding read_json Whole
read_json_sound decode endpoint resp h =
    let (_, _, h₁) = >>=-eq-ok (fail_if (too_large resp.content_length) _) _ h in
    let (body, collected, h₂) = >>=-eq-ok (read_chunks endpoint [] resp.chunks) _ h₁ in
    let (bounded, (pieces, came, spelled)) =
      read_chunks_sound endpoint [] resp.chunks (omega arith) collected in
    (
      pieces,
      came,
      subst (λ b. length b ≤ max_response_bytes) spelled bounded,
      ap decode (sym spelled) ∙ map_err-eq-ok (transport endpoint) (decode body) h₂,
    )

-- A body that `decode` reads as `t` arrived with an answer.
abbrev pub Arrived :
    {T : Type 0} (http : Http) → (Bytes → Result Text T) → http.Answered → T → Type 0
Arrived http decode answer t =
    (resp : Response) × (http.error_for_status answer ≡ ok resp)
    × ((pieces : List Bytes) × (resp.chunks ≡ map ok pieces)
        × (length (joined pieces) ≤ max_response_bytes)
        × (decode (joined pieces) ≡ ok t))

receive_sound :
    {T : Type 0} (http : Http) (decode : Bytes → Result Text T) (endpoint : Text)
    (answered : Result Text http.Answered) {t : T}
    → receive http decode endpoint answered ≡ ok t
    → (answer : http.Answered) × (answered ≡ ok answer) × Arrived http decode answer t
unfolding receive
receive_sound http decode endpoint answered h =
    let (answer, e₁, h₁) = >>=-eq-ok (map_err (transport endpoint) answered) _ h in
    let (resp, e₂, h₂) =
      >>=-eq-ok (map_err (transport endpoint) (http.error_for_status answer)) _ h₁ in
    (
      answer,
      map_err-eq-ok (transport endpoint) answered e₁,
      (
        resp,
        map_err-eq-ok (transport endpoint) (http.error_for_status answer) e₂,
        read_json_sound decode endpoint resp h₂,
      ),
    )

-- A partial decryption comes from the node that was asked: from its answer to a POST of the request
-- to its endpoint without trailing slashes, followed by `/partial-decrypt`, without an error
-- status, decoded from the whole of its body, in the order of its chunks, each of which was
-- received, and not longer than the cap.
pub partial_decrypt_sound :
    {T : Type 0} (http : Http) (decode : Bytes → Result Text T) (endpoint : Text)
    (req : http.Request) {t : T}
    → partial_decrypt http decode endpoint req ≡ ok t
    → (answer : http.Answered) × (http.post (node_url endpoint (codes "/partial-decrypt")) req
        ≡ ok answer)
      × Arrived http decode answer t
unfolding partial_decrypt
partial_decrypt_sound http decode endpoint req h =
    receive_sound http decode endpoint
      (http.post (node_url endpoint (codes "/partial-decrypt")) req) h

-- So does the health of a node, from its answer to a GET of `/health`.
pub health_sound :
    {T : Type 0} (http : Http) (decode : Bytes → Result Text T) (endpoint : Text) {t : T}
    → health http decode endpoint ≡ ok t
    → (answer : http.Answered) × (http.get (node_url endpoint (codes "/health")) ≡ ok answer)
      × Arrived http decode answer t
unfolding health
health_sound http decode endpoint h =
    receive_sound http decode endpoint (http.get (node_url endpoint (codes "/health"))) h
