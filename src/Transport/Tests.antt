-- ===== src/Transport/Tests.antt =====
-- A body in two chunks.
use matter_sdk.Common.{ℕ, err, trim_end, ◌≡◌, refl, [], ◌∷◌, some, codes, ok}
use matter_sdk.Transport.{Response, read_json, Http, node_url, partial_decrypt}
use matter_sdk.Transport.Sound.{Arrived, partial_decrypt_sound}

abbrev response : Response
response = record { content_length = some 3; chunks = ok (1 ∷ 2 ∷ []) ∷ ok (3 ∷ []) ∷ [] }

arrives : read_json ok (codes "https://node") response ≡ ok (1 ∷ 2 ∷ 3 ∷ [])
unfolding read_json
arrives = refl

-- A node that answers one request.
abbrev http : Http
http = record {
  Request = ℕ;
  Answered = Response;
  get = λ url. err (codes "no route");
  post = λ url req. ok response;
  error_for_status = ok;
}

answers : partial_decrypt http ok (codes "https://node/") 7 ≡ ok (1 ∷ 2 ∷ 3 ∷ [])
unfolding partial_decrypt
answers = refl

partial_decrypt_sound_example :
    (answer : Response) × (http.post (node_url (codes "https://node/") (codes "/partial-decrypt")) 7
      ≡ ok answer)
    × Arrived http ok answer (1 ∷ 2 ∷ 3 ∷ [])
partial_decrypt_sound_example = partial_decrypt_sound http ok (codes "https://node/") 7 answers

slashes : node_url (codes "https://node//") (codes "/health") ≡ codes "https://node/health"
unfolding node_url trim_end
slashes = refl
