-- ===== src/Chain/Recover/Tables.antt =====
-- `assemble_nodes` and `parse_endpoint`: an epoch's committee joined with the registry's endpoints
-- and the share commitments.
use matter_sdk.Common.{
  ℕ, ◌||◌, List, [], ◌∷◌, ◌++◌, Option, none, some, Text, codes, text_eq, ◌==◌, trim, trim_end,
  starts_with, if◌then◌else◌, Result, ok, ◌>>=◌, ok_or, from_utf8,
}
use matter_sdk.Common.Decimal.{to_decimal}
use matter_sdk.Core.Crypto.{Bytes}
use matter_sdk.Error.{SdkError, chain}
use matter_sdk.Committee.Quorum.{CommitteeNode, sort_by_index}

abbrev pub Account : Type 0
Account = Bytes

-- `table.iter().find(|(k, _)| k == id).map(|(_, v)| v.clone())`.
unfoldable pub lookup : List (Account × Bytes) → Account → Option Bytes
lookup [] id = none
lookup ((a, v) ∷ rest) id = if text_eq a id then some v else lookup rest id

http_url : Option Text → Option Text
http_url none = none
http_url (some raw) =
    let s = trim raw in
    if starts_with (codes "https://") s || starts_with (codes "http://") s
    then some (trim_end (λ c. c == b'/') s)
    else none

unfoldable pub parse_endpoint : Bytes → Option Text
unfolding http_url
parse_endpoint raw = http_url (from_utf8 raw)

parse_raw : Option Bytes → Option Text
parse_raw none = none
parse_raw (some raw) = parse_endpoint raw

-- The endpoint of a reachable member.
unfoldable pub endpoint_of : List (Account × Bytes) → Account → Option Text
unfolding parse_raw
endpoint_of endpoints id = parse_raw (lookup endpoints id)

unfoldable pub missing : ℕ → ℕ → SdkError
missing index epoch = chain (codes "KgcApi_share_commitment") (
    codes "share commitment missing for reachable node "
    ++ (to_decimal index ++ (codes " at epoch " ++ to_decimal epoch)))

module _ (endpoints commitments : List (Account × Bytes)) (epoch : ℕ) where
  -- One turn of the loop, before the nodes of the later turns.
  unfoldable pub join_member :
      Account
      → ℕ
      → Option Text
      → Result SdkError (List CommitteeNode)
      → Result SdkError (List CommitteeNode)
  unfolding missing
  join_member id index none rest = rest
  join_member id index (some endpoint) rest = do
    commitment ← ok_or (lookup commitments id) (missing index epoch)
    nodes ← rest
    ok (record { index = index; endpoint = endpoint; share_commitment = commitment } ∷ nodes)

  unfoldable pub join : List (Account × ℕ) → Result SdkError (List CommitteeNode)
  unfolding join_member
  join [] = ok []
  join ((id, index) ∷ rest) = join_member id index (endpoint_of endpoints id) (join rest)

unfoldable pub assemble_nodes :
    List (Account × ℕ)
    → List (Account × Bytes)
    → List (Account × Bytes)
    → ℕ
    → Result SdkError (List CommitteeNode)
unfolding join
assemble_nodes committee endpoints commitments epoch = do
  nodes ← join endpoints commitments epoch committee
  ok (sort_by_index nodes)
