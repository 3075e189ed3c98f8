-- ===== src/Chain/Connect/Amounts.antt =====
-- Amounts at the decimals that a connected client has found.
use native.Mathlib.Nat.{pow-le-pow_right, mod-eq_of_lt}
use matter_sdk.Common.{
  ℕ, ◌+◌, ◌%◌, ◌^◌, ◌≤◌, ◌<◌, ◌≡◌, ap, ◌∙◌, some, codes, ok, >>=-eq-ok, map_err, arith,
}
use matter_sdk.Common.Decimal.{max_u128}
use matter_sdk.Core.Wire.{HexCodec}
use matter_sdk.Signer.{KeySigner}
use matter_sdk.Chain.Amount.RoundTrip.{parse_amount-format_amount}
use matter_sdk.Chain.Network.{MatterConfig, ChainProperties, decimals_from_existential_deposit}
use matter_sdk.Chain.Network.Decimals.{decimals_of_power}
use matter_sdk.Chain.Connect.{
  Endpoint, rpc_error, unwrap_or, read_existential_deposit, read_properties, MatterClient, build,
  Environment,
}
use matter_sdk.Chain.Connect.Sound.{build_sound}
use matter_sdk.Chain.Access.{parse_amount, format_amount, one_token}
use matter_sdk.Chain.Amount

deposit_read :
    (node : Endpoint) {deposit read : ℕ}
    → node.existential_deposit ≡ ok (some deposit)
    → read_existential_deposit node ≡ ok read
    → read ≡ deposit
unfolding read_existential_deposit
deposit_read node stored e = ground arith

-- The decimals that were read are those of the existential deposit.
effective :
    (node : Endpoint) (properties : ChainProperties) (deposit d : ℕ)
    → node.existential_deposit ≡ ok (some deposit)
    → decimals_from_existential_deposit deposit ≡ some d
    → read_properties node ≡ ok properties
    → properties.token_decimals_effective ≡ d
unfolding read_properties unwrap_or
effective node properties deposit d stored counted h =
    let (name, e₁, h₁) =
      >>=-eq-ok (map_err (rpc_error (codes "system_chain")) node.system_chain) _ h in
    let (props, e₂, h₂) =
      >>=-eq-ok (map_err (rpc_error (codes "system_properties")) node.system_properties) _ h₁ in
    let (read, e₃, h₃) = >>=-eq-ok (read_existential_deposit node) _ h₂ in
    let same : read ≡ deposit = deposit_read node stored e₃ in
    let found : decimals_from_existential_deposit read ≡ some d =
      ap decimals_from_existential_deposit same ∙ counted in
    ground arith

-- A client that connects with a signer to a chain whose existential deposit is `10 ^ k`, for `k` up to
-- 35, reads every amount of 128 bits back from its text, and one of its tokens is `10 ^ (k + 3)`:
-- both at the decimals of the runtime, whatever decimals the node declares.
pub connected_amounts :
    (hex : HexCodec) (node : Endpoint) (env : Environment) (settings : MatterConfig) (s : KeySigner)
    (client : MatterClient) (k plancks : ℕ)
    → build hex node env settings (some s) ≡ ok client
    → node.existential_deposit ≡ ok (some (10 ^ k))
    → k ≤ 35
    → plancks ≤ max_u128
    → (parse_amount client (format_amount client plancks) ≡ ok plancks)
      × (one_token client ≡ 10 ^ (k + 3))
unfolding parse_amount format_amount one_token Amount.one_token
connected_amounts hex node env settings s client k plancks built stored small fits =
    let decimals : client.properties.token_decimals_effective ≡ k + 3 =
      effective node client.properties (10 ^ k) (k + 3) stored (decimals_of_power k (omega arith))
        (build_sound hex node env settings s built).2 in
    let below : k + 3 ≤ 38 = omega arith in
    let power : 10 ^ (k + 3) ≤ 10 ^ 38 = pow-le-pow_right (omega arith) below in
    let fits_128 : 10 ^ (k + 3) < 2 ^ 128 = omega (arith, power) in
    (
      parse_amount-format_amount plancks client.properties.token_decimals_effective fits
          (omega (arith, decimals)),
      ap (λ d. 10 ^ d % 2 ^ 128) decimals ∙ mod-eq_of_lt fits_128,
    )
