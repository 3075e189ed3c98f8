-- ===== src/Core/Limits.antt =====
-- crates/matter-sdk-core/src/lib.rs: the cap on a response that every transport enforces.
use matter_sdk.Common.{ℕ, ◌*◌, ◌^◌, ◌<◌, ◌≤◌, arith}

-- `MAX_COMMITTEE_RESPONSE_BYTES`, that is `1 << 30`.
abbrev pub max_committee_response_bytes : ℕ
max_committee_response_bytes = 2 ^ 30

-- `OBSERVED_PARTIAL_BYTES`.
abbrev pub observed_partial_bytes : ℕ
observed_partial_bytes = 1180574

-- The two assertions of compile time.
admits_observed : observed_partial_bytes < max_committee_response_bytes
admits_observed = omega arith

has_headroom : observed_partial_bytes * 8 ≤ max_committee_response_bytes
has_headroom = omega arith
