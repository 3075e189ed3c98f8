-- ===== src/Key/Scopes/Tests.antt =====
-- Examples on a set that may read secrets, and read and write deployments.
use matter_sdk.Common.{◌≡◌, ◌↔◌, true, arith, ok}
use matter_sdk.Key.Scopes.{Scope, Access, ScopeSet, contains, is_superset}
use matter_sdk.Key.Scopes.Order.{is_superset_iff}
use matter_sdk.Key.Scopes.Format.{display, parse}
use matter_sdk.Key.Scopes.RoundTrip.{parse-display}

abbrev agent : ScopeSet
agent = record { bits = 19 }

parse-display_example : parse (display agent) ≡ ok agent
parse-display_example = parse-display agent (omega arith)

is_superset_iff_example : (is_superset agent (record { bits = 3 }) ≡ true) ↔ (
    (sc : Scope) (ac : Access)
    → contains (record { bits = 3 }) sc ac ≡ true
    → contains agent sc ac ≡ true)
is_superset_iff_example = is_superset_iff agent (record { bits = 3 }) (omega arith)
