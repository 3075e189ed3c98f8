-- ===== src/Chain/Facade/References.antt =====
-- Whether the request of a deployment names a secret, read off the request independently of
-- `required_scopes`.
use text.Mathlib.Text.{◌==◌ as str_eq}
use matter_sdk.Common.{
  ◌≡◌, refl, ap, ◌∙◌, Bool, true, false, not, ◌&&◌, ◌||◌, Option, some, String, if◌then◌else◌,
}
use matter_sdk.Key.Scopes.{Scope, deployments, secrets, read, write, ScopeSet, single, with_grant}
use matter_sdk.Chain.Value.{
  Value, composite, variant, bit_sequence, number, boolean, other_primitive, named, unnamed, Fields,
  end, field,
}
use matter_sdk.Chain.ScopesTable.{request_references_secret, unset, is_none, find_field}

-- One grant to write, and the two grants of a deployment that names a secret.
abbrev pub write_scope : Scope → ScopeSet
write_scope scope = single scope write

abbrev pub deploy_naming_secret : ScopeSet
deploy_naming_secret = with_grant (single deployments write) secrets read

-- A request gives the field, and the first of its name is `None`.
unfoldable pub clears : String → Fields → Bool
clears name end = false
clears name (field f (variant v contents) rest) =
    let later = clears name rest in if str_eq f name then str_eq v "None" else later
clears name (field f (composite c) rest) =
    let later = clears name rest in if str_eq f name then false else later
clears name (field f (bit_sequence b) rest) =
    let later = clears name rest in if str_eq f name then false else later
clears name (field f (number n) rest) =
    let later = clears name rest in if str_eq f name then false else later
clears name (field f (boolean b) rest) =
    let later = clears name rest in if str_eq f name then false else later
clears name (field f (other_primitive t) rest) =
    let later = clears name rest in if str_eq f name then false else later

-- A request names a secret unless it can be read and both references are given as `None`.
unfoldable pub names_secret : Value → Bool
unfolding clears
names_secret (composite (named fields)) =
    not (clears "secret_ref" fields && clears "tls_secret_ref" fields)
names_secret (composite (unnamed values)) = true
names_secret (variant v contents) = true
names_secret (bit_sequence b) = true
names_secret (number n) = true
names_secret (boolean b) = true
names_secret (other_primitive t) = true

is_none_if :
    (here : Bool) (v : Value) (later : Option Value)
    → is_none (if here then some v else later) ≡ (if here then is_none (some v) else is_none later)
is_none_if true v later = refl
is_none_if false v later = refl

unset-clears : (name : String) (fields : Fields) → unset name fields ≡ clears name fields
unfolding unset clears is_none find_field
unset-clears name end = refl
unset-clears name (field f (variant v contents) rest) =
    is_none_if (str_eq f name) (variant v contents) (find_field name rest)
    ∙ ap (λ b. if str_eq f name then str_eq v "None" else b) (unset-clears name rest)
unset-clears name (field f (composite c) rest) =
    is_none_if (str_eq f name) (composite c) (find_field name rest)
    ∙ ap (λ b. if str_eq f name then false else b) (unset-clears name rest)
unset-clears name (field f (bit_sequence c) rest) =
    is_none_if (str_eq f name) (bit_sequence c) (find_field name rest)
    ∙ ap (λ b. if str_eq f name then false else b) (unset-clears name rest)
unset-clears name (field f (number c) rest) =
    is_none_if (str_eq f name) (number c) (find_field name rest)
    ∙ ap (λ b. if str_eq f name then false else b) (unset-clears name rest)
unset-clears name (field f (boolean c) rest) =
    is_none_if (str_eq f name) (boolean c) (find_field name rest)
    ∙ ap (λ b. if str_eq f name then false else b) (unset-clears name rest)
unset-clears name (field f (other_primitive c) rest) =
    is_none_if (str_eq f name) (other_primitive c) (find_field name rest)
    ∙ ap (λ b. if str_eq f name then false else b) (unset-clears name rest)

either_set : (a b : Bool) → (not a || (not b || false)) ≡ not (a && b)
either_set true true = refl
either_set true false = refl
either_set false b = refl

pub references-names : (r : Value) → request_references_secret (some r) ≡ names_secret r
unfolding request_references_secret names_secret
references-names (composite (named fields)) =
    ap (λ a. not a || (not (unset "tls_secret_ref" fields) || false))
      (unset-clears "secret_ref" fields)
    ∙ (ap (λ b. not (clears "secret_ref" fields) || (not b || false))
          (unset-clears "tls_secret_ref" fields)
        ∙ either_set (clears "secret_ref" fields) (clears "tls_secret_ref" fields))
references-names (composite (unnamed values)) = refl
references-names (variant v contents) = refl
references-names (bit_sequence b) = refl
references-names (number n) = refl
references-names (boolean b) = refl
references-names (other_primitive t) = refl
