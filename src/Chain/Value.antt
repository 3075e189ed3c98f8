-- ===== src/Chain/Value.antt =====
-- The values that calls take, `subxt::dynamic::Value`, and calls by name,
-- `subxt::tx::DynamicPayload`: the shapes that the SDK reads and builds.
use matter_sdk.Common.{ℕ, Bool, List, String}

mutual
  pub data Value : Type 0 where
    composite : Composite → Value
    variant : String → Composite → Value
    bit_sequence : List Bool → Value
    number : ℕ → Value
    boolean : Bool → Value
    other_primitive : String → Value

  pub data Composite : Type 0 where
    named : Fields → Composite
    unnamed : Values → Composite

  pub data Fields : Type 0 where
    end : Fields
    field : String → Value → Fields → Fields

  pub data Values : Type 0 where
    none_left : Values
    item : Value → Values → Values

pub record DynamicPayload : Type 0 where
  pub pallet : String
  pub call : String
  pub args : List Value
