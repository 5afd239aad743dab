-- ===== src/Core/Value.antt =====
-- The values of a `Record<string, unknown>`. A number is an integer: the source's doubles are exact
-- on integers up to 2^53, and no other numbers are modelled. An object or an array is its contents,
-- without the identity that `===` compares: what the source stores by reference is copied, so the
-- models are faithful for values that nothing else holds, such as plain ones.
use sync_engine.Base.{String, Bool}
use sync_engine.Base.Int.{ℤ}

mutual
  -- The properties of an object, in the order of their first insertion.
  pub data Fields : Type 0 where
    end : Fields
    field : String → Value → Fields → Fields

  pub data Items : Type 0 where
    no_items : Items
    item : Value → Items → Items

  pub data Value : Type 0 where
    object : Fields → Value
    array : Items → Value
    string : String → Value
    number : ℤ → Value
    boolean : Bool → Value
    undefined null : Value
