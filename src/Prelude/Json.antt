-- ===== src/Prelude/Json.antt =====
-- The values that the program hands to `json.dumps`.
use Prim.Native.String.{String}
use mathlib.Core.Bool.{Bool}
use acvjepa_project.Prelude.Int.{ℤ}

mutual
  pub data Json : Type 0 where
    null : Json
    str : String → Json
    int : ℤ → Json
    bool : Bool → Json
    -- a float, by its text
    num : String → Json
    arr : Items → Json
    obj : Fields → Json

  pub data Items : Type 0 where
    nil : Items
    cons : Json → Items → Items

  pub data Fields : Type 0 where
    end : Fields
    field : String → Json → Fields → Fields
