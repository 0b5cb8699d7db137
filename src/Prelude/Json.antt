-- ===== src/Prelude/Json.antt =====
-- A parsed JSON value. An object's entries stand in the order in which `Object.entries` lists them.
use Prim.Native.String.{String}
use mathlib.Core.Bool.{Bool}
use mathlib.Core.Option.{Option, none, some}
use package.text.Mathlib.Text.{◌==◌}
use tekbreed_oss.Prelude.Tests.{if◌then◌else◌}
use tekbreed_oss.Prelude.Number.{JsNumber}

mutual
  pub data Json : Type 0 where
    null : Json
    boolean : Bool → Json
    number : JsNumber → Json
    text : String → Json
    array : Items → Json
    object : Fields → Json

  pub data Items : Type 0 where
    nil : Items
    cons : Json → Items → Items

  pub data Fields : Type 0 where
    end : Fields
    field : String → Json → Fields → Fields

-- object.field; a missing field is undefined
abbrev pub field_of : Fields → String → Option Json
field_of Fields.end k = none
field_of (Fields.field j v fs) k = if j == k then some v else field_of fs k
