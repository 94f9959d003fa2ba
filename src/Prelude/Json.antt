-- ===== src/Prelude/Json.antt =====
-- A parsed JSON value. `undefined`, which a missing key reads as, is `none` of `Option Json`.
use Prim.Native.Nat.{ℕ}
use Prim.Native.String.{String}
use mathlib.Core.Bool.{Bool}
use mathlib.Core.Option.{Option, none, some}
use mathlib.Core.List.{List, [], ◌∷◌}
use n8n_libpetri.Prelude.Tests.{string_eq, ◌==◌, if◌then◌else◌}

-- A JavaScript number as the checks on it tell it apart: `negative n` is -(n + 1), and
-- `fractional` is a number that is no integer (its text), NaN and the infinities among them.
pub data Num : Type 0 where
  nat : ℕ → Num
  negative : ℕ → Num
  fractional : String → Num

mutual
  pub data Json : Type 0 where
    null : Json
    bool : Bool → Json
    num : Num → Json
    str : String → Json
    arr : Items → Json
    obj : Fields → Json

  pub data Items : Type 0 where
    nil : Items
    cons : Json → Items → Items

  pub data Fields : Type 0 where
    end : Fields
    field : String → Json → Fields → Fields

abbrev pub items : Items → List Json
items nil = []
items (cons j js) = j ∷ items js

-- `raw[key]`, and `Object.keys(raw)`. A parsed object has each key once.
abbrev pub read_field : String → Fields → Option Json
read_field k end = none
read_field k (field j v fs) = if j == k then some v else read_field k fs

abbrev pub field_names : Fields → List String
field_names end = []
field_names (field j v fs) = j ∷ field_names fs
