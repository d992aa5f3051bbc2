-- ===== src/Base/Json.antt =====
-- The JSON values that payloads, results and replies carry, and reads of an object's fields.
use mathlib.Core.Option.{Option, none, some}
use Prim.Native.Nat.{ℕ}
use Prim.Native.String.{String}
use mathlib.Core.Bool.{Bool}
use text.Mathlib.Text.{◌==◌}
use clipper_ai.Base.Tests.{if◌then◌else◌}

mutual
  pub data Json : Type 0 where
    null : Json
    bool : Bool → Json
    num : ℕ → Json
    str : String → Json
    arr : Items → Json
    obj : Fields → Json

  pub data Items : Type 0 where
    nil : Items
    cons : Json → Items → Items

  pub data Fields : Type 0 where
    end : Fields
    field : String → Json → Fields → Fields

-- `d.get(k)`
unfoldable pub get_field : String → Fields → Option Json
get_field k end = none
get_field k (field j v fs) = if j == k then some v else get_field k fs

-- `d[k] = v`
unfoldable pub set_field : String → Json → Fields → Fields
set_field k v end = field k v end
set_field k v (field j w fs) = if j == k then field j v fs else field j w (set_field k v fs)

-- `d.setdefault(k, v)`
unfoldable pub set_default : String → Json → Fields → Fields
set_default k v fs = elim (get_field k fs) [ none ↦ set_field k v fs | some _ ↦ fs ]
