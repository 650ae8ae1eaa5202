-- ===== src/Prelude/Json.antt =====
-- The values that Python's `json` reads and writes: those of a dynamic argument or field. Numbers are
-- natural here.
use ai_agent_security_firewa.Prelude.Dict.{Dict}
use mathlib.Core.List.{[], ◌∷◌}
use mathlib.Core.Bool.{Bool}
use Prim.Native.Nat.{ℕ}
use Prim.Native.String.{String}

mutual
  pub data Json : Type 0 where
    null : Json
    bool : Bool → Json
    num : ℕ → Json
    str : String → Json
    arr : Items → Json
    obj : Fields → Json

  pub data Items : Type 0 where
    nil : Items
    item : Json → Items → Items

  pub data Fields : Type 0 where
    end : Fields
    field : String → Json → Fields → Fields

-- A dict of values.
abbrev pub fields : Fields → Dict Json
fields end = []
fields (field k v fs) = (k, v) ∷ fields fs
