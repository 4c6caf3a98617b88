-- ===== src/Base/Json.antt =====
-- JSON values. The text that `str` gives of a UUID is kept as the UUID, and the ISO text of a time
-- as the time.
use Prim.Native.Nat.{ℕ}
use Prim.Native.String.{String}
use mathlib.Core.Bool.{Bool}
use mathlib.Core.List.{List, [], ◌∷◌}
use mathlib.Core.Option.{Option, none, some}

mutual
  pub data Json : Type 0 where
    null : Json
    bool : Bool → Json
    num uuid time : ℕ → Json
    text : String → Json
    array : Items → Json
    object : Fields → Json

  pub data Items : Type 0 where
    nil : Items
    cons : Json → Items → Items

  pub data Fields : Type 0 where
    end : Fields
    field : String → Json → Fields → Fields

-- A value that may be `None`.
abbrev pub opt_text : Option String → Json
opt_text none = null
opt_text (some s) = text s

abbrev fields_of : List (String × Json) → Fields
fields_of [] = end
fields_of ((k, v) ∷ d) = field k v (fields_of d)

-- A dictionary as the value of a key.
abbrev pub object_of : List (String × Json) → Json
object_of d = object (fields_of d)
