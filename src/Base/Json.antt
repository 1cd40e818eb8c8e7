-- ===== src/Base/Json.antt =====
-- The values that `JSON.parse` returns. Numbers are natural: sequences, ids and status codes.
use Prim.Native.Nat.{ℕ}
use Prim.Native.String.{String}
use mathlib.Core.Bool.{Bool}
use mathlib.Core.Option.{Option, none, some}
use mathlib.Core.List.{[], ◌∷◌}
use change_quality_agent.Base.Dict.{Dict}

mutual
  pub data Json : Type 0 where
    null : Json
    bool : Bool → Json
    num : ℕ → Json
    str : String → Json
    arr : Items → Json
    obj : Members → Json

  pub data Items : Type 0 where
    nil : Items
    cons : Json → Items → Items

  pub data Members : Type 0 where
    end : Members
    member : String → Json → Members → Members

-- The object as a record.
abbrev pub record_of : Members → Dict Json
record_of end = []
record_of (member k v ms) = (k, v) ∷ record_of ms

-- `typeof v === "string" ? v : undefined`, of a property that may be absent
abbrev pub read_string : Option Json → Option String
read_string (some (Json.str s)) = some s
read_string _ = none

-- `typeof v === "number"`, with its value
abbrev pub read_number : Option Json → Option ℕ
read_number (some (Json.num n)) = some n
read_number _ = none
