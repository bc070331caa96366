-- ===== src/Base/Json.antt =====
-- JSON values as `json.load` returns them: what the requests, receipts and manifests are made of.
use Prim.Native.Nat.{ℕ}
use Prim.Native.String.{String}
use mathlib.Core.Bool.{Bool}
use mathlib.Core.Option.{Option, none, some}
use mathlib.Core.List.{List, [], ◌∷◌}
use mola_core.Base.Tests.{str_eq, if◌then◌else◌}

-- `negative n` is the int -(n + 1). A `real` is a float, of which the runtime only uses that it is
-- no int; it holds the literal.
mutual
  pub data Members : Type 0 where
    member : String → Value → Members → Members
    closed : Members

  pub data Elements : Type 0 where
    element : Value → Elements → Elements
    ended : Elements

  pub data Value : Type 0 where
    str real : String → Value
    int negative : ℕ → Value
    bool : Bool → Value
    object : Members → Value
    array : Elements → Value
    null : Value

-- `d.get(key)`; a key that is absent gives `none`.
abbrev pub get : String → Members → Option Value
get key closed = none
get key (member k v rest) = if str_eq k key then some v else get key rest

-- `isinstance(v, str)`, `type(v) is int` for an int that is not negative, `type(v) is bool`.
abbrev pub as_str : Option Value → Option String
as_str none = none
as_str (some (str s)) = some s
as_str (some _) = none

abbrev pub as_nat : Option Value → Option ℕ
as_nat none = none
as_nat (some (int n)) = some n
as_nat (some _) = none

abbrev pub as_obj : Option Value → Option Members
as_obj none = none
as_obj (some (object fs)) = some fs
as_obj (some _) = none

abbrev pub items : Elements → List Value
items ended = []
items (element v vs) = v ∷ items vs
