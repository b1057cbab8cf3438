-- ===== src/Base/Json.antt =====
-- JSON values, as `json.loads` returns them: the tool arguments, the rollback log, the snapshots.
use Prim.Native.Nat.{ℕ}
use Prim.Native.String.{String}
use mathlib.Core.Bool.{Bool, true, false, not, ◌||◌}
use mathlib.Core.List.{[], ◌∷◌}
use mathlib.Core.Option.{Option, none, some}
use local_agent_cli.Base.Equality.{if◌then◌else◌, list_eq, nat_eq, string_eq, ◌==◌}
use local_agent_cli.Base.Text.{Text}

-- `num` is an integer from zero on; `other` is any other number, by its literal.
mutual
  pub data Json : Type 0 where
    null : Json
    bool : Bool → Json
    num : ℕ → Json
    other : Text → Json
    str : Text → Json
    arr : Items → Json
    obj : Fields → Json

  pub data Items : Type 0 where
    nil : Items
    cons : Json → Items → Items

  pub data Fields : Type 0 where
    end : Fields
    field : String → Json → Fields → Fields

-- `data.get(key)`
unfoldable pub get : String → Fields → Option Json
get key end = none
get key (field k v rest) = if key == k then some v else get key rest

-- A literal of a number that is no natural number and has no digit but 0 before its exponent, as
-- `0.0`, `-0` or `-0.0e5`.
unfoldable pub is_zero_literal : Text → Bool
is_zero_literal [] = true
is_zero_literal (c ∷ t) =
    let rest = is_zero_literal t in
    if c == b'e' || c == b'E'
    then true
    else if c == b'0' || c == b'-' || c == b'.'
    then rest
    else false

-- `bool(value)`
unfoldable pub truthy : Json → Bool
truthy null = false
truthy (bool b) = b
truthy (num n) = not (n == 0)
truthy (other t) = not (is_zero_literal t)
truthy (str t) = not (t == [])
truthy (arr nil) = false
truthy (arr (cons j js)) = true
truthy (obj end) = false
truthy (obj (field k v rest)) = true
