-- ===== src/Common/Json.antt =====
-- The values that the source reads from JSON, with `undefined` for a field that is missing. A number is
-- counted in millionths and has a sign.
use run_forge.Common.Tests.{if◌then◌else◌, ◌==◌}
use Prim.Native.Nat.{ℕ}
use mathlib.Core.Bool.{Bool, true, false, not}
use mathlib.Core.List.{List, [], ◌∷◌}
use Prim.Native.String.{String}
use text.Mathlib.Text.{◌==◌ as str_eq}

mutual
  pub data Json : Type 0 where
    undefined null : Json
    bool : Bool → Json
    num neg : ℕ → Json
    str : String → Json
    arr : Items → Json
    obj : Fields → Json

  pub data Items : Type 0 where
    nil : Items
    cons : Json → Items → Items

  pub data Fields : Type 0 where
    end : Fields
    field : String → Json → Fields → Fields

abbrev pub items_of : Items → List Json
items_of nil = []
items_of (cons v vs) = v ∷ items_of vs

abbrev pub field_of : String → Fields → Json
field_of key end = undefined
field_of key (field k v fs) = let rest = field_of key fs in if str_eq k key then v else rest

-- `value.key`, `undefined` where the value has no fields.
abbrev pub get : String → Json → Json
get key (obj fs) = field_of key fs
get key v = undefined

-- `object(value)`: the value if it is an object, otherwise one with no field.
abbrev pub object : Json → Json
object (obj fs) = obj fs
object v = obj end

abbrev pub truthy : Json → Bool
truthy undefined = false
truthy null = false
truthy (bool b) = b
truthy (num n) = not (n == 0)
truthy (neg n) = not (n == 0)
truthy (str s) = not (str_eq s "")
truthy (arr vs) = true
truthy (obj fs) = true

-- `value ?? other`
abbrev pub coalesce : Json → Json → Json
coalesce undefined w = w
coalesce null w = w
coalesce v w = v

-- `value === text` and `value === true`
abbrev pub is_str : String → Json → Bool
is_str s (str t) = str_eq t s
is_str s v = false

abbrev pub is_true : Json → Bool
is_true (bool b) = b
is_true v = false

-- `Array.isArray(value)`, and the items of an array.
abbrev pub is_array : Json → Bool
is_array (arr vs) = true
is_array v = false

abbrev pub elements : Json → List Json
elements (arr vs) = items_of vs
elements v = []

-- The texts among the values.
abbrev pub texts : List Json → List String
texts [] = []
texts (str s ∷ vs) = s ∷ texts vs
texts (v ∷ vs) = texts vs
