-- ===== src/Device/Attributes.antt =====
-- lib/device.ts: the attributes of a parameter, and how `set` merges new ones into them.
use genieacs.Common.Eq.{JsString, js_string_eq, js_string_beq}
use genieacs.Common.Words.{or_bits}
use genieacs.Common.{
  ℕ, max, Bool, true, false, ◌&&◌, ◌||◌, not, Option, none, some, List, [], ◌∷◌, leb, ◌==◌,
  if◌then◌else◌,
}
use genieacs.Device.{
  AttrName, object, writable, value, notification, access_list, Scalar, text, number, boolean,
  absent, Datum, undefined, null, flag, typed, list, Stamped, Attributes, change_flag,
}

abbrev pub same_name : AttrName → AttrName → Bool
same_name object object = true
same_name writable writable = true
same_name value value = true
same_name notification notification = true
same_name access_list access_list = true
same_name _ _ = false

-- `attributes[attrName] = v`
abbrev pub with_attr : AttrName → Stamped → Attributes → Attributes
with_attr n v a j = if same_name n j then some v else a j

abbrev pub no_attributes : Attributes
no_attributes n = none

abbrev same_bool : Bool → Bool → Bool
same_bool true b = b
same_bool false b = not b

abbrev same_scalar : Scalar → Scalar → Bool
same_scalar (text s) (text t) = js_string_beq s t
same_scalar (number n) (number m) = n == m
same_scalar (boolean b) (boolean c) = same_bool b c
same_scalar absent absent = true
same_scalar _ _ = false

abbrev same_strings : List JsString → List JsString → Bool
same_strings [] [] = true
same_strings (s ∷ r) (t ∷ q) = js_string_beq s t && same_strings r q
same_strings _ _ = false

-- `compareEquality`
unfoldable pub compare_equality : Datum → Datum → Bool
compare_equality undefined undefined = true
compare_equality null null = true
compare_equality (flag n) (flag m) = n == m
compare_equality (typed v s) (typed w t) = same_scalar v w && js_string_beq s t
compare_equality (list r) (list q) = same_strings r q
compare_equality _ _ = false

-- whether `[1]` is truthy
abbrev pub is_set : Datum → Bool
is_set undefined = false
is_set null = false
is_set (flag n) = not (n == 0)
is_set _ = true

-- `a ? a[0] : 0`
abbrev pub time_of : Option Stamped → ℕ
time_of none = 0
time_of (some a) = a.time

abbrev pub overrides : Option Stamped → Option Stamped → Bool
overrides none b = false
overrides (some a) b = is_set a.datum && leb (time_of b) a.time

-- a value says that the parameter is no object
unfoldable pub value_over_object : Attributes → Attributes
value_over_object a =
    if overrides (a value) (a object)
    then with_attr object (record { time = time_of (a value); datum = flag 0 }) a
    else a

-- an object has no value
unfoldable pub object_over_value : Attributes → Attributes
object_over_value a =
    if overrides (a object) (a value)
    then with_attr value (record { time = time_of (a object); datum = null }) a
    else a

abbrev pub normalize : Attributes → Attributes
normalize a = object_over_value (value_over_object a)

-- one attribute of `newAttributes`
abbrev pub newer : Option Stamped → Option Stamped → Option Stamped
newer none given = given
newer (some c) none = some c
newer (some c) (some g) = if leb g.time c.time then some c else some g

unfoldable pub merge : Attributes → Attributes → Attributes
merge current given n = newer (current n) (given n)

-- the change flag of one attribute
abbrev pub flag_of_change : AttrName → Option Stamped → Option Stamped → ℕ
flag_of_change n c none = 0
flag_of_change n none (some g) = change_flag n
flag_of_change n (some c) (some g) =
    if leb g.time c.time || compare_equality g.datum c.datum then 0 else change_flag n

unfoldable pub flags_of_changes : List AttrName → Attributes → Attributes → ℕ
flags_of_changes [] current given = 0
flags_of_changes (n ∷ r) current given =
    or_bits (flag_of_change n (current n) (given n)) (flags_of_changes r current given)

-- `timestamp = Math.max(timestamp, attributes[attrName][0])` for all of them
unfoldable pub latest : List AttrName → ℕ → Attributes → ℕ
latest [] t given = t
latest (n ∷ r) t given = max (time_of (given n)) (latest r t given)
