-- ===== src/InstanceSet.antt =====
-- lib/instance-set.ts: the instances that declarations ask for, each a map from parameter names to
-- values. An instance is an object with an identity, by which the set knows it.
pub mod Selection
pub mod Ranking
mod Tests
use genieacs.Common.JsMap
use genieacs.Common.JsMap.{JsMap}
use genieacs.Common.Eq.{JsString, ◌===◌, js_string_eq, js_string_beq}
use genieacs.Common.Text.{string_lt}
use genieacs.Common.{
  ℕ, zero, suc, Bool, true, false, ◌&&◌, ◌||◌, not, Option, none, some, List, [], ◌∷◌, ◌++◌, map,
  length, ltb, ◌==◌, if◌then◌else◌,
}

pub record Instance : Type 0 where
  pub identity : ℕ
  pub fields : JsMap JsString JsString

abbrev pub InstanceSet : Type 0
InstanceSet = List Instance

unfoldable pub contains : InstanceSet → Instance → Bool
contains [] i = false
contains (x ∷ s) i = x.identity == i.identity || contains s i

unfoldable pub add : Instance → InstanceSet → InstanceSet
unfolding contains
add i s = if contains s i then s else s ++ i ∷ []

unfoldable pub delete : Instance → InstanceSet → InstanceSet
delete i [] = []
delete i (x ∷ s) = if x.identity == i.identity then s else x ∷ delete i s

-- `clear`
abbrev pub cleared : InstanceSet
cleared = []

abbrev pub size : InstanceSet → ℕ
size s = length s

-- `inst[k] === instance[k]`; a missing field is undefined
abbrev pub same_field : Option JsString → Option JsString → Bool
same_field none none = true
same_field (some v) (some w) = js_string_beq v w
same_field _ _ = false

-- the loop `for (const k in keys) if (inst[k] !== instance[k])`
unfoldable pub agree_on :
    JsMap JsString JsString → JsMap JsString JsString → JsMap JsString JsString → Bool
agree_on [] inst instance_fields = true
agree_on ((k, v) ∷ keys) inst instance_fields =
    same_field (JsMap.get k inst) (JsMap.get k instance_fields)
    && agree_on keys inst instance_fields

unfoldable pub select : (Instance → Bool) → InstanceSet → List Instance
select test [] = []
select test (x ∷ s) = let rest = select test s in if test x then x ∷ rest else rest

-- what a comparator returns: -1, 0 or 1, or a difference of that sign
pub data Order : Type 0 where
  before same after : Order

-- `keys.sort()`
unfoldable pub insert_key : JsString → List JsString → List JsString
insert_key k [] = k ∷ []
insert_key k (j ∷ r) = let later = j ∷ insert_key k r in if string_lt j k then later else k ∷ j ∷ r

unfoldable pub sort_keys : List JsString → List JsString
unfolding insert_key
sort_keys [] = []
sort_keys (k ∷ r) = insert_key k (sort_keys r)

abbrev pub first_of : JsString × JsString → JsString
first_of (k, v) = k

-- `Object.keys`; the keys are sorted wherever they are used
abbrev pub keys : Instance → List JsString
keys i = sort_keys (map first_of i.fields)

abbrev pub value_at : JsString → Instance → JsString
value_at k i = elim (JsMap.get k i.fields) [ none ↦ [] | some v ↦ v ]

-- the loop of the comparators over the sorted keys
unfoldable pub compare_keys : Instance → Instance → List JsString → List JsString → Order
compare_keys a b [] ys = same
compare_keys a b (x ∷ xs) [] = same
compare_keys a b (x ∷ xs) (y ∷ ys) =
    let rest = compare_keys a b xs ys in
    if string_lt y x
    then after
    else if string_lt x y
    then before
    else if string_lt (value_at y b) (value_at x a)
    then after
    else if string_lt (value_at x a) (value_at y b)
    then before
    else rest

-- the comparator of `superset`: the instance with more fields first
unfoldable pub more_fields : Instance → Instance → Order
unfolding compare_keys sort_keys
more_fields a b =
    if ltb (length b.fields) (length a.fields)
    then before
    else if ltb (length a.fields) (length b.fields)
    then after
    else compare_keys a b (keys a) (keys b)

-- the comparator of `subset`: the instance with fewer fields first
unfoldable pub fewer_fields : Instance → Instance → Order
unfolding compare_keys sort_keys
fewer_fields a b =
    if ltb (length a.fields) (length b.fields)
    then before
    else if ltb (length b.fields) (length a.fields)
    then after
    else compare_keys a b (keys a) (keys b)

abbrev pub is_after : Order → Bool
is_after before = false
is_after same = false
is_after after = true

-- `res.sort(comparator)`, which is stable
unfoldable pub insert_by : (Instance → Instance → Order) → Instance → List Instance → List Instance
insert_by order x [] = x ∷ []
insert_by order x (y ∷ r) =
    let later = y ∷ insert_by order x r in if is_after (order x y) then later else x ∷ y ∷ r

unfoldable pub sort_by : (Instance → Instance → Order) → List Instance → List Instance
unfolding insert_by
sort_by order [] = []
sort_by order (x ∷ r) = insert_by order x (sort_by order r)

unfoldable pub superset : Instance → InstanceSet → List Instance
unfolding select sort_by agree_on more_fields
superset i s = sort_by more_fields (select (λ inst. agree_on i.fields inst.fields i.fields) s)

unfoldable pub subset : Instance → InstanceSet → List Instance
unfolding select sort_by agree_on fewer_fields
subset i s = sort_by fewer_fields (select (λ inst. agree_on inst.fields inst.fields i.fields) s)
