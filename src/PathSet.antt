-- ===== src/PathSet.antt =====
-- lib/common/path-set.ts: the paths known for a device, indexed by length, by fragment and by text.
-- A path is stored once, so that the source's comparison of stored paths by identity is that of
-- their texts.
pub mod Sets
pub mod Search
pub mod Growth
pub mod Insertion
pub mod Adding
pub mod Exact
pub mod Wanted
pub mod Finding
pub mod Wildcards
mod Tests
use genieacs.Common.JsMap
use genieacs.Common.JsMap.{JsMap}
use genieacs.Common.Words.{sar}
use genieacs.Common.Eq.{JsString, ◌===◌, js_string_eq}
use genieacs.Common.{
  ℕ, zero, suc, ◌+◌, ◌-◌, ◌%◌, ◌≤◌, ◌≡◌, refl, Bool, true, false, ◌&&◌, ◌||◌, not, Option, none,
  some, List, [], ◌∷◌, ◌++◌, length, get_or, get_elem?, modify, drop, take, ltb, leb, ◌==◌,
  if◌then◌else◌,
}
use genieacs.Common.Text.{slice}
use genieacs.ParameterPath.{ParameterPath, Segment, frag, aliased, no_pairs}

abbrev pub PathList : Type 0
PathList = List ParameterPath

pub record PathSet : Type 0 where
  pub length_index : List PathList
  pub fragment_index : List (JsMap JsString PathList)
  pub string_index : JsMap JsString ParameterPath

abbrev pub empty : PathSet
empty = record { length_index = []; fragment_index = []; string_index = [] }

pub depth : PathSet → ℕ
depth s = length s.length_index

-- `set.has(path)`
unfoldable pub has : PathList → ParameterPath → Bool
has [] p = false
has (q ∷ r) p = q.string === p.string || has r p

-- `set.add(path)`
unfoldable pub add_path : ParameterPath → PathList → PathList
unfolding has
add_path p s = if has s p then s else s ++ p ∷ []

-- `path.segments[i] as string`
abbrev pub fragment_of : Segment → JsString
fragment_of (frag s) = s
fragment_of (aliased a) = []

unfoldable pub get : ParameterPath → PathSet → Option ParameterPath
get p s = JsMap.get p.string s.string_index

-- one round of `while (this.lengthIndex.length <= path.length)`
unfoldable pub grow_once : PathSet → PathSet
grow_once s = record s {
  length_index = s.length_index ++ [] ∷ [];
  fragment_index =
      if ltb 0 (length s.length_index) then s.fragment_index ++ [] ∷ [] else s.fragment_index;
}

-- that loop, for the rounds left
unfoldable pub grow : ℕ → PathSet → PathSet
unfolding grow_once
grow zero s = s
grow (suc n) s = grow n (grow_once s)

abbrev pub or_empty {ℓ} : {A : Type ℓ} → Option (List A) → List A
or_empty none = []
or_empty (some s) = s

-- the body of the loop over the segments
unfoldable pub add_fragment :
    ParameterPath → JsString → JsMap JsString PathList → JsMap JsString PathList
unfolding add_path
add_fragment p fragment index =
    JsMap.set fragment (add_path p (or_empty (JsMap.get fragment index))) index

unfoldable pub add_fragments :
    ParameterPath → List Segment → List (JsMap JsString PathList) → List (JsMap JsString PathList)
unfolding add_fragment
add_fragments p [] indexes = indexes
add_fragments p (s ∷ r) [] = []
add_fragments p (s ∷ r) (index ∷ indexes) =
    add_fragment p (fragment_of s) index ∷ add_fragments p r indexes

-- a path that is not stored
unfoldable pub insert : ParameterPath → PathSet → PathSet
unfolding grow add_fragments
insert p s =
    let len = length p.segments in
    let grown = grow (suc len - length s.length_index) s in
    record {
      string_index = JsMap.set p.string p s.string_index;
      length_index = modify len (add_path p) grown.length_index;
      fragment_index = add_fragments p p.segments grown.fragment_index;
    }

-- `none` is the error for a path with an alias
unfoldable pub add : ParameterPath → PathSet → Option (ParameterPath × PathSet)
unfolding get insert
add path s =
    if not (path.alias == 0)
    then none
    else elim (get path s) [ some p ↦ some (p, s) | none ↦ some (path, insert path s) ]

-- `(path.wildcard >> i) & 1`
abbrev pub wildcard_at : ParameterPath → ℕ → Bool
wildcard_at path i = sar path.wildcard i % 2 == 1

unfoldable pub keep_in : PathList → PathList → PathList
unfolding has
keep_in s [] = []
keep_in s (r ∷ rs) = let rest = keep_in s rs in if has s r then r ∷ rest else rest

-- `res` narrowed to a set, or the set itself where `res` is undefined
abbrev pub narrow : Option PathList → PathList → PathList
narrow none s = s
narrow (some res) s = keep_in s res

-- The loop of `find` returns early with no path, or goes on with `res`.
pub data Found : Type 0 where
  nothing : Found
  so_far : Option PathList → Found

-- `if (!res.length) return res`
abbrev pub go_on : PathList → Found
go_on [] = nothing
go_on (p ∷ r) = so_far (some (p ∷ r))

-- what one level leaves, for the sets of the fragment and of the wildcard
unfoldable pub narrow_level : Option PathList → Option PathList → Option PathList → Found
narrow_level res none none = nothing
narrow_level res none (some b) = go_on (narrow res b)
narrow_level res (some a) none = go_on (narrow res a)
narrow_level res (some a) (some b) = go_on (narrow res (a ++ b))

-- the wildcard's set at a level, if it is asked for
abbrev pub wildcard_set : Bool → Bool → JsMap JsString PathList → Option PathList
wildcard_set is_wild superset index =
    if not is_wild && superset then JsMap.get (b'*' ∷ []) index else none

unfoldable pub find_level : PathSet → ParameterPath → Bool → Bool → ℕ → Option PathList → Found
unfolding narrow_level
find_level s path superset subset i res =
    let index = get_or s.fragment_index i [] in
    if wildcard_at path i && subset
    then so_far res
    else narrow_level res
        (JsMap.get (fragment_of (get_or path.segments i (aliased no_pairs))) index)
        (wildcard_set (wildcard_at path i) superset index)

-- the levels below `n`, from the last one to the first
unfoldable pub find_loop : PathSet → ParameterPath → Bool → Bool → ℕ → Option PathList → Found
unfolding find_level
find_loop s path superset subset zero res = so_far res
find_loop s path superset subset (suc n) res = elim (find_level s path superset subset n res) [
  | nothing ↦ nothing
  | so_far res' ↦ find_loop s path superset subset n res'
]

abbrev pub flatten : List PathList → PathList
flatten [] = []
flatten (l ∷ r) = l ++ flatten r

-- `lengthIndex.some((a) => a.has(r))`
unfoldable pub has_in_some : List PathList → ParameterPath → Bool
has_in_some [] p = false
has_in_some (l ∷ r) p = has l p || has_in_some r p

unfoldable pub keep_lengths : List PathList → PathList → PathList
unfolding has_in_some
keep_lengths index [] = []
keep_lengths index (r ∷ rs) =
    let rest = keep_lengths index rs in if has_in_some index r then r ∷ rest else rest

abbrev pub found_paths : List PathList → Found → PathList
found_paths index nothing = []
found_paths index (so_far none) = flatten index
found_paths index (so_far (some res)) = keep_lengths index res

abbrev pub to_path_list : Option ParameterPath → PathList
to_path_list none = []
to_path_list (some p) = p ∷ []

-- the search through the indexes
unfoldable pub find_indexed : ParameterPath → Bool → Bool → ℕ → PathSet → PathList
unfolding find_loop keep_lengths
find_indexed path superset subset limit s =
    let index = slice (length path.segments) (limit + 1) s.length_index in
    if length index == 0
    then []
    else found_paths index (find_loop s path superset subset (length path.segments) none)

-- `none` is the error for a path with an alias
unfoldable pub find : ParameterPath → Bool → Bool → ℕ → PathSet → Option PathList
unfolding get find_indexed
find path superset subset limit s =
    if not (path.alias == 0)
    then none
    else if not superset && limit == length path.segments && (not subset || path.wildcard == 0)
    then some (to_path_list (get path s))
    else some (find_indexed path superset subset limit s)
