-- ===== src/GpnEstimate.antt =====
-- lib/gpn-heuristic.ts: the estimate of how many GetParameterNames requests patterns take.
pub mod Depth
mod Tests
use genieacs.Common.Eq.{JsString, js_string_eq, ◌===◌}
use genieacs.Common.JsMap.{JsMap, get, set}
use genieacs.Common.Text.{codes}
use genieacs.Common.Words.{sar}
use genieacs.Common.{
  ℕ, zero, suc, ◌+◌, ◌-◌, ◌*◌, ◌%◌, Bool, true, false, not, ◌&&◌, Option, none, some, List, [], ◌∷◌,
  ◌++◌, get_elem?, ltb, ◌==◌, if◌then◌else◌,
}

-- a path, by its segments, with its flags
abbrev pub Pattern : Type 0
Pattern = List JsString × ℕ

abbrev pub wildcard_multiplier : ℕ
wildcard_multiplier = 2

abbrev pub undiscovered_depth : ℕ
undiscovered_depth = 7

-- the variables of the first loop
pub record Level : Type 0 where
  pub children : JsMap JsString (List Pattern)
  pub wildcard_children : List Pattern
  pub wildcard_discovered : Bool
  pub gpn_count : ℕ

-- `flags & 1`, after `flags = pattern[1] >> depth`
abbrev pub is_flagged : ℕ → Pattern → Bool
is_flagged depth (segments, flags) = sar flags depth % 2 == 1

-- `if (!k)` holds past the end and for an empty segment
abbrev pub segment_at : ℕ → Pattern → JsString
segment_at depth (segments, flags) = elim (get_elem? segments depth) [ none ↦ [] | some k ↦ k ]

-- the children of the segment `k`
abbrev pub children_of : JsString → JsMap JsString (List Pattern) → List Pattern
children_of k children = elim (get k children) [ none ↦ [] | some l ↦ l ]

-- where a pattern that goes on is put; a name of a property of Object.prototype, which the plain object
-- of the source finds too, is a key like any other here
abbrev pub file_pattern : JsString → Pattern → Level → Level
file_pattern k pattern_ s =
    if k === codes "*"
    then record s { wildcard_children = s.wildcard_children ++ pattern_ ∷ [] }
    else record s { children = set k (children_of k s.children ++ pattern_ ∷ []) s.children }

-- one round of the first loop
unfoldable pub scan_pattern : ℕ → Pattern → Level → Level
scan_pattern depth pattern_ s =
    let k = segment_at depth pattern_ in
    let counted = if is_flagged depth pattern_ then record s { gpn_count = 1 } else s in
    if k === []
    then counted
    else if is_flagged depth pattern_
    then (if ltb undiscovered_depth depth then counted else file_pattern k pattern_ counted)
    else file_pattern k pattern_
        (if k === codes "*" then record s { wildcard_discovered = true } else s)

unfoldable pub scan_patterns : ℕ → List Pattern → Level → Level
unfolding scan_pattern
scan_patterns depth [] s = s
scan_patterns depth (pattern_ ∷ l) s = scan_patterns depth l (scan_pattern depth pattern_ s)

abbrev pub new_scan : Level
new_scan = record {
  children = [];
  wildcard_children = [];
  wildcard_discovered = false;
  gpn_count = 0;
}

-- the loop over the children, with the recursive call as `next`: the sum of their counts
unfoldable pub count_children :
    (List Pattern → Option ℕ) → List Pattern → JsMap JsString (List Pattern) → Option ℕ
count_children next wildcards [] = some 0
count_children next wildcards ((k, l) ∷ children) = elim (next (l ++ wildcards)) [
  | none ↦ none
  | some c ↦ elim (count_children next wildcards children) [
    | none ↦ none
    | some more ↦ some (c + more)
  ]
]

-- what the wildcard is expected to add: `Math.max(0, wildcardGpnCount)` in the end
abbrev pub count_wildcards : (List Pattern → Option ℕ) → Level → Option ℕ
count_wildcards next s = elim s.wildcard_children [
  | [] ↦ some 0
  | p ∷ l ↦
      if s.wildcard_discovered
      then some 0
      else elim (next (p ∷ l)) [ none ↦ none | some c ↦ some (c * wildcard_multiplier) ]
]

abbrev pub total : ℕ → Option ℕ → Option ℕ → Option ℕ
total count (some wildcards) (some children) = some (count + children + (wildcards - children))
total count _ _ = none

-- `estimateGpnCount`, on fuel for its recursion; `none` when that runs out
unfoldable pub estimate_gpn_count : ℕ → ℕ → List Pattern → Option ℕ
estimate_gpn_count zero depth patterns = none
estimate_gpn_count (suc n) depth patterns =
    let s = scan_patterns depth patterns new_scan in
    let next = estimate_gpn_count n (suc depth) in
    total s.gpn_count (count_wildcards next s) (count_children next s.wildcard_children s.children)
