-- ===== src/PathSet/Finding.antt =====
-- lib/common/path-set.ts: what `find` gives, against what its segments ask for, on sets whose indexes
-- are in step and on those that sequences of `add` make.
use genieacs.Common.JsMap
use genieacs.Common.JsMap.{JsMap}
use genieacs.Common.Eq.{js_string_eq}
use genieacs.Common.{
  ℕ, ◌≤◌, ◌≡◌, refl, ◌∙◌, ap, Bool, false, ◌&&◌, ◌||◌, List, [], ◌∷◌, length, arith, All,
}
use genieacs.ParameterPath.{ParameterPath}
use genieacs.PathSet.Search.{IsMade, is_stored, IsIndexed}
use genieacs.PathSet.Exact.{found, has-find-matches}
use genieacs.PathSet.Wanted.{is_wanted, matches-is_wanted}
use genieacs.PathSet.Insertion.{empty-IsIndexed}
use genieacs.PathSet.Adding.{set_after, add-IsAdded}
use genieacs.PathSet.{PathList, PathSet, empty, has, add, find}

-- On a set whose indexes are in step, find with a path of at most 32 segments and no alias
-- gives, of the paths without alias, exactly the stored ones that the search asks for by their
-- segments.
pub has-find :
    (path q : ParameterPath) (superset subset : Bool) (limit : ℕ) (s : PathSet)
    → IsMade path
    → length path.segments ≤ 32
    → IsMade q
    → IsIndexed s
    → has (found (find path superset subset limit s)) q
      ≡ (is_stored s q && is_wanted path superset subset limit q)
has-find path q superset subset limit s m short k x =
    has-find-matches path q superset subset limit s m k x
    ∙ ap (λ b. is_stored s q && b) (matches-is_wanted path q superset subset limit m k short)

-- The paths of `ps` added one after the other.
abbrev pub add_each : List ParameterPath → PathSet → PathSet
add_each [] s = s
add_each (p ∷ ps) s = add_each ps (set_after s (add p s))

add_each_lem :
    (ps : PathList) (s : PathSet) (q : ParameterPath)
    → All IsMade ps
    → IsIndexed s
    → IsIndexed (add_each ps s) × (is_stored (add_each ps s) q ≡ (has ps q || is_stored s q))
unfolding has
add_each_lem [] s q a x = (x, refl)
add_each_lem (p ∷ ps) s q (m, a) x =
    let added = add-IsAdded p s m x in
    let (y, e) = add_each_lem ps (set_after s (add p s)) q a added.in_step in
    (y, ground (arith, e, added.stores q))

-- From the empty set, after any sequence of add of paths without alias, find with a path of at
-- most 32 segments and no alias, whatever its options are, gives exactly those added paths
-- that the search asks for: at least as long as the path, no longer than the limit, and at
-- each level with the same fragment, or with any under a wildcard if subsets are asked for, or
-- with a wildcard if supersets are.
pub find-add_each :
    (ps : PathList) (path q : ParameterPath) (superset subset : Bool) (limit : ℕ)
    → All IsMade ps
    → IsMade path
    → length path.segments ≤ 32
    → IsMade q
    → has (found (find path superset subset limit (add_each ps empty))) q
      ≡ (has ps q && is_wanted path superset subset limit q)
find-add_each ps path q superset subset limit a m short k =
    let (x, stored) = add_each_lem ps empty q a empty-IsIndexed in
    let none_there : is_stored empty q ≡ false = unfold is_stored JsMap.get in refl in
    has-find path q superset subset limit (add_each ps empty) m short k x ∙ ground arith
