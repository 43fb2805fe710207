-- ===== src/ParameterPath.antt =====
-- lib/common/path.ts: parameter paths. A path is determined by its segments: `make` is the
-- constructor, and the constructor of an alias holds the segments of the path in it.
mod Shape
mod Parser
mod Tests
pub mod Slicing
pub mod RoundTrip
pub mod Coherence
pub mod Sharing
unfoldable pub use Shape.*
unfoldable pub use Parser.*
use genieacs.Common.Integer.{ℤ, pos, negsuc}
use genieacs.Common.Words.{shl, or_bits}
use genieacs.Common.Text.{slice, join}
use genieacs.Common.Eq.{JsString, ◌===◌, js_string_eq}
use genieacs.Common.JsMap
use genieacs.Common.JsMap.{JsMap}
use genieacs.Common.{
  ℕ, zero, suc, ◌+◌, ◌-◌, Bool, true, false, ◌&&◌, Option, none, some, List, [], ◌∷◌, ◌++◌, map,
  length, get_or, ltb, leb, ◌==◌, if◌then◌else◌,
}

pub record ParameterPath : Type 0 where
  pub segments : List Segment
  pub wildcard : ℕ
  pub alias : ℕ
  pub string : JsString
  pub string_index : List ℕ

abbrev pub is_alias : Segment → Bool
is_alias (frag s) = false
is_alias (aliased a) = true

abbrev pub is_wildcard : Segment → Bool
is_wildcard (frag s) = s === (b'*' ∷ [])
is_wildcard (aliased a) = false

-- `bits |= 1 << i` for the segments that pass the test
unfoldable pub mark_bits : (Segment → Bool) → ℕ → ℕ → List Segment → ℕ
mark_bits test i bits [] = bits
mark_bits test i bits (s ∷ r) =
    mark_bits test (i + 1) (if test s then or_bits bits (shl 1 i) else bits) r

-- `arr.map((s, i) => (offset += s.length) + i)`
unfoldable pub index_from : ℕ → ℕ → List JsString → List ℕ
index_from offset i [] = []
index_from offset i (s ∷ r) = (offset + length s + i) ∷ index_from (offset + length s) (i + 1) r

-- the constructor
unfoldable pub make : List Segment → ParameterPath
unfolding mark_bits index_from
make segments = record {
  segments = segments;
  wildcard = mark_bits is_wildcard 0 0 segments;
  alias = mark_bits is_alias 0 0 segments;
  string = join (b'.' ∷ []) (map segment_string segments);
  string_index = index_from 0 0 (map segment_string segments);
}

-- `cache1` and `cache2`
pub record Caches : Type 0 where
  pub recent : JsMap JsString ParameterPath
  pub older : JsMap JsString ParameterPath

-- The caches looked up by one text: the cached path, or else the one that `fresh` builds, which is
-- then cached.
unfoldable pub cached : JsString → ParameterPath → Caches → ParameterPath × Caches
cached str fresh c = elim (JsMap.get str c.recent) [
  | some path ↦ (path, c)
  | none ↦ elim (JsMap.get str c.older) [
    | some path ↦ (path, record c { recent = JsMap.set str path c.recent })
    | none ↦ (fresh, record c { recent = JsMap.set str fresh c.recent })
  ]
]

-- `if (i < 0) i = Math.max(0, this.segments.length + i)`
abbrev pub from_end : ℕ → ℤ → ℕ
from_end len (pos n) = n
from_end len (negsuc n) = len - suc n

-- the text that `slice` looks up; `undefined + 1` is NaN, which `String.slice` takes for 0
unfoldable pub slice_string : ℕ → ℕ → ParameterPath → JsString
slice_string start end p =
    if leb end start
    then []
    else slice
        (if ltb 0 start && leb start (length p.string_index)
          then get_or p.string_index (start - 1) 0 + 1
          else 0)
        (if leb end (length p.segments) then get_or p.string_index (end - 1) 0 else length p.string)
        p.string

unfoldable pub slice_path : ℤ → ℤ → ParameterPath → Caches → ParameterPath × Caches
unfolding slice_string cached make
slice_path start end p c =
    let from = from_end (length p.segments) start in
    let to = from_end (length p.segments) end in
    cached (slice_string from to p) (make (slice from to p.segments)) c

unfoldable pub concat : ParameterPath → ParameterPath → Caches → ParameterPath × Caches
unfolding cached make
concat p q c =
    if length q.string == 0
    then (p, c)
    else if length p.string == 0
    then (q, c)
    else cached (p.string ++ (b'.' ∷ q.string)) (make (p.segments ++ q.segments)) c

abbrev pub strip_segment : Segment → Segment
strip_segment (frag s) = frag s
strip_segment (aliased a) = frag (b'*' ∷ [])

unfoldable pub strip_alias : ParameterPath → Caches → ParameterPath × Caches
unfolding cached make
strip_alias p c =
    if p.alias == 0
    then (p, c)
    else let segments = map strip_segment p.segments in
      cached (join (b'.' ∷ []) (map segment_string segments)) (make segments) c

-- the timer: `cache2 = cache1; cache1 = new Map()`
unfoldable pub expire : Caches → Caches
expire c = record { recent = []; older = c.recent }

-- `parse`; `none` is the error thrown for an invalid path
unfoldable pub parse : JsString → Caches → Option (ParameterPath × Caches)
unfolding make
parse str c = elim (JsMap.get str c.recent) [
  | some path ↦ some (path, c)
  | none ↦ elim (JsMap.get str c.older) [
    | some path ↦ some (path, record c { recent = JsMap.set str path c.recent })
    | none ↦ elim (parse_all str) [
      | none ↦ none
      | some segments ↦
          let path = make segments in
          let canonical =
            if path.string === str then c.recent else JsMap.set path.string path c.recent in
          some (path, record c { recent = JsMap.set str path canonical })
    ]
  ]
]
