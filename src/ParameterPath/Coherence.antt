-- ===== src/ParameterPath/Coherence.antt =====
-- lib/common/path.ts: the two caches never change what `parse`, `slice` and `concat` give.
use genieacs.Common.JsMap
use genieacs.Common.JsMap.{JsMap}
use genieacs.Common.Eq.{JsString, ◌===◌, js_string_eq, ===_iff}
use genieacs.Common.Integer.{ℤ}
use genieacs.Common.Text.{slice}
use genieacs.Common.{
  ℕ, ◌-◌, ◌≤◌, ◌≡◌, refl, sym, ◌∙◌, ap, Bool, true, false, Option, some, List, length, drop,
  if◌then◌else◌, Option-cases, Bool-cases, inl, inr, All, All-take, All-drop,
}
use genieacs.ParameterPath.{
  ParameterPath, Segment, Caches, cached, make, from_end, slice_path, slice_string, parse,
  parse_all,
}
use genieacs.ParameterPath.RoundTrip.{IsPlain, parse_all-make}
use genieacs.ParameterPath.Slicing.{slice_string-make}

-- A path is the one that the parser and the constructor build for a text.
abbrev pub IsBuilt : JsString → ParameterPath → Type 0
IsBuilt k p = (parse_all k ≡ some p.segments) × (p ≡ make p.segments)

-- Every text in a cache has the path that is built for it.
abbrev pub HasBuilt : JsMap JsString ParameterPath → Type 0
HasBuilt m = (k : JsString) (p : ParameterPath) → JsMap.get k m ≡ some p → IsBuilt k p

pub record IsCoherent (c : Caches) : Type 0 where
  pub recent : HasBuilt c.recent
  pub older : HasBuilt c.older

HasBuilt-set :
    (k : JsString) (p : ParameterPath) (m : JsMap JsString ParameterPath)
    → IsBuilt k p
    → HasBuilt m
    → HasBuilt (JsMap.set k p m)
HasBuilt-set k p m b h j q e =
    let read = sym (JsMap.get-set k j p m) ∙ e in
    elim (Bool-cases (k === j)) [
      | inl same ↦
          let hit : some p ≡ some q = rw same at read in
          let found : p ≡ q = cc in rw (← (===_iff k j).0 same, ← found) b
      | inr other ↦ h j q (rw other at read)
    ]

-- a cached path that is built for the text is the one with the segments of the text
built_is :
    (k : JsString) (p : ParameterPath) (segments : List Segment)
    → IsBuilt k p
    → parse_all k ≡ some segments
    → p ≡ make segments
built_is k p segments (e, m) h = let same : p.segments ≡ segments = cc in m ∙ ap make same

make-IsBuilt :
    (k : JsString) (segments : List Segment)
    → parse_all k ≡ some segments
    → IsBuilt k (make segments)
unfolding make
make-IsBuilt k segments h = (h, refl)

-- What an operation gives that looks up the caches: the path of the segments, and caches that are
-- still coherent.
abbrev pub Gives : List Segment → ParameterPath × Caches → Type 0
Gives segments (p, c) = (p ≡ make segments) × IsCoherent c

pub cached_lem :
    (k : JsString) (segments : List Segment) (c : Caches)
    → parse_all k ≡ some segments
    → IsCoherent c
    → Gives segments (cached k (make segments) c)
unfolding cached
cached_lem k segments c h x = elim (Option-cases (JsMap.get k c.recent)) [
  | inr (p, e) ↦ rw (cached, e) (built_is k p segments (x.recent k p e) h, x)
  | inl absent ↦ elim (Option-cases (JsMap.get k c.older)) [
    | inr (p, e) ↦
        rw (cached, absent, e)
          (
            built_is k p segments (x.older k p e) h,
            record { recent = HasBuilt-set k p c.recent (x.older k p e) x.recent; older = x.older },
          )
    | inl gone ↦
        rw (cached, absent, gone)
          (
            refl,
            record {
              recent = HasBuilt-set k (make segments) c.recent (make-IsBuilt k segments h) x.recent;
              older = x.older;
            },
          )
  ]
]

slice-IsPlain :
    (from to : ℕ) (segments : List Segment)
    → All IsPlain segments
    → All IsPlain (slice from to segments)
slice-IsPlain from to segments a =
    All-take IsPlain (to - from) (drop from segments) (All-drop IsPlain from segments a)

pub slice_path_lem :
    (start end : ℤ) (segments : List Segment) (c : Caches)
    → All IsPlain segments
    → from_end (length segments) start ≤ length segments
    → IsCoherent c
    → Gives
        (slice (from_end (length segments) start) (from_end (length segments) end) segments)
        (slice_path start end (make segments) c)
unfolding slice_path
slice_path_lem start end segments c a l x =
    let from = from_end (length segments) start in
    let to = from_end (length segments) end in
    cached_lem (slice_string from to (make segments)) (slice from to segments) c
      (ap parse_all (slice_string-make from to segments l)
        ∙ parse_all-make (slice from to segments) (slice-IsPlain from to segments a))
      x

canonical-HasBuilt :
    (b : Bool) (segments : List Segment) (c : Caches)
    → All IsPlain segments
    → IsCoherent c
    → HasBuilt (if b then c.recent else JsMap.set (make segments).string (make segments) c.recent)
canonical-HasBuilt true segments c a x = x.recent
canonical-HasBuilt false segments c a x =
    HasBuilt-set (make segments).string (make segments) c.recent
      (make-IsBuilt (make segments).string segments (parse_all-make segments a)) x.recent

-- the path and the caches of `parse`, where it does not throw
pub record Parses (segments : List Segment) (r : Option (ParameterPath × Caches)) : Type 0 where
  pub result : ParameterPath × Caches
  pub succeeds : r ≡ some result
  pub gives : Gives segments result

pub parse_lem :
    (str : JsString) (segments : List Segment) (c : Caches)
    → parse_all str ≡ some segments
    → All IsPlain segments
    → IsCoherent c
    → Parses segments (parse str c)
unfolding parse
parse_lem str segments c h a x = elim (Option-cases (JsMap.get str c.recent)) [
  | inr (p, e) ↦
      rw (parse, e)
        (record {
          result = (p, c);
          succeeds = refl;
          gives = (built_is str p segments (x.recent str p e) h, x);
        })
  | inl absent ↦ elim (Option-cases (JsMap.get str c.older)) [
    | inr (p, e) ↦
        rw (parse, absent, e)
          (record {
            result = _;
            succeeds = refl;
            gives = (
              built_is str p segments (x.older str p e) h,
              record {
                recent = HasBuilt-set str p c.recent (x.older str p e) x.recent;
                older = x.older;
              },
            );
          })
    | inl gone ↦
        let b = make-IsBuilt str segments h in
        let canonical : HasBuilt (
            if (make segments).string === str
            then c.recent
            else JsMap.set (make segments).string (make segments) c.recent) =
          canonical-HasBuilt ((make segments).string === str) segments c a x in
        rw (parse, absent, gone, h)
          (record {
            result = _;
            succeeds = refl;
            gives = (
              refl,
              record { recent = HasBuilt-set str (make segments) _ b canonical; older = x.older },
            );
          })
  ]
]
