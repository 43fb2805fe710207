-- ===== src/ParameterPath/Tests.antt =====
-- lib/common/path.ts on concrete paths.
use genieacs.Common.Text.{slice, codes, join, string_lt, trim}
use genieacs.Common.Json
use genieacs.ParameterPath.Slicing.{slice_string-make, slice_string_beyond}
use genieacs.Common.Integer.{pos, negsuc}
use genieacs.ParameterPath.Coherence.{Parses}
use genieacs.ParameterPath.Sharing.{Reachable, started, joined, parse-Reachable, shared-Reachable}
use genieacs.ParameterPath.RoundTrip.{IsPlain, parse_all-make}
use genieacs.Common.{arith, inl, inr, All, ◌≡◌, refl, none, some, List, [], ◌∷◌, ◌++◌}
use genieacs.ParameterPath.{
  Segment, frag, aliased, no_pairs, pair, nil, cons, segment_strings, parse_all, make, slice_string,
  legal_char, Caches, concat, slice_path, parse,
}

plain_path :
    parse_all (codes "A.b_1.*.C-2")
    ≡ some (frag (codes "A") ∷ frag (codes "b_1") ∷ frag (codes "*") ∷ frag (codes "C-2") ∷ [])
unfolding parse_all
plain_path = refl

aliased_path :
    parse_all (codes "A.[x.y: 1 ,b:\"q,\"].c")
    ≡ some (
        frag (codes "A")
        ∷ aliased (
            pair
              (cons (frag (codes "b")) nil)
              (codes "q,")
              (pair (cons (frag (codes "x")) (cons (frag (codes "y")) nil)) (codes "1") no_pairs))
        ∷ frag (codes "c")
        ∷ [])
unfolding parse_all Json.parse string_lt join segment_strings trim
aliased_path = refl

rejected : parse_all (codes "A..b") ≡ none
unfolding parse_all
rejected = refl

-- The unit behind an alias is not looked at.
skipped : parse_all (codes "[x:1]?b") ≡ parse_all (codes "[x:1].b")
unfolding parse_all
skipped = refl

abbrev plain_segments : List Segment
plain_segments = frag (codes "A") ∷ frag (codes "*") ∷ frag (codes "b1") ∷ []

plain_segments-IsPlain : All IsPlain plain_segments
unfolding legal_char
plain_segments-IsPlain =
    (inr ((λ e. cc), (refl, tt)), (inl refl, (inr ((λ e. cc), (refl, (refl, tt))), tt)))

parse_all-make_example : parse_all (make plain_segments).string ≡ some plain_segments
parse_all-make_example = parse_all-make plain_segments plain_segments-IsPlain

slice_string-make_example :
    slice_string 1 5 (make plain_segments) ≡ (make (slice 1 5 plain_segments)).string
slice_string-make_example = slice_string-make 1 5 plain_segments (omega arith)

slice_string_beyond_example :
    (slice_string 4 5 (make plain_segments) ≡ (make plain_segments).string)
    × (slice 4 5 plain_segments ≡ [])
slice_string_beyond_example = slice_string_beyond 4 5 plain_segments (omega arith) (omega arith)

abbrev no_caches : Caches
no_caches = record { recent = []; older = [] }

abbrev some_caches : Caches
some_caches = (concat (make plain_segments) (make plain_segments) no_caches).1

some_caches-Reachable : Reachable some_caches
some_caches-Reachable =
    joined no_caches plain_segments plain_segments started plain_segments-IsPlain
      plain_segments-IsPlain

parse-Reachable_example : Parses plain_segments (parse (make plain_segments).string some_caches)
parse-Reachable_example =
    parse-Reachable some_caches (make plain_segments).string plain_segments some_caches-Reachable
      parse_all-make_example plain_segments-IsPlain

shared-Reachable_example :
    ((slice_path (pos 1) (negsuc 0) (make plain_segments) some_caches).0
      ≡ make (slice 1 2 plain_segments))
    × ((concat (make plain_segments) (make plain_segments) some_caches).0
        ≡ make (plain_segments ++ plain_segments))
shared-Reachable_example =
    shared-Reachable some_caches (pos 1) (negsuc 0) plain_segments plain_segments
      some_caches-Reachable plain_segments-IsPlain plain_segments-IsPlain (omega arith)
