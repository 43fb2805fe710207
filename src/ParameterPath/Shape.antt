-- ===== src/ParameterPath/Shape.antt =====
-- lib/common/path.ts: segments, aliases and their text.
use genieacs.Common.Text.{join}
use genieacs.Common.Json
use genieacs.Common.Eq.{JsString}
use genieacs.Common.{List, [], ◌∷◌, ◌++◌}

mutual
  pub data Segment : Type 0 where
    frag : JsString → Segment
    aliased : Alias → Segment

  pub data Alias : Type 0 where
    no_pairs : Alias
    pair : Segments → JsString → Alias → Alias

  pub data Segments : Type 0 where
    nil : Segments
    cons : Segment → Segments → Segments

abbrev pub to_list : Segments → List Segment
to_list nil = []
to_list (cons s r) = s ∷ to_list r

abbrev pub of_list : List Segment → Segments
of_list [] = nil
of_list (s ∷ r) = cons s (of_list r)

-- The text of a segment: an alias is written with its paths and quoted values.
unfoldable mutual
  unfolding join Json.stringify

  pub segment_string : Segment → JsString
  segment_string (frag s) = s
  segment_string (aliased a) = b'[' ∷ (join (b',' ∷ []) (alias_parts a) ++ b']' ∷ [])

  pub alias_parts : Alias → List JsString
  alias_parts no_pairs = []
  alias_parts (pair p v r) =
      (join (b'.' ∷ []) (segment_strings p) ++ (b':' ∷ Json.stringify v)) ∷ alias_parts r

  pub segment_strings : Segments → List JsString
  segment_strings nil = []
  segment_strings (cons s r) = segment_string s ∷ segment_strings r
