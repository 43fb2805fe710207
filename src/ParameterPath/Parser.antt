-- ===== src/ParameterPath/Parser.antt =====
-- lib/common/path.ts: the recursive descent parser of paths, over positions in the text. A loop is
-- given its rounds and `parse_path` the depth to which aliases nest; an outer `none` means that
-- either ran out. `length pattern + 2` rounds are enough for each loop and as much depth for the
-- text.
use mathlib.Core.Bool.{not}
use genieacs.Common.Text.{slice, trim, string_lt, join}
use genieacs.Common.Json
use genieacs.Common.Eq.{JsString}
use genieacs.Common.{
  ℕ, zero, suc, ◌+◌, ◌-◌, Bool, true, false, ◌&&◌, ◌||◌, Option, none, some, List, [], ◌∷◌, ◌++◌,
  length, get_or, ltb, leb, ◌==◌, if◌then◌else◌,
}
use genieacs.ParameterPath.Shape.{
  Segment, frag, aliased, Alias, no_pairs, pair, Segments, of_list, segment_strings,
}

-- `charCodeAt`: 0 past the end
abbrev pub char_at : JsString → ℕ → ℕ
char_at s i = get_or s i 0

unfoldable pub legal_char : ℕ → Bool
legal_char c =
    (leb 97 c && leb c 122)
    || (leb 65 c && leb c 90)
    || (leb 48 c && leb c 57)
    || c == 95
    || c == 45

-- `while (charCodeAt(pattern, i) === CHAR_SPACE) ++i`, for at most `n` rounds
unfoldable pub skip_spaces : ℕ → JsString → ℕ → ℕ
skip_spaces zero pattern i = i
skip_spaces (suc n) pattern i =
    let rest = skip_spaces n pattern (i + 1) in if char_at pattern i == b' ' then rest else i

-- The quoted value that begins at `i`, searched for its end from `j` on, for at most `n` rounds.
unfoldable pub quoted_value : ℕ → JsString → ℕ → ℕ → Option (ℕ × JsString)
quoted_value zero pattern i j = none
quoted_value (suc n) pattern i j =
    let rest = quoted_value n pattern i (j + 1) in
    if leb (length pattern) j
    then none
    else if char_at pattern j == b'"' && not (char_at pattern (j - 1) == b'\\')
    then (elim (Json.parse (slice i (j + 1) pattern)) [ none ↦ none | some v ↦ some (j + 1, v) ])
    else rest

-- the first `]` or `,` from `i` on, or the end, for at most `n` rounds
unfoldable pub value_end : ℕ → JsString → ℕ → ℕ
value_end zero pattern i = i
value_end (suc n) pattern i =
    let rest = value_end n pattern (i + 1) in
    if leb (length pattern) i
    then i
    else if char_at pattern i == b']' || char_at pattern i == b','
    then i
    else rest

-- `parseAliasValue`; `none` for a null value, where the caller does not use the index
unfoldable pub parse_alias_value : JsString → ℕ → Option (ℕ × JsString)
unfolding skip_spaces quoted_value value_end
parse_alias_value pattern index =
    let i = skip_spaces (length pattern) pattern index in
    if char_at pattern i == b'"'
    then quoted_value (length pattern) pattern i (i + 1)
    else let e = value_end (length pattern) pattern i in some (e, trim (slice index e pattern))

-- the order of `alias.sort`: by the path's text, then by the value
unfoldable pub pair_before : Segments → JsString → Segments → JsString → Bool
pair_before p v q w =
    let a = join (b'.' ∷ []) (segment_strings p) in
    let b = join (b'.' ∷ []) (segment_strings q) in
    if string_lt b a
    then false
    else if string_lt a b
    then true
    else if string_lt w v
    then false
    else string_lt v w

-- A pair goes behind those that are not after it, so that the sort is stable.
unfoldable pub insert_pair : Segments → JsString → Alias → Alias
unfolding pair_before
insert_pair p v no_pairs = pair p v no_pairs
insert_pair p v (pair q w r) =
    if pair_before p v q w then pair p v (pair q w r) else pair q w (insert_pair p v r)

-- the pairs in the order in which they were pushed, sorted
unfoldable pub sort_onto : Alias → Alias → Alias
unfolding insert_pair
sort_onto sorted no_pairs = sorted
sort_onto sorted (pair p v r) = sort_onto (insert_pair p v sorted) r

abbrev pub push_pair : Alias → Segments → JsString → Alias
push_pair no_pairs p v = pair p v no_pairs
push_pair (pair q w r) p v = pair q w (push_pair r p v)

-- The functions that call one another: each takes what it calls as an argument.
module _ (parse_path : JsString → ℕ → Option (ℕ × List Segment)) where
  -- `parseAliasPath`; the inner `none` is a null path, where the caller does not use the index
  unfoldable pub parse_alias_path : JsString → ℕ → Option (Option (ℕ × List Segment))
  unfolding skip_spaces
  parse_alias_path pattern index =
      let i = skip_spaces (length pattern) pattern index in
      elim (parse_path pattern i) [
        | none ↦ none
        | some (idx, segments) ↦
            let j = skip_spaces (length pattern) pattern idx in
            if idx == i
            then some none
            else if char_at pattern j == b':'
            then some (some (j + 1, segments))
            else some none
      ]

  -- the loop of `parseAlias`, for at most `n` rounds
  unfoldable pub alias_loop : ℕ → JsString → ℕ → ℕ → Alias → Option (ℕ × Alias)
  unfolding parse_alias_path parse_alias_value sort_onto
  alias_loop zero pattern i index alias = none
  alias_loop (suc n) pattern i index alias = elim (parse_alias_path pattern i) [
    | none ↦ none
    | some none ↦ some (index, sort_onto no_pairs alias)
    | some (some (i', path)) ↦ elim (parse_alias_value pattern i') [
      | none ↦ some (index, sort_onto no_pairs alias)
      | some (i'', value) ↦ elim (char_at pattern i'' == b',') [
        | true ↦ alias_loop n pattern (i'' + 1) i'' (push_pair alias (of_list path) value)
        | false ↦ some (i'', sort_onto no_pairs (push_pair alias (of_list path) value))
      ]
    ]
  ]

  unfoldable pub parse_alias : JsString → ℕ → Option (ℕ × Alias)
  unfolding alias_loop
  parse_alias pattern index = alias_loop (length pattern + 2) pattern index index no_pairs

abbrev pub is_at : Option ℕ → ℕ → Bool
is_at none i = false
is_at (some w) i = i == w

module _ (parse_alias : JsString → ℕ → Option (ℕ × Alias)) where
  -- the loop of `parsePath`, for at most `n` rounds: `start` is `segStart` and `wild` is `wildcard`,
  -- `none` for -1; `index` and `segs` are what is returned
  unfoldable pub path_loop :
      ℕ → JsString → ℕ → ℕ → Option ℕ → ℕ → List Segment → Option (ℕ × List Segment)
  unfolding legal_char
  path_loop zero pattern i start wild index segs = none
  path_loop (suc n) pattern i start wild index segs =
      let c = char_at pattern i in
      let in_wildcard = path_loop n pattern (i + 1) start (some (i + 1)) index segs in
      let in_segment = path_loop n pattern (i + 1) start wild index segs in
      let segs' = segs ++ frag (slice start i pattern) ∷ [] in
      let next_segment = path_loop n pattern (i + 1) (i + 1) wild i segs' in
      let bracketed : Option (ℕ × List Segment) = elim (parse_alias pattern (i + 1)) [
        | none ↦ none
        | some (idx, a) ↦ elim (char_at pattern idx == b']') [
          | true ↦ path_loop n pattern (idx + 2) (idx + 2) wild (idx + 1) (segs ++ aliased a ∷ [])
          | false ↦ some (index, segs)
        ]
      ] in
      if ltb (length pattern) i
      then some (index, segs)
      else if c == b'[' && i == start
      then bracketed
      else if c == b'*' && i == start
      then in_wildcard
      else if not (legal_char c) || is_at wild i
      then if i == start
        then some (index, segs)
        else if not (c == b'.')
        then some (i, segs')
        else next_segment
      else in_segment

-- `parsePath`, for aliases nested less than `d` deep
unfoldable pub parse_path : ℕ → JsString → ℕ → Option (ℕ × List Segment)
unfolding path_loop parse_alias
parse_path zero pattern index = none
parse_path (suc d) pattern index =
    path_loop (parse_alias (parse_path d)) (length pattern + 2) pattern index index none index []

-- The whole of `Path.parse` but its caches; `none` is the error for an invalid path.
unfoldable pub parse_all : JsString → Option (List Segment)
unfolding parse_path
parse_all str = elim (parse_path (length str + 2) str 0) [
  | none ↦ none
  | some (index, segments) ↦ if ltb index (length str) then none else some segments
]
