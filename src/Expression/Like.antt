-- ===== src/Expression/Like.antt =====
-- lib/common/expression/parser.ts and lib/common/expression/util.ts: the patterns of LIKE, and the
-- regular expressions made of them, run as JavaScript does.
pub mod Anchoring
pub mod Reading
pub mod Meaning
use genieacs.Common.Eq.{JsString}
use genieacs.Common.{ℕ, Bool, true, false, not, ◌&&◌, ◌||◌, List, [], ◌∷◌, map, ◌==◌, if◌then◌else◌}

-- A code unit, `\_` or `\%` of the list that `parseLikePattern` returns.
pub data LikeToken : Type 0 where
  literal : ℕ → LikeToken
  any_one any_run : LikeToken

abbrev pub is_escape : ℕ → JsString → Bool
is_escape c (e ∷ []) = c == e
is_escape c _ = false

-- `parseLikePattern`; the flag says that the code unit before was a `%`
unfoldable pub like_tokens : Bool → JsString → JsString → List LikeToken
like_tokens in_run esc [] = []
like_tokens in_run esc (c ∷ []) =
    if in_run && c == b'%'
    then []
    else if is_escape c esc
    then []
    else if c == b'_'
    then any_one ∷ []
    else if c == b'%'
    then any_run ∷ []
    else literal c ∷ []
like_tokens in_run esc (c ∷ d ∷ s) =
    let skipped = like_tokens true esc (d ∷ s) in
    let escaped = like_tokens false esc s in
    let next = like_tokens false esc (d ∷ s) in
    if in_run && c == b'%'
    then skipped
    else if is_escape c esc
    then literal d ∷ escaped
    else if c == b'_'
    then any_one ∷ next
    else if c == b'%'
    then any_run ∷ skipped
    else literal c ∷ next

unfoldable pub parse_like_pattern : JsString → JsString → List LikeToken
unfolding like_tokens
parse_like_pattern pat esc = like_tokens false esc pat

-- the table `convChars`: what a token matches once it stands in a regular expression
abbrev pub convert_token : LikeToken → LikeToken
convert_token (literal c) = literal (if c == b'\\' then b'/' else c)
convert_token any_one = any_one
convert_token any_run = any_run

-- A regular expression without flags: its atoms, and whether `^` and `$` surround them.
pub record RegExp : Type 0 where
  pub starts : Bool
  pub atoms : List LikeToken
  pub ends : Bool

-- the last atom: `.*` is dropped and any other is followed by `$`
unfoldable pub finish : Bool → List LikeToken → RegExp
finish starts [] = record { starts = starts; atoms = []; ends = false }
finish starts (any_run ∷ []) = record { starts = starts; atoms = []; ends = false }
finish starts (t ∷ []) = record { starts = starts; atoms = t ∷ []; ends = true }
finish starts (t ∷ u ∷ l) = let r = finish starts (u ∷ l) in record r { atoms = t ∷ r.atoms }

-- the first atom: `.*` is dropped and any other follows `^`
unfoldable pub anchor : List LikeToken → RegExp
unfolding finish
anchor [] = record { starts = true; atoms = []; ends = true }
anchor (any_run ∷ l) = finish false l
anchor (t ∷ l) = finish true (t ∷ l)

-- `likePatternToRegExp`
unfoldable pub like_pattern_to_reg_exp : JsString → JsString → RegExp
unfolding parse_like_pattern anchor
like_pattern_to_reg_exp pat esc = anchor (map convert_token (parse_like_pattern pat esc))

-- what `.` does not match
abbrev pub is_line_end : ℕ → Bool
is_line_end c = c == 10 || c == 13 || c == 0x2028 || c == 0x2029

-- `.*` before the rest of the expression
unfoldable pub run_then : (JsString → Bool) → JsString → Bool
run_then next [] = next []
run_then next (c ∷ s) = next (c ∷ s) || (not (is_line_end c) && run_then next s)

unfoldable pub matches_here : List LikeToken → Bool → JsString → Bool
unfolding run_then
matches_here [] true [] = true
matches_here [] true (c ∷ s) = false
matches_here [] false s = true
matches_here (literal c ∷ l) ends [] = false
matches_here (literal c ∷ l) ends (d ∷ s) = c == d && matches_here l ends s
matches_here (any_one ∷ l) ends [] = false
matches_here (any_one ∷ l) ends (d ∷ s) = not (is_line_end d) && matches_here l ends s
matches_here (any_run ∷ l) ends s = run_then (matches_here l ends) s

-- a match that begins at some place
unfoldable pub anywhere : (JsString → Bool) → JsString → Bool
anywhere here [] = here []
anywhere here (c ∷ s) = here (c ∷ s) || anywhere here s

-- `r.test(s)`
unfoldable pub reg_exp_test : RegExp → JsString → Bool
unfolding anywhere matches_here
reg_exp_test r s =
    let here = matches_here r.atoms r.ends in if r.starts then here s else anywhere here s

unfoldable pub like_test : JsString → JsString → JsString → Bool
unfolding like_pattern_to_reg_exp reg_exp_test
like_test pat esc s = reg_exp_test (like_pattern_to_reg_exp pat esc) s
