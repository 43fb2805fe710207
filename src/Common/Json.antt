-- ===== src/Common/Json.antt =====
-- `JSON.stringify` and `JSON.parse` on strings.
use Prim.Native.Nat.{ℕ, ◌+◌, ◌-◌, ◌*◌, ◌/◌, ◌%◌}
use mathlib.Core.Bool.{Bool, ◌&&◌, ◌||◌}
use mathlib.Core.Option.{Option, none, some}
use mathlib.Core.List.{[], ◌∷◌, ◌++◌}
use genieacs.Common.Tests.{ltb, leb, ◌==◌, if◌then◌else◌}
use genieacs.Common.Eq.{JsString}

abbrev pub hex_digit : ℕ → ℕ
hex_digit d = if ltb d 10 then b'0' + d else b'a' + (d - 10)

abbrev pub unicode_escape : ℕ → JsString
unicode_escape c =
    b'\\'
    ∷ b'u'
    ∷ hex_digit (c / 4096 % 16)
    ∷ hex_digit (c / 256 % 16)
    ∷ hex_digit (c / 16 % 16)
    ∷ hex_digit (c % 16)
    ∷ []

abbrev pub is_high : ℕ → Bool
is_high c = leb 0xD800 c && leb c 0xDBFF

abbrev pub is_low : ℕ → Bool
is_low c = leb 0xDC00 c && leb c 0xDFFF

-- a code unit that is no part of a surrogate pair
unfoldable pub quote_unit : ℕ → JsString
quote_unit c =
    if c == b'"'
    then b'\\' ∷ b'"' ∷ []
    else if c == b'\\'
    then b'\\' ∷ b'\\' ∷ []
    else if c == 8
    then b'\\' ∷ b'b' ∷ []
    else if c == 12
    then b'\\' ∷ b'f' ∷ []
    else if c == 10
    then b'\\' ∷ b'n' ∷ []
    else if c == 13
    then b'\\' ∷ b'r' ∷ []
    else if c == 9
    then b'\\' ∷ b't' ∷ []
    else if ltb c 32 || is_high c || is_low c
    then unicode_escape c
    else c ∷ []

unfoldable pub quote_body : JsString → JsString
unfolding quote_unit
quote_body [] = []
quote_body (c ∷ []) = quote_unit c
quote_body (c ∷ d ∷ s) =
    let paired = c ∷ d ∷ quote_body s in
    let single = quote_unit c ++ quote_body (d ∷ s) in
    if is_high c && is_low d then paired else single

-- `JSON.stringify(s)`
unfoldable pub stringify : JsString → JsString
unfolding quote_body
stringify s = b'"' ∷ (quote_body s ++ b'"' ∷ [])

abbrev hex_value : ℕ → Option ℕ
hex_value c =
    if leb b'0' c && leb c b'9'
    then some (c - b'0')
    else if leb b'a' c && leb c b'f'
    then some (c - b'a' + 10)
    else if leb b'A' c && leb c b'F'
    then some (c - b'A' + 10)
    else none

abbrev hex4 : Option ℕ → Option ℕ → Option ℕ → Option ℕ → Option ℕ
hex4 (some a) (some b) (some c) (some d) = some (((a * 16 + b) * 16 + c) * 16 + d)
hex4 _ _ _ _ = none

abbrev simple_escape : ℕ → Option ℕ
simple_escape c =
    if c == b'"' || c == b'\\' || c == b'/'
    then some c
    else if c == b'b'
    then some 8
    else if c == b'f'
    then some 12
    else if c == b'n'
    then some 10
    else if c == b'r'
    then some 13
    else if c == b't'
    then some 9
    else none

abbrev prepend : Option ℕ → Option JsString → Option JsString
prepend (some c) (some s) = some (c ∷ s)
prepend _ _ = none

pub data Mode : Type 0 where
  plain escaped : Mode

-- the rest of a string literal, after its opening quote; `none` is a SyntaxError
unfoldable pub parse_body : Mode → JsString → Option JsString
parse_body m [] = none
parse_body plain (c ∷ s) =
    let inside = prepend (some c) (parse_body plain s) in
    let after = parse_body escaped s in
    if c == b'"'
    then (elim s [ [] ↦ some [] | _ ↦ none ])
    else if c == b'\\'
    then after
    else if ltb c 32
    then none
    else inside
parse_body escaped (c ∷ []) = none
parse_body escaped (c ∷ h ∷ []) = prepend (simple_escape c) (parse_body plain (h ∷ []))
parse_body escaped (c ∷ h ∷ i ∷ []) = prepend (simple_escape c) (parse_body plain (h ∷ i ∷ []))
parse_body escaped (c ∷ h ∷ i ∷ j ∷ []) =
    prepend (simple_escape c) (parse_body plain (h ∷ i ∷ j ∷ []))
parse_body escaped (c ∷ h ∷ i ∷ j ∷ k ∷ s) =
    let unicode =
      prepend (hex4 (hex_value h) (hex_value i) (hex_value j) (hex_value k)) (parse_body plain s) in
    let simple = prepend (simple_escape c) (parse_body plain (h ∷ i ∷ j ∷ k ∷ s)) in
    if c == b'u' then unicode else simple

-- `JSON.parse(s)` for a text that begins with a quote
unfoldable pub parse : JsString → Option JsString
unfolding parse_body
parse [] = none
parse (c ∷ s) = if c == b'"' then parse_body plain s else none
