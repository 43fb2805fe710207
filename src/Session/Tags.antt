-- ===== src/Session/Tags.antt =====
-- lib/util.ts: `encodeTag`, over `encodeURIComponent`. `none` is the URIError for half of a surrogate
-- pair.
use genieacs.Common.Eq.{JsString}
use genieacs.Common.Json.{is_high, is_low}
use genieacs.Common.Text.{codes, is_space}
use mathlib.Core.Option
use genieacs.Common.{
  ℕ, ◌+◌, ◌-◌, ◌*◌, ◌/◌, ◌%◌, Bool, true, false, ◌&&◌, ◌||◌, Option, none, some, [], ◌∷◌, ◌++◌, ltb,
  leb, ◌==◌, if◌then◌else◌,
}

abbrev is_alphanumeric : ℕ → Bool
is_alphanumeric c =
    (leb b'0' c && leb c b'9') || (leb b'A' c && leb c b'Z') || (leb b'a' c && leb c b'z')

-- the marks that `encodeURIComponent` leaves and `encodeTag` replaces: !~*'().
abbrev is_replaced_mark : ℕ → Bool
is_replaced_mark c =
    c == b'!' || c == b'~' || c == b'*' || c == 39 || c == b'(' || c == b')' || c == b'.'

abbrev is_unreserved : ℕ → Bool
is_unreserved c = is_alphanumeric c || is_replaced_mark c || c == b'-' || c == b'_'

abbrev hex_digit : ℕ → ℕ
hex_digit d = if ltb d 10 then b'0' + d else b'A' + (d - 10)

-- a percent sign and two digits
abbrev percent : ℕ → JsString
percent c = b'%' ∷ hex_digit (c / 16) ∷ hex_digit (c % 16) ∷ []

-- the UTF-8 of a code point, byte by byte
abbrev percent_utf8 : ℕ → JsString
percent_utf8 c =
    if ltb c 0x80
    then percent c
    else if ltb c 0x800
    then percent (0xC0 + c / 64) ++ percent (0x80 + c % 64)
    else if ltb c 0x10000
    then percent (0xE0 + c / 4096) ++ (percent (0x80 + c / 64 % 64) ++ percent (0x80 + c % 64))
    else percent (0xF0 + c / 262144)
      ++ (percent (0x80 + c / 4096 % 64)
          ++ (percent (0x80 + c / 64 % 64) ++ percent (0x80 + c % 64)))

abbrev encode_unit : ℕ → JsString
encode_unit c = if is_unreserved c then c ∷ [] else percent_utf8 c

-- `encodeURIComponent`
unfoldable pub encode_uri_component : JsString → Option JsString
encode_uri_component [] = some []
encode_uri_component (c ∷ []) = if is_high c || is_low c then none else some (encode_unit c)
encode_uri_component (c ∷ d ∷ s) =
    let paired = encode_uri_component s in
    let single = encode_uri_component (d ∷ s) in
    if is_high c
    then if is_low d
      then Option.map (λ r. percent_utf8 (0x10000 + (c - 0xD800) * 1024 + (d - 0xDC00)) ++ r) paired
      else none
    else if is_low c
    then none
    else Option.map (λ r. encode_unit c ++ r) single

-- `.replace(/[!~*'().]/g, …)`
unfoldable pub replace_marks : JsString → JsString
replace_marks [] = []
replace_marks (c ∷ s) =
    if is_replaced_mark c then percent c ++ replace_marks s else c ∷ replace_marks s

abbrev is_tag_digit : ℕ → Bool
is_tag_digit c = (leb b'0' c && leb c b'9') || (leb b'A' c && leb c b'Z')

-- whether two digits follow
abbrev before_digits : JsString → Bool
before_digits (a ∷ b ∷ s) = is_tag_digit a && is_tag_digit b
before_digits _ = false

-- `.replace(/0x(?=[0-9A-Z]{2})/g, "0%78")`; an x of a match is no 0 of the next one
unfoldable pub replace_prefixes : JsString → JsString
replace_prefixes [] = []
replace_prefixes (c ∷ []) = c ∷ []
replace_prefixes (c ∷ d ∷ s) =
    let skipped = replace_prefixes s in
    let more = replace_prefixes (d ∷ s) in
    if c == b'0' && d == b'x' && before_digits s then codes "0%78" ++ skipped else c ∷ more

-- `.replace(/%/g, "0x")`
unfoldable pub replace_percents : JsString → JsString
replace_percents [] = []
replace_percents (c ∷ s) =
    if c == b'%' then b'0' ∷ b'x' ∷ replace_percents s else c ∷ replace_percents s

unfoldable pub encode_tag : JsString → Option JsString
unfolding replace_marks replace_prefixes replace_percents
encode_tag tag =
    Option.map (λ s. replace_percents (replace_prefixes (replace_marks s)))
      (encode_uri_component tag)

-- `e.replace(/\s+/g, "_")`; the Boolean says that a run of spaces goes on
unfoldable pub replace_spaces : Bool → JsString → JsString
replace_spaces run [] = []
replace_spaces run (c ∷ s) =
    let more = replace_spaces true s in
    if is_space c then (if run then more else b'_' ∷ more) else c ∷ replace_spaces false s
