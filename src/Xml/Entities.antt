-- ===== src/Xml/Entities.antt =====
-- lib/xml-parser.ts: `decodeEntities` and `encodeEntities`. Numbers are exact, so a numeric entity
-- of 2^53 or more, which JavaScript rounds, is outside the model.
use mathlib.Core.List.{reverse}
use genieacs.Common.Eq.{JsString, ◌===◌, js_string_eq}
use genieacs.Common.Text.{codes, starts_with}
use genieacs.Common.{
  ℕ, zero, suc, ◌+◌, ◌-◌, ◌*◌, ◌/◌, ◌%◌, ◌≡◌, ◌≢◌, refl, ap, ◌∙◌, Bool, ◌&&◌, ◌||◌, Option, none,
  some, [], ◌∷◌, ◌++◌, length, drop, ltb, leb, ◌==◌, if◌then◌else◌, arith, All, All-append,
}

-- `[0-9a-z#]`, ignoring case
abbrev is_entity_char : ℕ → Bool
is_entity_char c =
    (leb b'0' c && leb c b'9')
    || (leb b'a' c && leb c b'z')
    || (leb b'A' c && leb c b'Z')
    || c == b'#'

abbrev to_lower : JsString → JsString
to_lower [] = []
to_lower (c ∷ s) = (if leb b'A' c && leb c b'Z' then c + 32 else c) ∷ to_lower s

-- the value of a digit, or 36 for a character that is none
abbrev digit_value : ℕ → ℕ
digit_value c =
    if leb b'0' c && leb c b'9'
    then c - b'0'
    else if leb b'a' c && leb c b'z'
    then c - b'a' + 10
    else if leb b'A' c && leb c b'Z'
    then c - b'A' + 10
    else 36

-- the number that the longest prefix of digits stands for
unfoldable digits_from : ℕ → ℕ → JsString → ℕ
digits_from radix acc [] = acc
digits_from radix acc (c ∷ s) =
    let more = digits_from radix (acc * radix + digit_value c) s in
    if ltb (digit_value c) radix then more else acc

abbrev parse_digits : ℕ → JsString → Option ℕ
parse_digits radix [] = none
parse_digits radix (c ∷ s) =
    if ltb (digit_value c) radix then some (digits_from radix 0 (c ∷ s)) else none

abbrev has_hex_prefix : JsString → Bool
has_hex_prefix s = starts_with (codes "0x") s || starts_with (codes "0X") s

-- `parseInt` of a text of entity characters; `none` is NaN
unfoldable pub parse_int : JsString → Option ℕ
unfolding digits_from starts_with
parse_int s = if has_hex_prefix s then parse_digits 16 (drop 2 s) else parse_digits 10 s

unfoldable pub parse_int16 : JsString → Option ℕ
unfolding digits_from starts_with
parse_int16 s = parse_digits 16 (if has_hex_prefix s then drop 2 s else s)

abbrev digit_char : ℕ → ℕ
digit_char d = if ltb d 10 then b'0' + d else b'a' + (d - 10)

-- the digits of a positive number, least significant first
unfoldable digits_of : ℕ → ℕ → ℕ → JsString
digits_of zero radix n = []
digits_of (suc fuel) radix n =
    let more = digit_char (n % radix) ∷ digits_of fuel radix (n / radix) in
    if n == 0 then [] else more

-- `n.toString(radix)`: a number below 2^k has at most k digits, and no more than its value
unfoldable pub to_string : ℕ → Option ℕ → JsString
unfolding digits_of
to_string radix none = codes "NaN"
to_string radix (some n) = if n == 0 then b'0' ∷ [] else reverse (digits_of (suc n) radix n)

abbrev ends_with : JsString → JsString → Bool
ends_with s suffix =
    leb (length suffix) (length s) && (drop (length s - length suffix) s === suffix)

-- `String.fromCharCode`
abbrev from_char_code : Option ℕ → JsString
from_char_code none = 0 ∷ []
from_char_code (some n) = n % 65536 ∷ []

-- The replacement of `&body;`
unfoldable pub decode_entity : JsString → JsString
unfolding parse_int parse_int16 to_string starts_with
decode_entity body =
    let whole = b'&' ∷ (body ++ b';' ∷ []) in
    let hex = to_lower (drop 2 body) in
    let dec = drop 1 body in
    if body === codes "quot"
    then b'"' ∷ []
    else if body === codes "amp"
    then b'&' ∷ []
    else if body === codes "apos"
    then b'\'' ∷ []
    else if body === codes "lt"
    then b'<' ∷ []
    else if body === codes "gt"
    then b'>' ∷ []
    else if starts_with (codes "#x") body
    then (if ends_with hex (to_string 16 (parse_int16 hex))
        then from_char_code (parse_int16 hex)
        else whole)
    else if starts_with (codes "#") body
    then (if ends_with dec (to_string 10 (parse_int dec))
        then from_char_code (parse_int dec)
        else whole)
    else whole

-- Where the search for `&[0-9a-z#]+;` stands: between matches, or behind `&` and the characters
-- given.
pub data Scan : Type 0 where
  between : Scan
  behind : JsString → Scan

unfoldable pub decode_from : Scan → JsString → JsString
unfolding decode_entity
decode_from between [] = []
decode_from between (c ∷ s) =
    let opened = decode_from (behind []) s in
    let passed = c ∷ decode_from between s in if c == b'&' then opened else passed
decode_from (behind body) [] = b'&' ∷ body
decode_from (behind body) (c ∷ s) =
    let matched = decode_entity body ++ decode_from between s in
    let longer = decode_from (behind (body ++ c ∷ [])) s in
    let reopened = b'&' ∷ (body ++ decode_from (behind []) s) in
    let passed = b'&' ∷ (body ++ (c ∷ decode_from between s)) in
    if c == b';' && ltb 0 (length body)
    then matched
    else if is_entity_char c
    then longer
    else if c == b'&'
    then reopened
    else passed

unfoldable pub decode_entities : JsString → JsString
unfolding decode_from
decode_entities = decode_from between

unfoldable pub encode_char : ℕ → JsString
encode_char c =
    if c == b'&'
    then codes "&amp;"
    else if c == b'"'
    then codes "&quot;"
    else if c == b'\''
    then codes "&apos;"
    else if c == b'<'
    then codes "&lt;"
    else if c == b'>'
    then codes "&gt;"
    else c ∷ []

unfoldable pub encode_entities : JsString → JsString
unfolding encode_char
encode_entities [] = []
encode_entities (c ∷ s) = encode_char c ++ encode_entities s

decode_from-encode_char :
    (c : ℕ) (s : JsString) → decode_from between (encode_char c ++ s) ≡ c ∷ decode_from between s
unfolding decode_from encode_char
decode_from-encode_char c s = ground arith

-- Decoding the entities of an encoded text gives the text back, for every text.
pub decode_entities-encode_entities : (s : JsString) → decode_entities (encode_entities s) ≡ s
unfolding decode_entities encode_entities
decode_entities-encode_entities [] = refl
decode_entities-encode_entities (c ∷ s) =
    decode_from-encode_char c (encode_entities s)
    ∙ ap (λ r. c ∷ r) (decode_entities-encode_entities s)

-- A code unit that ends neither markup nor an attribute value.
abbrev pub IsInert : ℕ → Type 0
IsInert c = (c ≢ b'<') × (c ≢ b'>') × (c ≢ b'"') × (c ≢ b'\'')

encode_char-IsInert : (c : ℕ) → All IsInert (encode_char c)
unfolding encode_char
encode_char-IsInert c = ground arith

-- No angle bracket, quote or apostrophe is left in an encoded text.
pub encode_entities-IsInert : (s : JsString) → All IsInert (encode_entities s)
unfolding encode_entities
encode_entities-IsInert [] = tt
encode_entities-IsInert (c ∷ s) =
    All-append IsInert (encode_char c) (encode_entities s) (encode_char-IsInert c)
      (encode_entities-IsInert s)
