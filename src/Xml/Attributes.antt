-- ===== src/Xml/Attributes.antt =====
-- lib/xml-parser.ts: `parseAttrs`, a state machine over the code units of a tag's attributes. The
-- errors carry the position that the source's messages name.
use genieacs.Common.Eq.{JsString}
use genieacs.Common.Text.{slice, trim}
use genieacs.Common.{
  ℕ, ◌+◌, ◌-◌, Bool, true, false, ◌||◌, not, List, [], ◌∷◌, ◌++◌, length, ltb, leb, ◌==◌,
  if◌then◌else◌,
}

pub record Attribute : Type 0 where
  pub name : JsString
  pub namespace : JsString
  pub local_name : JsString
  pub value : JsString

pub data AttrError : Type 0 where
  unexpected_character missing_value unexpected_string : ℕ → AttrError

pub data AttrResult {ℓ} (A : Type ℓ) : Type ℓ where
  ok : A → AttrResult A
  err : AttrError → AttrResult A

infixl 5 ◌>>=◌
abbrev pub ◌>>=◌ {ℓ κ} :
    {A : Type ℓ} {B : Type κ} → AttrResult A → (A → AttrResult B) → AttrResult B
ok a >>= f = f a
err e >>= f = err e

-- The variables of the loop; `state` is the quote that is open, or 0.
pub record AttrScan : Type 0 where
  pub attrs : List Attribute
  pub state : ℕ
  pub name : JsString
  pub namespace : JsString
  pub local_name : JsString
  pub idx : ℕ
  pub colon_idx : ℕ

abbrev pub is_empty {ℓ} : {A : Type ℓ} → List A → Bool
is_empty [] = true
is_empty (x ∷ xs) = false

-- a quote that closes the value begun at `idx`
unfoldable pub close_quote : JsString → ℕ → AttrScan → AttrScan
close_quote string i s = if is_empty s.name then record s { state = 0 } else record s {
  state = 0;
  attrs =
      s.attrs
      ++ record {
        name = s.name;
        namespace = s.namespace;
        local_name = s.local_name;
        value = slice (s.idx + 1) i string;
      }
        ∷ [];
  name = [];
  idx = i + 1;
}

unfoldable pub at_quote : JsString → ℕ → ℕ → AttrScan → AttrScan
unfolding close_quote
at_quote string i c s =
    if s.state == c then close_quote string i s else record s { state = c; idx = i }

unfoldable pub at_colon : ℕ → AttrScan → AttrScan
at_colon i s =
    if not (s.state == 0)
    then s
    else if leb s.colon_idx s.idx
    then record s { colon_idx = i }
    else s

unfoldable pub at_equal : JsString → ℕ → AttrScan → AttrResult AttrScan
at_equal string i s =
    if not (s.state == 0)
    then ok s
    else if not (is_empty s.name)
    then err (unexpected_character i)
    else if ltb s.idx s.colon_idx
    then ok (record s {
      name = trim (slice s.idx i string);
      namespace = trim (slice s.idx s.colon_idx string);
      local_name = trim (slice (s.colon_idx + 1) i string);
    })
    else ok (record s {
      name = trim (slice s.idx i string);
      namespace = [];
      local_name = trim (slice s.idx i string);
    })

-- one round of the loop
unfoldable pub attr_step : JsString → ℕ → ℕ → AttrScan → AttrResult AttrScan
unfolding at_quote at_colon at_equal
attr_step string i c s =
    if c == 39 || c == 34
    then ok (at_quote string i c s)
    else if c == 58
    then ok (at_colon i s)
    else if c == 61
    then at_equal string i s
    else ok s

unfoldable pub attr_loop : JsString → ℕ → JsString → AttrScan → AttrResult AttrScan
attr_loop string i [] s = ok s
attr_loop string i (c ∷ rest) s = do s' ← attr_step string i c s; attr_loop string (i + 1) rest s'

-- what is checked behind the loop; `len - tail.length` is the smaller of `idx` and the length
unfoldable pub attr_end : JsString → AttrScan → AttrResult (List Attribute)
attr_end string s =
    if not (is_empty s.name)
    then err (missing_value s.idx)
    else if not (is_empty (trim (slice s.idx (length string) string)))
    then err (unexpected_string (length string - length (slice s.idx (length string) string)))
    else ok s.attrs

abbrev pub initial : AttrScan
initial = record {
  attrs = [];
  state = 0;
  name = [];
  namespace = [];
  local_name = [];
  idx = 0;
  colon_idx = 0;
}

unfoldable pub parse_attrs : JsString → AttrResult (List Attribute)
unfolding attr_loop attr_step attr_end
parse_attrs string = do s ← attr_loop string 0 string initial; attr_end string s
