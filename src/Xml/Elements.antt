-- ===== src/Xml/Elements.antt =====
-- lib/xml-parser.ts: `parseXml`, a state machine over the code units of a document. The source
-- packs `state1` into one number, the kind of token in the low byte and the two offsets in the next
-- two; here it is a record. It attaches an element to its parent at the opening tag and fills it in
-- later; here it is attached when it is closed, which gives the same tree for every document that
-- is accepted.
use genieacs.Common.Eq.{JsString, ◌===◌, js_string_eq}
use genieacs.Common.Text.{codes, slice, starts_with}
use genieacs.Common.{
  ℕ, ◌+◌, ◌-◌, ◌%◌, Bool, true, false, ◌&&◌, ◌||◌, not, Option, none, some, List, [], ◌∷◌, length,
  get_or, drop, ltb, leb, ◌==◌, if◌then◌else◌,
}

mutual
  pub data Element : Type 0 where
    element :
        (name namespace local_name attrs text : JsString) (body_index : ℕ) → Elements → Element

  pub data Elements : Type 0 where
    childless : Elements
    child : Element → Elements → Elements

pub data XmlError : Type 0 where
  unmatched_tag cdata unclosed_token unclosed_element type_error : ℕ → XmlError

pub data XmlResult {ℓ} (A : Type ℓ) : Type ℓ where
  ok : A → XmlResult A
  err : XmlError → XmlResult A

infixl 5 ◌>>=◌
abbrev pub ◌>>=◌ {ℓ κ} : {A : Type ℓ} {B : Type κ} → XmlResult A → (A → XmlResult B) → XmlResult B
ok a >>= f = f a
err e >>= f = err e

-- what `state1 & 0xff` says
pub data Kind : Type 0 where
  text less_than single_quote double_quote : Kind

-- `state1` or `state2` with its index
pub record Token : Type 0 where
  pub kind : Kind
  pub colon : ℕ
  pub space : ℕ
  pub index : ℕ

-- an element that is open
pub record Frame : Type 0 where
  pub name : JsString
  pub namespace : JsString
  pub local_name : JsString
  pub attrs : JsString
  pub body_index : ℕ
  pub children : Elements

-- The stack has its top at the head; `closed` is the root once a closing tag has taken it off.
pub record XmlScan : Type 0 where
  pub outer : Token
  pub token : Token
  pub stack : List Frame
  pub closed : Option Element

abbrev pub text_at : ℕ → Token
text_at i = record { kind = text; colon = 0; space = 0; index = i }

-- `state1 = state2; state1Index = state2Index; state2 = 0`
abbrev pub leave : XmlScan → XmlScan
leave s = record s { token = s.outer; outer = text_at s.outer.index }

-- the other way round, into a token that begins at `i`
abbrev pub enter : Kind → ℕ → XmlScan → XmlScan
enter k i s = record s {
  outer = s.token;
  token = record { kind = k; colon = 0; space = 0; index = i };
}

abbrev pub append_child : Elements → Element → Elements
append_child childless e = child e childless
append_child (child x r) e = child x (append_child r e)

abbrev is_childless : Elements → Bool
is_childless childless = true
is_childless (child x r) = false

abbrev pub close_frame : JsString → ℕ → Frame → Element
close_frame string i f =
    element f.name f.namespace f.local_name f.attrs
      (if is_childless f.children then slice f.body_index i string else []) f.body_index f.children

abbrev pub char_at : JsString → ℕ → ℕ
char_at s i = get_or s i 0

-- `string.endsWith(suffix, i)`
abbrev ends_before : JsString → JsString → ℕ → Bool
ends_before string suffix i =
    leb (length suffix) i && starts_with suffix (drop (i - length suffix) string)

-- the element popped goes to its parent, or is the root
abbrev attach : XmlScan → Element → List Frame → XmlScan
attach s e [] = record s { stack = []; closed = some e }
attach s e (p ∷ r) = record s { stack = record p { children = append_child p.children e } ∷ r }

-- a closing tag that ends at `i`; with no element left on the stack `e.name` throws a TypeError
unfoldable pub close_tag : JsString → ℕ → XmlScan → List Frame → XmlResult XmlScan
close_tag string i s [] = err (type_error i)
close_tag string i s (f ∷ r) =
    let t = s.token in
    let name =
      if t.space == 0
      then slice (t.index + 2) i string
      else slice (t.index + 2) (t.index + t.space) string in
    if not (f.name === name)
    then err (unmatched_tag i)
    else ok (leave (attach s (close_frame string t.index f) r))

-- an opening tag, or a tag that closes itself, that ends at `i`
unfoldable pub open_tag : JsString → ℕ → XmlScan → List Frame → XmlResult XmlScan
open_tag string i s [] = err (type_error i)
open_tag string i s (p ∷ r) =
    let t = s.token in
    let self_closing = char_at string (i - 1) == b'/' in
    let last = if self_closing then i - 1 else i in
    let name =
      if t.space == 0
      then slice (t.index + 1) last string
      else slice (t.index + 1) (t.index + t.space) string in
    let prefixed = not (t.colon == 0) && (t.space == 0 || ltb t.colon t.space) in
    let f : Frame = record {
      name = name;
      namespace = if prefixed then slice 0 (t.colon - 1) name else [];
      local_name = if prefixed then drop t.colon name else name;
      attrs = if t.space == 0 then [] else slice (t.index + t.space + 1) last string;
      body_index = i + 1;
      children = childless;
    } in
    if self_closing
    then ok (
        leave (record s {
          stack =
              record p {
                children =
                    append_child p.children
                      (element f.name f.namespace f.local_name f.attrs [] f.body_index childless);
              }
              ∷ r;
        }))
    else ok (leave (record s { stack = f ∷ p ∷ r }))

-- `>` at `i` while a tag is open
unfoldable pub at_greater_than : JsString → ℕ → XmlScan → XmlResult XmlScan
unfolding close_tag open_tag
at_greater_than string i s =
    let second = char_at string (s.token.index + 1) in
    if second == b'/'
    then close_tag string i s s.stack
    else if second == b'!'
    then if starts_with (codes "![CDATA[") (drop (s.token.index + 1) string)
      then (if ends_before string (codes "]]") i then err (cdata i) else ok s)
      else if starts_with (codes "!--") (drop (s.token.index + 1) string)
      then ok (if ends_before string (codes "--") i then leave s else s)
      else ok s
    else if second == b'?'
    then ok (if char_at string (i - 1) == b'?' then leave s else s)
    else open_tag string i s s.stack

abbrev pub kind_is : Kind → Kind → Bool
kind_is text text = true
kind_is less_than less_than = true
kind_is single_quote single_quote = true
kind_is double_quote double_quote = true
kind_is _ _ = false

unfoldable pub at_quote : Kind → ℕ → XmlScan → XmlScan
at_quote q i s =
    if kind_is s.token.kind q
    then leave s
    else if kind_is s.token.kind less_than
    then enter q i s
    else s

abbrev pub is_blank : ℕ → Bool
is_blank c = c == 32 || c == 9 || c == 13 || c == 10

-- one round of the loop
unfoldable pub xml_step : JsString → ℕ → ℕ → XmlScan → XmlResult XmlScan
unfolding at_quote
xml_step string i c s =
    let t = s.token in
    let offset = (i - t.index) % 256 in
    if c == 39
    then ok (at_quote single_quote i s)
    else if c == 34
    then ok (at_quote double_quote i s)
    else if c == 60
    then ok (if kind_is t.kind text then enter less_than i s else s)
    else if c == 58
    then ok (
        if kind_is t.kind less_than && t.colon == 0
        then record s { token = record t { colon = offset } }
        else s)
    else if is_blank c
    then ok (
        if kind_is t.kind less_than && t.space == 0
        then record s { token = record t { space = offset } }
        else s)
    else if c == 62
    then (if kind_is t.kind less_than then at_greater_than string i s else ok s)
    else ok s

unfoldable pub xml_loop : JsString → ℕ → JsString → XmlScan → XmlResult XmlScan
xml_loop string i [] s = ok s
xml_loop string i (c ∷ rest) s = do s' ← xml_step string i c s; xml_loop string (i + 1) rest s'

abbrev pub root_frame : Frame
root_frame = record {
  name = codes "root";
  namespace = [];
  local_name = codes "root";
  attrs = [];
  body_index = 0;
  children = childless;
}

-- the root, whose text is the whole document if it has no child
abbrev root_element : JsString → Elements → Element
root_element string children =
    element (codes "root") [] (codes "root") [] (if is_childless children then string else []) 0
      children

abbrev closed_root : JsString → Option Element → XmlResult Element
closed_root string none = err (type_error 0)
closed_root string (some (element n ns l a t b cs)) = ok (root_element string cs)

-- what is checked behind the loop
unfoldable pub xml_end : JsString → XmlScan → List Frame → XmlResult Element
xml_end string s stack =
    if not (kind_is s.token.kind text) then err (unclosed_token s.token.index) else elim stack [
      | [] ↦ closed_root string s.closed
      | f ∷ r ↦ elim r [
        | [] ↦ ok (root_element string f.children)
        | g ∷ r' ↦ err (unclosed_element f.body_index)
      ]
    ]

abbrev pub start : XmlScan
start = record { outer = text_at 0; token = text_at 0; stack = root_frame ∷ []; closed = none }

unfoldable pub parse_xml : JsString → XmlResult Element
unfolding xml_loop xml_step at_greater_than xml_end
parse_xml string = do s ← xml_loop string 0 string start; xml_end string s s.stack
