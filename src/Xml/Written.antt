-- ===== src/Xml/Written.antt =====
-- lib/xml-parser.ts: attributes as they are written out, and what `trim` and `slice` do on them.
use mathlib.Core.List.{reverse, reverse-reverse, reverse-cons, append_assoc}
use genieacs.Common.Eq.{JsString}
use genieacs.Common.Text.{slice, trim, trim_start, is_space}
use genieacs.Common.{
  ℕ, zero, suc, ◌+◌, ◌-◌, ◌≡◌, refl, Bool, true, false, ◌||◌, not, List, [], ◌∷◌, ◌++◌, length,
  drop, take_zero-append, take-length_le, ◌==◌, arith, All, All-append,
}
use genieacs.Xml.Attributes.{Attribute, is_empty}

-- a code unit of a name: no quote, colon, equals sign or space
unfoldable pub name_char : ℕ → Bool
name_char c = not (c == 39 || c == 34 || c == 58 || c == 61 || is_space c)

-- a code unit of a value: no quote
unfoldable pub value_char : ℕ → Bool
value_char c = not (c == 39 || c == 34)

abbrev pub qualified : JsString → JsString → JsString
qualified [] local = local
qualified (c ∷ ns) local = (c ∷ ns) ++ (58 ∷ local)

-- An attribute that can be written out.
pub record IsWritten (a : Attribute) : Type 0 where
  pub names : a.name ≡ qualified a.namespace a.local_name
  pub not_empty : is_empty a.local_name ≡ false
  pub namespace_chars : All (λ c. name_char c ≡ true) a.namespace
  pub local_chars : All (λ c. name_char c ≡ true) a.local_name
  pub value_chars : All (λ c. value_char c ≡ true) a.value

abbrev pub write_attr : Attribute → JsString → JsString
write_attr a rest = 32 ∷ (a.name ++ (61 ∷ 34 ∷ (a.value ++ (34 ∷ rest))))

-- The text of a list of attributes.
abbrev pub write_attrs : List Attribute → JsString
write_attrs [] = []
write_attrs (a ∷ r) = write_attr a (write_attrs r)

pub not_space : (c : ℕ) → name_char c ≡ true → is_space c ≡ false
unfolding name_char
not_space c h = ground arith

abbrev pub IsSolid : ℕ → Type 0
IsSolid c = is_space c ≡ false

pub All-name_char : (s : JsString) → All (λ c. name_char c ≡ true) s → All IsSolid s
All-name_char [] a = tt
All-name_char (c ∷ s) (h, a) = (not_space c h, All-name_char s a)

All-reverse : (s : JsString) → All IsSolid s → All IsSolid (reverse s)
All-reverse [] a = tt
All-reverse (c ∷ s) (h, a) =
    rw (reverse-cons c s) (All-append IsSolid (reverse s) (c ∷ []) (All-reverse s a) (h, tt))

trim_start-solid : (s : JsString) → All IsSolid s → trim_start s ≡ s
unfolding trim_start
trim_start-solid [] a = refl
trim_start-solid (c ∷ s) (h, a) = rw h

pub trim-solid : (s : JsString) → All IsSolid s → trim s ≡ s
unfolding trim
trim-solid s a =
    rw (trim_start-solid s a, trim_start-solid (reverse s) (All-reverse s a)) (reverse-reverse s)

pub trim_space-solid : (s : JsString) → All IsSolid s → trim (32 ∷ s) ≡ s
unfolding trim trim_start
trim_space-solid s a = trim-solid s a

drop-length-append : (a rest : JsString) → drop (length a) (a ++ rest) ≡ rest
drop-length-append [] rest = refl
drop-length-append (c ∷ a) rest = drop-length-append a rest

pub drop_at :
    (i : ℕ) (string a rest : JsString)
    → drop i string ≡ a ++ rest
    → drop (i + length a) string ≡ rest
drop_at zero string a rest h =
    let z : 0 + length a ≡ length a = omega arith in rw (z, h) (drop-length-append a rest)
drop_at (suc i) [] [] rest h = let z : suc i + 0 ≡ suc i = omega arith in rw z h
drop_at (suc i) [] (c ∷ a) rest h = cc
drop_at (suc i) (x ∷ string) a rest h =
    let z : suc i + length a ≡ suc (i + length a) = omega arith in rw z (drop_at i string a rest h)

pub slice_at :
    (i : ℕ) (string a rest : JsString)
    → drop i string ≡ a ++ rest
    → slice i (i + length a) string ≡ a
slice_at i string a rest h =
    let z : i + length a - i ≡ length a = omega arith in rw (h, z) (take_zero-append a rest)

pub write_attr-append :
    (a : Attribute) (rest : JsString) → write_attr a rest ≡ write_attr a [] ++ rest
write_attr-append a rest = rw (
  append_assoc a.name (61 ∷ 34 ∷ (a.value ++ (34 ∷ []))) rest,
  append_assoc a.value (34 ∷ []) rest,
)

pub is_empty-qualified :
    (ns local : JsString) → is_empty local ≡ false → is_empty (qualified ns local) ≡ false
is_empty-qualified [] local h = h
is_empty-qualified (c ∷ ns) local h = refl

pub slice_end :
    (i : ℕ) (string : JsString) → drop i string ≡ [] → trim (slice i (length string) string) ≡ []
unfolding trim trim_start
slice_end i string d = rw (d, take-length_le {A = ℕ} (length string - i) [] (omega arith))
