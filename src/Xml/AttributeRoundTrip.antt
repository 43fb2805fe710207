-- ===== src/Xml/AttributeRoundTrip.antt =====
-- lib/xml-parser.ts: `parseAttrs` reads back attributes that are written out one after the other,
-- each behind a space and with its value between double quotes.
use mathlib.Core.List.{append_assoc, append-nil}
use genieacs.Common.Eq.{JsString}
use genieacs.Common.{
  ℕ, ◌+◌, ◌≤◌, ◌≡◌, refl, sym, ◌∙◌, ap, List, [], ◌∷◌, ◌++◌, length, length-append, drop, arith,
  All,
}
use genieacs.Xml.Attributes.{Attribute, ok, attr_loop, attr_end, parse_attrs, ◌>>=◌}
use genieacs.Xml.Written.{
  qualified, IsWritten, write_attr, write_attrs, drop_at, write_attr-append, is_empty-qualified,
  slice_end,
}
use genieacs.Xml.AttributeReading.{between_attrs, named, read_value, read_name}

module _ (string : JsString) where
  read_attr :
      (attrs : List Attribute) (ns0 local0 : JsString) (i colon : ℕ) (a : Attribute)
      (rest : JsString)
      → colon ≤ i
      → IsWritten a
      → drop i string ≡ write_attr a rest
      → (k : ℕ) × (k ≤ i + length (write_attr a []))
        × (drop (i + length (write_attr a [])) string ≡ rest)
        × (attr_loop string i (write_attr a rest) (between_attrs string attrs ns0 local0 i colon)
            ≡ attr_loop string (i + length (write_attr a [])) rest (
                between_attrs string
                  (attrs ++ a ∷ [])
                  a.namespace
                  a.local_name
                  (i + length (write_attr a []))
                  k))
  read_attr attrs ns0 local0 i colon a rest l w d =
      let (k, p, e) =
        read_name string attrs ns0 local0 i colon a.namespace a.local_name
          (34 ∷ (a.value ++ (34 ∷ rest))) l w.namespace_chars w.local_chars (rw w.names at d) in
      let n = length-append a.name (61 ∷ 34 ∷ (a.value ++ (34 ∷ []))) in
      let v = length-append a.value (34 ∷ []) in
      let name_length : length a.name ≡ length (qualified a.namespace a.local_name) =
        ap length w.names in
      let z : i + 2 + length (qualified a.namespace a.local_name) + 2 + length a.value
          ≡ i + length (write_attr a []) =
        omega arith in
      let parts : write_attr a rest
          ≡ (32 ∷ (a.name ++ (61 ∷ 34 ∷ []))) ++ (a.value ++ (34 ∷ rest)) =
        ap (λ r. 32 ∷ r) (sym (append_assoc a.name (61 ∷ 34 ∷ []) (a.value ++ (34 ∷ rest)))) in
      let at_value : i + length (32 ∷ (a.name ++ (61 ∷ 34 ∷ [])))
          ≡ i + 2 + length (qualified a.namespace a.local_name) + 1 =
        omega (arith, length-append a.name (61 ∷ 34 ∷ [])) in
      let value =
        rw at_value at (
          drop_at i string (32 ∷ (a.name ++ (61 ∷ 34 ∷ []))) (a.value ++ (34 ∷ rest))
            (d ∙ parts)) in
      let read =
        read_value string a (i + 2 + length (qualified a.namespace a.local_name)) rest
          (between_attrs string attrs a.namespace a.local_name i k) w.value_chars
          (rw w.names (is_empty-qualified a.namespace a.local_name w.not_empty)) value refl in
      let named_now : attr_loop string i (write_attr a rest)
            (between_attrs string attrs ns0 local0 i colon)
          ≡ attr_loop string (i + 2 + length (qualified a.namespace a.local_name))
              (34 ∷ (a.value ++ (34 ∷ rest)))
              (named string a (between_attrs string attrs a.namespace a.local_name i k) k) =
        rw w.names e in
      (
        k,
        omega arith,
        drop_at i string (write_attr a []) rest (d ∙ write_attr-append a rest),
        named_now ∙ (rw z at read),
      )

  read_attrs :
      (todo attrs : List Attribute) (ns0 local0 : JsString) (i colon : ℕ)
      → colon ≤ i
      → All IsWritten todo
      → drop i string ≡ write_attrs todo
      → attr_loop string i (write_attrs todo) (between_attrs string attrs ns0 local0 i colon)
          >>= attr_end string
        ≡ ok (attrs ++ todo)
  unfolding attr_loop attr_end
  read_attrs [] attrs ns0 local0 i colon l w d =
      rw (slice_end i string d) (ap ok (sym (append-nil attrs)))
  read_attrs (a ∷ todo) attrs ns0 local0 i colon l (w, ws) d =
      let (k, p, d', e) = read_attr attrs ns0 local0 i colon a (write_attrs todo) l w d in
      rw e (
        read_attrs todo (attrs ++ a ∷ []) a.namespace a.local_name (i + length (write_attr a [])) k
          p ws d'
        ∙ rw (append_assoc attrs (a ∷ []) todo))

-- A list of attributes, each written as a space, its name, an equals sign and its value
-- between double quotes, is parsed back to that list with the names split at their colons,
-- provided that no local name is empty, that no part of a name has a quote, colon, equals sign
-- or space and that no value has a quote.
pub parse_attrs-write_attrs :
    (attrs : List Attribute) → All IsWritten attrs → parse_attrs (write_attrs attrs) ≡ ok attrs
unfolding parse_attrs
parse_attrs-write_attrs attrs w =
    read_attrs (write_attrs attrs) attrs [] [] [] 0 0 (omega arith) w refl
