-- ===== src/Xml/Tests.antt =====
-- lib/xml-parser.ts on concrete texts.
use genieacs.Common.Text.{codes, trim, starts_with}
use genieacs.Common.{◌≡◌, refl, [], ◌∷◌, All}
use genieacs.Xml.Entities.{
  decode_entities, encode_entities, encode_entities-IsInert, decode_entities-encode_entities,
  IsInert,
}
use genieacs.Xml.Written.{name_char, value_char, IsWritten, write_attrs}
use genieacs.Xml.AttributeRoundTrip.{parse_attrs-write_attrs}
use genieacs.Xml.Attributes.{Attribute, ok, parse_attrs, err, missing_value}
use genieacs.Xml.Elements
use genieacs.Xml.Elements.{
  parse_xml, element, Elements, childless, child, Element, XmlResult, unmatched_tag,
}

numeric : decode_entities (codes "&#65;&#x4a;&#065;&am;") ≡ b'A' ∷ b'J' ∷ b'A' ∷ codes "&am;"
unfolding decode_entities
numeric = refl

-- A numeric entity that is no number is decoded to a NUL.
not_a_number : decode_entities (codes "&#NaN;") ≡ 0 ∷ []
unfolding decode_entities
not_a_number = refl

-- An apostrophe between double quotes takes the place of the quote that is open.
apostrophe_between_quotes : parse_attrs (codes "a=\"it's\"") ≡ err (missing_value 7)
unfolding parse_attrs trim
apostrophe_between_quotes = refl

-- The text of the document and a tree with an attribute, a child with a prefix and a comment.
small_document :
    parse_xml (codes "<a b=\"1\"><n:c/><!-- > -->t</a>")
    ≡ Elements.ok (
        element (codes "root") [] (codes "root") [] [] 0 (
          child
            (element
              (codes "a")
              []
              (codes "a")
              (codes "b=\"1\"")
              []
              9
              (child (element (codes "n:c") (codes "n") (codes "c") [] [] 15 childless) childless))
            childless))
unfolding parse_xml starts_with
small_document = refl

mismatched : parse_xml (codes "<a></b>") ≡ Elements.err (unmatched_tag 6)
unfolding parse_xml
mismatched = refl

-- A closing tag of the root, which is not in the document, is accepted.
closed_root :
    parse_xml (codes "</root>")
    ≡ Elements.ok (element (codes "root") [] (codes "root") [] (codes "</root>") 0 childless)
unfolding parse_xml
closed_root = refl

decode_entities-encode_entities_example :
    decode_entities (encode_entities (codes "<a b=\"1\">&'")) ≡ codes "<a b=\"1\">&'"
decode_entities-encode_entities_example = decode_entities-encode_entities (codes "<a b=\"1\">&'")

encode_entities-IsInert_example : All IsInert (encode_entities (codes "<>\"'&"))
encode_entities-IsInert_example = encode_entities-IsInert (codes "<>\"'&")

abbrev type_attribute : Attribute
type_attribute = record {
  name = codes "xsi:type";
  namespace = codes "xsi";
  local_name = codes "type";
  value = codes "a=b :c";
}

abbrev id_attribute : Attribute
id_attribute = record { name = codes "id"; namespace = []; local_name = codes "id"; value = [] }

type_attribute-IsWritten : IsWritten type_attribute
unfolding name_char value_char
type_attribute-IsWritten = record {
  names = refl;
  not_empty = refl;
  namespace_chars = (refl, (refl, (refl, tt)));
  local_chars = (refl, (refl, (refl, (refl, tt))));
  value_chars = (refl, (refl, (refl, (refl, (refl, (refl, tt))))));
}

id_attribute-IsWritten : IsWritten id_attribute
unfolding name_char
id_attribute-IsWritten = record {
  names = refl;
  not_empty = refl;
  namespace_chars = tt;
  local_chars = (refl, (refl, tt));
  value_chars = tt;
}

parse_attrs-write_attrs_example :
    parse_attrs (write_attrs (type_attribute ∷ id_attribute ∷ []))
    ≡ ok (type_attribute ∷ id_attribute ∷ [])
parse_attrs-write_attrs_example =
    parse_attrs-write_attrs (type_attribute ∷ id_attribute ∷ [])
      (type_attribute-IsWritten, (id_attribute-IsWritten, tt))
