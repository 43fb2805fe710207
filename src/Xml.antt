-- ===== src/Xml.antt =====
-- lib/xml-parser.ts: entities, attributes and elements. Entities is the codec of character
-- entities, Attributes the state machine of `parseAttrs` and Elements that of `parseXml`.
pub mod Entities
pub mod Attributes
pub mod Written
pub mod AttributeReading
pub mod AttributeRoundTrip
pub mod Elements
mod Tests
