-- ===== src/Lib.antt =====
-- GenieACS is an auto configuration server for TR-069 devices. A CWMP session holds what is known
-- of a device as paths with attributes and timestamps, over a stack of revisions; scripts declare
-- what they want to know and the session asks the device for it.
--
-- The parts modelled and how they interact:
-- - ParameterPath: lib/common/path.ts, paths such as Device.WiFi.*.[a:1], their parser
--   (parseAliasValue, parseAliasPath, parseAlias, parsePath in ParameterPath/Parser) and their
--   operations slice, concat, stripAlias with the two caches that parse and slice share. The parser
--   recurses on fuel: a loop round moves on by a unit at least, so the length of the text and two
--   more rounds are enough, and aliases nest no deeper than the text is long.
-- - PathSet: lib/common/path-set.ts, the set of paths of a device with its indexes by length, by
--   fragment and by text: add, get, find. A stored text stands for its one path object.
--   PathSet/Wanted has what a search asks for, level by level and without the bits of the wildcards;
--   in a path of more than 32 segments two levels share a bit.
-- - VersionedMap: lib/versioned-map.ts, values by key and revision: get, has, set, delete, diff,
--   collapse and the counters of the size. getRevisions and setRevisions are in
--   VersionedMap/Revisions; the loop of setRevisions recurses on fuel, and 32 rounds are enough as
--   long as bit 31 is not set.
-- - Device: lib/device.ts with the types of lib/types.ts, the data of a device: a PathSet, two
--   VersionedMaps (timestamps and attributes) and the trackers with their changes. set is in
--   Device/Setting, clear in Device/Clearing, track and clearTrackers in Device/Tracking; the
--   other files of Device hold laws. set goes up to the parent by recursion on the number of
--   segments, which is as many levels as there are. unpack, getAliasDeclarations and
--   sanitizeParameterValue are not modelled.
-- - InstanceSet: lib/instance-set.ts, the instances that declarations ask for, by inclusion of their
--   fields: add, delete, superset, subset. The iterators are the list itself.
-- - Xml: lib/xml-parser.ts, the entities (Xml/Entities), the state machine of attributes
--   (Xml/Attributes) and that of documents (Xml/Elements). parseXmlDeclaration, which decodes a
--   Node Buffer, is not modelled.
-- - Expression: lib/common/expression/util.ts, parser.ts and pagination.ts there, the expressions of
--   filters and their evaluation: like (Expression/Like; what a pattern means, character by
--   character, is in Expression/Like/Reading), reduce (Expression/Reduction), evaluate
--   with its operators (Expression/Evaluation), the helpers and, or, and the bookmarks of sorted
--   pages (Expression/Bookmark). Numbers are a parameter, the record Primitives, with the operations
--   and tests of doubles that the source uses, and so are the tables of upper and lower case.
--   reduce recurses on fuel: every round takes an operand away, so one more than their number is
--   enough.
-- - Authorizer: lib/common/authorizer.ts, hasAccess and getFilter with their caches, and
--   getValidator, over the expressions. What a mutation holds under a name is the lookup of the
--   evaluation.
-- - Session: lib/session.ts, the session context with init, generateRpcId (Session/RpcIds),
--   addProvisions, clearProvisions, inform (Session/Inform, its tags in Session/Tags),
--   transferComplete (Session/Downloads) and timeoutOperations (Session/Timeouts), over
--   Requests, the requests and operations of lib/types.ts. A channel holds the provisions it
--   wants as the bits of a 32-bit number, so the laws of Session/Adding are about at most 31
--   provisions. Session/Digits has the arithmetic of the bits, Session/Duplicates the removal of
--   equal provisions. Settings of the configuration cache are arguments. Of the caches of parse
--   only the results are kept.
-- - Lock: lib/lock.ts, acquireLock, releaseLock and getToken. The collection of MongoDB is a parameter,
--   the record LockCollection, and IsCollection what MongoDB documents of it; Lock/Table is such a
--   collection. A Turn is one call of acquireLock with its clocks and what others do before the next
--   one.
-- - GpnEstimate: lib/gpn-heuristic.ts, estimateGpnCount. It recurses on fuel: a level takes one
--   segment off the patterns, so the length of the longest and one more are enough. Segments that are
--   names of properties of Object.prototype, on which the source throws, are keys like any other in
--   the model.
-- - Common: lists, JavaScript strings as lists of code units, Map as an association list in
--   insertion order, 32-bit shifts, JSON strings, and equality as an interface.
--
-- Errors that the source throws are none or an error value of the model. JavaScript numbers are
-- natural numbers where the source counts or compares times; sizes are integers. Bits of a path
-- are those of 32-bit shifts, taken modulo 32.
--
-- Not modelled: the rest of the session, the CWMP server and SOAP, the databases, the HTTP services,
-- scripts and extensions, connection requests and the browser interface, which stand on Node,
-- MongoDB and network protocols; the parser and the synthesis of expressions, the caches over the
-- lock, and the normalisation of queries.
pub mod Authorizer
pub mod Common
pub mod Device
pub mod Expression
pub mod GpnEstimate
pub mod InstanceSet
pub mod Lock
pub mod ParameterPath
pub mod PathSet
pub mod Requests
pub mod Session
pub mod VersionedMap
pub mod Xml
