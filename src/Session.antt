-- ===== src/Session.antt =====
-- lib/session.ts: a session's state, `init`, `addProvisions` and `clearProvisions`. Channels hold
-- which provisions they want as the bits of a 32-bit number.
pub mod Digits
pub mod Channels
pub mod Duplicates
pub mod Membership
pub mod Adding
pub mod Tags
pub mod RpcIds
pub mod Updates
pub mod Inform
pub mod Downloads
pub mod Timeouts
pub mod Stamps
pub mod Freshness
mod Tests
mod RequestTests
use genieacs.Common.Eq.{JsString, js_string_eq, ◌===◌}
use genieacs.Common.JsMap.{JsMap, get, set}
use genieacs.Common.Json.{stringify}
use genieacs.Common.Text.{codes, join}
use genieacs.Common.Words.{shl, sar, or_bits, and_bits}
use genieacs.Common.{
  ℕ, zero, suc, ◌+◌, ◌-◌, ◌*◌, Bool, true, false, not, Option, none, some, List, [], ◌∷◌, ◌++◌,
  length, map, get_last_or, ltb, ◌==◌, if◌then◌else◌,
}
use genieacs.PathSet
use genieacs.VersionedMap
use genieacs.Device.{DeviceData}
use genieacs.Requests.{Operation}
use genieacs.Expression.{
  Primitives, Expression, Items, null, boolean, number, text, array, empty, item,
}

-- What the model keeps of `SessionContext`; `X` stands for what scripts and requests leave there.
pub record Session (N X : Type 0) : Type 0 where
  pub timestamp : ℕ
  pub device_id : JsString
  pub device_data : DeviceData
  pub cwmp_version : JsString
  pub timeout : ℕ
  -- an array of a name and arguments
  pub provisions : List (Items N)
  pub channels : JsMap JsString ℕ
  pub virtual_parameters : List X
  pub revisions : List ℕ
  pub rpc_count : ℕ
  pub iteration : ℕ
  pub cycle : ℕ
  pub extensions_cache : List X
  pub declarations : List X
  pub provisions_ret : List X
  pub sync_state : Option X
  pub rpc_request : Option X
  pub state : ℕ
  pub auth_state : ℕ
  -- `new`, that the device was not known before
  pub is_new : Bool
  pub operations : Option (JsMap JsString Operation)
  pub operations_touched : Option (JsMap JsString ℕ)

module _ {N : Type 0} ⦃p : Primitives N⦄ where
  -- `JSON.stringify`
  unfoldable mutual
    pub json : Expression N → JsString
    json null = codes "null"
    json (boolean true) = codes "true"
    json (boolean false) = codes "false"
    json (number n) = p.number_text n
    json (text s) = stringify s
    json (array l) = b'[' ∷ (join (codes ",") (json_items l) ++ b']' ∷ [])

    pub json_items : Items N → List JsString
    json_items empty = []
    json_items (item e l) = json e ∷ json_items l

abbrev pub Channels : Type 0
Channels = JsMap JsString ℕ

-- `sessionContext.channels[c]`, as the bitwise operators read it
abbrev pub channel_bits : JsString → Channels → ℕ
channel_bits c channels = elim (get c channels) [ none ↦ 0 | some v ↦ v ]

-- `a = v >> (j + 1); v &= (1 << j) - 1; v |= a << j`
unfoldable pub take_digit_out : ℕ → ℕ → ℕ
take_digit_out j v = or_bits (and_bits v (shl 1 j - 1)) (shl (sar v (j + 1)) j)

abbrev pub take_out_entry : ℕ → JsString × ℕ → JsString × ℕ
take_out_entry j (c, v) = (c, take_digit_out j v)

-- the loop over the channels for a duplicate at `j`: the channels that want it, ...
unfoldable pub holders : ℕ → Channels → Channels → List JsString
holders j channels [] = []
holders j channels ((c, v) ∷ l) =
    let more = holders j channels l in
    if and_bits (channel_bits c channels) (shl 1 j) == 0 then more else c ∷ more

-- ... and their bits without it
abbrev pub take_out : ℕ → Channels → Channels
take_out j channels = map (take_out_entry j) channels

-- the loop over `channels` that marks the provision at `n`
unfoldable pub mark_all : List JsString → ℕ → Channels → Channels
mark_all [] n channels = channels
mark_all (c ∷ l) n channels =
    mark_all l n (set c (or_bits (channel_bits c channels) (shl 1 n)) channels)

module _ {N : Type 0} ⦃p : Primitives N⦄ where
  abbrev pub provision_text : Items N → JsString
  provision_text provision = json (array provision)

  -- the loop over the entries of `provisions` from index `j` on; after a splice the next entry is
  -- passed over
  unfoldable pub remove_duplicates :
      JsString
      → ℕ
      → List (Items N)
      → Channels
      → List JsString
      → List (Items N) × Channels × List JsString
  remove_duplicates s j [] channels names = ([], channels, names)
  remove_duplicates s j (q ∷ []) channels names =
      if provision_text q === s
      then ([], take_out j channels, names ++ holders j channels channels)
      else (q ∷ [], channels, names)
  remove_duplicates s j (q ∷ r ∷ l) channels names =
      let removed =
        remove_duplicates s (suc j) l (take_out j channels)
          (names ++ holders j channels channels) in
      let kept = remove_duplicates s (suc j) (r ∷ l) channels names in
      if provision_text q === s
      then (r ∷ removed.0, removed.1, removed.2)
      else (q ∷ kept.0, kept.1, kept.2)

  -- one provision of `addProvisions`
  unfoldable pub add_provision :
      JsString → Items N → List (Items N) × Channels → List (Items N) × Channels
  add_provision channel provision (provisions, channels) =
      let (left, spliced, names) =
        remove_duplicates (provision_text provision) 0 provisions channels (channel ∷ []) in
      (left ++ provision ∷ [], mark_all names (length left) spliced)

  unfoldable pub add_each :
      JsString → List (Items N) → List (Items N) × Channels → List (Items N) × Channels
  unfolding add_provision
  add_each channel [] st = st
  add_each channel (provision ∷ l) st = add_each channel l (add_provision channel provision st)

abbrev pub init_device_data : DeviceData
init_device_data = record {
  paths = PathSet.empty;
  timestamps = VersionedMap.empty;
  attributes = VersionedMap.empty;
  trackers = [];
  changes = [];
}

module _ {N X : Type 0} where
  -- `init` at the time `now`
  abbrev pub init : ℕ → JsString → JsString → ℕ → Session N X
  init now device_id cwmp_version timeout = record {
    timestamp = now;
    device_id = device_id;
    device_data = init_device_data;
    cwmp_version = cwmp_version;
    timeout = timeout;
    provisions = [];
    channels = [];
    virtual_parameters = [];
    revisions = 0 ∷ [];
    rpc_count = 0;
    iteration = 0;
    cycle = 0;
    extensions_cache = [];
    declarations = [];
    provisions_ret = [];
    sync_state = none;
    rpc_request = none;
    state = 0;
    auth_state = 0;
    is_new = false;
    operations = none;
    operations_touched = none;
  }

  -- `collapse(1)` of both maps when there are revisions above the first
  unfoldable pub collapse_data : Session N X → DeviceData
  collapse_data s =
      let dev = s.device_data in
      if ltb 0 (get_last_or s.revisions 0)
      then record dev {
        timestamps = VersionedMap.collapse 1 dev.timestamps;
        attributes = VersionedMap.collapse 1 dev.attributes;
      }
      else dev

  -- the next cycle, unless the current one has not begun; `limit` is MAX_ITERATIONS
  unfoldable pub next_cycle : ℕ → Session N X → Session N X
  next_cycle limit s =
      if s.iteration == s.cycle * limit
      then s
      else record s { cycle = s.cycle + 1; rpc_count = 0; iteration = (s.cycle + 1) * limit }

  -- what `addProvisions` forgets before it adds any
  unfoldable pub reset_run : ℕ → Session N X → Session N X
  reset_run limit s =
      let collapsed = ltb 0 (get_last_or s.revisions 0) in
      next_cycle limit (record s {
        sync_state = none;
        rpc_request = none;
        declarations = [];
        provisions_ret = [];
        device_data = collapse_data s;
        revisions = if collapsed then 0 ∷ [] else s.revisions;
        extensions_cache = if collapsed then [] else s.extensions_cache;
      })

  -- `clearProvisions`; `iterations` is the number configured in cwmp.maxCommitIterations
  unfoldable pub clear_provisions : ℕ → Session N X → Session N X
  clear_provisions iterations s =
      record (next_cycle (iterations * 2) (record s { device_data = collapse_data s })) {
        sync_state = none;
        rpc_request = none;
        provisions = [];
        virtual_parameters = [];
        channels = [];
        declarations = [];
        provisions_ret = [];
        revisions = 0 ∷ [];
        extensions_cache = [];
      }

module _ {N X : Type 0} ⦃p : Primitives N⦄ where
  -- `addProvisions`
  unfoldable pub add_provisions : ℕ → JsString → List (Items N) → Session N X → Session N X
  add_provisions iterations channel provisions s =
      let fresh = reset_run (iterations * 2) s in
      let opened = set channel (channel_bits channel fresh.channels) fresh.channels in
      let after = add_each channel provisions (fresh.provisions, opened) in
      record fresh { provisions = after.0; channels = after.1 }
