-- ===== src/VersionedMap/Collapse.antt =====
-- lib/versioned-map.ts: `size` after `collapse`.
use genieacs.Common.JsMap.{JsMap}
use genieacs.Common.{ℕ, Option, none, some}
use genieacs.VersionedMap.Size.{weight}
use genieacs.VersionedMap.{History, VersionedMap}

abbrev weight_kept : {V : Type 0} → ℕ → Option (History V) → ℕ
weight_kept r none = 0
weight_kept r (some h) = weight r h
