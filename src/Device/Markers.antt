-- ===== src/Device/Markers.antt =====
-- lib/device.ts: which markers stand at a path after `track` and `clearTrackers`.
use genieacs.Common.JsMap
use genieacs.Common.JsMap.{JsMap}
use genieacs.Common.Eq.{JsString, js_string_eq, ◌===◌, ===_iff}
use genieacs.Common.Words.{or_bits}
use genieacs.Common.{
  ℕ, ◌≡◌, refl, ◌∙◌, ◌&&◌, not, Option, none, some, List, [], ◌∷◌, if◌then◌else◌, arith, Bool-cases,
  inl, inr,
}
use genieacs.ParameterPath.{ParameterPath}
use genieacs.PathSet
use genieacs.PathSet.Search.{IsMade, IsIndexed}
use genieacs.PathSet.Adding.{set_after, add-IsAdded}
use genieacs.Device.{AttrName, DeviceData, changed, remove_change}
use genieacs.Device.Setting.{or_no_markers}
use genieacs.Device.Clearing.{or_zero}
use genieacs.Device.Tracking.{flags_of, track, delete_marker, clear_trackers}

-- The flags of a marker at a path.
abbrev pub marker_at : JsString → JsString → JsMap JsString (JsMap JsString ℕ) → Option ℕ
marker_at k marker trackers = JsMap.get marker (or_no_markers (JsMap.get k trackers))

marker_at-delete_marker :
    (k marker t : JsString) (m : JsMap JsString (JsMap JsString ℕ))
    → marker_at k marker (delete_marker t m) ≡ (if t === marker then none else marker_at k marker m)
unfolding delete_marker JsMap.get
marker_at-delete_marker k marker t [] = ground arith
marker_at-delete_marker k marker t ((j, v) ∷ m) = elim (Bool-cases (j === k)) [
  | inl same ↦ rw same (JsMap.get-delete t marker v)
  | inr other ↦ rw other (marker_at-delete_marker k marker t m)
]

changed-remove_change :
    (k t : JsString) (s : List JsString)
    → changed (remove_change t s) k ≡ (not (t === k) && changed s k)
unfolding changed remove_change
changed-remove_change k t [] = ground arith
changed-remove_change k t (j ∷ s) =
    ground (arith, changed-remove_change k t s, ===_iff j t, ===_iff j k, ===_iff t k)

-- After clearTrackers, no path has one of the markers cleared and none of them is among the
-- changes, and every other marker and change is as it was.
pub clear_trackers_lem :
    (k marker : JsString) (cleared : List JsString) (dev : DeviceData)
    → (marker_at k marker (clear_trackers cleared dev).trackers
        ≡ (if changed cleared marker then none else marker_at k marker dev.trackers))
      × (changed (clear_trackers cleared dev).changes marker
          ≡ (not (changed cleared marker) && changed dev.changes marker))
unfolding clear_trackers changed
clear_trackers_lem k marker [] dev = (refl, refl)
clear_trackers_lem k marker (t ∷ r) dev =
    let (a, b) = clear_trackers_lem k marker r (record dev {
      trackers = delete_marker t dev.trackers;
      changes = remove_change t dev.changes;
    }) in
    (
      a ∙ ground (arith, marker_at-delete_marker k marker t dev.trackers),
      b ∙ ground (arith, changed-remove_change marker t dev.changes),
    )

marker_at-set :
    (p k marker j : JsString) (f : ℕ) (trackers : JsMap JsString (JsMap JsString ℕ))
    → marker_at k j
        (JsMap.set p (JsMap.set marker f (or_no_markers (JsMap.get p trackers))) trackers)
      ≡ (if (p === k) && (marker === j) then some f else marker_at k j trackers)
marker_at-set p k marker j f trackers =
    let markers = or_no_markers (JsMap.get p trackers) in
    rw (JsMap.get-set p k (JsMap.set marker f markers) trackers) (elim (Bool-cases (p === k)) [
      | inl same ↦ rw same (JsMap.get-set marker j f markers ∙ rw ((===_iff p k).0 same))
      | inr other ↦ rw other
    ])

-- What `track` leaves: the marker with more flags at the path, every other one as it was.
pub record IsTracked (path : ParameterPath) (marker : JsString) (flags : ℕ) (dev : DeviceData)
    (r : Option DeviceData) : Type 0 where
  pub after : DeviceData
  pub succeeds : r ≡ some after
  pub markers :
      (k j : JsString)
      → marker_at k j after.trackers ≡ (
          if (path.string === k) && (marker === j)
          then some (or_bits (or_zero (marker_at path.string marker dev.trackers)) flags)
          else marker_at k j dev.trackers)
  pub changes : after.changes ≡ dev.changes
  pub in_step : IsIndexed after.paths

-- track of a path without alias, on data whose path indexes are in step, succeeds, adds the
-- flags to those of the marker at that path, leaves every other marker and the changes as they
-- were, and keeps the indexes in step.
pub track_lem :
    (path : ParameterPath) (marker : JsString) (attributes : List AttrName) (dev : DeviceData)
    → IsMade path
    → IsIndexed dev.paths
    → IsTracked path marker (flags_of attributes 1) dev (track path marker attributes dev)
unfolding track
track_lem path marker attributes dev m x =
    let added = add-IsAdded path dev.paths m x in
    let markers = or_no_markers (JsMap.get path.string dev.trackers) in
    let f = or_bits (or_zero (JsMap.get marker markers)) (flags_of attributes 1) in
    rw (added.returns) (record {
      after = record dev {
        paths = set_after dev.paths (PathSet.add path dev.paths);
        trackers = JsMap.set path.string (JsMap.set marker f markers) dev.trackers;
      };
      succeeds = refl;
      markers = λ k j. marker_at-set path.string k marker j f dev.trackers;
      changes = refl;
      in_step = added.in_step;
    })
