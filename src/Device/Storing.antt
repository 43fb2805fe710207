-- ===== src/Device/Storing.antt =====
-- lib/device.ts: `set` as a whole: it succeeds, stores the merged attributes and sets no timestamp
-- back.
use genieacs.Common.Eq.{js_string_eq}
use genieacs.Common.{
  ℕ, zero, suc, ◌≡◌, ◌<◌, refl, ap, true, Option, none, some, List, length, ◌==◌, if◌then◌else◌,
  arith, Bool-cases, inl, inr,
}
use genieacs.ParameterPath.{ParameterPath}
use genieacs.PathSet
use genieacs.PathSet.{PathList, PathSet, to_path_list}
use genieacs.PathSet.Search.{IsMade}
use genieacs.PathSet.Adding.{set_after, add-IsAdded}
use genieacs.Device.{Attributes, Clear, DeviceData}
use genieacs.Device.Attributes.{merge, normalize}
use genieacs.Device.Setting.{
  SetResult, Upward, or_no_attributes, set_given, set_stored, set_level, set,
}
use genieacs.Device.Effects.{IsData, Effects-trans, Effects-same}
use genieacs.Device.Setting.{current_attributes, set_nothing}
use genieacs.Device.Ascent.{IsStep, IsUpward}
use genieacs.Device.Branches.{IsStored, set_given-IsStored, set_nothing-IsStep}

set_stored-IsStep :
    (up : Upward) (p : ParameterPath) (t : ℕ) (given : Option Attributes) (dev : DeviceData)
    (tc : List Clear)
    → IsMade p
    → IsUpward (length p.segments) up
    → IsData dev
    → IsStep (length p.segments) dev (set_stored up p t given (dev, tc))
unfolding set_stored
set_stored-IsStep up p t none dev tc m u d = elim (Bool-cases (p.wildcard == 0)) [
  | inl plain ↦
      rw (set_stored, plain) (set_nothing-IsStep p t (current_attributes p dev) dev tc m d)
  | inr wild ↦ rw (set_stored, wild) (set_nothing-IsStep p t (current_attributes p dev) dev tc m d)
]
set_stored-IsStep up p t (some g) dev tc m u d = elim (Bool-cases (p.wildcard == 0)) [
  | inl plain ↦
      rw (set_stored, plain)
        (set_given-IsStored up p t (current_attributes p dev) (normalize g) dev tc m u d).step
  | inr wild ↦ rw (set_stored, wild) (set_nothing-IsStep p t (current_attributes p dev) dev tc m d)
]

-- `set` before the path is added, for a path that has fewer segments than there are levels
set_level-IsStep :
    (n : ℕ) (p : ParameterPath) (t : ℕ) (given : Option Attributes) (dev : DeviceData)
    (tc : List Clear)
    → IsMade p
    → length p.segments < n
    → IsData dev
    → IsStep (length p.segments) dev (set_level n p t given (dev, tc))
unfolding set_level
set_level-IsStep zero p t given dev tc m l d = absurd (omega arith)
set_level-IsStep (suc n) p t given dev tc m l d =
    let added = add-IsAdded p dev.paths m d.in_step in
    let e =
      Effects-same (length p.segments) dev (set_after dev.paths (PathSet.add p dev.paths))
        dev.changes d added.in_step in
    let s =
      set_stored-IsStep (λ q t a s. set_level n q t (some a) s) p t given _ tc m
        (λ q t a s k j x. set_level-IsStep n q t (some a) s.0 s.1 k (omega arith) x) e.sound in
    rw (added.returns) (record {
      after = s.after;
      succeeds = s.succeeds;
      effects =
          Effects-trans (length p.segments) (length p.segments) dev _ s.after.0 (omega arith) e
            s.effects;
    })

pub set_stored_plain :
    (up : Upward) (p : ParameterPath) (t : ℕ) (g : Attributes) (dev : DeviceData) (tc : List Clear)
    → p.wildcard ≡ 0
    → set_stored up p t (some g) (dev, tc)
      ≡ set_given up p t (current_attributes p dev) (normalize g) (dev, tc)
unfolding set_stored
set_stored_plain up p t g dev tc w =
    let plain : (p.wildcard == 0) ≡ true = rw w in
    let chosen : (if p.wildcard == 0 then some g else none) ≡ some g = rw plain in
    ap {B = SetResult}
      (λ o. elim o as (λ x. SetResult) [
        | none ↦ set_nothing p t (current_attributes p dev) (dev, tc)
        | some h ↦ set_given up p t (current_attributes p dev) (normalize h) (dev, tc)
      ])
      chosen

pub set_added :
    (p : ParameterPath) (t : ℕ) (g : Attributes) (tc : List Clear) (dev : DeviceData)
    (paths : PathSet)
    → PathSet.add p dev.paths ≡ some (p, paths)
    → set p t (some g) tc dev
      ≡ set_stored
          (λ q t a s. set_level (length p.segments) q t (some a) s)
          p
          t
          (some g)
          (record dev { paths = paths }, tc)
unfolding set set_level
set_added p t g tc dev paths returns = rw (set, set_level, returns)

current_attributes-paths :
    (p : ParameterPath) (dev : DeviceData) (paths : PathSet)
    → current_attributes p (record dev { paths = paths }) ≡ current_attributes p dev
unfolding current_attributes
current_attributes-paths p dev paths = refl

-- set with attributes, for a path without alias and wildcard on data whose indexes are in step
-- and whose maps are at their newest revision, succeeds; the path then has the merge of the
-- attributes read before and the given ones, with what a value says of an object and an object
-- of a value, and a timestamp no earlier than the given one; nothing is changed at a path that
-- is longer, no timestamp is lost or set back, and indexes and maps stay in order.
pub set-IsStored :
    (p : ParameterPath) (t : ℕ) (g : Attributes) (tc : List Clear) (dev : DeviceData)
    → IsMade p
    → p.wildcard ≡ 0
    → IsData dev
    → IsStored p t
        (merge (or_no_attributes (current_attributes p dev)) (normalize g))
        dev
        (set p t (some g) tc dev)
set-IsStored p t g tc dev m w d =
    let added = add-IsAdded p dev.paths m d.in_step in
    let e =
      Effects-same (length p.segments) dev (set_after dev.paths (PathSet.add p dev.paths))
        dev.changes d added.in_step in
    let s =
      set_given-IsStored (λ q t a s. set_level (length p.segments) q t (some a) s) p t
        (current_attributes p dev) (normalize g) _ tc m
        (λ q t a s k j x.
          set_level-IsStep (length p.segments) q t (some a) s.0 s.1 k (omega arith) x)
        e.sound in
    rw
      (
        set_added p t g tc dev _ added.returns,
        set_stored_plain _ p t g
            (record dev { paths = set_after dev.paths (PathSet.add p dev.paths) }) tc w,
        current_attributes-paths p dev (set_after dev.paths (PathSet.add p dev.paths)),
      )
      (record {
        step = record {
          after = s.step.after;
          succeeds = s.step.succeeds;
          effects =
              Effects-trans (length p.segments) (length p.segments) dev _ s.step.after.0
                (omega arith) e s.step.effects;
        };
        attributes = s.attributes;
        timestamp = s.timestamp;
      })
