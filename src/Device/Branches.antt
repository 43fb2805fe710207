-- ===== src/Device/Branches.antt =====
-- lib/device.ts: the two branches of `set`, with attributes and without.
use genieacs.Common.Eq.{js_string_eq, ===_refl}
use genieacs.Common.{
  ℕ, ◌≡◌, ◌≤◌, refl, ◌∙◌, ap, true, false, Option, none, some, List, [], ◌∷◌, ◌++◌, length, ◌==◌,
  if◌then◌else◌, arith, Bool-cases, inl, inr,
}
use genieacs.ParameterPath.{ParameterPath}
use genieacs.PathSet
use genieacs.PathSet.{PathList, PathSet, to_path_list}
use genieacs.PathSet.Search.{IsMade}
use genieacs.Device.{AttrName, object, Attributes, Clear, DeviceData, attr_names}
use genieacs.Device.Attributes.{merge, latest, flags_of_changes, time_of}
use genieacs.Device.Setting.{
  current, put, remove, is_later, SetResult, Upward, report, raise_timestamp, or_no_attributes,
  set_given, ◌>>=◌,
}
use genieacs.Device.Newest.{current-put}
use genieacs.Device.Effects.{
  IsData, Effects-trans, Effects-same, Effects-put_attributes, Effects-put_timestamp,
  Effects-remove_attributes,
}
use genieacs.Device.Setting.{set_nothing, outdated}
use genieacs.Device.Ascent.{
  IsStep, find-some, report_lem, IsReported-Effects, IsUpward, IsAtLeast, raise_lem,
}

-- What `set` leaves at a path that is given attributes.
pub record IsStored (p : ParameterPath) (t : ℕ) (stored : Attributes) (dev : DeviceData)
    (r : SetResult) : Type 0 where
  pub step : IsStep (length p.segments) dev r
  pub attributes : current p.string step.after.0.attributes ≡ some stored
  pub timestamp : IsAtLeast t (current p.string step.after.0.timestamps)

IsAtLeast-mono : (s t : ℕ) (c : Option ℕ) → s ≤ t → IsAtLeast t c → IsAtLeast s c
IsAtLeast-mono s t none h a = a
IsAtLeast-mono s t (some c) h a = omega arith

latest_le : (names : List AttrName) (t : ℕ) (g : Attributes) → t ≤ latest names t g
unfolding latest
latest_le [] t g = omega arith
latest_le (n ∷ r) t g = omega (arith, latest_le r t g)

-- the timestamp and the flags, for what `set_given` takes them to be
given_lem :
    (up : Upward) (p : ParameterPath) (t stamp o flags : ℕ) (stored : Attributes) (dev : DeviceData)
    (tc : List Clear)
    → IsMade p
    → IsUpward (length p.segments) up
    → IsData dev
    → t ≤ stamp
    → IsStored p t stored dev (
        raise_timestamp up p stamp
          (record dev { attributes = put p.string stored dev.attributes }, tc)
        >>= report p stamp o flags)
given_lem up p t stamp o flags stored dev tc m u d l =
    let dev' : DeviceData = record dev { attributes = put p.string stored dev.attributes } in
    let e = Effects-put_attributes p stored dev m d in
    let read : current p.string dev'.attributes ≡ some stored =
      current-put p.string p.string stored dev.attributes d.attrs ∙ rw (===_refl p.string) in
    let r = raise_lem up p stamp dev' tc m u e.sound in
    let f =
      Effects-trans (length p.segments) (length p.segments) dev dev' r.step.after.0 (omega arith) e
        r.step.effects in
    let reported = report_lem p stamp o flags r.step.after.0 r.step.after.1 m in
    rw (r.step.succeeds) (record {
      step = record {
        after = reported.after;
        succeeds = reported.succeeds;
        effects = IsReported-Effects dev r.step.after.0 _ (length p.segments) reported f;
      };
      attributes =
          ap (λ (x : DeviceData). current p.string x.attributes) reported.same
          ∙ r.attributes_kept
          ∙ read;
      timestamp =
          rw (ap (λ (x : DeviceData). current p.string x.timestamps) reported.same)
            (IsAtLeast-mono t stamp _ l r.raised);
    })

pub set_given-IsStored :
    (up : Upward) (p : ParameterPath) (t : ℕ) (cur : Option Attributes) (g : Attributes)
    (dev : DeviceData) (tc : List Clear)
    → IsMade p
    → IsUpward (length p.segments) up
    → IsData dev
    → IsStored p t (merge (or_no_attributes cur) g) dev (set_given up p t cur g (dev, tc))
unfolding set_given
set_given-IsStored up p t none g dev tc m u d =
    given_lem up p t t (time_of (g object)) 1 _ dev tc m u d (omega arith)
set_given-IsStored up p t (some c) g dev tc m u d =
    given_lem up p t (latest attr_names t g) (time_of (g object)) (flags_of_changes attr_names c g)
      _ dev tc m u d (latest_le attr_names t g)

raised_nothing :
    (p : ParameterPath) (t : ℕ) (cur : Option Attributes) (dev : DeviceData) (tc : List Clear)
    → IsMade p
    → IsData dev
    → is_later t (current p.string dev.timestamps) ≡ true
    → IsStep (length p.segments) dev (elim cur [
      | some c ↦ report p t 0 1 (
        record dev {
          timestamps = put p.string t dev.timestamps;
          attributes = remove p.string dev.attributes;
        },
        tc,
      )
      | none ↦
          if p.wildcard == 0
          then some (record dev { timestamps = put p.string t dev.timestamps }, tc)
          else do
            found ← PathSet.find p false true (length p.segments) dev.paths
            some (
              record dev { timestamps = put p.string t dev.timestamps },
              tc ++ outdated t (put p.string t dev.timestamps) found,
            )
    ])
raised_nothing p t (some c) dev tc m d h =
    let e = Effects-put_timestamp p t dev m d h in
    let dev' : DeviceData = record dev { timestamps = put p.string t dev.timestamps } in
    let f = Effects-remove_attributes p dev' m e.sound in
    let g = Effects-trans (length p.segments) (length p.segments) dev dev' _ (omega arith) e f in
    let reported =
      report_lem p t 0 1 (record dev' { attributes = remove p.string dev.attributes }) tc m in
    record {
      after = reported.after;
      succeeds = reported.succeeds;
      effects = IsReported-Effects dev _ _ (length p.segments) reported g;
    }
raised_nothing p t none dev tc m d h =
    let e = Effects-put_timestamp p t dev m d h in
    let (l, found) = find-some p false true (length p.segments) dev.paths m in
    elim (Bool-cases (p.wildcard == 0)) [
      | inl plain ↦ rw plain (record { after = _; succeeds = refl; effects = e })
      | inr wild ↦ rw (wild, found) (record { after = _; succeeds = refl; effects = e })
    ]

pub set_nothing-IsStep :
    (p : ParameterPath) (t : ℕ) (cur : Option Attributes) (dev : DeviceData) (tc : List Clear)
    → IsMade p
    → IsData dev
    → IsStep (length p.segments) dev (set_nothing p t cur (dev, tc))
unfolding set_nothing
set_nothing-IsStep p t cur dev tc m d =
    elim (Bool-cases (is_later t (current p.string dev.timestamps))) [
      | inr old ↦
          rw (set_nothing, old)
            (record {
              after = (dev, tc);
              succeeds = refl;
              effects = Effects-same (length p.segments) dev dev.paths dev.changes d d.in_step;
            })
      | inl later ↦ rw (set_nothing, later) (raised_nothing p t cur dev tc m d later)
    ]
