-- ===== src/Device/Ascent.antt =====
-- lib/device.ts: `set` succeeds, goes up no further than there are parents, and stores the merged
-- attributes.
use genieacs.Common.Eq.{js_string_eq, ===_refl}
use genieacs.Common.Words.{and_bits}
use genieacs.Common.{
  ℕ, zero, suc, ◌-◌, ◌≡◌, ◌≤◌, ◌<◌, refl, ◌∙◌, ap, Bool, true, false, ◌&&◌, ◌||◌, not, Option, none,
  some, List, [], ◌∷◌, length, ltb, ◌==◌, take, arith, Bool-cases, inl, inr, All-take,
}
use genieacs.ParameterPath.{ParameterPath, Segment, make}
use genieacs.ParameterPath.RoundTrip.{IsPlain}
use genieacs.PathSet
use genieacs.PathSet.{PathList, PathSet, to_path_list}
use genieacs.PathSet.Search.{IsMade}
use genieacs.PathSet.Adding.{made_alias}
use genieacs.Device.{object, flag, Attributes, Clear, DeviceData, change_flag}
use genieacs.Device.Attributes.{no_attributes, with_attr}
use genieacs.Device.Setting.{
  current, put, parent, is_later, SetResult, Upward, report, raise_timestamp,
}
use genieacs.Device.Newest.{current-put}
use genieacs.Device.Effects.{
  IsData, IsNotOlder, Effects, Effects-trans, Effects-mono, Effects-same, Effects-put_timestamp,
}

-- What a step gives that succeeds.
pub record IsStep (len : ℕ) (dev : DeviceData) (r : SetResult) : Type 0 where
  pub after : DeviceData × List Clear
  pub succeeds : r ≡ some after
  pub effects : Effects len dev after.0

pub find-some :
    (p : ParameterPath) (superset subset : Bool) (limit : ℕ) (s : PathSet)
    → IsMade p
    → (l : PathList) × (PathSet.find p superset subset limit s ≡ some l)
unfolding PathSet.find
find-some p superset subset limit s m =
    let a : (p.alias == 0) ≡ true = rw (made_alias p m) in
    elim (Bool-cases
      (not superset && limit == length p.segments && (not subset || p.wildcard == 0))) [
        | inl exact ↦ (to_path_list (PathSet.get p s), rw (PathSet.find, a, exact))
        | inr general ↦
            (PathSet.find_indexed p superset subset limit s, rw (PathSet.find, a, general))
      ]

-- what `report` leaves: both maps and the paths
pub record IsReported (dev : DeviceData) (r : SetResult) : Type 0 where
  pub after : DeviceData × List Clear
  pub succeeds : r ≡ some after
  pub same : after.0 ≡ record dev { changes = after.0.changes }

pub report_lem :
    (p : ParameterPath) (t o flags : ℕ) (dev : DeviceData) (tc : List Clear)
    → IsMade p
    → IsReported dev (report p t o flags (dev, tc))
unfolding report
report_lem p t o flags dev tc m = elim (Bool-cases (flags == 0)) [
  | inl none_set ↦
      rw (report, none_set) (record { after = (dev, tc); succeeds = refl; same = refl })
  | inr some_set ↦ elim (Bool-cases (and_bits flags 1 == 0)) [
    | inr existence ↦
        rw (report, some_set, existence) (record { after = _; succeeds = refl; same = refl })
    | inl kept ↦ elim (Bool-cases (and_bits flags (change_flag object) == 0)) [
      | inr of_object ↦
          rw (report, some_set, kept, of_object)
            (record { after = _; succeeds = refl; same = refl })
      | inl others ↦
          let (l, f) = find-some p true false (length p.segments) dev.paths m in
          rw (report, some_set, kept, others, f)
            (record { after = _; succeeds = refl; same = refl })
    ]
  ]
]

pub IsReported-Effects :
    (before dev : DeviceData) (r : SetResult) (len : ℕ) (x : IsReported dev r)
    → Effects len before dev
    → Effects len before x.after.0
IsReported-Effects before dev r len x e = rw (x.same) (
    Effects-trans len len before dev _ (omega arith) e
      (Effects-same len dev dev.paths x.after.0.changes e.sound e.sound.in_step))

length-take_pred :
    (n : ℕ) (segments : List Segment) → n ≤ length segments → length (take n segments) ≡ n
length-take_pred zero segments h = refl
length-take_pred (suc n) [] h = absurd (omega arith)
length-take_pred (suc n) (s ∷ r) h = ap suc (length-take_pred n r (omega arith))

pub parent_lem :
    (p : ParameterPath)
    → IsMade p
    → IsMade (parent p) × (length (parent p).segments ≡ length p.segments - 1)
unfolding make
parent_lem p (m, a) =
    let z : length p.segments - 1 - 0 ≡ length p.segments - 1 = omega arith in
    (
      (refl, All-take IsPlain (length p.segments - 1 - 0) p.segments a),
      length-take_pred (length p.segments - 1 - 0) p.segments (omega arith) ∙ z,
    )

-- The recursive call works for the paths one segment shorter than `len`.
abbrev pub IsUpward : ℕ → Upward → Type 0
IsUpward len up =
    (q : ParameterPath) (t : ℕ) (a : Attributes) (s : DeviceData × List Clear)
    → IsMade q
    → suc (length q.segments) ≡ len
    → IsData s.0
    → IsStep (length q.segments) s.0 (up q t a s)

-- the timestamp at a path is at least `t`
abbrev pub IsAtLeast : ℕ → Option ℕ → Type 0
IsAtLeast t c = IsNotOlder (some t) c

not_later : (t : ℕ) (c : Option ℕ) → is_later t c ≡ false → IsAtLeast t c
not_later t none h = cc
not_later t (some c) h = ground arith

pub record IsRaised (p : ParameterPath) (t : ℕ) (dev : DeviceData) (r : SetResult) : Type 0 where
  pub step : IsStep (length p.segments) dev r
  pub attributes_kept : current p.string step.after.0.attributes ≡ current p.string dev.attributes
  pub raised : IsAtLeast t (current p.string step.after.0.timestamps)

pub raise_lem :
    (up : Upward) (p : ParameterPath) (t : ℕ) (dev : DeviceData) (tc : List Clear)
    → IsMade p
    → IsUpward (length p.segments) up
    → IsData dev
    → IsRaised p t dev (raise_timestamp up p t (dev, tc))
unfolding raise_timestamp
raise_lem up p t dev tc m u d = elim (Bool-cases (is_later t (current p.string dev.timestamps))) [
  | inr old ↦
      rw (raise_timestamp, old)
        (record {
          step = record {
            after = (dev, tc);
            succeeds = refl;
            effects = Effects-same (length p.segments) dev dev.paths dev.changes d d.in_step;
          };
          attributes_kept = refl;
          raised = not_later t (current p.string dev.timestamps) old;
        })
  | inl later ↦
      let dev' : DeviceData = record dev { timestamps = put p.string t dev.timestamps } in
      let e = Effects-put_timestamp p t dev m d later in
      let read : current p.string dev'.timestamps ≡ some t =
        current-put p.string p.string t dev.timestamps d.times ∙ rw (===_refl p.string) in
      elim (Bool-cases (ltb 1 (length p.segments))) [
        | inr top ↦
            rw (raise_timestamp, later, top)
              (record {
                step = record { after = (dev', tc); succeeds = refl; effects = e };
                attributes_kept = refl;
                raised = rw read (omega arith);
              })
        | inl deeper ↦
            let (pm, pl) = parent_lem p m in
            let above =
              u (parent p) t (with_attr object (record { time = t; datum = flag 1 }) no_attributes)
                (dev', tc) pm (ground (arith, pl)) e.sound in
            let shorter : length (parent p).segments < length p.segments = ground (arith, pl) in
            rw (raise_timestamp, later, deeper)
              (record {
                step = record {
                  after = above.after;
                  succeeds = above.succeeds;
                  effects =
                      Effects-trans (length p.segments) (length p.segments) dev dev' above.after.0
                        (omega arith) e
                        (Effects-mono (length (parent p).segments) (length p.segments) dev'
                          above.after.0 (omega arith) above.effects);
                };
                attributes_kept = above.effects.attrs_below p m shorter;
                raised = rw (above.effects.times_below p m shorter, read) (omega arith);
              })
      ]
]
