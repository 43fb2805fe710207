-- ===== src/Device/Due.antt =====
-- lib/device.ts: what `set` leaves to be cleared is no later than what it sets.
use genieacs.Common.Words.{and_bits}
use genieacs.Common.{
  ℕ, zero, suc, ◌+◌, ◌-◌, ◌≡◌, ◌≤◌, refl, ◌∙◌, ap, true, false, Option, none, some, List, [], ◌∷◌,
  length, ltb, ◌==◌, arith, Bool-cases, inl, inr, All, All-append, All-take,
}
use genieacs.ParameterPath.{ParameterPath, Segment, is_wildcard, mark_bits, make}
use genieacs.PathSet.Search.{IsMade, IsIndexed}
use genieacs.PathSet.Adding.{add-IsAdded}
use genieacs.Device.{
  object, flag, null, AttrName, Attributes, Stamped, Clear, DeviceData, attr_names, change_flag,
}
use genieacs.Device.Attributes.{
  same_name, overrides, no_attributes, with_attr, normalize, value_over_object, object_over_value,
  flags_of_changes, latest, time_of,
}
use genieacs.Device.Setting.{
  current, parent, is_later, SetResult, Upward, report, raise_timestamp, ◌>>=◌, set_given,
  set_stored, set_level, set, current_attributes,
}
use genieacs.Device.Clearing.{descendants_time}
use genieacs.Device.Ascent.{find-some, parent_lem}
use genieacs.Device.Storing.{set_stored_plain}

-- A path made of its segments, without alias and wildcard.
pub record IsConcrete (p : ParameterPath) : Type 0 where
  pub made : IsMade p
  pub no_star : All (λ s. is_wildcard s ≡ false) p.segments

-- What clears nothing that is later than `t`.
pub record IsDue (t : ℕ) (c : Clear) : Type 0 where
  pub made : IsMade c.path
  pub time : c.timestamp ≤ t
  pub descendants : descendants_time c.timestamp c.times ≤ t

abbrev pub AreDue : ℕ → SetResult → Type 0
AreDue t none = Unit
AreDue t (some (dev, to_clear)) = All (IsDue t) to_clear

-- attributes whose times are all at most `t`
abbrev pub AreStamped : ℕ → Attributes → Type 0
AreStamped t a = (n : AttrName) → time_of (a n) ≤ t

no_star-mark_bits :
    (i : ℕ) (l : List Segment)
    → All (λ s. is_wildcard s ≡ false) l
    → mark_bits is_wildcard i 0 l ≡ 0
unfolding mark_bits
no_star-mark_bits i [] h = refl
no_star-mark_bits i (s ∷ l) (e, h) = rw (mark_bits, e) (no_star-mark_bits (i + 1) l h)

pub concrete_wildcard : (p : ParameterPath) → IsConcrete p → p.wildcard ≡ 0
unfolding make
concrete_wildcard p c =
    ap (λ (r : ParameterPath). r.wildcard) c.made.0 ∙ no_star-mark_bits 0 p.segments c.no_star

parent-IsConcrete : (p : ParameterPath) → IsConcrete p → IsConcrete (parent p)
unfolding make
parent-IsConcrete p c = record {
  made = (parent_lem p c.made).0;
  no_star = All-take (λ s. is_wildcard s ≡ false) (length p.segments - 1 - 0) p.segments c.no_star;
}

AreDue-bind :
    (t : ℕ) (r : SetResult) (f : DeviceData × List Clear → SetResult)
    → AreDue t r
    → ((s : DeviceData × List Clear) → All (IsDue t) s.1 → AreDue t (f s))
    → AreDue t (r >>= f)
AreDue-bind t none f h k = tt
AreDue-bind t (some s) f h k = k s h

report-AreDue :
    (p : ParameterPath) (t u o flags : ℕ) (dev : DeviceData) (tc : List Clear)
    → IsMade p
    → u ≤ t
    → o ≤ t
    → All (IsDue t) tc
    → AreDue t (report p u o flags (dev, tc))
unfolding report
report-AreDue p t u o flags dev tc m x y h = elim (Bool-cases (flags == 0)) [
  | inl none_set ↦ rw (report, none_set) h
  | inr some_set ↦ elim (Bool-cases (and_bits flags 1 == 0)) [
    | inr existence ↦
        rw (report, some_set, existence)
          (All-append (IsDue t) tc _ h
            (record { made = m; time = x; descendants = omega arith }, tt))
    | inl kept ↦ elim (Bool-cases (and_bits flags (change_flag object) == 0)) [
      | inr of_object ↦
          rw (report, some_set, kept, of_object)
            (All-append (IsDue t) tc _ h
              (record { made = m; time = omega arith; descendants = omega arith }, tt))
      | inl others ↦
          let (l, f) = find-some p true false (length p.segments) dev.paths m in
          rw (report, some_set, kept, others, f) h
    ]
  ]
]

-- the recursive call keeps what is due
abbrev IsDueUpward : ℕ → Upward → Type 0
IsDueUpward t up =
    (q : ParameterPath) (u : ℕ) (a : Attributes) (s : DeviceData × List Clear)
    → IsConcrete q
    → u ≤ t
    → AreStamped t a
    → IsIndexed s.0.paths
    → All (IsDue t) s.1
    → AreDue t (up q u a s)

object-AreStamped :
    (t u : ℕ)
    → u ≤ t
    → AreStamped t (with_attr object (record { time = u; datum = flag 1 }) no_attributes)
object-AreStamped t u h AttrName.object = h
object-AreStamped t u h AttrName.writable = omega arith
object-AreStamped t u h AttrName.value = omega arith
object-AreStamped t u h AttrName.notification = omega arith
object-AreStamped t u h AttrName.access_list = omega arith

raise-AreDue :
    (t : ℕ) (up : Upward) (p : ParameterPath) (u : ℕ) (dev : DeviceData) (tc : List Clear)
    → IsConcrete p
    → u ≤ t
    → IsDueUpward t up
    → IsIndexed dev.paths
    → All (IsDue t) tc
    → AreDue t (raise_timestamp up p u (dev, tc))
unfolding raise_timestamp
raise-AreDue t up p u dev tc c x k i h =
    elim (Bool-cases (is_later u (current p.string dev.timestamps))) [
      | inr old ↦ rw (raise_timestamp, old) h
      | inl later ↦ elim (Bool-cases (ltb 1 (length p.segments))) [
        | inr top ↦ rw (raise_timestamp, later, top) h
        | inl below ↦
            rw (raise_timestamp, later, below)
              (k (parent p) u _ _ (parent-IsConcrete p c) x (object-AreStamped t u x) i h)
      ]
    ]

latest_due :
    (l : List AttrName) (t u : ℕ) (a : Attributes) → u ≤ t → AreStamped t a → latest l u a ≤ t
unfolding latest
latest_due [] t u a x h = x
latest_due (n ∷ l) t u a x h = omega (arith, h n, latest_due l t u a x h)

pub with_attr-AreStamped :
    (t : ℕ) (m : AttrName) (v : Stamped) (a : Attributes)
    → v.time ≤ t
    → AreStamped t a
    → AreStamped t (with_attr m v a)
with_attr-AreStamped t m v a x h n = elim (Bool-cases (same_name m n)) [
  | inl e ↦ rw e x
  | inr e ↦ rw e (h n)
]

value_over_object-AreStamped :
    (t : ℕ) (a : Attributes) → AreStamped t a → AreStamped t (value_over_object a)
unfolding value_over_object
value_over_object-AreStamped t a h n = elim (Bool-cases (overrides (a AttrName.value) (a object))) [
  | inl e ↦
      rw (value_over_object, e)
        (with_attr-AreStamped t object
          (record { time = time_of (a AttrName.value); datum = flag 0 }) a (h AttrName.value) h n)
  | inr e ↦ rw (value_over_object, e) (h n)
]

object_over_value-AreStamped :
    (t : ℕ) (a : Attributes) → AreStamped t a → AreStamped t (object_over_value a)
unfolding object_over_value
object_over_value-AreStamped t a h n = elim (Bool-cases (overrides (a object) (a AttrName.value))) [
  | inl e ↦
      rw (object_over_value, e)
        (with_attr-AreStamped t AttrName.value (record { time = time_of (a object); datum = null })
          a (h object) h n)
  | inr e ↦ rw (object_over_value, e) (h n)
]

normalize-AreStamped : (t : ℕ) (a : Attributes) → AreStamped t a → AreStamped t (normalize a)
normalize-AreStamped t a h =
    object_over_value-AreStamped t (value_over_object a) (value_over_object-AreStamped t a h)

set_given-AreDue :
    (t : ℕ) (up : Upward) (p : ParameterPath) (u : ℕ) (cur : Option Attributes) (g : Attributes)
    (dev : DeviceData) (tc : List Clear)
    → IsConcrete p
    → u ≤ t
    → AreStamped t g
    → IsDueUpward t up
    → IsIndexed dev.paths
    → All (IsDue t) tc
    → AreDue t (set_given up p u cur g (dev, tc))
unfolding set_given
set_given-AreDue t up p u none g dev tc c x a k i h =
    AreDue-bind t _ _ (raise-AreDue t up p u _ tc c x k i h)
      (λ s d. report-AreDue p t u (time_of (g object)) 1 s.0 s.1 c.made x (a object) d)
set_given-AreDue t up p u (some b) g dev tc c x a k i h =
    let y = latest_due attr_names t u g x a in
    AreDue-bind t _ _ (raise-AreDue t up p (latest attr_names u g) _ tc c y k i h) (λ s d.
      report-AreDue p t (latest attr_names u g) (time_of (g object))
        (flags_of_changes attr_names b g) s.0 s.1 c.made y (a object) d)

set_stored-AreDue :
    (t : ℕ) (up : Upward) (p : ParameterPath) (u : ℕ) (g : Attributes) (dev : DeviceData)
    (tc : List Clear)
    → IsConcrete p
    → u ≤ t
    → AreStamped t g
    → IsDueUpward t up
    → IsIndexed dev.paths
    → All (IsDue t) tc
    → AreDue t (set_stored up p u (some g) (dev, tc))
set_stored-AreDue t up p u g dev tc c x a k i h =
    rw (set_stored_plain up p u g dev tc (concrete_wildcard p c)) (
      set_given-AreDue t up p u (current_attributes p dev) (normalize g) dev tc c x
        (normalize-AreStamped t g a) k i h)

set_level-AreDue :
    (n t : ℕ) (p : ParameterPath) (u : ℕ) (g : Attributes) (dev : DeviceData) (tc : List Clear)
    → IsConcrete p
    → u ≤ t
    → AreStamped t g
    → IsIndexed dev.paths
    → All (IsDue t) tc
    → AreDue t (set_level n p u (some g) (dev, tc))
unfolding set_level
set_level-AreDue zero t p u g dev tc c x a i h = tt
set_level-AreDue (suc n) t p u g dev tc c x a i h =
    let added = add-IsAdded p dev.paths c.made i in
    rw (set_level, added.returns)
      (set_stored-AreDue t _ p u g _ tc c x a
        (λ q v b s d y z j e. set_level-AreDue n t q v b s.0 s.1 d y z j e) added.in_step h)

-- What `set` leaves to be cleared clears nothing later than `t`, if that is so for the list it is
-- given and no time that it is given is later.
pub set-AreDue :
    (t : ℕ) (p : ParameterPath) (g : Attributes) (tc : List Clear) (dev : DeviceData)
    → IsConcrete p
    → AreStamped t g
    → IsIndexed dev.paths
    → All (IsDue t) tc
    → AreDue t (set p t (some g) tc dev)
unfolding set
set-AreDue t p g tc dev c a i h =
    set_level-AreDue (suc (length p.segments)) t p t g dev tc c (omega arith) a i h
