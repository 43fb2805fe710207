-- ===== src/Device/Effects.antt =====
-- lib/device.ts: what the steps of `set` leave of the data of a device.
use genieacs.Common.Eq.{JsString, js_string_eq, ◌===◌, ===_iff}
use genieacs.Common.{
  ℕ, ◌≡◌, ◌≤◌, ◌<◌, refl, ◌∙◌, ap, Bool, true, false, Option, none, some, List, length,
  if◌then◌else◌, arith, Bool-cases, inl, inr,
}
use genieacs.ParameterPath.{ParameterPath}
use genieacs.PathSet.{PathSet}
use genieacs.PathSet.Search.{IsMade, IsIndexed}
use genieacs.PathSet.Insertion.{make-injective}
use genieacs.Device.{Attributes, DeviceData}
use genieacs.Device.Setting.{current, put, remove, is_later}
use genieacs.Device.Newest.{IsNewest, put-IsNewest, current-put, remove-IsNewest, current-remove}

-- The data of a device whose indexes are in step and whose maps are at their newest revision.
pub record IsData (dev : DeviceData) : Type 0 where
  pub in_step : IsIndexed dev.paths
  pub times : IsNewest dev.timestamps
  pub attrs : IsNewest dev.attributes

-- No timestamp is lost or set back.
abbrev pub IsNotOlder : Option ℕ → Option ℕ → Type 0
IsNotOlder none b = Unit
IsNotOlder (some a) none = ⊥
IsNotOlder (some a) (some b) = a ≤ b

pub IsNotOlder-refl : (a : Option ℕ) → IsNotOlder a a
IsNotOlder-refl none = tt
IsNotOlder-refl (some a) = omega arith

pub IsNotOlder-trans : (a b c : Option ℕ) → IsNotOlder a b → IsNotOlder b c → IsNotOlder a c
IsNotOlder-trans none b c p q = tt
IsNotOlder-trans (some a) none c p q = absurd p
IsNotOlder-trans (some a) (some b) none p q = absurd q
IsNotOlder-trans (some a) (some b) (some c) p q = omega arith

-- What a step leaves that goes through paths of at most `len` segments.
pub record Effects (len : ℕ) (before after : DeviceData) : Type 0 where
  pub sound : IsData after
  pub attrs_below :
      (q : ParameterPath)
      → IsMade q
      → len < length q.segments
      → current q.string after.attributes ≡ current q.string before.attributes
  pub times_below :
      (q : ParameterPath)
      → IsMade q
      → len < length q.segments
      → current q.string after.timestamps ≡ current q.string before.timestamps
  pub never_older :
      (k : JsString) → IsNotOlder (current k before.timestamps) (current k after.timestamps)

pub Effects-trans :
    (l m : ℕ) (a b c : DeviceData) → l ≤ m → Effects l a b → Effects m b c → Effects m a c
Effects-trans l m a b c h e f = record {
  sound = f.sound;
  attrs_below = λ q k p. f.attrs_below q k p ∙ e.attrs_below q k (omega arith);
  times_below = λ q k p. f.times_below q k p ∙ e.times_below q k (omega arith);
  never_older = λ k.
      IsNotOlder-trans (current k a.timestamps) (current k b.timestamps) (current k c.timestamps)
        (e.never_older k) (f.never_older k);
}

pub Effects-mono : (l m : ℕ) (a b : DeviceData) → l ≤ m → Effects l a b → Effects m a b
Effects-mono l m a b h e = record {
  sound = e.sound;
  attrs_below = λ q k p. e.attrs_below q k (omega arith);
  times_below = λ q k p. e.times_below q k (omega arith);
  never_older = e.never_older;
}

-- a step that leaves both maps as they are
pub Effects-same :
    (len : ℕ) (dev : DeviceData) (paths : PathSet) (changes : List JsString)
    → IsData dev
    → IsIndexed paths
    → Effects len dev (record dev { paths = paths; changes = changes })
Effects-same len dev paths changes d x = record {
  sound = record { in_step = x; times = d.times; attrs = d.attrs };
  attrs_below = λ q k p. refl;
  times_below = λ q k p. refl;
  never_older = λ k. IsNotOlder-refl (current k dev.timestamps);
}

-- Paths of different lengths have different texts.
other_text :
    (p q : ParameterPath)
    → IsMade p
    → IsMade q
    → length p.segments < length q.segments
    → (p.string === q.string) ≡ false
other_text p q m k l = elim (Bool-cases (p.string === q.string)) [
  | inl same ↦
      let e =
        ap (λ (r : ParameterPath). length r.segments)
          (make-injective p q m k ((===_iff p.string q.string).0 same)) in
      absurd (omega arith)
  | inr other ↦ other
]

pub Effects-put_attributes :
    (p : ParameterPath) (a : Attributes) (dev : DeviceData)
    → IsMade p
    → IsData dev
    → Effects (length p.segments) dev (record dev { attributes = put p.string a dev.attributes })
Effects-put_attributes p a dev m d = record {
  sound = record {
    in_step = d.in_step;
    times = d.times;
    attrs = put-IsNewest p.string a dev.attributes d.attrs;
  };
  attrs_below =
      λ q k l. current-put p.string q.string a dev.attributes d.attrs ∙ rw (other_text p q m k l);
  times_below = λ q k l. refl;
  never_older = λ k. IsNotOlder-refl (current k dev.timestamps);
}

IsNotOlder-later :
    (b : Bool) (t : ℕ) (c o : Option ℕ)
    → (b ≡ true → o ≡ c)
    → is_later t c ≡ true
    → IsNotOlder o (if b then some t else o)
IsNotOlder-later true t none o e h = rw (e refl) tt
IsNotOlder-later true t (some c) o e h = rw (e refl) (ground arith)
IsNotOlder-later false t c o e h = IsNotOlder-refl o

pub Effects-put_timestamp :
    (p : ParameterPath) (t : ℕ) (dev : DeviceData)
    → IsMade p
    → IsData dev
    → is_later t (current p.string dev.timestamps) ≡ true
    → Effects (length p.segments) dev (record dev { timestamps = put p.string t dev.timestamps })
Effects-put_timestamp p t dev m d h = record {
  sound = record {
    in_step = d.in_step;
    times = put-IsNewest p.string t dev.timestamps d.times;
    attrs = d.attrs;
  };
  attrs_below = λ q k l. refl;
  times_below =
      λ q k l. current-put p.string q.string t dev.timestamps d.times ∙ rw (other_text p q m k l);
  never_older = λ k. rw (current-put p.string k t dev.timestamps d.times) (
      IsNotOlder-later (p.string === k) t (current p.string dev.timestamps)
        (current k dev.timestamps) (λ same. rw ((===_iff p.string k).0 same)) h);
}

pub Effects-remove_attributes :
    (p : ParameterPath) (dev : DeviceData)
    → IsMade p
    → IsData dev
    → Effects (length p.segments) dev (record dev { attributes = remove p.string dev.attributes })
Effects-remove_attributes p dev m d = record {
  sound = record {
    in_step = d.in_step;
    times = d.times;
    attrs = remove-IsNewest p.string dev.attributes d.attrs;
  };
  attrs_below =
      λ q k l. current-remove p.string q.string dev.attributes d.attrs ∙ rw (other_text p q m k l);
  times_below = λ q k l. refl;
  never_older = λ k. IsNotOlder-refl (current k dev.timestamps);
}
