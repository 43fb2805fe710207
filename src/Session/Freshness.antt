-- ===== src/Session/Freshness.antt =====
-- lib/session.ts: `inform` leaves every parameter that the device reports as recent as the Inform.
use genieacs.Common.Eq.{JsString, js_string_eq}
use genieacs.Common.{
  ℕ, ◌≡◌, ◌≤◌, refl, sym, ◌∙◌, ap, subst, true, Option, none, some, List, [], ◌∷◌, ◌==◌, length,
  if◌then◌else◌, arith, Bool-cases, Option-cases, inl, inr, All,
}
use genieacs.ParameterPath.{ParameterPath}
use genieacs.PathSet.{PathSet}
use genieacs.PathSet.Search.{IsMade, IsIndexed}
use genieacs.Device.{Attributes, Timestamps, Clear, DeviceData}
use genieacs.Device.Setting.{current, SetResult}
use genieacs.Device.Clearing.{clear, descendants_time}
use genieacs.Device.Effects.{IsData, IsNotOlder, IsNotOlder-refl, IsNotOlder-trans}
use genieacs.Device.Ascent.{IsAtLeast, find-some}
use genieacs.Device.Storing.{set-IsStored}
use genieacs.Device.Recent.{IsSpared, clear-IsSpared}
use genieacs.Device.Due.{IsConcrete, IsDue, AreDue, AreStamped, concrete_wildcard, set-AreDue}
use genieacs.Requests.{InformRequest}
use genieacs.Session.{Session}
use genieacs.Session.Updates.{update_time, at_revision, clear_all}
use genieacs.Session.Stamps.{inform_params-AreStamped}
use genieacs.Session.Inform.{Param, inform_params, is_event, set_params, inform}

-- The path of a parameter has no alias and no wildcard, and its attributes are no later than `t`.
pub record IsReported (t : ℕ) (param : Param) : Type 0 where
  pub concrete : IsConcrete param.0
  pub stamped : AreStamped t param.1

-- the parameter is there, and not older than `t`
abbrev pub IsFresh : ℕ → DeviceData → Param → Type 0
IsFresh t dev param = IsAtLeast t (current param.0.string dev.timestamps)

-- What the loop over the parameters leaves.
record IsPut (t : ℕ) (l : List Param) (dev : DeviceData) (r : SetResult) : Type 0 where
  after : DeviceData × List Clear
  succeeds : r ≡ some after
  sound : IsData after.0
  due : All (IsDue t) after.1
  fresh : All (IsFresh t after.0) l
  never_older :
      (k : JsString) → IsNotOlder (current k dev.timestamps) (current k after.0.timestamps)

AreDue-some :
    (t : ℕ) (r : SetResult) (s : DeviceData × List Clear)
    → r ≡ some s
    → AreDue t r
    → All (IsDue t) s.1
AreDue-some t r s e h = subst (AreDue t) e h

-- one parameter before the others
set_then :
    (t : ℕ) (p : ParameterPath) (a : Attributes) (l : List Param) (dev between : DeviceData)
    (r : SetResult)
    → IsAtLeast t (current p.string between.timestamps)
    → ((k : JsString) → IsNotOlder (current k dev.timestamps) (current k between.timestamps))
    → IsPut t l between r
    → IsPut t ((p, a) ∷ l) dev r
set_then t p a l dev between r x n y = record {
  after = y.after;
  succeeds = y.succeeds;
  sound = y.sound;
  due = y.due;
  fresh = (
    IsNotOlder-trans (some t) (current p.string between.timestamps)
        (current p.string y.after.0.timestamps) x (y.never_older p.string),
    y.fresh,
  );
  never_older = λ k.
      IsNotOlder-trans (current k dev.timestamps) (current k between.timestamps)
        (current k y.after.0.timestamps) (n k) (y.never_older k);
}

set_params-IsPut :
    (t : ℕ) (l : List Param) (tc : List Clear) (dev : DeviceData)
    → All (IsReported t) l
    → All (IsDue t) tc
    → IsData dev
    → IsPut t l dev (set_params t l tc dev)
unfolding set_params
set_params-IsPut t [] tc dev h d i = record {
  after = (dev, tc);
  succeeds = refl;
  sound = i;
  due = d;
  fresh = tt;
  never_older = λ k. IsNotOlder-refl (current k dev.timestamps);
}
set_params-IsPut t ((p, a) ∷ l) tc dev (g, h) d i = elim (Bool-cases (is_event p.segments)) [
  | inl event ↦
      let x = set-IsStored p t a [] dev g.concrete.made (concrete_wildcard p g.concrete) i in
      let y = set_params-IsPut t l tc x.step.after.0 h d x.step.effects.sound in
      rw (set_params, event, x.step.succeeds)
        (set_then t p a l dev x.step.after.0 _ x.timestamp x.step.effects.never_older y)
  | inr other ↦
      let x = set-IsStored p t a tc dev g.concrete.made (concrete_wildcard p g.concrete) i in
      let due =
        AreDue-some t _ x.step.after x.step.succeeds
          (set-AreDue t p a tc dev g.concrete g.stamped i.in_step d) in
      let y = set_params-IsPut t l x.step.after.1 x.step.after.0 h due x.step.effects.sound in
      rw (set_params, other, x.step.succeeds)
        (set_then t p a l dev x.step.after.0 _ x.timestamp x.step.effects.never_older y)
]

abbrev paths_after : DeviceData → Option DeviceData → PathSet
paths_after dev none = dev.paths
paths_after dev (some after) = after.paths

clear-paths :
    (path : ParameterPath) (t : ℕ) (times : Option Timestamps) (flags : ℕ) (dev : DeviceData)
    → IsMade path
    → paths_after dev (clear path t times flags dev) ≡ dev.paths
unfolding clear
clear-paths path t times flags dev m =
    let (l, e) =
      find-some path true true (if descendants_time t times == 0 then length path.segments else 99)
        dev.paths m in
    rw (clear, e) refl

clear_all-IsSpared :
    (k : JsString) (c t : ℕ) (tc : List Clear) (dev : DeviceData)
    → t ≤ c
    → All (IsDue t) tc
    → IsData dev
    → current k dev.timestamps ≡ some c
    → IsSpared k c (clear_all tc dev)
unfolding clear_all
clear_all-IsSpared k c t [] dev h d i e = record {
  after = dev;
  succeeds = refl;
  timestamp = e;
  times = i.times;
  attrs = i.attrs;
}
clear_all-IsSpared k c t (x ∷ tc) dev h (d, ds) i e =
    let one =
      clear-IsSpared x.path k c x.timestamp x.times x.flags dev d.made i e (omega (arith, d.time))
        (omega (arith, d.descendants)) in
    let kept : one.after.paths ≡ dev.paths =
      ap (paths_after dev) (sym one.succeeds)
      ∙ clear-paths x.path x.timestamp x.times x.flags dev d.made in
    let sound : IsData one.after = record {
      in_step = subst IsIndexed (sym kept) i.in_step;
      times = one.times;
      attrs = one.attrs;
    } in
    rw (clear_all, one.succeeds) (clear_all-IsSpared k c t tc one.after h ds sound one.timestamp)

-- the data after an exception have no timestamps
abbrev timestamp_after : JsString → Option DeviceData → Option ℕ
timestamp_after k none = none
timestamp_after k (some dev) = current k dev.timestamps

clear_all-fresh :
    (t : ℕ) (param : Param) (tc : List Clear) (dev : DeviceData)
    → All (IsDue t) tc
    → IsData dev
    → IsFresh t dev param
    → IsAtLeast t (timestamp_after param.0.string (clear_all tc dev))
clear_all-fresh t param tc dev d i f = elim (Option-cases (current param.0.string dev.timestamps)) [
  | inl missing ↦ absurd (subst (IsAtLeast t) missing f)
  | inr (c, e) ↦
      let later : t ≤ c = subst (IsAtLeast t) e f in
      let x = clear_all-IsSpared param.0.string c t tc dev later d i e in
      rw (x.succeeds, x.timestamp) later
]

-- from the timestamps after an option to those of its value
fresh_in :
    (t : ℕ) (l : List Param) (r : Option DeviceData) (after : DeviceData)
    → r ≡ some after
    → All (λ (p : Param). IsAtLeast t (timestamp_after p.0.string r)) l
    → All (IsFresh t after) l
fresh_in t l r after e h =
    subst
      (λ (x : Option DeviceData). All (λ (p : Param). IsAtLeast t (timestamp_after p.0.string x)) l)
      e h

All-clear_all :
    (t : ℕ) (l : List Param) (tc : List Clear) (dev : DeviceData)
    → All (IsDue t) tc
    → IsData dev
    → All (IsFresh t dev) l
    → All (λ (p : Param). IsAtLeast t (timestamp_after p.0.string (clear_all tc dev))) l
All-clear_all t [] tc dev d i h = tt
All-clear_all t (p ∷ l) tc dev d i (f, h) =
    (clear_all-fresh t p tc dev d i f, All-clear_all t l tc dev d i h)

-- What `inform` does to a session.
pub record IsInformed {N X : Type 0} (s : Session N X) (params : List Param)
    (r : Option (Session N X)) : Type 0 where
  pub after : DeviceData
  pub succeeds : r ≡ some (record s { device_data = after })
  pub fresh : All (IsFresh (update_time s) after) params

clear_all-some :
    (t : ℕ) (param : Param) (r : Option DeviceData)
    → IsAtLeast t (timestamp_after param.0.string r)
    → (after : DeviceData) × (r ≡ some after)
clear_all-some t param none h = absurd h
clear_all-some t param (some after) h = (after, refl)

reported :
    (t : ℕ) (l : List Param)
    → All (λ (p : Param). IsConcrete p.0) l
    → All (λ (p : Param). AreStamped t p.1) l
    → All (IsReported t) l
reported t [] c a = tt
reported t (p ∷ l) (c, cs) (a, as_) = (record { concrete = c; stamped = a }, reported t l cs as_)

-- If the paths of the parameters that inform makes of a request have no alias and no wildcard,
-- and the data at revision 1 have their indexes in step and their maps at the newest revision,
-- then inform succeeds, changes nothing but the data of the device, and leaves every one of
-- these parameters with a timestamp no earlier than the update, whatever it clears.
pub inform-IsInformed :
    {N X : Type 0} (request : InformRequest) (s : Session N X) (param : Param) (l : List Param)
    → inform_params s request ≡ some (param ∷ l)
    → All (λ (p : Param). IsConcrete p.0) (param ∷ l)
    → IsData (at_revision 1 s.device_data)
    → IsInformed s (param ∷ l) (inform request s)
unfolding inform
inform-IsInformed request s param l e c i =
    let t = update_time s in
    let g = reported t (param ∷ l) c (inform_params-AreStamped s request (param ∷ l) e) in
    let x = set_params-IsPut t (param ∷ l) [] (at_revision 1 s.device_data) g tt i in
    let all = All-clear_all t (param ∷ l) x.after.1 x.after.0 x.due x.sound x.fresh in
    let (after, done) = clear_all-some t param (clear_all x.after.1 x.after.0) all.0 in
    rw (inform, e, x.succeeds, done)
      (record {
        after = after;
        succeeds = refl;
        fresh = fresh_in t (param ∷ l) (clear_all x.after.1 x.after.0) after done all;
      })
