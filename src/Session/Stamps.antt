-- ===== src/Session/Stamps.antt =====
-- lib/session.ts: all that `inform` sets is stamped with the time of the update.
use genieacs.Common.Eq.{JsString}
use genieacs.Common.{
  ℕ, ◌≡◌, false, Option, none, some, List, [], ◌∷◌, ◌++◌, arith, All, All-append, Bool-cases, inl,
  inr, subst,
}
use genieacs.Device.{object, writable, value, flag, typed, Scalar, Attributes}
use genieacs.Device.Attributes.{no_attributes}
use genieacs.Device.Setting.{◌>>=◌}
use genieacs.Device.Due.{AreStamped, with_attr-AreStamped}
use genieacs.Requests.{DeviceId, Reported, InformRequest}
use genieacs.Session.{Session}
use genieacs.Session.Tags.{encode_tag, replace_spaces}
use genieacs.Session.Updates.{to_path, update_time, with_value, with_no_object, with_read_only}
use genieacs.Session.Inform.{
  Param, constant_param, event_param, event_params, reported_params, identity_params, new_params,
  inform_params,
}

-- what holds of the value, if there is one
abbrev OnSome : {A : Type 0} → (A → Type 0) → Option A → Type 0
OnSome P none = Unit
OnSome P (some a) = P a

OnSome-bind :
    {A B : Type 0} (P : A → Type 0) (Q : B → Type 0) (o : Option A) (f : A → Option B)
    → OnSome P o
    → ((a : A) → P a → OnSome Q (f a))
    → OnSome Q (o >>= f)
OnSome-bind P Q none f h k = tt
OnSome-bind P Q (some a) f h k = k a h

any : {A : Type 0} (o : Option A) → OnSome (λ _. Unit) o
any none = tt
any (some a) = tt

abbrev IsStamped : ℕ → Param → Type 0
IsStamped t param = AreStamped t param.1

no_attributes-AreStamped : (t : ℕ) → AreStamped t no_attributes
no_attributes-AreStamped t n = omega arith

with_value-AreStamped :
    (t : ℕ) (v : Scalar) (type_ : JsString) → AreStamped t (with_value t v type_ no_attributes)
with_value-AreStamped t v type_ =
    with_attr-AreStamped t value (record { time = t; datum = typed v type_ }) no_attributes
      (omega arith) (no_attributes-AreStamped t)

with_no_object-AreStamped :
    (t : ℕ) (a : Attributes) → AreStamped t a → AreStamped t (with_no_object t a)
with_no_object-AreStamped t a h =
    with_attr-AreStamped t object (record { time = t; datum = flag 0 }) a (omega arith) h

with_read_only-AreStamped :
    (t : ℕ) (a : Attributes) → AreStamped t a → AreStamped t (with_read_only t a)
with_read_only-AreStamped t a h =
    with_attr-AreStamped t writable (record { time = t; datum = flag 0 }) a (omega arith) h

constant_param-IsStamped :
    (t : ℕ) (path : JsString) (v : Scalar) (type_ : JsString)
    → OnSome (IsStamped t) (constant_param t path v type_)
constant_param-IsStamped t path v type_ =
    OnSome-bind (λ _. Unit) (IsStamped t) (to_path path) _ (any (to_path path))
      (λ p _.
        with_no_object-AreStamped t _
          (with_read_only-AreStamped t _ (with_value-AreStamped t v type_)))

event_params-IsStamped :
    (t now : ℕ) (l : List JsString) → OnSome (All (IsStamped t)) (event_params t now l)
unfolding event_params
event_params-IsStamped t now [] = tt
event_params-IsStamped t now (e ∷ l) =
    OnSome-bind (IsStamped t) (All (IsStamped t)) (event_param t now e) _
      (OnSome-bind (λ _. Unit) (IsStamped t) (encode_tag (replace_spaces false e)) _
        (any (encode_tag (replace_spaces false e))) (λ tag _. constant_param-IsStamped t _ _ _))
      (λ p h.
        OnSome-bind (All (IsStamped t)) (All (IsStamped t)) (event_params t now l) _
          (event_params-IsStamped t now l) (λ more hs. (h, hs)))

reported_params-IsStamped : (t : ℕ) (l : List Reported) → All (IsStamped t) (reported_params t l)
reported_params-IsStamped t [] = tt
reported_params-IsStamped t (r ∷ l) = (
  with_no_object-AreStamped t _ (with_value-AreStamped t r.value r.value_type),
  reported_params-IsStamped t l,
)

-- one more parameter in front of a chain
then_param :
    {B : Type 0} (t : ℕ) (Q : B → Type 0) (path : JsString) (v : Scalar) (type_ : JsString)
    (f : Param → Option B)
    → ((p : Param) → IsStamped t p → OnSome Q (f p))
    → OnSome Q (constant_param t path v type_ >>= f)
then_param t Q path v type_ f k =
    OnSome-bind (IsStamped t) Q _ f (constant_param-IsStamped t path v type_) k

identity_params-IsStamped :
    (t : ℕ) (id : DeviceId) → OnSome (All (IsStamped t)) (identity_params t id)
unfolding identity_params
identity_params-IsStamped t id = then_param t _ _ _ _ _ (λ m hm. then_param t _ _ _ _ _ (λ o ho.
    then_param t _ _ _ _ _ (λ c hc. then_param t _ _ _ _ _ (λ s hs. (hm, (ho, (hc, (hs, tt))))))))

module _ {N X : Type 0} where
  new_params-IsStamped : (s : Session N X) → OnSome (All (IsStamped (update_time s))) (new_params s)
  unfolding new_params
  new_params-IsStamped s = elim (Bool-cases s.is_new) [
    | inr known ↦ rw (new_params, known) tt
    | inl new_ ↦
        rw (new_params, new_)
          (then_param (update_time s) _ _ _ _ _
            (λ i hi. then_param (update_time s) _ _ _ _ _ (λ r hr. (hi, (hr, tt)))))
  ]

  inform_params-IsStamped :
      (s : Session N X) (request : InformRequest)
      → OnSome (All (IsStamped (update_time s))) (inform_params s request)
  unfolding inform_params
  inform_params-IsStamped s request =
      let t = update_time s in
      OnSome-bind (All (IsStamped t)) (All (IsStamped t)) _ _
        (identity_params-IsStamped t request.device_id)
        (λ identity a. then_param t _ _ _ _ _ (λ informed b.
          OnSome-bind (All (IsStamped t)) (All (IsStamped t)) _ _
            (event_params-IsStamped t s.timestamp request.event)
            (λ events c.
              OnSome-bind (All (IsStamped t)) (All (IsStamped t)) _ _ (new_params-IsStamped s)
                (λ others d.
                  let reports = reported_params t request.parameter_list in
                  All-append (IsStamped t) ((identity ++ reports) ++ (informed ∷ events)) others
                    (All-append (IsStamped t) (identity ++ reports) (informed ∷ events)
                      (All-append (IsStamped t) identity reports a
                        (reported_params-IsStamped t request.parameter_list))
                      (b, c))
                    d))))

  pub inform_params-AreStamped :
      (s : Session N X) (request : InformRequest) (l : List Param)
      → inform_params s request ≡ some l
      → All (λ (p : Param). AreStamped (update_time s) p.1) l
  inform_params-AreStamped s request l e =
      subst (OnSome (All (IsStamped (update_time s)))) e (inform_params-IsStamped s request)
