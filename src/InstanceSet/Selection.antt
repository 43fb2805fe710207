-- ===== src/InstanceSet/Selection.antt =====
-- lib/instance-set.ts: which instances `superset` and `subset` give.
use genieacs.Common.JsMap
use genieacs.Common.JsMap.{JsMap}
use genieacs.Common.Eq.{JsString, ◌===◌, js_string_eq, ===_iff, ===_refl, js_string_beq_iff}
use genieacs.Common.{
  ◌≡◌, ◌↔◌, ◌⊎◌, inl, inr, refl, sym, ◌∙◌, Bool, true, Option, none, some, List, [], ◌∷◌, arith,
  Bool-cases,
}
use genieacs.InstanceSet.{
  Instance, InstanceSet, same_field, agree_on, select, Order, is_after, insert_by, sort_by,
  more_fields, fewer_fields, superset, subset,
}

abbrev pub IsIn : Instance → List Instance → Type 0
IsIn i [] = ⊥
IsIn i (x ∷ s) = (i ≡ x) ⊎ IsIn i s

-- Every field of `a` is a field of `b`, with the same value.
abbrev pub Includes : JsMap JsString JsString → JsMap JsString JsString → Type 0
Includes b a = (k v : JsString) → JsMap.get k a ≡ some v → JsMap.get k b ≡ some v

same_field_iff : (v w : Option JsString) → (same_field v w ≡ true) ↔ (v ≡ w)
same_field_iff none none = ground arith
same_field_iff none (some w) = ground arith
same_field_iff (some v) none = ground arith
same_field_iff (some v) (some w) = ground (arith, js_string_beq_iff v w)

-- Two maps agree on the keys of a third.
AgreeOn : JsMap JsString JsString → JsMap JsString JsString → JsMap JsString JsString → Type 0
AgreeOn keys a b = (k v : JsString) → JsMap.get k keys ≡ some v → JsMap.get k a ≡ JsMap.get k b

agree_on_sound : (keys a b : JsMap JsString JsString) → agree_on keys a b ≡ true → AgreeOn keys a b
unfolding agree_on AgreeOn JsMap.get
agree_on_sound [] a b h k v e = cc
agree_on_sound ((j, w) ∷ keys) a b h k v e = elim (Bool-cases (j === k)) [
  | inl hit ↦
      let field : same_field (JsMap.get j a) (JsMap.get j b) ≡ true = ground arith in
      rw (← (===_iff j k).0 hit) ((same_field_iff (JsMap.get j a) (JsMap.get j b)).0 field)
  | inr miss ↦ agree_on_sound keys a b (ground arith) k v (rw miss at e)
]

agree_on_complete :
    (keys a b : JsMap JsString JsString) → AgreeOn keys a b → agree_on keys a b ≡ true
unfolding agree_on AgreeOn JsMap.get
agree_on_complete [] a b h = refl
agree_on_complete ((j, w) ∷ keys) a b h =
    let first = h j w (rw (===_refl j)) in
    let field = (same_field_iff (JsMap.get j a) (JsMap.get j b)).1 first in
    let rest = agree_on_complete keys a b (λ k v e. elim (Bool-cases (j === k)) [
      | inl hit ↦ rw (← (===_iff j k).0 hit) first
      | inr miss ↦ h k v (rw miss e)
    ]) in
    ground arith

agree_on-Includes_all :
    (q inst : JsMap JsString JsString) → (agree_on q inst q ≡ true) ↔ Includes inst q
unfolding AgreeOn
agree_on-Includes_all q inst = (
  (λ h k v e. agree_on_sound q inst q h k v e ∙ e),
  (λ h. agree_on_complete q inst q (λ k v e. h k v e ∙ sym e)),
)

agree_on-Includes_own :
    (q inst : JsMap JsString JsString) → (agree_on inst inst q ≡ true) ↔ Includes q inst
unfolding AgreeOn
agree_on-Includes_own q inst = (
  (λ h k v e. sym (agree_on_sound inst inst q h k v e) ∙ e),
  (λ h. agree_on_complete inst inst q (λ k v e. e ∙ sym (h k v e))),
)

IsIn-select :
    (test : Instance → Bool) (i : Instance) (s : InstanceSet)
    → IsIn i (select test s) ↔ (IsIn i s × (test i ≡ true))
unfolding select
IsIn-select test i [] = ((λ h. absurd h), (λ (h, t). h))
IsIn-select test i (x ∷ s) =
    let (f, g) = IsIn-select test i s in
    elim (Bool-cases (test x)) [
      | inl taken ↦ rw taken (
        (λ h. elim h [ inl e ↦ (inl e, rw e taken) | inr r ↦ let (a, b) = f r in (inr a, b) ]),
        (λ (h, t). elim h [ inl e ↦ inl e | inr r ↦ inr (g (r, t)) ]),
      )
      | inr left ↦ rw left (
        (λ r. let (a, b) = f r in (inr a, b)),
        (λ (h, t). elim h [
          | inl e ↦ let u : test x ≡ true = rw (← e) t in absurd (ground arith)
          | inr r ↦ g (r, t)
        ]),
      )
    ]

IsIn-insert_by :
    (order : Instance → Instance → Order) (i x : Instance) (l : List Instance)
    → IsIn i (insert_by order x l) ↔ ((i ≡ x) ⊎ IsIn i l)
unfolding insert_by
IsIn-insert_by order i x [] = ((λ h. h), (λ h. h))
IsIn-insert_by order i x (y ∷ l) =
    let (f, g) = IsIn-insert_by order i x l in
    elim (Bool-cases (is_after (order x y))) [
      | inl later ↦ rw later (
        (λ h. elim h [
          | inl e ↦ inr (inl e)
          | inr r ↦ elim (f r) [ inl e ↦ inl e | inr t ↦ inr (inr t) ]
        ]),
        (λ h. elim h [
          | inl e ↦ inr (g (inl e))
          | inr r ↦ elim r [ inl e ↦ inl e | inr t ↦ inr (g (inr t)) ]
        ]),
      )
      | inr here ↦ rw here ((λ h. h), (λ h. h))
    ]

IsIn-sort_by :
    (order : Instance → Instance → Order) (i : Instance) (l : List Instance)
    → IsIn i (sort_by order l) ↔ IsIn i l
unfolding sort_by
IsIn-sort_by order i [] = ((λ h. h), (λ h. h))
IsIn-sort_by order i (x ∷ l) =
    let (f, g) = IsIn-sort_by order i l in
    let (a, b) = IsIn-insert_by order i x (sort_by order l) in
    (
      (λ h. elim (a h) [ inl e ↦ inl e | inr r ↦ inr (f r) ]),
      (λ h. b (elim h [ inl e ↦ inl e | inr r ↦ inr (g r) ])),
    )

-- superset gives exactly the instances of the set that have every field of the given one with
-- the same value.
pub superset_lem :
    (q i : Instance) (s : InstanceSet)
    → IsIn i (superset q s) ↔ (IsIn i s × Includes i.fields q.fields)
unfolding superset
superset_lem q i s =
    let test : Instance → Bool = λ inst. agree_on q.fields inst.fields q.fields in
    let (a, b) = IsIn-sort_by more_fields i (select test s) in
    let (c, d) = IsIn-select test i s in
    let (f, g) = agree_on-Includes_all q.fields i.fields in
    ((λ h. let (x, y) = c (a h) in (x, f y)), (λ (x, y). b (d (x, g y))))

-- subset gives exactly the instances of the set all of whose fields the given one has with the
-- same value.
pub subset_lem :
    (q i : Instance) (s : InstanceSet)
    → IsIn i (subset q s) ↔ (IsIn i s × Includes q.fields i.fields)
unfolding subset
subset_lem q i s =
    let test : Instance → Bool = λ inst. agree_on inst.fields inst.fields q.fields in
    let (a, b) = IsIn-sort_by fewer_fields i (select test s) in
    let (c, d) = IsIn-select test i s in
    let (f, g) = agree_on-Includes_own q.fields i.fields in
    ((λ h. let (x, y) = c (a h) in (x, f y)), (λ (x, y). b (d (x, g y))))

-- superset gives exactly the instances of the set that have every field of the given one with
-- the same value, and subset exactly those all of whose fields the given one has with the same
-- value.
pub selected_iff :
    (q i : Instance) (s : InstanceSet)
    → (IsIn i (superset q s) ↔ (IsIn i s × Includes i.fields q.fields))
      × (IsIn i (subset q s) ↔ (IsIn i s × Includes q.fields i.fields))
selected_iff q i s = (superset_lem q i s, subset_lem q i s)
