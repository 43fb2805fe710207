-- ===== src/InstanceSet/Ranking.antt =====
-- lib/instance-set.ts: the order in which `superset` and `subset` give the instances.
use genieacs.Common.{◌≤◌, ◌≡◌, true, false, List, [], ◌∷◌, length, arith, Bool-cases, inl, inr}
use genieacs.InstanceSet.{
  Instance, InstanceSet, agree_on, select, Order, is_after, insert_by, sort_by, more_fields,
  fewer_fields, superset, subset,
}

-- Every instance is in relation to the next.
abbrev pub IsChain : (Instance → Instance → Type 0) → List Instance → Type 0
IsChain R [] = Unit
IsChain R (x ∷ []) = Unit
IsChain R (x ∷ y ∷ r) = R x y × IsChain R (y ∷ r)

module _ (R : Instance → Instance → Type 0) (order : Instance → Instance → Order)
    (keeps : (a b : Instance) → is_after (order a b) ≡ false → R a b)
    (swaps : (a b : Instance) → is_after (order a b) ≡ true → R b a) where
  -- putting an instance behind one that it is after
  IsChain-insert_by_behind :
      (x y : Instance) (l : List Instance)
      → is_after (order x y) ≡ true
      → IsChain R (y ∷ l)
      → IsChain R (insert_by order x l)
      → IsChain R (y ∷ insert_by order x l)
  unfolding insert_by
  IsChain-insert_by_behind x y [] h c k = (swaps x y h, tt)
  IsChain-insert_by_behind x y (z ∷ l) h (r, c) k = elim (Bool-cases (is_after (order x z))) [
    | inl later ↦ rw later (r, (rw later at k))
    | inr here ↦ rw here (swaps x y h, (rw here at k))
  ]

  IsChain-insert_by :
      (x : Instance) (l : List Instance) → IsChain R l → IsChain R (insert_by order x l)
  unfolding insert_by
  IsChain-insert_by x [] c = tt
  IsChain-insert_by x (y ∷ []) c = elim (Bool-cases (is_after (order x y))) [
    | inl later ↦ rw later (swaps x y later, tt)
    | inr here ↦ rw here (keeps x y here, tt)
  ]
  IsChain-insert_by x (y ∷ z ∷ l) (r, c) = elim (Bool-cases (is_after (order x y))) [
    | inl later ↦
        rw later (IsChain-insert_by_behind x y (z ∷ l) later (r, c) (IsChain-insert_by x (z ∷ l) c))
    | inr here ↦ rw here (keeps x y here, (r, c))
  ]

  pub IsChain-sort_by : (l : List Instance) → IsChain R (sort_by order l)
  unfolding sort_by
  IsChain-sort_by [] = tt
  IsChain-sort_by (x ∷ l) = IsChain-insert_by x (sort_by order l) (IsChain-sort_by l)

abbrev pub HasMore : Instance → Instance → Type 0
HasMore a b = length b.fields ≤ length a.fields

abbrev pub HasFewer : Instance → Instance → Type 0
HasFewer a b = length a.fields ≤ length b.fields

more_fields-keeps : (a b : Instance) → is_after (more_fields a b) ≡ false → HasMore a b
unfolding more_fields
more_fields-keeps a b h = ground arith

more_fields-swaps : (a b : Instance) → is_after (more_fields a b) ≡ true → HasMore b a
unfolding more_fields
more_fields-swaps a b h = ground arith

fewer_fields-keeps : (a b : Instance) → is_after (fewer_fields a b) ≡ false → HasFewer a b
unfolding fewer_fields
fewer_fields-keeps a b h = ground arith

fewer_fields-swaps : (a b : Instance) → is_after (fewer_fields a b) ≡ true → HasFewer b a
unfolding fewer_fields
fewer_fields-swaps a b h = ground arith

-- superset gives no instance before one with more fields, and subset none before one with
-- fewer fields.
pub superset-IsChain :
    (q : Instance) (s : InstanceSet)
    → IsChain HasMore (superset q s) × IsChain HasFewer (subset q s)
unfolding superset subset
superset-IsChain q s = (
  IsChain-sort_by HasMore more_fields more_fields-keeps more_fields-swaps
      (select (λ inst. agree_on q.fields inst.fields q.fields) s),
  IsChain-sort_by HasFewer fewer_fields fewer_fields-keeps fewer_fields-swaps
      (select (λ inst. agree_on inst.fields inst.fields q.fields) s),
)
