-- ===== src/PathSet/Growth.antt =====
-- lib/common/path-set.ts: growing the indexes of a set, and adding a path to one level of them.
use genieacs.Common.JsMap
use genieacs.Common.JsMap.{JsMap}
use genieacs.Common.Eq.{JsString, ◌===◌, js_string_eq, ===_iff}
use genieacs.Common.{
  ℕ, zero, suc, ◌+◌, ◌-◌, ◌≤◌, ◌<◌, ◌≡◌, refl, ◌∙◌, ap, Bool, false, ◌&&◌, ◌||◌, List, [], ◌∷◌,
  ◌++◌, length, length-append, get_or, get_elem?, modify, ltb, ◌==◌, arith, Bool-cases, inl, inr,
}
use genieacs.ParameterPath.{ParameterPath, Segment}
use genieacs.PathSet.Sets.{has-add_path}
use genieacs.PathSet.Search.{segment_is}
use genieacs.PathSet.{
  PathList, PathSet, has, add_path, or_empty, fragment_of, grow, add_fragment, add_fragments,
  grow_once,
}

module _ {ℓ} {A : Type ℓ} where
  pub get_or-append_default :
      (xs : List A) (d : A) (j : ℕ) → get_or (xs ++ d ∷ []) j d ≡ get_or xs j d
  get_or-append_default [] d zero = refl
  get_or-append_default [] d (suc j) = refl
  get_or-append_default (x ∷ xs) d zero = refl
  get_or-append_default (x ∷ xs) d (suc j) = get_or-append_default xs d j

  pub get_or-modify_self :
      (i : ℕ) (f : A → A) (xs : List A) (d : A)
      → i < length xs
      → get_or (modify i f xs) i d ≡ f (get_or xs i d)
  get_or-modify_self i f [] d h = absurd (omega arith)
  get_or-modify_self zero f (x ∷ xs) d h = refl
  get_or-modify_self (suc i) f (x ∷ xs) d h = get_or-modify_self i f xs d (omega arith)

  pub get_or-modify_ne :
      (i j : ℕ) (f : A → A) (xs : List A) (d : A)
      → (j == i) ≡ false
      → get_or (modify i f xs) j d ≡ get_or xs j d
  get_or-modify_ne i j f [] d h = refl
  get_or-modify_ne zero zero f (x ∷ xs) d h = cc
  get_or-modify_ne zero (suc j) f (x ∷ xs) d h = refl
  get_or-modify_ne (suc i) zero f (x ∷ xs) d h = refl
  get_or-modify_ne (suc i) (suc j) f (x ∷ xs) d h = get_or-modify_ne i j f xs d (ground arith)

pub grow_lem :
    (n : ℕ) (s : PathSet)
    → (length (grow n s).length_index ≡ length s.length_index + n)
      × ((grow n s).string_index ≡ s.string_index)
unfolding grow
grow_lem zero s = (omega arith, refl)
grow_lem (suc n) s =
    let (a, b) = grow_lem n (grow_once s) in
    (omega (arith, a, length-append s.length_index ([] ∷ [])), b)

pub grow_length_index :
    (n j : ℕ) (s : PathSet) → get_or (grow n s).length_index j [] ≡ get_or s.length_index j []
unfolding grow
grow_length_index zero j s = refl
grow_length_index (suc n) j s =
    grow_length_index n j (grow_once s) ∙ get_or-append_default s.length_index [] j

pub grow_fragment_index :
    (n j : ℕ) (s : PathSet) → get_or (grow n s).fragment_index j [] ≡ get_or s.fragment_index j []
unfolding grow
grow_fragment_index zero j s = refl
grow_fragment_index (suc n) j s =
    grow_fragment_index n j (grow_once s) ∙ elim (Bool-cases (ltb 0 (length s.length_index))) [
      | inl some_left ↦ rw some_left (get_or-append_default s.fragment_index [] j)
      | inr first ↦ rw first
    ]

pub grow_sized :
    (n : ℕ) (s : PathSet)
    → length s.fragment_index ≡ length s.length_index - 1
    → length (grow n s).fragment_index ≡ length (grow n s).length_index - 1
unfolding grow
grow_sized zero s h = h
grow_sized (suc n) s h = grow_sized n (grow_once s) (
    ground
      (arith, length-append s.length_index ([] ∷ []), length-append s.fragment_index ([] ∷ [])))

-- a set read from a level after a path has been added under a fragment
pub has-add_fragment :
    (p q : ParameterPath) (f k : JsString) (index : JsMap JsString PathList)
    → has (or_empty (JsMap.get k (add_fragment p f index))) q
      ≡ ((f === k && p.string === q.string) || has (or_empty (JsMap.get k index)) q)
unfolding add_fragment
has-add_fragment p q f k index =
    rw (JsMap.get-set f k (add_path p (or_empty (JsMap.get f index))) index)
      (elim (Bool-cases (f === k)) [
        | inl same ↦
            rw (same, (===_iff f k).0 same) (has-add_path p q (or_empty (JsMap.get k index)))
        | inr other ↦ rw other
      ])

pub length-add_fragments :
    (p : ParameterPath) (segs : List Segment) (indexes : List (JsMap JsString PathList))
    → length segs ≤ length indexes
    → length (add_fragments p segs indexes) ≡ length indexes
unfolding add_fragments
length-add_fragments p [] indexes h = refl
length-add_fragments p (s ∷ r) [] h = absurd (omega arith)
length-add_fragments p (s ∷ r) (x ∷ indexes) h =
    ap suc (length-add_fragments p r indexes (omega arith))

abbrev pub segment_is_at : List Segment → ℕ → JsString → Bool
segment_is_at segs i k = segment_is (get_elem? segs i) k

pub has-add_fragments :
    (p q : ParameterPath) (segs : List Segment) (indexes : List (JsMap JsString PathList)) (i : ℕ)
    (k : JsString)
    → length segs ≤ length indexes
    → has (or_empty (JsMap.get k (get_or (add_fragments p segs indexes) i []))) q ≡ (
        (segment_is_at segs i k && p.string === q.string)
        || has (or_empty (JsMap.get k (get_or indexes i []))) q)
unfolding add_fragments
has-add_fragments p q [] indexes i k h = refl
has-add_fragments p q (s ∷ r) [] i k h = absurd (omega arith)
has-add_fragments p q (s ∷ r) (x ∷ indexes) zero k h = has-add_fragment p q (fragment_of s) k x
has-add_fragments p q (s ∷ r) (x ∷ indexes) (suc i) k h =
    has-add_fragments p q r indexes i k (omega arith)
