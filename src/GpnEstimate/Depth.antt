-- ===== src/GpnEstimate/Depth.antt =====
-- lib/gpn-heuristic.ts: the recursion of `estimateGpnCount` ends at the longest pattern.
use genieacs.Common.Eq.{JsString, js_string_eq, ◌===◌, ===_iff}
use genieacs.Common.JsMap.{JsMap, get, set}
use genieacs.Common.Text.{codes}
use genieacs.Common.{
  ℕ, zero, suc, ◌+◌, ◌-◌, ◌*◌, ◌<◌, ◌≤◌, ◌≡◌, refl, true, false, Bool-cases, Option-cases, inl, inr,
  Option, some, ◌⊎◌, List, [], ◌∷◌, ◌++◌, All, All-append, subst, length, get_elem?, ltb,
  if◌then◌else◌, arith,
}
use genieacs.GpnEstimate.{
  Pattern, Level, wildcard_multiplier, undiscovered_depth, is_flagged, segment_at, children_of,
  file_pattern, scan_pattern, scan_patterns, new_scan, count_children, count_wildcards,
  estimate_gpn_count,
}

get_elem?-some : (l : List JsString) (j : ℕ) (k : JsString) → get_elem? l j ≡ some k → j < length l
get_elem?-some [] j k h = absurd (ground arith)
get_elem?-some (x ∷ l) zero k h = omega arith
get_elem?-some (x ∷ l) (suc j) k h = omega (arith, get_elem?-some l j k h)

segment_at_lem :
    (depth : ℕ) (pattern_ : Pattern)
    → (segment_at depth pattern_ === []) ≡ false
    → depth < length pattern_.0
segment_at_lem depth pattern_ h = elim (Option-cases (get_elem? pattern_.0 depth)) [
  | inl missing ↦ absurd (ground (arith, ===_iff (segment_at depth pattern_) [], missing))
  | inr (k, found) ↦ get_elem?-some pattern_.0 depth k found
]

module _ (depth bound : ℕ) where
  -- a pattern that the next level is called with
  abbrev IsFiled : Pattern → Type 0
  IsFiled pattern_ = (length pattern_.0 ≤ bound) × (depth < bound)

  abbrev IsGroup : JsString × List Pattern → Type 0
  IsGroup group = All IsFiled group.1 × (depth < bound)

  record IsScanned (s : Level) : Type 0 where
    groups : All IsGroup s.children
    wild : All IsFiled s.wildcard_children

  set-IsGroup :
      (k : JsString) (v : List Pattern) (m : JsMap JsString (List Pattern))
      → All IsFiled v
      → depth < bound
      → All IsGroup m
      → All IsGroup (set k v m)
  unfolding set
  set-IsGroup k v [] h d i = ((h, d), tt)
  set-IsGroup k v ((j, w) ∷ m) h d (g, i) = elim (Bool-cases (j === k)) [
    | inl e ↦ rw e ((h, d), i)
    | inr e ↦ rw e (g, set-IsGroup k v m h d i)
  ]

  get-IsGroup :
      (k : JsString) (m : JsMap JsString (List Pattern)) (l : List Pattern)
      → All IsGroup m
      → get k m ≡ some l
      → All IsFiled l
  unfolding get
  get-IsGroup k [] l i h = absurd (ground arith)
  get-IsGroup k ((j, w) ∷ m) l (g, i) h = elim (Bool-cases (j === k)) [
    | inl e ↦ subst (All IsFiled) (ground (arith, e, h)) g.0
    | inr e ↦ get-IsGroup k m l i (ground (arith, e, h))
  ]

  children_of-IsFiled :
      (k : JsString) (m : JsMap JsString (List Pattern))
      → All IsGroup m
      → All IsFiled (children_of k m)
  children_of-IsFiled k m i = elim (Option-cases (get k m)) [
    | inl missing ↦ rw (children_of, missing) tt
    | inr (l, found) ↦ rw (children_of, found) (get-IsGroup k m l i found)
  ]

  file_pattern-IsScanned :
      (k : JsString) (pattern_ : Pattern) (s : Level)
      → IsFiled pattern_
      → IsScanned s
      → IsScanned (file_pattern k pattern_ s)
  file_pattern-IsScanned k pattern_ s h i = elim (Bool-cases (k === codes "*")) [
    | inl e ↦ rw e (record {
      groups = i.groups;
      wild = All-append IsFiled s.wildcard_children (pattern_ ∷ []) i.wild (h, tt);
    })
    | inr e ↦ rw e (record {
      groups =
          set-IsGroup k (children_of k s.children ++ pattern_ ∷ []) s.children
            (All-append IsFiled (children_of k s.children) (pattern_ ∷ [])
              (children_of-IsFiled k s.children i.groups) (h, tt))
            h.1 i.groups;
      wild = i.wild;
    })
  ]

  scan_pattern-IsScanned :
      (pattern_ : Pattern) (s : Level)
      → length pattern_.0 ≤ bound
      → IsScanned s
      → IsScanned (scan_pattern depth pattern_ s)
  unfolding scan_pattern
  scan_pattern-IsScanned pattern_ s h i =
      let k = segment_at depth pattern_ in
      elim (Bool-cases (k === [])) [
        | inl ended ↦ elim (Bool-cases (is_flagged depth pattern_)) [
          | inl e ↦ rw (scan_pattern, ended, e) (record { groups = i.groups; wild = i.wild })
          | inr e ↦ rw (scan_pattern, ended, e) i
        ]
        | inr goes_on ↦
            let filed : IsFiled pattern_ =
              (h, omega (arith, segment_at_lem depth pattern_ goes_on)) in
            elim (Bool-cases (is_flagged depth pattern_)) [
              | inl e ↦ elim (Bool-cases (ltb undiscovered_depth depth)) [
                | inl deep ↦
                    rw (scan_pattern, goes_on, e, deep)
                      (record { groups = i.groups; wild = i.wild })
                | inr shallow ↦
                    rw (scan_pattern, goes_on, e, shallow)
                      (file_pattern-IsScanned k pattern_ (record s { gpn_count = 1 }) filed
                        (record { groups = i.groups; wild = i.wild }))
              ]
              | inr e ↦ elim (Bool-cases (k === codes "*")) [
                | inl star ↦
                    rw (scan_pattern, goes_on, e)
                      (file_pattern-IsScanned k pattern_
                        (if k === codes "*" then record s { wildcard_discovered = true } else s)
                        filed (rw star (record { groups = i.groups; wild = i.wild })))
                | inr name ↦
                    rw (scan_pattern, goes_on, e)
                      (file_pattern-IsScanned k pattern_
                        (if k === codes "*" then record s { wildcard_discovered = true } else s)
                        filed (rw name i))
              ]
            ]
      ]

  scan_patterns-IsScanned :
      (l : List Pattern) (s : Level)
      → All (λ p. length p.0 ≤ bound) l
      → IsScanned s
      → IsScanned (scan_patterns depth l s)
  unfolding scan_patterns
  scan_patterns-IsScanned [] s h i = i
  scan_patterns-IsScanned (p ∷ l) s (h, hs) i =
      scan_patterns-IsScanned l (scan_pattern depth p s) hs (scan_pattern-IsScanned p s h i)

List-cases : {A : Type 0} (l : List A) → (l ≡ []) ⊎ ((a : A) × (m : List A) × (l ≡ a ∷ m))
List-cases [] = inl refl
List-cases (a ∷ m) = inr (a, m, refl)

module _ (next : List Pattern → Option ℕ) (depth bound : ℕ) where
  -- the next level, if there is any, ends
  abbrev IsTotal : Type 0
  IsTotal =
      (l : List Pattern) → depth < bound → All (IsFiled depth bound) l → (c : ℕ) × (next l ≡ some c)

  count_children-total :
      (wildcards : List Pattern) (children : JsMap JsString (List Pattern))
      → IsTotal
      → All (IsFiled depth bound) wildcards
      → All (IsGroup depth bound) children
      → (c : ℕ) × (count_children next wildcards children ≡ some c)
  unfolding count_children
  count_children-total wildcards [] t w h = (0, refl)
  count_children-total wildcards ((k, l) ∷ children) t w ((h, d), hs) =
      let (c, one) = t (l ++ wildcards) d (All-append (IsFiled depth bound) l wildcards h w) in
      let (more, others) = count_children-total wildcards children t w hs in
      (c + more, rw (count_children, one, others) refl)

  count_wildcards-total :
      (s : Level)
      → IsTotal
      → All (IsFiled depth bound) s.wildcard_children
      → (c : ℕ) × (count_wildcards next s ≡ some c)
  count_wildcards-total s t w = elim (List-cases s.wildcard_children) [
    | inl e ↦ (0, rw (count_wildcards, e) refl)
    | inr (p, l, e) ↦ elim (Bool-cases s.wildcard_discovered) [
      | inl d ↦ (0, rw (count_wildcards, e, d) refl)
      | inr d ↦
          let filed = subst (All (IsFiled depth bound)) e w in
          let (c, one) = t (p ∷ l) filed.0.1 filed in
          (c * wildcard_multiplier, rw (count_wildcards, e, d, one) refl)
    ]
  ]

All-weaken :
    {A : Type 0} (P Q : A → Type 0) (l : List A) → ((a : A) → P a → Q a) → All P l → All Q l
All-weaken P Q [] f h = tt
All-weaken P Q (a ∷ l) f (h, hs) = (f a h, All-weaken P Q l f hs)

-- one level ends when the next does
estimate_gpn_count-suc :
    (n depth : ℕ) (patterns : List Pattern)
    → IsTotal (estimate_gpn_count n (suc depth)) depth (depth + n)
    → All (λ p. length p.0 ≤ depth + n) patterns
    → (count : ℕ) × (estimate_gpn_count (suc n) depth patterns ≡ some count)
unfolding estimate_gpn_count
estimate_gpn_count-suc n depth patterns t h =
    let s = scan_patterns depth patterns new_scan in
    let next = estimate_gpn_count n (suc depth) in
    let i =
      scan_patterns-IsScanned depth (depth + n) patterns new_scan h
        (record { groups = tt; wild = tt }) in
    let (wildcards, counted) = count_wildcards-total next depth (depth + n) s t i.wild in
    let (children, summed) =
      count_children-total next depth (depth + n) s.wildcard_children s.children t i.wild
        i.groups in
    (s.gpn_count + children + (wildcards - children), rw (estimate_gpn_count, counted, summed) refl)

-- With fuel for one level more than any pattern has below the given depth, the estimate ends
-- with a number.
pub estimate_gpn_count_lem :
    (n depth : ℕ) (patterns : List Pattern)
    → All (λ p. length p.0 ≤ depth + n) patterns
    → (count : ℕ) × (estimate_gpn_count (suc n) depth patterns ≡ some count)
estimate_gpn_count_lem zero depth patterns h =
    estimate_gpn_count-suc zero depth patterns (λ l d i. absurd (omega arith)) h
estimate_gpn_count_lem (suc n) depth patterns h =
    estimate_gpn_count-suc (suc n) depth patterns
      (λ l d i. estimate_gpn_count_lem n (suc depth) l (
        All-weaken (IsFiled depth (depth + suc n)) (λ p. length p.0 ≤ suc depth + n) l
          (λ p g. omega (arith, g.0)) i))
      h
