-- ===== src/PathSet/Sets.antt =====
-- lib/common/path-set.ts: what the sets built by `add` and `find` contain.
use genieacs.Common.Eq.{◌===◌, js_string_eq, ===_iff}
use genieacs.Common.{
  ◌≡◌, refl, sym, ◌∙◌, Bool, true, false, ◌&&◌, ◌||◌, Option, none, some, List, [], ◌∷◌, ◌++◌,
  arith, Bool-cases, inl, inr,
}
use genieacs.ParameterPath.{ParameterPath}
use genieacs.PathSet.{
  PathList, has, add_path, keep_in, narrow, Found, nothing, so_far, go_on, narrow_level, or_empty,
  flatten, has_in_some, keep_lengths, found_paths,
}

has-congr : (l : PathList) (p q : ParameterPath) → p.string ≡ q.string → has l p ≡ has l q
unfolding has
has-congr [] p q e = refl
has-congr (r ∷ l) p q e = rw (has-congr l p q e, e)

has-append : (l m : PathList) (q : ParameterPath) → has (l ++ m) q ≡ (has l q || has m q)
unfolding has
has-append [] m q = refl
has-append (p ∷ l) m q = ground (arith, has-append l m q)

pub has-add_path :
    (p q : ParameterPath) (l : PathList) → has (add_path p l) q ≡ (p.string === q.string || has l q)
unfolding add_path
has-add_path p q l = elim (Bool-cases (has l p)) [
  | inl there ↦ rw there (elim (Bool-cases (p.string === q.string)) [
    | inl same ↦ rw same (sym (has-congr l p q ((===_iff p.string q.string).0 same)) ∙ there)
    | inr other ↦ rw other
  ])
  | inr new ↦ rw new (has-append l (p ∷ []) q ∙ (unfold has in ground arith))
]

has-keep_in : (s l : PathList) (q : ParameterPath) → has (keep_in s l) q ≡ (has l q && has s q)
unfolding has keep_in
has-keep_in s [] q = refl
has-keep_in s (p ∷ l) q = elim (Bool-cases (p.string === q.string)) [
  | inl same ↦
      ground (arith, has-keep_in s l q, has-congr s p q ((===_iff p.string q.string).0 same))
  | inr other ↦ ground (arith, has-keep_in s l q)
]

-- Whether a path is still sought after.
abbrev pub accepts : Found → ParameterPath → Bool
accepts nothing q = false
accepts (so_far none) q = true
accepts (so_far (some l)) q = has l q

abbrev pub accepts_all : Option PathList → ParameterPath → Bool
accepts_all none q = true
accepts_all (some l) q = has l q

accepts-go_on : (l : PathList) (q : ParameterPath) → accepts (go_on l) q ≡ has l q
unfolding has
accepts-go_on [] q = refl
accepts-go_on (p ∷ l) q = refl

has-narrow :
    (res : Option PathList) (s : PathList) (q : ParameterPath)
    → has (narrow res s) q ≡ (accepts_all res q && has s q)
has-narrow none s q = refl
has-narrow (some l) s q = has-keep_in s l q

pub accepts-narrow_level :
    (res a b : Option PathList) (q : ParameterPath)
    → accepts (narrow_level res a b) q
      ≡ (accepts_all res q && (has (or_empty a) q || has (or_empty b) q))
unfolding narrow_level
accepts-narrow_level res none none q = unfold has in ground arith
accepts-narrow_level res none (some b) q =
    accepts-go_on (narrow res b) q ∙ has-narrow res b q ∙ (unfold has in refl)
accepts-narrow_level res (some a) none q =
    accepts-go_on (narrow res a) q ∙ has-narrow res a q ∙ (unfold has in ground arith)
accepts-narrow_level res (some a) (some b) q =
    accepts-go_on (narrow res (a ++ b)) q ∙ has-narrow res (a ++ b) q ∙ rw (has-append a b q)

has-flatten :
    (index : List PathList) (q : ParameterPath) → has (flatten index) q ≡ has_in_some index q
unfolding has_in_some
has-flatten [] q = unfold has in refl
has-flatten (l ∷ r) q = has-append l (flatten r) q ∙ rw (has-flatten r q)

has_in_some-congr :
    (index : List PathList) (p q : ParameterPath)
    → p.string ≡ q.string
    → has_in_some index p ≡ has_in_some index q
unfolding has_in_some
has_in_some-congr [] p q e = refl
has_in_some-congr (l ∷ r) p q e = rw (has-congr l p q e, has_in_some-congr r p q e)

has-keep_lengths :
    (index : List PathList) (l : PathList) (q : ParameterPath)
    → has (keep_lengths index l) q ≡ (has l q && has_in_some index q)
unfolding has keep_lengths
has-keep_lengths index [] q = refl
has-keep_lengths index (p ∷ l) q = elim (Bool-cases (p.string === q.string)) [
  | inl same ↦ ground (
    arith,
    has-keep_lengths index l q,
    has_in_some-congr index p q ((===_iff p.string q.string).0 same),
  )
  | inr other ↦ ground (arith, has-keep_lengths index l q)
]

pub has-found_paths :
    (index : List PathList) (f : Found) (q : ParameterPath)
    → has (found_paths index f) q ≡ (accepts f q && has_in_some index q)
has-found_paths index nothing q = unfold has in refl
has-found_paths index (so_far none) q = has-flatten index q
has-found_paths index (so_far (some l)) q = has-keep_lengths index l q
