-- ===== src/Expression/Like/Meaning.antt =====
-- lib/common/expression/parser.ts and lib/common/expression/util.ts: LIKE tests what its pattern means.
use genieacs.Common.Eq.{JsString, ◌===◌, js_string_eq}
use genieacs.Common.{
  ℕ, ◌≡◌, ◌↔◌, refl, sym, ◌∙◌, subst, Bool, true, false, Bool-cases, inl, inr, List, [], ◌∷◌, map,
  ◌==◌, if◌then◌else◌, All, arith,
}
use genieacs.Expression.Like.{
  LikeToken, literal, any_one, any_run, is_escape, like_tokens, parse_like_pattern, convert_token,
  like_pattern_to_reg_exp, like_test,
}
use genieacs.Expression.Like.Anchoring.{Matches, IsInLine, anchor_iff}
use genieacs.Expression.Like.Reading.{
  stands_for, SkipsSome, Reads, Means, Same, Same-refl, BeginsWith-Same, SkipsOne-Same,
  SkipsSome-Same, SkipsSome-twice,
}

-- the tokens as they stand in the regular expression
abbrev tokens : Bool → JsString → JsString → List LikeToken
tokens run esc p = map convert_token (like_tokens run esc p)

-- those of a code unit that is not escaped, before the others, which differ behind a run
abbrev before : ℕ → List LikeToken → List LikeToken → List LikeToken
before c next skipped =
    if c == b'_'
    then any_one ∷ next
    else if c == b'%'
    then any_run ∷ skipped
    else literal (stands_for c) ∷ next

before-Same :
    (c : ℕ) (next skipped : List LikeToken) (Rest : JsString → Type 0)
    → Same (Matches next) Rest
    → ((c == b'%') ≡ true → Same (SkipsSome (Matches skipped)) (SkipsSome Rest))
    → Same (Matches (before c next skipped)) (Reads c Rest)
before-Same c next skipped Rest e f s = elim (Bool-cases (c == b'_')) [
  | inl one ↦ rw one (SkipsOne-Same next Rest e s)
  | inr other ↦ elim (Bool-cases (c == b'%')) [
    | inl run ↦ rw (other, run) (f run s)
    | inr plain ↦ rw (other, plain) (BeginsWith-Same c next Rest e s)
  ]
]

is_escape_lem : (c : ℕ) (esc : JsString) → is_escape c esc ≡ (esc === (c ∷ []))
is_escape_lem c [] = refl
is_escape_lem c (e ∷ []) = ground arith
is_escape_lem c (e ∷ f ∷ s) = ground arith

tokens_last :
    (esc : JsString) (c : ℕ)
    → tokens false esc (c ∷ []) ≡ (if esc === (c ∷ []) then [] else before c [] [])
unfolding like_tokens
tokens_last esc c = elim (Bool-cases (esc === (c ∷ []))) [
  | inl escape ↦ let e = is_escape_lem c esc in rw (like_tokens, e, escape) refl
  | inr unit ↦ elim (Bool-cases (c == b'_')) [
    | inl one ↦ let e = is_escape_lem c esc in rw (like_tokens, e, unit, one) refl
    | inr other ↦ elim (Bool-cases (c == b'%')) [
      | inl run ↦ let e = is_escape_lem c esc in rw (like_tokens, e, unit, other, run) refl
      | inr plain ↦ let e = is_escape_lem c esc in rw (like_tokens, e, unit, other, plain) refl
    ]
  ]
]

tokens-cons :
    (esc : JsString) (c d : ℕ) (p : JsString)
    → tokens false esc (c ∷ d ∷ p) ≡ (
        if esc === (c ∷ [])
        then literal (stands_for d) ∷ tokens false esc p
        else before c (tokens false esc (d ∷ p)) (tokens true esc (d ∷ p)))
unfolding like_tokens
tokens-cons esc c d p = elim (Bool-cases (esc === (c ∷ []))) [
  | inl escape ↦ let e = is_escape_lem c esc in rw (like_tokens, e, escape) refl
  | inr unit ↦ elim (Bool-cases (c == b'_')) [
    | inl one ↦ let e = is_escape_lem c esc in rw (like_tokens, e, unit, one) refl
    | inr other ↦ elim (Bool-cases (c == b'%')) [
      | inl run ↦ let e = is_escape_lem c esc in rw (like_tokens, e, unit, other, run) refl
      | inr plain ↦ let e = is_escape_lem c esc in rw (like_tokens, e, unit, other, plain) refl
    ]
  ]
]

-- behind a run, a further `%` has no token
tokens_in_run-cons :
    (esc : JsString) (c : ℕ) (p : JsString)
    → tokens true esc (c ∷ p) ≡ (if c == b'%' then tokens true esc p else tokens false esc (c ∷ p))
unfolding like_tokens
tokens_in_run-cons esc c [] = elim (Bool-cases (c == b'%')) [
  | inl run ↦ rw (like_tokens, run) refl
  | inr other ↦ rw (like_tokens, other) refl
]
tokens_in_run-cons esc c (d ∷ p) = elim (Bool-cases (c == b'%')) [
  | inl run ↦ rw (like_tokens, run) refl
  | inr other ↦ rw (like_tokens, other) refl
]

-- The tokens ask for what the pattern means, and behind a run for what it means behind a run.
record IsMeant (esc p : JsString) : Type 0 where
  plainly : Same (Matches (tokens false esc p)) (Means esc p)
  in_run :
      (c : ℕ)
      → (c == b'%') ≡ true
      → (esc === (c ∷ [])) ≡ false
      → Same (SkipsSome (Matches (tokens true esc p))) (SkipsSome (Means esc p))

-- a pattern that begins with a run means a run and then what follows
run-Means :
    (esc : JsString) (c : ℕ) (p : JsString)
    → (c == b'%') ≡ true
    → (esc === (c ∷ [])) ≡ false
    → Same (Means esc (c ∷ p)) (SkipsSome (Means esc p))
run-Means esc c [] run unit s =
    let other : (c == b'_') ≡ false = ground (arith, run) in rw (unit, other, run) (λ h. h, λ h. h)
run-Means esc c (d ∷ p) run unit s =
    let other : (c == b'_') ≡ false = ground (arith, run) in rw (unit, other, run) (λ h. h, λ h. h)

Same-trans : (P Q R : JsString → Type 0) → Same P Q → Same Q R → Same P R
Same-trans P Q R e f s = (λ h. (f s).0 ((e s).0 h), λ h. (e s).1 ((f s).1 h))

Same-sym : (P Q : JsString → Type 0) → Same P Q → Same Q P
Same-sym P Q e s = ((e s).1, (e s).0)

-- what holds plainly of a pattern, and of its rest behind a run, holds of it behind a run
then_in_run :
    (esc : JsString) (d : ℕ) (p : JsString) (c : ℕ)
    → Same (Matches (tokens false esc (d ∷ p))) (Means esc (d ∷ p))
    → IsMeant esc p
    → (c == b'%') ≡ true
    → (esc === (c ∷ [])) ≡ false
    → Same (SkipsSome (Matches (tokens true esc (d ∷ p)))) (SkipsSome (Means esc (d ∷ p)))
then_in_run esc d p c e i run unit = elim (Bool-cases (d == b'%')) [
  | inl again ↦
      let same : d ≡ c = ground (arith, run, again) in
      let unit_d : (esc === (d ∷ [])) ≡ false =
        subst (λ x. (esc === (x ∷ [])) ≡ false) (sym same) unit in
      subst (λ l. Same (SkipsSome (Matches l)) (SkipsSome (Means esc (d ∷ p))))
        (sym (tokens_in_run-cons esc d p ∙ rw again refl))
        (Same-trans _ _ _ (i.in_run c run unit) (
          Same-trans _ _ _ (SkipsSome-twice (Means esc p))
            (SkipsSome-Same _ _ (Same-sym _ _ (run-Means esc d p again unit_d)))))
  | inr other ↦
      subst (λ l. Same (SkipsSome (Matches l)) (SkipsSome (Means esc (d ∷ p))))
        (sym (tokens_in_run-cons esc d p ∙ rw other refl)) (SkipsSome-Same _ _ e)
]

plainly_last :
    (esc : JsString) (c : ℕ) → Same (Matches (tokens false esc (c ∷ []))) (Means esc (c ∷ []))
plainly_last esc c s = rw (tokens_last esc c) (elim (Bool-cases (esc === (c ∷ []))) [
  | inl escape ↦ rw escape (λ h. h, λ h. h)
  | inr unit ↦ rw unit (before-Same c [] [] (λ r. r ≡ []) (Same-refl _) (λ _. Same-refl _) s)
])

plainly-cons :
    (esc : JsString) (c d : ℕ) (p : JsString)
    → Same (Matches (tokens false esc p)) (Means esc p)
    → IsMeant esc (d ∷ p)
    → Same (Matches (tokens false esc (c ∷ d ∷ p))) (Means esc (c ∷ d ∷ p))
plainly-cons esc c d p e i s = rw (tokens-cons esc c d p) (elim (Bool-cases (esc === (c ∷ []))) [
  | inl escape ↦ rw escape (BeginsWith-Same d (tokens false esc p) (Means esc p) e s)
  | inr unit ↦ rw unit (
      before-Same c (tokens false esc (d ∷ p)) (tokens true esc (d ∷ p)) (Means esc (d ∷ p))
        i.plainly (λ run. i.in_run c run unit) s)
])

empty-IsMeant : (esc : JsString) → IsMeant esc []
unfolding like_tokens
empty-IsMeant esc = record { plainly = Same-refl _; in_run = λ c run unit. Same-refl _ }

pattern-IsMeant : (esc p : JsString) → IsMeant esc p
pattern-IsMeant esc [] = empty-IsMeant esc
pattern-IsMeant esc (c ∷ []) =
    let e = plainly_last esc c in
    record {
      plainly = e;
      in_run = λ b run unit. then_in_run esc c [] b e (empty-IsMeant esc) run unit;
    }
pattern-IsMeant esc (c ∷ d ∷ p) =
    let i = pattern-IsMeant esc (d ∷ p) in
    let e = plainly-cons esc c d p (pattern-IsMeant esc p).plainly i in
    record { plainly = e; in_run = λ b run unit. then_in_run esc c (d ∷ p) b e i run unit }

-- For any pattern and escape sign and a subject on one line, the regular expression that LIKE
-- builds accepts the subject just if it is what the text of the pattern says: _ is any one
-- code unit, % any number of them, the code unit behind an escape sign and any other is
-- itself, but for a backslash, which stands for a slash, and an escape sign at the end is
-- nothing.
pub like_test_iff :
    (pat esc s : JsString) → All IsInLine s → (like_test pat esc s ≡ true) ↔ Means esc pat s
unfolding like_test like_pattern_to_reg_exp parse_like_pattern
like_test_iff pat esc s k =
    let (to, from) = anchor_iff (tokens false esc pat) s k in
    let (reads, read) = (pattern-IsMeant esc pat).plainly s in
    (λ h. reads (to h), λ m. from (read m))
