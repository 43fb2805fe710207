-- ===== src/Expression/Like/Anchoring.antt =====
-- lib/common/expression/util.ts: the regular expression that the tokens of a LIKE pattern make tests
-- what they ask for.
use genieacs.Common.Eq.{JsString}
use genieacs.Common.{
  ℕ, zero, suc, ◌≡◌, ◌↔◌, refl, Bool, true, false, Bool-cases, inl, inr, List, [], ◌∷◌, length,
  drop, drop-length_le, All, All-drop, arith,
}
use genieacs.Expression.Like.{
  LikeToken, literal, any_one, any_run, finish, anchor, is_line_end, run_then, matches_here,
  anywhere, reg_exp_test,
}

-- what a list of tokens asks of a text
abbrev pub Matches : List LikeToken → JsString → Type 0
Matches [] s = s ≡ []
Matches (literal c ∷ l) [] = ⊥
Matches (literal c ∷ l) (d ∷ s) = (c ≡ d) × Matches l s
Matches (any_one ∷ l) [] = ⊥
Matches (any_one ∷ l) (d ∷ s) = Matches l s
Matches (any_run ∷ l) s = (n : ℕ) × Matches l (drop n s)

abbrev pub IsInLine : ℕ → Type 0
IsInLine c = is_line_end c ≡ false

run_then-anywhere :
    (f : JsString → Bool) (s : JsString) → All IsInLine s → run_then f s ≡ anywhere f s
unfolding run_then anywhere
run_then-anywhere f [] h = refl
run_then-anywhere f (c ∷ s) (p, h) = ground (arith, run_then-anywhere f s h)

anywhere_found :
    (f : JsString → Bool) (s : JsString) → anywhere f s ≡ true → (n : ℕ) × (f (drop n s) ≡ true)
unfolding anywhere
anywhere_found f [] e = (0, e)
anywhere_found f (c ∷ s) e = elim (Bool-cases (f (c ∷ s))) [
  | inl here ↦ (0, here)
  | inr later ↦ let (n, found) = anywhere_found f s (ground arith) in (suc n, found)
]

anywhere_from :
    (f : JsString → Bool) (n : ℕ) (s : JsString) → f (drop n s) ≡ true → anywhere f s ≡ true
unfolding anywhere
anywhere_from f zero [] e = e
anywhere_from f (suc n) [] e = e
anywhere_from f zero (c ∷ s) e = ground arith
anywhere_from f (suc n) (c ∷ s) e = ground (arith, anywhere_from f n s e)

-- On one line, the atoms match from here on just what the pattern means.
abbrev IsGood : List LikeToken → Bool → List LikeToken → Type 0
IsGood atoms ends l =
    (s : JsString) → All IsInLine s → (matches_here atoms ends s ≡ true) ↔ Matches l s

empty-IsGood : IsGood [] true []
unfolding matches_here
empty-IsGood [] h = (λ e. refl, λ e. refl)
empty-IsGood (c ∷ s) h = (λ e. absurd (ground arith), λ e. absurd (ground arith))

open-IsGood : IsGood [] false (any_run ∷ [])
unfolding matches_here
open-IsGood s h = (λ e. (length s, drop-length_le (length s) s (omega arith)), λ e. refl)

anywhere_iff :
    (atoms l : List LikeToken) (ends : Bool) (s : JsString)
    → IsGood atoms ends l
    → All IsInLine s
    → (anywhere (matches_here atoms ends) s ≡ true) ↔ ((n : ℕ) × Matches l (drop n s))
anywhere_iff atoms l ends s g h = (
  λ e.
      let (n, found) = anywhere_found (matches_here atoms ends) s e in
      (n, (g (drop n s) (All-drop IsInLine n s h)).0 found),
  λ (n, m).
      anywhere_from (matches_here atoms ends) n s ((g (drop n s) (All-drop IsInLine n s h)).1 m),
)

step-IsGood :
    (t : LikeToken) (atoms l : List LikeToken) (ends : Bool)
    → IsGood atoms ends l
    → IsGood (t ∷ atoms) ends (t ∷ l)
unfolding matches_here
step-IsGood (literal c) atoms l ends g [] h = (λ e. absurd (ground arith), λ e. absurd e)
step-IsGood (literal c) atoms l ends g (d ∷ s) (q, h) =
    let (to, from) = g s h in
    (λ e. (ground arith, to (ground arith)), λ (same, m). ground (arith, from m))
step-IsGood any_one atoms l ends g [] h = (λ e. absurd (ground arith), λ e. absurd e)
step-IsGood any_one atoms l ends g (d ∷ s) (q, h) =
    let (to, from) = g s h in (λ e. to (ground arith), λ m. ground (arith, from m))
step-IsGood any_run atoms l ends g s h =
    rw (run_then-anywhere (matches_here atoms ends) s h) (anywhere_iff atoms l ends s g h)

finish-starts : (b : Bool) (l : List LikeToken) → (finish b l).starts ≡ b
unfolding finish
finish-starts b [] = refl
finish-starts b (literal c ∷ []) = refl
finish-starts b (any_one ∷ []) = refl
finish-starts b (any_run ∷ []) = refl
finish-starts b (t ∷ u ∷ l) = finish-starts b (u ∷ l)

finish-IsGood :
    (b : Bool) (t : LikeToken) (l : List LikeToken)
    → IsGood (finish b (t ∷ l)).atoms (finish b (t ∷ l)).ends (t ∷ l)
unfolding finish
finish-IsGood b (literal c) [] = step-IsGood (literal c) [] [] true empty-IsGood
finish-IsGood b any_one [] = step-IsGood any_one [] [] true empty-IsGood
finish-IsGood b any_run [] = open-IsGood
finish-IsGood b t (u ∷ l) =
    step-IsGood t (finish b (u ∷ l)).atoms (u ∷ l) (finish b (u ∷ l)).ends (finish-IsGood b u l)

started_iff :
    (t : LikeToken) (l : List LikeToken) (s : JsString)
    → All IsInLine s
    → (reg_exp_test (finish true (t ∷ l)) s ≡ true) ↔ Matches (t ∷ l) s
unfolding reg_exp_test
started_iff t l s k = rw (reg_exp_test, finish-starts true (t ∷ l)) (finish-IsGood true t l s k)

-- On one line, the anchored expression of some tokens tests what they ask for.
pub anchor_iff :
    (l : List LikeToken) (s : JsString)
    → All IsInLine s
    → (reg_exp_test (anchor l) s ≡ true) ↔ Matches l s
unfolding reg_exp_test anchor
anchor_iff [] s k = empty-IsGood s k
anchor_iff (any_run ∷ []) s k = (
  λ e. (length s, drop-length_le (length s) s (omega arith)),
  λ e. anywhere_from (matches_here [] false) 0 s (unfold matches_here in refl),
)
anchor_iff (any_run ∷ u ∷ l) s k =
    rw (reg_exp_test, finish-starts false (u ∷ l))
      (anywhere_iff (finish false (u ∷ l)).atoms (u ∷ l) (finish false (u ∷ l)).ends s
        (finish-IsGood false u l) k)
anchor_iff (literal c ∷ l) s k = started_iff (literal c) l s k
anchor_iff (any_one ∷ l) s k = started_iff any_one l s k
