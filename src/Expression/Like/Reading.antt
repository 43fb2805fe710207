-- ===== src/Expression/Like/Reading.antt =====
-- lib/common/expression/parser.ts: what a LIKE pattern means, read off its text without the tokens that
-- `parseLikePattern` makes of it.
use genieacs.Common.Eq.{JsString, ◌===◌, js_string_eq}
use genieacs.Common.{
  ℕ, zero, suc, ◌+◌, ◌≡◌, ◌↔◌, refl, sym, subst, List, [], ◌∷◌, drop, ◌==◌, if◌then◌else◌, arith,
}
use genieacs.Expression.Like.{LikeToken, literal, any_one}
use genieacs.Expression.Like.Anchoring.{Matches}

-- the code unit that a code unit of a pattern stands for: a backslash stands for a slash
abbrev pub stands_for : ℕ → ℕ
stands_for c = if c == b'\\' then b'/' else c

-- the text begins with what a code unit stands for, and the rest is as asked
abbrev pub BeginsWith : ℕ → (JsString → Type 0) → JsString → Type 0
BeginsWith c Rest [] = ⊥
BeginsWith c Rest (d ∷ s) = (d ≡ stands_for c) × Rest s

-- the text without its first code unit is as asked
abbrev pub SkipsOne : (JsString → Type 0) → JsString → Type 0
SkipsOne Rest [] = ⊥
SkipsOne Rest (d ∷ s) = Rest s

-- the text without some of its first code units is as asked
abbrev pub SkipsSome : (JsString → Type 0) → JsString → Type 0
SkipsSome Rest s = (n : ℕ) × Rest (drop n s)

-- a code unit that is not escaped: `_` is any one, `%` any number of them
abbrev pub Reads : ℕ → (JsString → Type 0) → JsString → Type 0
Reads c Rest s =
    if c == b'_'
    then SkipsOne Rest s
    else if c == b'%'
    then SkipsSome Rest s
    else BeginsWith c Rest s

-- What a pattern with an escape sign means. The code unit behind the sign is that code unit; a sign at
-- the end is nothing.
abbrev pub Means : JsString → JsString → JsString → Type 0
Means esc [] s = s ≡ []
Means esc (c ∷ []) s = if esc === (c ∷ []) then s ≡ [] else Reads c (λ r. r ≡ []) s
Means esc (c ∷ d ∷ p) s =
    if esc === (c ∷ []) then BeginsWith d (Means esc p) s else Reads c (Means esc (d ∷ p)) s

abbrev pub Same : (JsString → Type 0) → (JsString → Type 0) → Type 0
Same P Q = (s : JsString) → P s ↔ Q s

pub Same-refl : (P : JsString → Type 0) → Same P P
Same-refl P s = (λ h. h, λ h. h)

pub BeginsWith-Same :
    (c : ℕ) (l : List LikeToken) (Rest : JsString → Type 0)
    → Same (Matches l) Rest
    → Same (Matches (literal (stands_for c) ∷ l)) (BeginsWith c Rest)
BeginsWith-Same c l Rest e [] = (λ h. h, λ h. h)
BeginsWith-Same c l Rest e (d ∷ s) = (λ (h, m). (sym h, (e s).0 m), λ (h, m). (sym h, (e s).1 m))

pub SkipsOne-Same :
    (l : List LikeToken) (Rest : JsString → Type 0)
    → Same (Matches l) Rest
    → Same (Matches (any_one ∷ l)) (SkipsOne Rest)
SkipsOne-Same l Rest e [] = (λ h. h, λ h. h)
SkipsOne-Same l Rest e (d ∷ s) = e s

pub SkipsSome-Same : (P Q : JsString → Type 0) → Same P Q → Same (SkipsSome P) (SkipsSome Q)
SkipsSome-Same P Q e s = (λ (n, h). (n, (e (drop n s)).0 h), λ (n, h). (n, (e (drop n s)).1 h))

pub drop-drop : (n m : ℕ) (s : JsString) → drop n (drop m s) ≡ drop (m + n) s
drop-drop n zero s = let z : 0 + n ≡ n = omega arith in rw z refl
drop-drop zero (suc m) [] = let z : suc m + 0 ≡ suc m = omega arith in rw z refl
drop-drop (suc n) (suc m) [] = let z : suc m + suc n ≡ suc (m + suc n) = omega arith in rw z refl
drop-drop n (suc m) (c ∷ s) =
    let z : suc m + n ≡ suc (m + n) = omega arith in rw z (drop-drop n m s)

-- two runs are one
pub SkipsSome-twice : (P : JsString → Type 0) → Same (SkipsSome P) (SkipsSome (SkipsSome P))
SkipsSome-twice P s = (λ (n, h). (n, (0, h)), λ (m, (n, h)). (m + n, subst P (drop-drop n m s) h))
