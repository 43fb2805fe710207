-- ===== src/Common/Text.antt =====
-- JavaScript's string methods, over code units.
use Prim.Native.Nat.{ℕ, zero, suc, ◌+◌, ◌-◌, ◌/◌, ◌%◌}
use Prim.Native.Char.{code}
use Prim.Native.String.{String}
use mathlib.Core.Bool.{Bool, true, false, ◌&&◌, ◌||◌}
use mathlib.Core.List.{List, [], ◌∷◌, ◌++◌, reverse}
use genieacs.Common.Tests.{ltb, leb, ◌==◌, if◌then◌else◌}
use genieacs.Common.Lists.{take, drop}
use genieacs.Common.Eq.{JsString}

-- the code units of an ASCII literal
abbrev pub codes : String → JsString
codes String.[] = []
codes (String.◌∷◌ c s) = code c ∷ codes s

-- `s.slice(from, to)` for counts that are not negative
abbrev pub slice {ℓ} : {A : Type ℓ} → ℕ → ℕ → List A → List A
slice from to s = take (to - from) (drop from s)

-- what `trim` takes off: WhiteSpace and LineTerminator
abbrev pub is_space : ℕ → Bool
is_space c =
    (leb 9 c && leb c 13)
    || c == 32
    || c == 0xA0
    || c == 0x1680
    || (leb 0x2000 c && leb c 0x200A)
    || c == 0x2028
    || c == 0x2029
    || c == 0x202F
    || c == 0x205F
    || c == 0x3000
    || c == 0xFEFF

unfoldable pub trim_start : JsString → JsString
trim_start [] = []
trim_start (c ∷ s) = if is_space c then trim_start s else c ∷ s

unfoldable pub trim : JsString → JsString
unfolding trim_start
trim s = reverse (trim_start (reverse (trim_start s)))

-- a natural number as text, on fuel for its digits
unfoldable pub decimal_from : ℕ → ℕ → JsString
decimal_from zero k = []
decimal_from (suc n) k =
    let more = decimal_from n (k / 10) in
    if ltb k 10 then (b'0' + k) ∷ [] else more ++ (b'0' + k % 10) ∷ []

unfoldable pub decimal : ℕ → JsString
unfolding decimal_from
decimal k = decimal_from (suc k) k

-- `parts.join(separator)`
unfoldable pub join : JsString → List JsString → JsString
join sep [] = []
join sep (s ∷ []) = s
join sep (s ∷ t ∷ r) = s ++ (sep ++ join sep (t ∷ r))

-- `a < b`
unfoldable pub string_lt : JsString → JsString → Bool
string_lt [] [] = false
string_lt [] (y ∷ ys) = true
string_lt (x ∷ xs) [] = false
string_lt (x ∷ xs) (y ∷ ys) = if x == y then string_lt xs ys else ltb x y

-- `s.startsWith(prefix)`
unfoldable pub starts_with : JsString → JsString → Bool
starts_with [] s = true
starts_with (c ∷ p) [] = false
starts_with (c ∷ p) (d ∷ s) = c == d && starts_with p s
