-- ===== src/Common/Eq.antt =====
-- Equality tests (`===`) as an interface, and its instances for numbers and strings.
use Prim.Native.Nat.{ℕ}
use mathlib.Core.Path.{◌≡◌, refl}
use mathlib.Core.Logic.{◌↔◌}
use mathlib.Core.Bool.{Bool, true, false, ◌&&◌}
use mathlib.Core.List.{List, [], ◌∷◌}
use native.Mathlib.Omega.{arith}
use genieacs.Common.Tests.{◌==◌ as nat_beq, ==_iff}

pub record Equality {ℓ} (A : Type ℓ) : Type ℓ where
  pub beq : A → A → Bool
  pub beq_iff : (a b : A) → (beq a b ≡ true) ↔ (a ≡ b)

infix 50 ◌===◌
abbrev pub ◌===◌ {ℓ} : {A : Type ℓ} ⦃e : Equality A⦄ → A → A → Bool
◌===◌ ⦃e⦄ = e.beq

pub ===_iff {ℓ} : {A : Type ℓ} ⦃e : Equality A⦄ (a b : A) → ((a === b) ≡ true) ↔ (a ≡ b)
===_iff ⦃e⦄ a b = e.beq_iff a b

pub ===_refl {ℓ} : {A : Type ℓ} ⦃e : Equality A⦄ (a : A) → (a === a) ≡ true
===_refl ⦃e⦄ a = (e.beq_iff a a).1 refl

instance abbrev pub nat_eq : Equality ℕ
nat_eq = record { beq = nat_beq; beq_iff = ==_iff }

-- A JavaScript string: its UTF-16 code units.
abbrev pub JsString : Type 0
JsString = List ℕ

abbrev pub js_string_beq : JsString → JsString → Bool
js_string_beq [] [] = true
js_string_beq (x ∷ xs) (y ∷ ys) = nat_beq x y && js_string_beq xs ys
js_string_beq _ _ = false

pub js_string_beq_iff : (a b : JsString) → (js_string_beq a b ≡ true) ↔ (a ≡ b)
js_string_beq_iff (x ∷ a) (y ∷ b) = ground (arith, js_string_beq_iff a b)
js_string_beq_iff _ _ = ground arith

instance abbrev pub js_string_eq : Equality JsString
js_string_eq = record { beq = js_string_beq; beq_iff = js_string_beq_iff }
