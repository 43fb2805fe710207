-- ===== src/Common/Indexing.antt =====
-- What is read from a list after it is joined, filled or written to.
use Prim.Native.Nat.{ℕ, zero, suc, ◌-◌, ◌<◌, ◌≤◌, max}
use mathlib.Core.Path.{◌≡◌, refl, ap}
use mathlib.Core.List.{List, [], ◌∷◌, ◌++◌}
use mathlib.Core.Option.{some}
use native.Mathlib.Omega.{arith}
use genieacs.Common.Tests.{ltb, ◌==◌, if◌then◌else◌}
use genieacs.Common.Lists.{length, get_elem?, get_last_or, put_elem, replicate, take, drop}

module _ {ℓ} {A : Type ℓ} where
  pub get_elem?-append :
      (xs ys : List A) (j : ℕ)
      → get_elem? (xs ++ ys) j
        ≡ (if ltb j (length xs) then get_elem? xs j else get_elem? ys (j - length xs))
  get_elem?-append [] ys j = ground arith
  get_elem?-append (x ∷ xs) ys zero = ground arith
  get_elem?-append (x ∷ xs) ys (suc j) = ground (arith, get_elem?-append xs ys j)

  pub get_elem?-replicate : (n : ℕ) (a : A) (j : ℕ) → j < n → get_elem? (replicate n a) j ≡ some a
  get_elem?-replicate zero a j h = elim h [ ]
  get_elem?-replicate (suc n) a zero h = refl
  get_elem?-replicate (suc n) a (suc j) h = get_elem?-replicate n a j (omega arith)

  pub get_elem?-put_elem :
      (i : ℕ) (v : A) (xs : List A) (j : ℕ)
      → i ≤ length xs
      → get_elem? (put_elem i v xs) j ≡ (if i == j then some v else get_elem? xs j)
  get_elem?-put_elem zero v [] zero h = refl
  get_elem?-put_elem zero v [] (suc j) h = ground arith
  get_elem?-put_elem (suc i) v [] j h = absurd (omega arith)
  get_elem?-put_elem zero v (x ∷ xs) zero h = refl
  get_elem?-put_elem zero v (x ∷ xs) (suc j) h = ground arith
  get_elem?-put_elem (suc i) v (x ∷ xs) zero h = ground arith
  get_elem?-put_elem (suc i) v (x ∷ xs) (suc j) h = ground (arith, get_elem?-put_elem i v xs j)

  pub length-put_elem :
      (i : ℕ) (v : A) (xs : List A)
      → i ≤ length xs
      → length (put_elem i v xs) ≡ max (suc i) (length xs)
  length-put_elem zero v [] h = refl
  length-put_elem (suc i) v [] h = absurd (omega arith)
  length-put_elem zero v (x ∷ xs) h = omega arith
  length-put_elem (suc i) v (x ∷ xs) h = omega (arith, length-put_elem i v xs (omega arith))

  pub get_elem?-length_pred :
      (x : A) (xs : List A) (d : A) → get_elem? (x ∷ xs) (length xs) ≡ some (get_last_or (x ∷ xs) d)
  get_elem?-length_pred x [] d = refl
  get_elem?-length_pred x (y ∷ xs) d = get_elem?-length_pred y xs x

  pub get_elem?-take :
      (n : ℕ) (xs : List A) (j : ℕ) → j < n → get_elem? (take n xs) j ≡ get_elem? xs j
  get_elem?-take zero xs j h = elim h [ ]
  get_elem?-take (suc n) [] j h = refl
  get_elem?-take (suc n) (x ∷ xs) zero h = refl
  get_elem?-take (suc n) (x ∷ xs) (suc j) h = get_elem?-take n xs j (omega arith)

  pub length-take_le : (n : ℕ) (xs : List A) → n ≤ length xs → length (take n xs) ≡ n
  length-take_le zero xs h = refl
  length-take_le (suc n) [] h = absurd (omega arith)
  length-take_le (suc n) (x ∷ xs) h = ap suc (length-take_le n xs (omega arith))

  pub drop-length_pred :
      (x : A) (xs : List A) (d : A) → drop (length xs) (x ∷ xs) ≡ get_last_or (x ∷ xs) d ∷ []
  drop-length_pred x [] d = refl
  drop-length_pred x (y ∷ xs) d = drop-length_pred y xs x

  pub get_elem?-some : (xs : List A) (i : ℕ) → i < length xs → (a : A) × (get_elem? xs i ≡ some a)
  get_elem?-some [] i h = elim h [ ]
  get_elem?-some (x ∷ xs) zero h = (x, refl)
  get_elem?-some (x ∷ xs) (suc i) h = get_elem?-some xs i (omega arith)
