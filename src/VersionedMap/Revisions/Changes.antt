-- ===== src/VersionedMap/Revisions/Changes.antt =====
-- lib/versioned-map.ts: the changes that `getRevisions` stores, and what they tell of a history.
use genieacs.Common.JsMap
use genieacs.Common.JsMap.{JsMap, get-set}
use genieacs.Common.Eq.{Equality, ◌===◌, ===_iff, nat_eq}
use genieacs.Common.Words.{shl, or_bits}
use genieacs.Common.Bits.{bit}
use genieacs.Common.BitFields.{bit-mark, bit_beyond, below_power}
use native.Mathlib.Nat.{pow-succ'}
use genieacs.Common.{
  ℕ, suc, ◌^◌, ◌≤◌, ◌<◌, ◌≡◌, refl, ◌∙◌, ap, Bool, true, false, Option, none, some, [], ◌∷◌,
  if◌then◌else◌, ◌⊎◌, inl, inr, Bool-cases, All, arith,
}
use genieacs.VersionedMap.{History}
use genieacs.VersionedMap.Revisions.{
  Revisions, mutations_from, mutations, same_entry, restored_entry,
}

module _ {ℓ} {V : Type ℓ} where
  abbrev pub stored : ℕ → JsMap ℕ V → Bool
  stored j l = elim (JsMap.get j l) [ none ↦ false | some v ↦ true ]

  pub bit-mutations :
      (j bits : ℕ) (l : JsMap ℕ V)
      → All (λ (e : ℕ × V). e.0 < 32) l
      → bit j (mutations_from bits l) ≡ (if stored j l then 1 else bit j bits)
  unfolding mutations_from JsMap.get
  bit-mutations j bits [] h = refl
  bit-mutations j bits ((i, v) ∷ l) (h, hs) =
      ground
        (arith, bit-mutations j (or_bits bits (shl 1 i)) l hs, bit-mark j i bits h, ===_iff i j)

  pub get-beyond :
      (i j : ℕ) (l : JsMap ℕ V) → All (λ (e : ℕ × V). e.0 < i) l → i ≤ j → JsMap.get j l ≡ none
  unfolding JsMap.get
  get-beyond i j [] h k = refl
  get-beyond i j ((m, v) ∷ l) (h, hs) k = ground (arith, ===_iff m j, get-beyond i j l hs k)

  pub All-mono :
      (i : ℕ) (l : JsMap ℕ V) → All (λ (e : ℕ × V). e.0 < i) l → All (λ (e : ℕ × V). e.0 < suc i) l
  All-mono i [] h = tt
  All-mono i (e ∷ l) (h, hs) = (omega arith, All-mono i l hs)

  pub All-set :
      (i : ℕ) (v : V) (l : JsMap ℕ V)
      → All (λ (e : ℕ × V). e.0 < i) l
      → All (λ (e : ℕ × V). e.0 < suc i) (JsMap.set i v l)
  unfolding JsMap.set
  All-set i v [] h = (omega arith, tt)
  All-set i v ((j, w) ∷ l) (h, hs) = elim (Bool-cases (j === i)) [
    | inl e ↦ rw e (omega arith, All-mono i l hs)
    | inr e ↦ rw e (omega arith, All-set i v l hs)
  ]

  -- no change is at `i` or later
  pub record IsBelow (i : ℕ) (res : Revisions V) : Type ℓ where
    pub bits : res.deleted < 2 ^ i
    pub places : All (λ (e : ℕ × V). e.0 < i) res.values

  -- the same changes before `i`
  pub record Agrees (i : ℕ) (res other : Revisions V) : Type ℓ where
    pub bits : (j : ℕ) → j < i → bit j res.deleted ≡ bit j other.deleted
    pub places : (j : ℕ) → j < i → JsMap.get j res.values ≡ JsMap.get j other.values

  pub All-bound :
      (i n : ℕ) (l : JsMap ℕ V)
      → i ≤ n
      → All (λ (e : ℕ × V). e.0 < i) l
      → All (λ (e : ℕ × V). e.0 < n) l
  All-bound i n [] k h = tt
  All-bound i n (e ∷ l) k (h, hs) = (omega arith, All-bound i n l k hs)

  pub IsBelow-mutations :
      (i : ℕ) (res : Revisions V) → i ≤ 32 → IsBelow i res → mutations res < 2 ^ i
  IsBelow-mutations i res k b = below_power i (mutations res) (λ j h.
      let none_there = get-beyond i j res.values b.places h in
      bit-mutations j res.deleted res.values (All-bound i 32 res.values k b.places)
      ∙ rw (stored, none_there) (bit_beyond i j res.deleted b.bits h))

pub power_up : (n i : ℕ) → n < 2 ^ i → n < 2 ^ suc i
power_up n i h = let double = pow-succ' 2 i in omega arith

module _ {V : Type 0} ⦃e : Equality V⦄ where
  pub same_entry_lem : (v w : Option V) → same_entry v w ≡ true → v ≡ w
  same_entry_lem none none h = refl
  same_entry_lem none (some w) h = absurd (ground (arith, h))
  same_entry_lem (some v) none h = absurd (ground (arith, h))
  same_entry_lem (some v) (some w) h = ap some ((===_iff v w).0 h)

  -- The changes tell the entry at `i`, and bit `i` of the mutations is set if it is a new one.
  pub record IsEntry (res : Revisions V) (i : ℕ) (prev v : Option V) : Type 0 where
    pub restored : restored_entry res i prev ≡ v
    pub marked : (v ≡ prev) ⊎ (bit i (mutations res) ≡ 1)

  -- The changes tell the entries of a history from `i` on, and no more.
  abbrev pub Follows : Revisions V → ℕ → Option V → History V → Type 0
  Follows res i prev [] = mutations res < 2 ^ i
  Follows res i prev (v ∷ l) = IsEntry res i prev v × Follows res (suc i) v l
