-- ===== src/VersionedMap/Revisions/Restoring.antt =====
-- lib/versioned-map.ts: the loop of `setRevisions` gives a history that reads as the changes tell.
use genieacs.Common.Eq.{Equality, nat_eq}
use genieacs.Common.Words.{shl, sar, or_bits}
use genieacs.Common.BitFields.{bit_beyond}
use native.Mathlib.Nat.{one-le-pow, div-eq_of_lt, div-lt_iff_lt-mul}
use genieacs.Common.{
  ℕ, zero, suc, ◌+◌, ◌-◌, ◌/◌, ◌%◌, ◌^◌, ◌≤◌, ◌<◌, min, ◌≡◌, refl, sym, ◌∙◌, ap, subst, true, false,
  Option, none, some, [], ◌∷◌, length, get_elem?, ◌==◌, ltb, if◌then◌else◌, inl, inr, Bool-cases,
  arith,
}
use genieacs.VersionedMap.{History, read, value_of}
use genieacs.VersionedMap.Revisions.{Revisions, mutations, same_entry, restored_entry, restore}
use genieacs.VersionedMap.Revisions.Changes.{power_up, Follows}

-- what a history says of revision `r`, behind an entry `prev`
abbrev pub at {ℓ} : {V : Type ℓ} → Option V → History V → ℕ → Option V
at prev [] r = prev
at prev (v ∷ l) zero = v
at prev (v ∷ l) (suc r) = at v l r

pub at_inside {ℓ} :
    {V : Type ℓ} (prev v : Option V) (l : History V) (r : ℕ)
    → value_of (get_elem? (v ∷ l) (min (length l) r)) ≡ at prev (v ∷ l) r
at_inside prev v [] zero = refl
at_inside prev v [] (suc r) = let none_left : min 0 (suc r) ≡ 0 = omega arith in rw none_left refl
at_inside prev v (w ∷ l) zero =
    let first : min (suc (length l)) 0 ≡ 0 = omega arith in rw first refl
at_inside prev v (w ∷ l) (suc r) =
    let next : min (suc (length l)) (suc r) ≡ suc (min (length l) r) = omega arith in
    rw next (at_inside v w l r)

pub read_at {ℓ} : {V : Type ℓ} (h : History V) (r : ℕ) → value_of (read h r) ≡ at none h r
read_at [] r = refl
read_at (v ∷ l) r =
    let last : suc (length l) - 1 ≡ length l = omega arith in rw last (at_inside none v l r)

pub sar_small : (m i : ℕ) → m < 2 ^ 31 → i < 32 → sar m i ≡ m / 2 ^ i
unfolding sar
sar_small m i h k =
    let count : i % 32 ≡ i = omega arith in
    let small : ltb m (2 ^ 31) ≡ true = ground (arith, h) in rw (small, count) refl

pub small_of_shift : (m i : ℕ) → m < 2 ^ 31 → i < 32 → (sar m i == 0) ≡ true → m < 2 ^ i
small_of_shift m i h k over =
    let shifted = sar_small m i h k in
    let none_left : m / 2 ^ i < 1 = ground (arith, over, shifted) in
    let below =
      (div-lt_iff_lt-mul {k = 2 ^ i} {x = m} {y = 1} (one-le-pow i 2 (omega arith))).0 none_left in
    omega (arith, below)

module _ {V : Type 0} ⦃e : Equality V⦄ where
  pub behind_same :
      (prev v : Option V) (l : History V)
      → v ≡ prev
      → ((q : ℕ) → at v l q ≡ v)
      → (r : ℕ) → at prev (v ∷ l) r ≡ prev
  behind_same prev v l same h zero = same
  behind_same prev v l same h (suc r) = h r ∙ same

  pub behind :
      (v prev : Option V) (h l : History V)
      → ((q : ℕ) → at v h q ≡ at v l q)
      → (r : ℕ) → at prev (v ∷ h) r ≡ at prev (v ∷ l) r
  behind v prev h l e zero = refl
  behind v prev h l e (suc r) = e r

  -- the history without the entries at its end that change nothing
  pub constant_at :
      (res : Revisions V) (i : ℕ) (prev : Option V) (l : History V)
      → Follows res i prev l
      → mutations res < 2 ^ i
      → (r : ℕ) → at prev l r ≡ prev
  constant_at res i prev [] h k r = refl
  constant_at res i prev (v ∷ l) (h, hs) k r = elim h.marked [
    | inr one ↦ absurd (omega (arith, one, bit_beyond i i (mutations res) k (omega arith)))
    | inl same ↦
        behind_same prev v l same
          (λ q. constant_at res (suc i) v l hs (power_up (mutations res) i k) q) r
  ]

  -- What `restore` gives reads like the history that the changes tell.
  pub record IsRestored (prev : Option V) (l : History V) (r : Option (History V × ℕ))
      : Type 0 where
    pub history : History V
    pub dirty : ℕ
    pub succeeds : r ≡ some (history, dirty)
    pub reads : (q : ℕ) → at prev history q ≡ at prev l q

  abbrev pub marks : ℕ → Option V → Option V → ℕ → ℕ
  marks i prev v dirty = if same_entry v prev then dirty else or_bits dirty (shl 1 i)

  -- one round of `restore` that is not the last
  pub restore_then :
      (n : ℕ) (res : Revisions V) (i : ℕ) (prev v : Option V) (l : History V) (dirty : ℕ)
      → (sar (mutations res) i == 0) ≡ false
      → restored_entry res i prev ≡ v
      → IsRestored (restored_entry res i prev) l (
          restore n res
            (suc i)
            (restored_entry res i prev)
            (marks i prev (restored_entry res i prev) dirty))
      → IsRestored prev (v ∷ l) (restore (suc n) res i prev dirty)
  unfolding restore
  restore_then n res i prev v l dirty more e x =
      rw (restore, more, x.succeeds)
        (record {
          history = restored_entry res i prev ∷ x.history;
          dirty = x.dirty;
          succeeds = refl;
          reads = λ q.
              behind (restored_entry res i prev) prev x.history l x.reads q
              ∙ ap (λ w. at prev (w ∷ l) q) e;
        })

  pub restore-IsRestored :
      (n : ℕ) (res : Revisions V) (i : ℕ) (prev : Option V) (l : History V) (dirty : ℕ)
      → length l < n
      → i + length l ≤ 31
      → mutations res < 2 ^ 31
      → Follows res i prev l
      → IsRestored prev l (restore n res i prev dirty)
  unfolding restore
  restore-IsRestored zero res i prev l dirty h k m f = absurd (omega arith)
  restore-IsRestored (suc n) res i prev [] dirty h k m f =
      let over : (sar (mutations res) i == 0) ≡ true =
        rw (sar_small (mutations res) i m (omega arith), div-eq_of_lt f) refl in
      rw (restore, over)
        (record { history = []; dirty = dirty; succeeds = refl; reads = λ q. refl })
  restore-IsRestored (suc n) res i prev (v ∷ l) dirty h k m (f, fs) =
      elim (Bool-cases (sar (mutations res) i == 0)) [
        | inl over ↦
            rw (restore, over)
              (record {
                history = [];
                dirty = dirty;
                succeeds = refl;
                reads = λ q. sym (
                    constant_at res i prev (v ∷ l) (f, fs)
                      (small_of_shift (mutations res) i m (omega arith) over) q);
              })
        | inr more ↦
            let x =
              restore-IsRestored n res (suc i) v l (marks i prev v dirty) (omega arith)
                (omega arith) m fs in
            restore_then n res i prev v l dirty more f.restored (
              subst (λ w. IsRestored w l (restore n res (suc i) w (marks i prev w dirty)))
                (sym f.restored) x)
      ]
