-- ===== src/VersionedMap/Size.antt =====
-- lib/versioned-map.ts: `size` and the counters behind it.
use genieacs.Common.JsMap
use genieacs.Common.JsMap.{JsMap}
use genieacs.Common.Eq.{Equality}
use genieacs.Common.Integer.{ℤ, pos, negsuc, ◌+ℤ◌, sub_ℕ}
use genieacs.Common.{
  ℕ, zero, suc, ◌+◌, ◌-◌, ◌≤◌, ◌<◌, ◌≡◌, refl, Bool, true, Option, none, some, List, [], ◌∷◌, ◌++◌,
  length, get_last_or, replicate, ltb, ◌==◌, if◌then◌else◌, arith, Bool-cases, Option-cases, inl,
  inr,
}
use genieacs.VersionedMap.Validity.{length-decrement_below, length-adjust_at}
use genieacs.VersionedMap.History.{read-write, read_last}
use genieacs.VersionedMap.Readings.{IsValid, Fits-get, read_fresh}
use genieacs.VersionedMap.{
  History, Count, num, add_count, count_at, VersionedMap, set, delete, read, write, exists_in,
  is_nonexistent, size, decrement_below, adjust_at,
}

abbrev pub weight {ℓ} : {V : Type ℓ} → ℕ → History V → ℕ
weight r h = if exists_in (read h r) then 1 else 0

-- How many keys have a value at revision `r`.
unfoldable pub live : {K V : Type 0} → ℕ → JsMap K (History V) → ℕ
live r [] = 0
live r ((k, h) ∷ m) = weight r h + live r m

-- Each counter, added to the number of entries, gives the keys that have a value at its revision.
abbrev pub IsCounted : {K V : Type 0} → VersionedMap K V → Type 0
IsCounted m =
    (r : ℕ)
    → r < length m.size_diff
    → count_at m.size_diff r ≡ num (sub_ℕ (live r m.entries) (length m.entries))

count_at-decrement_below :
    (n r : ℕ) (ds : List Count)
    → n ≤ length ds
    → r < length ds
    → count_at (decrement_below n ds) r
      ≡ (if ltb r n then add_count (count_at ds r) (negsuc 0) else count_at ds r)
unfolding decrement_below
count_at-decrement_below zero r ds p q = ground arith
count_at-decrement_below (suc n) r [] p q = absurd (omega arith)
count_at-decrement_below (suc n) zero (d ∷ ds) p q = ground arith
count_at-decrement_below (suc n) (suc r) (d ∷ ds) p q =
    ground (arith, count_at-decrement_below n r ds)

count_at-adjust_at :
    (i : ℕ) (by : ℤ) (r : ℕ) (ds : List Count)
    → i < length ds
    → r < length ds
    → count_at (adjust_at i by ds) r
      ≡ (if r == i then add_count (count_at ds r) by else count_at ds r)
unfolding adjust_at
count_at-adjust_at i by r [] p q = absurd (omega arith)
count_at-adjust_at zero by zero (d ∷ ds) p q = refl
count_at-adjust_at zero by (suc r) (d ∷ ds) p q = ground arith
count_at-adjust_at (suc i) by zero (d ∷ ds) p q = ground arith
count_at-adjust_at (suc i) by (suc r) (d ∷ ds) p q = ground (arith, count_at-adjust_at i by r ds)

module _ {K V : Type 0} ⦃e : Equality K⦄ where
  live-set_fresh :
      (r : ℕ) (k : K) (h : History V) (m : JsMap K (History V))
      → JsMap.get k m ≡ none
      → (live r (JsMap.set k h m) ≡ live r m + weight r h)
        × (length (JsMap.set k h m) ≡ length m + 1)
  unfolding live JsMap.set JsMap.get
  live-set_fresh r k h [] g = (omega arith, omega arith)
  live-set_fresh r k h ((j, i) ∷ m) g = ground (arith, live-set_fresh r k h m)

  live-set_stored :
      (r : ℕ) (k : K) (h old : History V) (m : JsMap K (History V))
      → JsMap.get k m ≡ some old
      → (live r (JsMap.set k h m) + weight r old ≡ live r m + weight r h)
        × (length (JsMap.set k h m) ≡ length m)
  unfolding live JsMap.set JsMap.get
  live-set_stored r k h old [] g = cc
  live-set_stored r k h old ((j, i) ∷ m) g = ground (arith, live-set_stored r k h old m)

  fresh-IsCounted :
      (key : K) (value : V) (rev r : ℕ) (m : VersionedMap K V)
      → IsCounted m
      → rev < length m.size_diff
      → r < length m.size_diff
      → JsMap.get key m.entries ≡ none
      → (let h = replicate rev none ++ some value ∷ [] in
          count_at (decrement_below rev m.size_diff) r
          ≡ num (sub_ℕ (live r (JsMap.set key h m.entries)) (length (JsMap.set key h m.entries))))
  unfolding ◌+ℤ◌
  fresh-IsCounted key value rev r m c p q fresh = ground (
    arith,
    c r q,
    count_at-decrement_below rev r m.size_diff,
    live-set_fresh r key (replicate rev none ++ some value ∷ []) m.entries fresh,
    read_fresh rev (some value) r,
  )

  stored-IsCounted :
      (key : K) (v : Option V) (rev r : ℕ) (m : VersionedMap K V) (x : Option V) (xs : History V)
      (by : ℤ) (change : Bool)
      → IsCounted m
      → length m.size_diff ≡ suc rev
      → r < length m.size_diff
      → JsMap.get key m.entries ≡ some (x ∷ xs)
      → length xs ≤ rev
      → (sub_ℕ
            (if is_nonexistent v then 0 else 1)
            (if is_nonexistent (get_last_or xs x) then 0 else 1)
          ≡ (if change then by else pos 0))
      → (let m' = JsMap.set key (write (x ∷ xs) rev v) m.entries in
          count_at (if change then adjust_at rev by m.size_diff else m.size_diff) r
          ≡ num (sub_ℕ (live r m') (length m')))
  unfolding ◌+ℤ◌
  stored-IsCounted key v rev r m x xs by change c n q stored p d = ground (
    arith,
    c r q,
    count_at-adjust_at rev by r m.size_diff,
    live-set_stored r key (write (x ∷ xs) rev v) (x ∷ xs) m.entries stored,
    read-write x xs rev v r,
    read_last x xs r,
  )

  -- set at the newest counted revision keeps every size counter equal to the number of live keys
  -- at its revision minus the number of entries.
  set-IsCounted :
      (key : K) (value : V) (rev : ℕ) (m : VersionedMap K V)
      → IsValid m
      → IsCounted m
      → length m.size_diff ≡ suc rev
      → IsCounted (set key value rev m).0
  unfolding set
  set-IsCounted key value rev m v c n = elim (Option-cases (JsMap.get key m.entries)) [
    | inl fresh ↦
        rw (fresh, set)
          λ r p.
            fresh-IsCounted key value rev r m c (omega arith)
              (omega (arith, length-decrement_below rev m.size_diff (omega arith))) fresh
    | inr ([], stored) ↦ absurd (omega (arith, Fits-get _ key m.entries [] v.fits stored))
    | inr (x ∷ xs, stored) ↦ elim (Bool-cases (ltb rev (suc (length xs) - 1))) [
      | inl old ↦ rw (stored, set, old) c
      | inr new ↦
          rw (stored, set, new)
            λ r p.
              stored-IsCounted key (some value) rev r m x xs (pos 1)
                (is_nonexistent (get_last_or xs x)) c n
                (ground (arith, length-adjust_at rev (pos 1) m.size_diff)) stored (ground arith)
                (ground arith)
    ]
  ]

  -- delete at the newest counted revision keeps the size counters right in the same sense,
  -- whether it deletes, finds nothing or refuses.
  delete-IsCounted :
      (key : K) (rev : ℕ) (m : VersionedMap K V)
      → IsValid m
      → IsCounted m
      → length m.size_diff ≡ suc rev
      → IsCounted (delete key rev m).0
  unfolding delete
  delete-IsCounted key rev m v c n = elim (Option-cases (JsMap.get key m.entries)) [
    | inl fresh ↦ rw (fresh, delete) c
    | inr ([], stored) ↦ absurd (omega (arith, Fits-get _ key m.entries [] v.fits stored))
    | inr (x ∷ xs, stored) ↦ elim (Bool-cases (ltb rev (suc (length xs) - 1))) [
      | inl old ↦ rw (stored, delete, old) c
      | inr new ↦ elim (Bool-cases (is_nonexistent (get_last_or xs x))) [
        | inl gone ↦ rw (stored, delete, new, gone) c
        | inr there ↦
            rw (stored, delete, new, there)
              λ r p.
                stored-IsCounted key none rev r m x xs (negsuc 0) true c n
                  (omega (arith, length-adjust_at rev (negsuc 0) m.size_diff (omega arith))) stored
                  (ground arith) (ground arith)
      ]
    ]
  ]

  -- set and delete at the newest counted revision keep every size counter equal to the number of
  -- live keys at its revision minus the number of entries, whether delete deletes, finds nothing
  -- or refuses.
  pub changed-IsCounted :
      (key : K) (value : V) (rev : ℕ) (m : VersionedMap K V)
      → IsValid m
      → IsCounted m
      → length m.size_diff ≡ suc rev
      → IsCounted (set key value rev m).0 × IsCounted (delete key rev m).0
  changed-IsCounted key value rev m v c n =
      (set-IsCounted key value rev m v c n, delete-IsCounted key rev m v c n)

  -- When the counters are right and the current revision is counted, size is the number of keys
  -- that have a value at the current revision.
  pub size-live :
      (m : VersionedMap K V)
      → IsCounted m
      → m.revision < length m.size_diff
      → size m ≡ num (pos (live m.revision m.entries))
  unfolding size ◌+ℤ◌
  size-live m c p = ground (arith, c m.revision p)
