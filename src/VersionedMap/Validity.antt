-- ===== src/VersionedMap/Validity.antt =====
-- lib/versioned-map.ts: the operations keep the map well formed.
use genieacs.Common.JsMap
use genieacs.Common.JsMap.{JsMap}
use genieacs.Common.Eq.{Equality, ◌===◌, ===_iff}
use genieacs.Common.Integer.{ℤ, pos, negsuc}
use genieacs.Common.{
  ℕ, zero, suc, ◌+◌, ◌-◌, ◌≤◌, ◌<◌, ◌≡◌, refl, ◌∙◌, ap, Option, none, some, List, [], ◌∷◌, length,
  get_last_or, replicate, take, ltb, leb, All, length-append, length-replicate, arith, Bool-cases,
  Option-cases, inl, inr,
}
use genieacs.Common.Indexing.{length-take_le}
use genieacs.VersionedMap.History.{length-write, length-splice}
use genieacs.VersionedMap.Readings.{
  IsValid, Fits, HasDistinctKeys, Fits-mono, get-collapse_entries_absent,
}
use genieacs.VersionedMap.{
  History, Count, VersionedMap, nan, is_nonexistent, set, delete, collapse, set_revision,
  decrement_below, adjust_at, collapse_history, collapse_entries,
}

pub length-decrement_below :
    (n : ℕ) (ds : List Count) → n ≤ length ds → length (decrement_below n ds) ≡ length ds
unfolding decrement_below
length-decrement_below zero ds h = refl
length-decrement_below (suc n) [] h = absurd (omega arith)
length-decrement_below (suc n) (d ∷ ds) h = ap suc (length-decrement_below n ds (omega arith))

pub length-adjust_at :
    (i : ℕ) (by : ℤ) (ds : List Count) → i < length ds → length (adjust_at i by ds) ≡ length ds
unfolding adjust_at
length-adjust_at i by [] h = absurd (omega arith)
length-adjust_at zero by (d ∷ ds) h = refl
length-adjust_at (suc i) by (d ∷ ds) h = ap suc (length-adjust_at i by ds (omega arith))

module _ {K V : Type 0} ⦃e : Equality K⦄ where
  Fits-set :
      (n : ℕ) (k : K) (h : History V) (m : JsMap K (History V))
      → Fits n (k, h)
      → All (Fits n) m
      → All (Fits n) (JsMap.set k h m)
  unfolding JsMap.set
  Fits-set n k h [] f a = (f, tt)
  Fits-set n k h ((j, i) ∷ m) f (g, a) = ground (arith, Fits-set n k h m f a)

  HasDistinctKeys-set :
      (k : K) (h : History V) (m : JsMap K (History V))
      → HasDistinctKeys m
      → HasDistinctKeys (JsMap.set k h m)
  unfolding JsMap.set JsMap.get
  HasDistinctKeys-set k h [] d = (refl, tt)
  HasDistinctKeys-set k h ((j, i) ∷ m) (u, d) = elim (Bool-cases (j === k)) [
    | inl same ↦ rw same (u, d)
    | inr other ↦ rw other (
      JsMap.get-set k j h m ∙ ground (arith, ===_iff k j, ===_iff j k),
      HasDistinctKeys-set k h m d,
    )
  ]

  store-IsValid :
      (m : VersionedMap K V) (ds : List Count) (key : K) (h : History V) (d : ℕ)
      → IsValid m
      → length ds ≡ length m.size_diff
      → (0 < length h) × (length h ≤ length m.size_diff)
      → IsValid (record m { size_diff = ds; entries = JsMap.set key h m.entries; dirty = d })
  store-IsValid m ds key h d v l f = record {
    fits = rw l (Fits-set (length m.size_diff) key h m.entries f v.fits);
    distinct = HasDistinctKeys-set key h m.entries v.distinct;
  }

  -- set at a counted revision keeps the map well formed: no empty history, none longer than the
  -- counters, no key twice.
  pub set-IsValid :
      (key : K) (value : V) (rev : ℕ) (m : VersionedMap K V)
      → IsValid m
      → rev < length m.size_diff
      → IsValid (set key value rev m).0
  unfolding set
  set-IsValid key value rev m v p = elim (Option-cases (JsMap.get key m.entries)) [
    | inl fresh ↦
        rw (fresh, set)
          (store-IsValid m _ key _ _ v (length-decrement_below rev m.size_diff (omega arith)) (
            omega (
              arith,
              length-append (replicate rev none) (some value ∷ []),
              length-replicate {A = Option V} rev none,
            )))
    | inr (h, stored) ↦ elim (Bool-cases (ltb rev (length h - 1))) [
      | inl old ↦ rw (stored, set, old) v
      | inr new ↦
          rw (stored, set, new)
            (store-IsValid m _ key _ _ v (ground (arith, length-adjust_at rev (pos 1) m.size_diff))
              (omega (arith, length-write h rev (some value) (ground arith))))
    ]
  ]

  -- delete at a counted revision keeps the map well formed.
  pub delete-IsValid :
      (key : K) (rev : ℕ) (m : VersionedMap K V)
      → IsValid m
      → rev < length m.size_diff
      → IsValid (delete key rev m).0
  unfolding delete
  delete-IsValid key rev m v p = elim (Option-cases (JsMap.get key m.entries)) [
    | inl fresh ↦ rw (fresh, delete) v
    | inr (h, stored) ↦ elim (Bool-cases (ltb rev (length h - 1))) [
      | inl old ↦ rw (stored, delete, old) v
      | inr new ↦ elim (Bool-cases (is_nonexistent (get_last_or h none))) [
        | inl gone ↦ rw (stored, delete, new, gone) v
        | inr there ↦
            rw (stored, delete, new, there)
              (store-IsValid m _ key _ _ v (length-adjust_at rev (negsuc 0) m.size_diff p)
                (omega (arith, length-write h rev none (ground arith))))
      ]
    ]
  ]

  -- Moving to another revision keeps it well formed and counts that revision.
  pub set_revision-IsValid :
      (rev : ℕ) (m : VersionedMap K V)
      → IsValid m
      → IsValid (set_revision rev m) × (rev < length (set_revision rev m).size_diff)
  unfolding set_revision
  set_revision-IsValid rev m v =
      let grown =
        length-append m.size_diff
          (replicate (suc rev - length m.size_diff) (get_last_or m.size_diff nan)) in
      let filled = length-replicate (suc rev - length m.size_diff) (get_last_or m.size_diff nan) in
      (
        record {
          fits = Fits-mono (length m.size_diff) _ m.entries (omega (arith, grown)) v.fits;
          distinct = v.distinct;
        },
        omega (arith, grown, filled),
      )

  pub Fits-collapse_history :
      (rev n : ℕ) (h i : History V) (k : K)
      → Fits n (k, h)
      → collapse_history rev h ≡ some i
      → Fits (suc rev) (k, i)
  unfolding collapse_history
  Fits-collapse_history rev n [] i k f g = absurd (omega arith)
  Fits-collapse_history rev n (x ∷ xs) i k f g = ground (arith, length-splice x xs rev)

  Fits-collapse_entries :
      (rev n : ℕ) (m : JsMap K (History V))
      → All (Fits n) m
      → All (Fits (suc rev)) (collapse_entries rev m)
  unfolding collapse_entries
  Fits-collapse_entries rev n [] a = tt
  Fits-collapse_entries rev n ((k, h) ∷ m) (f, a) = elim (Option-cases (collapse_history rev h)) [
    | inl gone ↦ rw gone (Fits-collapse_entries rev n m a)
    | inr (i, kept) ↦
        rw kept (Fits-collapse_history rev n h i k f kept, Fits-collapse_entries rev n m a)
  ]

  HasDistinctKeys-collapse_entries :
      (rev : ℕ) (m : JsMap K (History V))
      → HasDistinctKeys m
      → HasDistinctKeys (collapse_entries rev m)
  unfolding collapse_entries
  HasDistinctKeys-collapse_entries rev [] d = tt
  HasDistinctKeys-collapse_entries rev ((k, h) ∷ m) (u, d) =
      elim (Option-cases (collapse_history rev h)) [
        | inl gone ↦ rw gone (HasDistinctKeys-collapse_entries rev m d)
        | inr (i, kept) ↦
            rw kept
              (get-collapse_entries_absent k rev m u, HasDistinctKeys-collapse_entries rev m d)
      ]

  -- collapse keeps the map well formed.
  pub collapse-IsValid : (rev : ℕ) (m : VersionedMap K V) → IsValid m → IsValid (collapse rev m)
  unfolding collapse
  collapse-IsValid rev m v = elim (Bool-cases (leb (length m.size_diff) rev)) [
    | inl short ↦ rw short v
    | inr long ↦ rw long (record {
      fits =
          rw
            (
              length-append (take rev m.size_diff) (get_last_or m.size_diff nan ∷ []),
              length-take_le rev m.size_diff (ground arith),
            )
            (Fits-mono (suc rev) (rev + 1) _ (omega arith)
              (Fits-collapse_entries rev (length m.size_diff) m.entries v.fits));
      distinct = HasDistinctKeys-collapse_entries rev m.entries v.distinct;
    })
  ]

  -- set and delete at a counted revision, and collapse, keep the map well formed: no empty
  -- history, none longer than the counters, no key twice.
  pub changed-IsValid :
      (key : K) (value : V) (rev : ℕ) (m : VersionedMap K V)
      → IsValid m
      → rev < length m.size_diff
      → IsValid (set key value rev m).0 × IsValid (delete key rev m).0 × IsValid (collapse rev m)
  changed-IsValid key value rev m v p =
      (set-IsValid key value rev m v p, delete-IsValid key rev m v p, collapse-IsValid rev m v)
