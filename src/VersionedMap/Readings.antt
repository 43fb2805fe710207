-- ===== src/VersionedMap/Readings.antt =====
-- lib/versioned-map.ts: what `get` returns after `set`, `delete` and `collapse`.
use genieacs.Common.JsMap
use genieacs.Common.JsMap.{JsMap}
use genieacs.Common.Eq.{Equality, ◌===◌, ===_iff}
use genieacs.Common.{
  ℕ, suc, ◌+◌, ◌-◌, ◌≤◌, ◌<◌, min, ◌≡◌, refl, ◌∙◌, true, ◌&&◌, Option, none, some, [], ◌∷◌, ◌++◌,
  length, replicate, ltb, leb, All, if◌then◌else◌, length-append, length-replicate, arith,
  Bool-cases, Option-cases, inl, inr,
}
use genieacs.Common.Indexing.{get_elem?-append, get_elem?-replicate}
use genieacs.VersionedMap.History.{read-write, read_last, read_kept-collapse_history}
use genieacs.VersionedMap.{
  History, VersionedMap, get, set, delete, collapse, deleted, read, write, value_of,
  collapse_history, collapse_entries,
}

pub read_fresh :
    {V : Type 0} (rev : ℕ) (v : Option V) (r : ℕ)
    → read (replicate rev none ++ v ∷ []) r ≡ (if ltb r rev then some none else some v)
read_fresh {V} rev v r =
    rw (length-append (replicate rev none) (v ∷ []), length-replicate {A = Option V} rev none)
      (elim (Bool-cases (ltb r rev)) [
        | inl before ↦
            let i : min (rev + 1 - 1) r ≡ r = ground arith in
            rw (i, before)
              (get_elem?-append (replicate rev none) (v ∷ []) r
                ∙ rw (length-replicate {A = Option V} rev none, before)
                    (get_elem?-replicate rev none r (ground arith)))
        | inr after ↦
            let i : min (rev + 1 - 1) r ≡ rev = ground arith in
            rw (i, after)
              (get_elem?-append (replicate rev none) (v ∷ []) rev
                ∙ rw (length-replicate {A = Option V} rev none) (ground arith))
      ])

module _ {K V : Type 0} ⦃e : Equality K⦄ where
  -- No history is empty, none is longer than the revisions counted, and no key stands twice.
  abbrev pub Fits : ℕ → K × History V → Type 0
  Fits n (k, h) = (0 < length h) × (length h ≤ n)

  abbrev pub HasDistinctKeys : JsMap K (History V) → Type 0
  HasDistinctKeys [] = Unit
  HasDistinctKeys ((k, h) ∷ m) = (JsMap.get k m ≡ none) × HasDistinctKeys m

  pub record IsValid (m : VersionedMap K V) : Type 0 where
    pub fits : All (Fits (length m.size_diff)) m.entries
    pub distinct : HasDistinctKeys m.entries

  pub Fits-get :
      (n : ℕ) (k : K) (m : JsMap K (History V)) (h : History V)
      → All (Fits n) m
      → JsMap.get k m ≡ some h
      → (0 < length h) × (length h ≤ n)
  unfolding JsMap.get
  Fits-get n k [] h a g = cc
  Fits-get n k ((j, i) ∷ m) h (f, a) g = elim (Bool-cases (j === k)) [
    | inl same ↦ let s : i ≡ h = ground arith in rw (← s) f
    | inr other ↦ Fits-get n k m h a (rw other at g)
  ]

  -- After a successful set at revision rev, get returns the new value for that key from rev on,
  -- and for every other key and every earlier revision what it returned before.
  pub get-set :
      (key j : K) (value : V) (rev r : ℕ) (m : VersionedMap K V)
      → IsValid m
      → (set key value rev m).1 ≡ true
      → get j r (set key value rev m).0
        ≡ (if (key === j) && leb rev r then some value else get j r m)
  unfolding get set
  get-set key j value rev r m v ok = elim (Option-cases (JsMap.get key m.entries)) [
    | inl fresh ↦ ground (
      arith,
      JsMap.get-set key j (replicate rev none ++ some value ∷ []) m.entries,
      ===_iff key j,
      read_fresh rev (some value) r,
    )
    | inr ([], stored) ↦ absurd (omega (arith, Fits-get _ key m.entries [] v.fits stored))
    | inr (x ∷ xs, stored) ↦ ground (
      arith,
      JsMap.get-set key j (write (x ∷ xs) rev (some value)) m.entries,
      ===_iff key j,
      read-write x xs rev (some value) r,
    )
  ]

  -- After delete reports a deletion at revision rev, get returns nothing for that key from rev
  -- on, and elsewhere what it returned before.
  pub get-delete :
      (key j : K) (rev r : ℕ) (m : VersionedMap K V)
      → IsValid m
      → (delete key rev m).1 ≡ deleted
      → get j r (delete key rev m).0 ≡ (if (key === j) && leb rev r then none else get j r m)
  unfolding get delete
  get-delete key j rev r m v ok = elim (Option-cases (JsMap.get key m.entries)) [
    | inl fresh ↦ ground arith
    | inr ([], stored) ↦ absurd (omega (arith, Fits-get _ key m.entries [] v.fits stored))
    | inr (x ∷ xs, stored) ↦ ground (
      arith,
      JsMap.get-set key j (write (x ∷ xs) rev none) m.entries,
      ===_iff key j,
      read-write x xs rev none r,
    )
  ]

  get_entry : K → ℕ → JsMap K (History V) → Option V
  get_entry key r m = elim (JsMap.get key m) [
    | none ↦ none
    | some revisions ↦ value_of (read revisions r)
  ]

  pub get-collapse_entries_absent :
      (key : K) (rev : ℕ) (m : JsMap K (History V))
      → JsMap.get key m ≡ none
      → JsMap.get key (collapse_entries rev m) ≡ none
  unfolding JsMap.get collapse_entries
  get-collapse_entries_absent key rev [] h = refl
  get-collapse_entries_absent key rev ((k, v) ∷ m) h =
      ground (arith, get-collapse_entries_absent key rev m, Option-cases (collapse_history rev v))

  get_entry-collapse_entries :
      (key : K) (rev r last : ℕ) (m : JsMap K (History V))
      → HasDistinctKeys m
      → All (Fits (suc last)) m
      → get_entry key r (collapse_entries rev m)
        ≡ (if ltb r rev then get_entry key r m else get_entry key last m)
  unfolding JsMap.get collapse_entries get_entry
  get_entry-collapse_entries key rev r last [] d f = ground arith
  get_entry-collapse_entries key rev r last ((k, []) ∷ m) d f = absurd (omega arith)
  get_entry-collapse_entries key rev r last ((k, x ∷ xs) ∷ m) d f = ground (
    arith,
    get_entry-collapse_entries key rev r last m,
    get-collapse_entries_absent key rev m,
    ===_iff k key,
    read_kept-collapse_history x xs rev r last,
  )

  pub Fits-mono : (n o : ℕ) (m : JsMap K (History V)) → n ≤ o → All (Fits n) m → All (Fits o) m
  Fits-mono n o [] h f = tt
  Fits-mono n o ((k, i) ∷ m) h (f, fs) = (omega arith, Fits-mono n o m h fs)

  -- Past the newest revision `get` returns the newest value.
  pub get_newest :
      (key : K) (r s : ℕ) (m : VersionedMap K V)
      → IsValid m
      → length m.size_diff ≤ r
      → length m.size_diff ≤ s
      → get key r m ≡ get key s m
  unfolding get
  get_newest key r s m v p q = elim (Option-cases (JsMap.get key m.entries)) [
    | inl fresh ↦ rw (fresh, get)
    | inr ([], stored) ↦ absurd (omega (arith, Fits-get _ key m.entries [] v.fits stored))
    | inr (x ∷ xs, stored) ↦
        ground (
          arith,
          Fits-get _ key m.entries (x ∷ xs) v.fits stored,
          read_last x xs r,
          read_last x xs s,
        )
  ]

  -- Collapsing a well-formed map at revision rev keeps what is read at earlier revisions, and
  -- from rev on every key reads as its newest value, deleted entries included.
  pub get-collapse :
      (key : K) (rev r : ℕ) (m : VersionedMap K V)
      → IsValid m
      → get key r (collapse rev m)
        ≡ (if ltb r rev then get key r m else get key (length m.size_diff) m)
  unfolding get collapse get_entry
  get-collapse key rev r m v = ground (
    arith,
    get_entry-collapse_entries key rev r (length m.size_diff) m.entries v.distinct
        (Fits-mono (length m.size_diff) (suc (length m.size_diff)) m.entries (omega arith) v.fits),
    get_newest key r (length m.size_diff) m v,
  )
