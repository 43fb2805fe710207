-- ===== src/VersionedMap/History.antt =====
-- lib/versioned-map.ts: what is read from one key's history after a write or a collapse.
use genieacs.Common.Indexing.{
  get_elem?-append, get_elem?-replicate, get_elem?-put_elem, length-put_elem, get_elem?-length_pred,
  get_elem?-take, length-take_le, drop-length_pred,
}
use genieacs.Common.{
  ℕ, zero, suc, ◌-◌, ◌≤◌, ◌<◌, min, max, ◌≡◌, refl, sym, ◌∙◌, true, Option, none, some, [], ◌∷◌,
  ◌++◌, length, get_elem?, get_last_or, take, drop, replicate, ltb, ◌==◌, if◌then◌else◌,
  length-append, length-replicate, arith, Bool-cases, inl, inr,
}
use genieacs.VersionedMap.{
  History, read, write, splice, collapse_history, value_of, all_nonexistent,
}

module _ {V : Type 0} where
  padded : History V → ℕ → History V
  padded h rev = h ++ replicate (rev - length h) (get_last_or h none)

  length-padded : (h : History V) (rev : ℕ) → length (padded h rev) ≡ max rev (length h)
  unfolding padded
  length-padded h rev = omega (
    arith,
    length-append h (replicate (rev - length h) (get_last_or h none)),
    length-replicate (rev - length h) (get_last_or h none),
  )

  pub length-write :
      (h : History V) (rev : ℕ) (v : Option V)
      → length h - 1 ≤ rev
      → length (write h rev v) ≡ suc rev
  unfolding write padded
  length-write h rev v p = omega (
    arith,
    length-padded h rev,
    length-put_elem rev v (padded h rev) (omega (arith, length-padded h rev)),
  )

  -- Reading at or past the last index gives the last value.
  pub read_last :
      (x : Option V) (xs : History V) (r : ℕ)
      → length xs ≤ r
      → read (x ∷ xs) r ≡ some (get_last_or xs x)
  read_last x xs r p =
      let e : min (suc (length xs) - 1) r ≡ length xs = omega arith in
      rw e (get_elem?-length_pred x xs none)

  read_before :
      (x : Option V) (xs : History V) (r : ℕ)
      → r ≤ length xs
      → read (x ∷ xs) r ≡ get_elem? (x ∷ xs) r
  read_before x xs r p = let e : min (suc (length xs) - 1) r ≡ r = omega arith in rw e

  get_elem?-padded :
      (x : Option V) (xs : History V) (rev j : ℕ)
      → j < max rev (suc (length xs))
      → get_elem? (padded (x ∷ xs) rev) j ≡ read (x ∷ xs) j
  unfolding padded
  get_elem?-padded x xs rev j p = elim (Bool-cases (ltb j (suc (length xs)))) [
    | inl inside ↦
        get_elem?-append (x ∷ xs) (replicate (rev - suc (length xs)) (get_last_or xs x)) j
        ∙ rw inside (sym (read_before x xs j (ground arith)))
    | inr outside ↦
        get_elem?-append (x ∷ xs) (replicate (rev - suc (length xs)) (get_last_or xs x)) j
        ∙ rw outside (
            get_elem?-replicate (rev - suc (length xs)) (get_last_or xs x) (j - suc (length xs))
              (ground arith)
            ∙ sym (read_last x xs j (ground arith)))
  ]

  get_elem?-write :
      (x : Option V) (xs : History V) (rev : ℕ) (v : Option V) (j : ℕ)
      → length xs ≤ rev
      → j ≤ rev
      → get_elem? (write (x ∷ xs) rev v) j ≡ (if rev == j then some v else read (x ∷ xs) j)
  unfolding write padded
  get_elem?-write x xs rev v j p q =
      get_elem?-put_elem rev v (padded (x ∷ xs) rev) j (omega (arith, length-padded (x ∷ xs) rev))
      ∙ elim (Bool-cases (rev == j)) [
        | inl same ↦ rw same
        | inr other ↦ rw other (get_elem?-padded x xs rev j (ground arith))
      ]

  -- A write at the newest revision or later changes what is read from that revision on, and nothing
  -- before it.
  pub read-write :
      (x : Option V) (xs : History V) (rev : ℕ) (v : Option V) (r : ℕ)
      → length xs ≤ rev
      → read (write (x ∷ xs) rev v) r ≡ (if ltb r rev then read (x ∷ xs) r else some v)
  read-write x xs rev v r p =
      rw (length-write (x ∷ xs) rev v (omega arith)) (elim (Bool-cases (ltb r rev)) [
        | inl before ↦
            let e : min (suc rev - 1) r ≡ r = ground arith in
            rw (e, before) (ground (arith, get_elem?-write x xs rev v r p))
        | inr after ↦
            let e : min (suc rev - 1) r ≡ rev = ground arith in
            rw (e, after) (ground (arith, get_elem?-write x xs rev v rev p))
      ])

  pub length-splice :
      (x : Option V) (xs : History V) (rev : ℕ)
      → rev ≤ length xs
      → length (splice rev (x ∷ xs)) ≡ suc rev
  length-splice x xs rev p =
      let e : suc (length xs) - 1 ≡ length xs = omega arith in
      rw (e, drop-length_pred x xs x)
        (omega (
          arith,
          length-append (take rev (x ∷ xs)) (get_last_or xs x ∷ []),
          length-take_le rev (x ∷ xs) (omega arith),
        ))

  -- After a splice the newest value stands at `rev`, and what was read before `rev` is unchanged.
  pub read-splice :
      (x : Option V) (xs : History V) (rev r : ℕ)
      → rev ≤ length xs
      → read (splice rev (x ∷ xs)) r
        ≡ (if ltb r rev then read (x ∷ xs) r else some (get_last_or xs x))
  read-splice x xs rev r p = rw (length-splice x xs rev p) (elim (Bool-cases (ltb r rev)) [
    | inl before ↦
        let e : min (suc rev - 1) r ≡ r = ground arith in
        let e' : suc (length xs) - 1 ≡ length xs = omega arith in
        let e'' : min (length xs) r ≡ r = ground arith in
        rw (e, before, e', e'')
          (get_elem?-append (take rev (x ∷ xs)) (drop (length xs) (x ∷ xs)) r
            ∙ rw (length-take_le rev (x ∷ xs) (omega arith), before)
                (get_elem?-take rev (x ∷ xs) r (ground arith)))
    | inr after ↦
        let e : min (suc rev - 1) r ≡ rev = ground arith in
        let e' : suc (length xs) - 1 ≡ length xs = omega arith in
        rw (e, after, e')
          (get_elem?-append (take rev (x ∷ xs)) (drop (length xs) (x ∷ xs)) rev
            ∙ rw (length-take_le rev (x ∷ xs) (omega arith), drop-length_pred x xs x)
                (ground arith))
  ])

  get_elem?-all_nonexistent :
      (h : History V) (j : ℕ) → all_nonexistent h ≡ true → j < length h → get_elem? h j ≡ some none
  get_elem?-all_nonexistent [] j h p = elim p [ ]
  get_elem?-all_nonexistent (none ∷ vs) zero h p = refl
  get_elem?-all_nonexistent (some v ∷ vs) j h p = cc
  get_elem?-all_nonexistent (none ∷ vs) (suc j) h p = get_elem?-all_nonexistent vs j h (omega arith)

  pub read-all_nonexistent :
      (h : History V) (r : ℕ) → all_nonexistent h ≡ true → 0 < length h → read h r ≡ some none
  read-all_nonexistent h r a p = get_elem?-all_nonexistent h (min (length h - 1) r) a (omega arith)

  -- What a collapsed history reads as: a deleted entry reads as nonexistent everywhere.
  abbrev pub read_kept : Option (History V) → ℕ → Option V
  read_kept none r = none
  read_kept (some h) r = value_of (read h r)

  pub read_kept-collapse_history :
      (x : Option V) (xs : History V) (rev r last : ℕ)
      → length xs ≤ last
      → read_kept (collapse_history rev (x ∷ xs)) r
        ≡ (if ltb r rev then value_of (read (x ∷ xs) r) else value_of (read (x ∷ xs) last))
  unfolding collapse_history
  read_kept-collapse_history x xs rev r last p = ground (
    arith,
    read_last x xs r,
    read_last x xs last,
    read-splice x xs rev r,
    length-splice x xs rev,
    read-all_nonexistent (splice rev (x ∷ xs)) r,
  )
