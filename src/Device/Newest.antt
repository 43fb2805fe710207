-- ===== src/Device/Newest.antt =====
-- lib/device.ts: the versioned maps of a session read and written at their newest revision.
use genieacs.Common.JsMap
use genieacs.Common.JsMap.{JsMap}
use genieacs.Common.Integer.{pos, negsuc}
use genieacs.Common.Eq.{JsString, js_string_eq, ◌===◌, ===_iff}
use genieacs.Common.{
  ℕ, suc, ◌-◌, ◌≡◌, refl, sym, ◌∙◌, ap, true, false, Option, none, some, [], ◌∷◌, length, ltb, leb,
  get_last_or, if◌then◌else◌, arith, Option-cases, Bool-cases, inl, inr,
}
use genieacs.VersionedMap
use genieacs.VersionedMap.{
  VersionedMap, History, is_nonexistent, deleted, missing, refused, Deletion,
}
use genieacs.VersionedMap.History.{read_last}
use genieacs.VersionedMap.Readings.{IsValid, Fits-get, get-set, get-delete}
use genieacs.VersionedMap.Validity.{
  set-IsValid, delete-IsValid, length-decrement_below, length-adjust_at,
}
use genieacs.Device.Setting.{current, put, remove}

module _ {V : Type 0} where
  -- Well formed, with no revision newer than the current one.
  pub record IsNewest (m : VersionedMap JsString V) : Type 0 where
    pub valid : IsValid m
    pub newest : length m.size_diff ≡ suc m.revision

  -- what a write at the newest revision leaves as it was
  abbrev HasShape : VersionedMap JsString V → VersionedMap JsString V → Type 0
  HasShape m r = (r.revision ≡ m.revision) × (length r.size_diff ≡ length m.size_diff)

  set_shape :
      (k : JsString) (v : V) (rev : ℕ) (m : VersionedMap JsString V)
      → IsValid m
      → length m.size_diff ≡ suc rev
      → HasShape m (VersionedMap.set k v rev m).0 × ((VersionedMap.set k v rev m).1 ≡ true)
  unfolding VersionedMap.set
  set_shape k v rev m valid n = elim (Option-cases (JsMap.get k m.entries)) [
    | inl fresh ↦
        rw (fresh, VersionedMap.set)
          ((refl, length-decrement_below rev m.size_diff (omega arith)), refl)
    | inr (h, stored) ↦
        let fits = Fits-get (length m.size_diff) k m.entries h valid.fits stored in
        let new : ltb rev (length h - 1) ≡ false = ground arith in
        elim (Bool-cases (is_nonexistent (get_last_or h none))) [
          | inl gone ↦
              rw (stored, VersionedMap.set, new, gone)
                ((refl, length-adjust_at rev (pos 1) m.size_diff (omega arith)), refl)
          | inr there ↦ rw (stored, VersionedMap.set, new, there) ((refl, refl), refl)
        ]
  ]

  pub put-IsNewest :
      (k : JsString) (v : V) (m : VersionedMap JsString V) → IsNewest m → IsNewest (put k v m)
  put-IsNewest k v m n =
      let ((r, l), o) = set_shape k v m.revision m n.valid n.newest in
      record {
        valid = set-IsValid k v m.revision m n.valid (omega (arith, n.newest));
        newest = l ∙ n.newest ∙ ap suc (sym r);
      }

  pub current-put :
      (k j : JsString) (v : V) (m : VersionedMap JsString V)
      → IsNewest m
      → current j (put k v m) ≡ (if k === j then some v else current j m)
  current-put k j v m n =
      let ((r, l), o) = set_shape k v m.revision m n.valid n.newest in
      let now : leb m.revision m.revision ≡ true = ground arith in
      rw (r, get-set k j v m.revision m.revision m n.valid o, now) (ground arith)

  nonexistent_none : (v : Option V) → is_nonexistent v ≡ true → v ≡ none
  nonexistent_none none h = refl
  nonexistent_none (some v) h = cc

  -- a key with no value
  unread :
      (k j : JsString) (rev : ℕ) (m : VersionedMap JsString V)
      → VersionedMap.get k rev m ≡ none
      → VersionedMap.get j rev m ≡ (if k === j then none else VersionedMap.get j rev m)
  unread k j rev m e = elim (Bool-cases (k === j)) [
    | inl same ↦ rw (same, ← (===_iff k j).0 same) e
    | inr other ↦ rw other
  ]

  delete_shape :
      (k j : JsString) (rev : ℕ) (m : VersionedMap JsString V)
      → IsValid m
      → length m.size_diff ≡ suc rev
      → HasShape m (VersionedMap.delete k rev m).0
        × (VersionedMap.get j rev (VersionedMap.delete k rev m).0
            ≡ (if k === j then none else VersionedMap.get j rev m))
  unfolding VersionedMap.delete VersionedMap.get
  delete_shape k j rev m valid n = elim (Option-cases (JsMap.get k m.entries)) [
    | inl fresh ↦
        rw (fresh, VersionedMap.delete)
          ((refl, refl), unread k j rev m (rw (VersionedMap.get, fresh)))
    | inr ([], stored) ↦
        absurd (omega (arith, Fits-get (length m.size_diff) k m.entries [] valid.fits stored))
    | inr (x ∷ xs, stored) ↦
        let fits = Fits-get (length m.size_diff) k m.entries (x ∷ xs) valid.fits stored in
        let new : ltb rev (length (x ∷ xs) - 1) ≡ false = ground arith in
        elim (Bool-cases (is_nonexistent (get_last_or xs x))) [
          | inl gone ↦
              rw (stored, VersionedMap.delete, new, gone)
                (
                  (refl, refl),
                  unread k j rev m (
                      rw (VersionedMap.get, stored, read_last x xs rev (omega arith))
                        (nonexistent_none (get_last_or xs x) gone)),
                )
          | inr there ↦
              let done : (VersionedMap.delete k rev m).1 ≡ deleted =
                rw (VersionedMap.delete, stored, new, there) in
              let now : leb rev rev ≡ true = ground arith in
              let read = get-delete k j rev rev m valid done in
              (
                rw (stored, VersionedMap.delete, new, there)
                    (refl, length-adjust_at rev (negsuc 0) m.size_diff (omega arith)),
                read ∙ rw now (ground arith),
              )
        ]
  ]

  pub remove-IsNewest :
      (k : JsString) (m : VersionedMap JsString V) → IsNewest m → IsNewest (remove k m)
  remove-IsNewest k m n =
      let ((r, l), o) = delete_shape k k m.revision m n.valid n.newest in
      record {
        valid = delete-IsValid k m.revision m n.valid (omega (arith, n.newest));
        newest = l ∙ n.newest ∙ ap suc (sym r);
      }

  pub current-remove :
      (k j : JsString) (m : VersionedMap JsString V)
      → IsNewest m
      → current j (remove k m) ≡ (if k === j then none else current j m)
  current-remove k j m n =
      let ((r, l), o) = delete_shape k j m.revision m n.valid n.newest in rw r o
