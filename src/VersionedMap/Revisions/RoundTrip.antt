-- ===== src/VersionedMap/Revisions/RoundTrip.antt =====
-- lib/versioned-map.ts: `setRevisions` brings back what `getRevisions` gives.
use genieacs.Common.JsMap
use genieacs.Common.JsMap.{JsMap, get-set}
use genieacs.Common.Eq.{Equality, ===_iff, nat_eq}
use genieacs.Common.Bits.{bit, bit_zero}
use genieacs.Common.BitFields.{all_zero}
use native.Mathlib.Nat.{pow-le-pow_right}
use genieacs.Common.{
  ℕ, suc, ◌+◌, ◌^◌, ◌≤◌, ◌<◌, ◌≡◌, refl, sym, ◌∙◌, ap, subst, false, ◌&&◌, Option, none, some, [],
  ◌∷◌, length, ==_iff, ◌==◌, if◌then◌else◌, inl, inr, Bool-cases, All, arith,
}
use genieacs.VersionedMap.{History, VersionedMap, is_nonexistent, get}
use genieacs.VersionedMap.Revisions.{
  Revisions, mutations, same_entry, collect_changes, get_revisions, set_revisions,
}
use genieacs.VersionedMap.Revisions.Changes.{
  bit-mutations, IsBelow, All-bound, IsBelow-mutations, Follows,
}
use genieacs.VersionedMap.Revisions.Restoring.{at, read_at, constant_at, restore-IsRestored}
use genieacs.VersionedMap.Revisions.Collecting.{
  step, kept_entry, IsCollected, collect_changes-IsCollected,
}

module _ {V : Type 0} ⦃e : Equality V⦄ where
  collect_changes-last :
      (i : ℕ) (prev : Option V) (l : History V) (res : Revisions V)
      → (collect_changes i prev l res).1 ≡ at prev l (length l)
  unfolding collect_changes
  collect_changes-last i prev [] res = refl
  collect_changes-last i prev (v ∷ l) res =
      collect_changes-last (suc i) (if same_entry v prev then prev else v) l (step i prev v res)
      ∙ ap (λ w. at w l (length l)) (kept_entry v prev)

  abbrev no_changes : Revisions V
  no_changes = record { values = []; deleted = 0 }

  -- without a mutation nothing was deleted
  none_deleted :
      (res : Revisions V)
      → All (λ (e : ℕ × V). e.0 < 32) res.values
      → mutations res ≡ 0
      → res.deleted ≡ 0
  none_deleted res h z = all_zero (suc res.deleted) res.deleted (omega arith) (λ j.
      let digit : bit j (mutations res) ≡ 0 = ap (bit j) z ∙ bit_zero j in
      ground (arith, digit, bit-mutations j res.deleted res.values h))

  below_word :
      (h : History V) (res : Revisions V)
      → length h ≤ 31
      → IsBelow (0 + length h) res
      → mutations res < 2 ^ 31
  below_word h res k b =
      let small = IsBelow-mutations (0 + length h) res (omega arith) b in
      let power =
        pow-le-pow_right {n = 2} (omega arith) {i = 0 + length h} {j = 31} (omega arith) in
      omega (arith, small, power)

  -- a history that is not just absence has changes
  is_changed :
      (h : History V)
      → (is_nonexistent (collect_changes 0 none h no_changes).1
          && (collect_changes 0 none h no_changes).0.deleted == 0)
        ≡ false
      → length h ≤ 31
      → IsCollected 0 none h no_changes (collect_changes 0 none h no_changes)
      → (mutations (collect_changes 0 none h no_changes).0 == 0) ≡ false
  is_changed h kept k x =
      let r = collect_changes 0 none h no_changes in
      elim (Bool-cases (mutations r.0 == 0)) [
        | inr changed ↦ changed
        | inl zero_ ↦
            let z : mutations r.0 ≡ 0 = (==_iff (mutations r.0) 0).0 zero_ in
            let none_left =
              none_deleted r.0 (All-bound (0 + length h) 32 r.0.values (omega arith) x.below.places)
                z in
            let last : r.1 ≡ none =
              collect_changes-last 0 none h no_changes
              ∙ constant_at r.0 0 none h x.follows (omega (arith, z)) (length h) in
            absurd (ground (arith, kept, none_left, last))
      ]

-- What `setRevisions` gives: a map in which the key reads as in another one.
pub record IsBack {K V : Type 0} ⦃k : Equality K⦄ (key : K) (from : VersionedMap K V)
    (r : Option (VersionedMap K V)) : Type 0 where
  pub after : VersionedMap K V
  pub succeeds : r ≡ some after
  pub reads : (rev : ℕ) → get key rev after ≡ get key rev from

module _ {K V : Type 0} ⦃k : Equality K⦄ ⦃e : Equality V⦄ where
  get_at :
      (key : K) (rev : ℕ) (m : VersionedMap K V) (h : History V)
      → JsMap.get key m.entries ≡ some h
      → get key rev m ≡ at none h rev
  unfolding get
  get_at key rev m h stored_ = rw (get, stored_) (read_at h rev)

  set-IsBack :
      (key : K) (from to : VersionedMap K V) (h : History V) (res : Revisions V)
      → JsMap.get key from.entries ≡ some h
      → length h ≤ 31
      → Follows res 0 none h
      → (mutations res == 0) ≡ false
      → mutations res < 2 ^ 31
      → IsBack key from (set_revisions key res to)
  unfolding set_revisions
  set-IsBack key from to h res stored_ short f changed m =
      let y = restore-IsRestored 32 res 0 none h to.dirty (omega arith) (omega arith) m f in
      let put : JsMap.get key (JsMap.set key y.history to.entries) ≡ some y.history =
        get-set key key y.history to.entries ∙ ground (arith, ===_iff key key) in
      rw (set_revisions, changed, y.succeeds)
        (record {
          after = record to { entries = JsMap.set key y.history to.entries; dirty = y.dirty };
          succeeds = refl;
          reads = λ rev.
              get_at key rev
                (record to { entries = JsMap.set key y.history to.entries; dirty = y.dirty })
                y.history put
              ∙ y.reads rev
              ∙ sym (get_at key rev from h stored_);
        })

  -- If a key has a history of at most 31 revisions and getRevisions gives its changes, then
  -- setRevisions with them ends on any map, and the key reads there at every revision as it did
  -- before.
  pub set_revisions-get_revisions :
      (key : K) (from to : VersionedMap K V) (h : History V) (res : Revisions V)
      → JsMap.get key from.entries ≡ some h
      → length h ≤ 31
      → get_revisions key from ≡ some res
      → IsBack key from (set_revisions key res to)
  unfolding set_revisions get_revisions
  set_revisions-get_revisions key from to h res stored_ short given =
      let r = collect_changes 0 none h no_changes in
      let x =
        collect_changes-IsCollected 0 none h no_changes (omega arith)
          (record { bits = omega arith; places = tt }) in
      let collected : get_revisions key from
          ≡ (if is_nonexistent r.1 && r.0.deleted == 0 then none else some r.0) =
        rw (get_revisions, stored_) refl in
      let same : r.0 ≡ res = ground (arith, collected, given) in
      let kept : (is_nonexistent r.1 && r.0.deleted == 0) ≡ false =
        ground (arith, collected, given) in
      subst (λ w. IsBack key from (set_revisions key w to)) same
        (set-IsBack key from to h r.0 stored_ short x.follows (is_changed h kept short x)
          (below_word h r.0 short x.below))
