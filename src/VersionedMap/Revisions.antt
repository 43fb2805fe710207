-- ===== src/VersionedMap/Revisions.antt =====
-- lib/versioned-map.ts: `getRevisions` and `setRevisions`, which store the changes of one key.
pub mod Changes
pub mod Restoring
pub mod Collecting
pub mod RoundTrip
use genieacs.Common.JsMap
use genieacs.Common.JsMap.{JsMap}
use genieacs.Common.Eq.{Equality, ◌===◌, nat_eq}
use genieacs.Common.Words.{shl, sar, or_bits, and_bits}
use genieacs.Common.{
  ℕ, zero, suc, Bool, true, false, not, ◌&&◌, Option, none, some, List, [], ◌∷◌, ◌==◌,
  if◌then◌else◌,
}
use genieacs.VersionedMap.{History, VersionedMap, is_nonexistent}

-- The values under the revisions in which they were set, and as bits those in which the key was
-- deleted; no bit stands for no `delete`.
pub record Revisions {ℓ} (V : Type ℓ) : Type ℓ where
  pub values : JsMap ℕ V
  pub deleted : ℕ

abbrev pub holds_bit : ℕ → ℕ → Bool
holds_bit bits i = not (and_bits bits (shl 1 i) == 0)

-- `mutations`
unfoldable pub mutations_from {ℓ} : {V : Type ℓ} → ℕ → JsMap ℕ V → ℕ
mutations_from bits [] = bits
mutations_from bits ((i, v) ∷ l) = mutations_from (or_bits bits (shl 1 i)) l

abbrev pub mutations {ℓ} : {V : Type ℓ} → Revisions V → ℕ
mutations revisions = mutations_from revisions.deleted revisions.values

module _ {ℓ} {V : Type ℓ} ⦃e : Equality V⦄ where
  -- `v === prev`
  abbrev pub same_entry : Option V → Option V → Bool
  same_entry none none = true
  same_entry (some v) (some w) = v === w
  same_entry _ _ = false

  abbrev pub put_change : ℕ → Option V → Revisions V → Revisions V
  put_change i none res = record res { deleted = or_bits res.deleted (shl 1 i) }
  put_change i (some v) res = record res { values = JsMap.set i v res.values }

  -- the loop of `getRevisions`, with the entry before `i`
  unfoldable pub collect_changes : ℕ → Option V → History V → Revisions V → Revisions V × Option V
  collect_changes i prev [] res = (res, prev)
  collect_changes i prev (v ∷ l) res =
      let known = same_entry v prev in
      collect_changes (suc i) (if known then prev else v) l
        (if known then res else put_change i v res)

  -- what revision `i` holds, when the one before holds `prev`
  abbrev pub restored_entry : Revisions V → ℕ → Option V → Option V
  restored_entry revisions i prev =
      if holds_bit revisions.deleted i
      then none
      else elim (JsMap.get i revisions.values) [ none ↦ prev | some v ↦ some v ]

  -- the loop of `setRevisions`, with the bits of `dirty`; `none` when the fuel runs out
  unfoldable pub restore : ℕ → Revisions V → ℕ → Option V → ℕ → Option (History V × ℕ)
  restore zero revisions i prev dirty = none
  restore (suc n) revisions i prev dirty =
      let v = restored_entry revisions i prev in
      let rest =
        restore n revisions (suc i) v
          (if same_entry v prev then dirty else or_bits dirty (shl 1 i)) in
      if sar (mutations revisions) i == 0
      then some ([], dirty)
      else elim rest [ none ↦ none | some (l, d) ↦ some (v ∷ l, d) ]

module _ {ℓ κ} {K : Type ℓ} {V : Type κ} ⦃k : Equality K⦄ ⦃e : Equality V⦄ where
  unfoldable pub get_revisions : K → VersionedMap K V → Option (Revisions V)
  unfolding collect_changes
  get_revisions key m = elim (JsMap.get key m.entries) [
    | none ↦ none
    | some revisions ↦
        let (res, last) = collect_changes 0 none revisions (record { values = []; deleted = 0 }) in
        if is_nonexistent last && res.deleted == 0 then none else some res
  ]

  -- `none` is the loop that does not end: 32 rounds are enough unless bit 31 is set
  unfoldable pub set_revisions : K → Revisions V → VersionedMap K V → Option (VersionedMap K V)
  unfolding restore
  set_revisions key revisions m =
      if mutations revisions == 0 then some m else elim (restore 32 revisions 0 none m.dirty) [
        | none ↦ none
        | some (history, dirty) ↦
            some (record m { entries = JsMap.set key history m.entries; dirty = dirty })
      ]
