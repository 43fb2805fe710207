-- ===== src/VersionedMap.antt =====
-- lib/versioned-map.ts: a map that keeps the value of each key at every revision.
-- `none` in a history is the symbol NONEXISTENT; `Count.nan` is JavaScript's NaN. No history that
-- the class stores is empty; an empty one is read as the source reads it.
pub mod History
pub mod Readings
pub mod Validity
pub mod Size
pub mod Collapse
pub mod Revisions
mod Tests
use genieacs.Common.JsMap
use genieacs.Common.JsMap.{JsMap}
use genieacs.Common.Eq.{Equality}
use genieacs.Common.Integer.{ℤ, pos, negsuc, ◌+ℤ◌}
use genieacs.Common.Words.{shl, sar, or_bits, xor_bits, truth_bit}
use genieacs.Common.{
  ℕ, zero, suc, ◌+◌, ◌-◌, ◌≤◌, ◌<◌, min, ◌≡◌, refl, Bool, true, false, not, ◌&&◌, ◌||◌, Option,
  none, some, List, [], ◌∷◌, ◌++◌, length, get_elem?, get_last_or, put_elem, take, drop, replicate,
  ltb, leb, ◌==◌, if◌then◌else◌,
}

pub data Count : Type 0 where
  num : ℤ → Count
  nan : Count

abbrev pub add_count : Count → ℤ → Count
add_count (num a) b = num (a +ℤ b)
add_count nan b = nan

-- the values of one key, indexed by revision
abbrev pub History {ℓ} : Type ℓ → Type ℓ
History V = List (Option V)

pub record VersionedMap {ℓ κ} (K : Type ℓ) (V : Type κ) : Type (ℓ ⊔ κ) where
  pub size_diff : List Count
  pub revision : ℕ
  pub entries : JsMap K (History V)
  pub dirty : ℕ

-- `for (let i = 0; i < n; ++i) this._sizeDiff[i] -= 1`; past the end `undefined - 1` is NaN
unfoldable pub decrement_below : ℕ → List Count → List Count
decrement_below zero ds = ds
decrement_below (suc n) [] = nan ∷ decrement_below n []
decrement_below (suc n) (d ∷ ds) = add_count d (negsuc 0) ∷ decrement_below n ds

-- `this._sizeDiff[i] += by`, likewise
unfoldable pub adjust_at : ℕ → ℤ → List Count → List Count
adjust_at zero by [] = nan ∷ []
adjust_at (suc i) by [] = nan ∷ adjust_at i by []
adjust_at zero by (d ∷ ds) = add_count d by ∷ ds
adjust_at (suc i) by (d ∷ ds) = d ∷ adjust_at i by ds

-- `this._sizeDiff[this.revision]`
abbrev pub count_at : List Count → ℕ → Count
count_at [] r = nan
count_at (d ∷ ds) zero = d
count_at (d ∷ ds) (suc r) = count_at ds r

-- `for (let i = ds.length; i <= rev; ++i) ds[i] = ds[i - 1]`, for the rounds left
unfoldable pub extend_by : ℕ → List Count → List Count
extend_by n ds = ds ++ replicate n (get_last_or ds nan)

-- `revisions[Math.min(revisions.length - 1, rev)]`; the outer `none` is `undefined`
abbrev pub read {ℓ} : {V : Type ℓ} → History V → ℕ → Option (Option V)
read revisions rev = get_elem? revisions (min (length revisions - 1) rev)

abbrev pub value_of {ℓ} : {V : Type ℓ} → Option (Option V) → Option V
value_of none = none
value_of (some v) = v

abbrev pub exists_in {ℓ} : {V : Type ℓ} → Option (Option V) → Bool
exists_in (some none) = false
exists_in _ = true

-- `for (i = revisions.length; i < rev; ++i) revisions[i] = old; revisions[rev] = v`
unfoldable pub write {ℓ} : {V : Type ℓ} → History V → ℕ → Option V → History V
write revisions rev v =
    put_elem rev v (revisions ++ replicate (rev - length revisions) (get_last_or revisions none))

abbrev pub is_nonexistent {ℓ} : {V : Type ℓ} → Option V → Bool
is_nonexistent none = true
is_nonexistent (some v) = false

abbrev pub all_nonexistent {ℓ} : {V : Type ℓ} → History V → Bool
all_nonexistent [] = true
all_nonexistent (v ∷ vs) = is_nonexistent v && all_nonexistent vs

-- `v.splice(revision, l - revision)`, where `l` is the last index
abbrev pub splice {ℓ} : {V : Type ℓ} → ℕ → History V → History V
splice revision v = take revision v ++ drop (length v - 1) v

-- one round of the loop of `collapse`; `none` where the entry is deleted
unfoldable pub collapse_history {ℓ} : {V : Type ℓ} → ℕ → History V → Option (History V)
collapse_history revision v =
    if leb (length v - 1) revision
    then some v
    else if is_nonexistent (get_last_or v none) && all_nonexistent (splice revision v)
    then none
    else some (splice revision v)

abbrev pub keep_entry {ℓ κ} :
    {K : Type ℓ} {V : Type κ} → K → Option (History V) → JsMap K (History V) → JsMap K (History V)
keep_entry k none m = m
keep_entry k (some v) m = (k, v) ∷ m

unfoldable pub collapse_entries {ℓ κ} :
    {K : Type ℓ} {V : Type κ} → ℕ → JsMap K (History V) → JsMap K (History V)
collapse_entries revision [] = []
collapse_entries revision ((k, v) ∷ m) =
    keep_entry k (collapse_history revision v) (collapse_entries revision m)

unfoldable pub collapse_dirty : ℕ → ℕ → ℕ
collapse_dirty revision dirty =
    let d = sar dirty revision in
    or_bits (xor_bits dirty (shl d revision)) (shl (truth_bit d) revision)

-- what `delete` returns; `refused` is `null`
pub data Deletion : Type 0 where
  deleted missing refused : Deletion

-- one entry of `diff`
abbrev pub diff_entry {ℓ κ} :
    {K : Type ℓ} {V : Type κ} → K → Option V → Option V → List (K × Option V × Option V)
diff_entry k none none = []
diff_entry k first last = (k, first, last) ∷ []

module _ {ℓ κ} {K : Type ℓ} {V : Type κ} where
  -- the constructor
  abbrev pub empty : VersionedMap K V
  empty = record { size_diff = num (pos 0) ∷ []; revision = 0; entries = []; dirty = 0 }

  unfoldable pub size : VersionedMap K V → Count
  size m = add_count (count_at m.size_diff m.revision) (pos (length m.entries))

  unfoldable pub set_revision : ℕ → VersionedMap K V → VersionedMap K V
  unfolding extend_by
  set_revision rev m = record m {
    size_diff = extend_by (suc rev - length m.size_diff) m.size_diff;
    revision = rev;
  }

  unfoldable pub diff : JsMap K (History V) → List (K × Option V × Option V)
  diff [] = []
  diff ((k, []) ∷ m) = diff m
  diff ((k, v ∷ []) ∷ m) = diff m
  diff ((k, v ∷ w ∷ vs) ∷ m) = diff_entry k v (get_last_or (w ∷ vs) none) ++ diff m

  unfoldable pub collapse : ℕ → VersionedMap K V → VersionedMap K V
  unfolding collapse_entries collapse_history collapse_dirty
  collapse revision m = if leb (length m.size_diff) revision then m else record m {
    size_diff = take revision m.size_diff ++ get_last_or m.size_diff nan ∷ [];
    dirty = collapse_dirty revision m.dirty;
    entries = collapse_entries revision m.entries;
  }

module _ {ℓ κ} {K : Type ℓ} {V : Type κ} ⦃e : Equality K⦄ where
  unfoldable pub get : K → ℕ → VersionedMap K V → Option V
  get key rev m = elim (JsMap.get key m.entries) [
    | none ↦ none
    | some revisions ↦ value_of (read revisions rev)
  ]

  unfoldable pub has : K → ℕ → VersionedMap K V → Bool
  has key rev m = elim (JsMap.get key m.entries) [
    | none ↦ false
    | some revisions ↦ exists_in (read revisions rev)
  ]

  -- the Boolean is false where the source returns null
  unfoldable pub set : K → V → ℕ → VersionedMap K V → VersionedMap K V × Bool
  set key value rev m = elim (JsMap.get key m.entries) [
    | none ↦ (
      record m {
        dirty = or_bits m.dirty (shl 1 rev);
        size_diff = decrement_below rev m.size_diff;
        entries = JsMap.set key (replicate rev none ++ some value ∷ []) m.entries;
      },
      true,
    )
    | some revisions ↦ if ltb rev (length revisions - 1) then (m, false) else (
      record m {
        dirty = or_bits m.dirty (shl 1 rev);
        size_diff =
            if is_nonexistent (get_last_or revisions none)
            then adjust_at rev (pos 1) m.size_diff
            else m.size_diff;
        entries = JsMap.set key (write revisions rev (some value)) m.entries;
      },
      true,
    )
  ]

  unfoldable pub delete : K → ℕ → VersionedMap K V → VersionedMap K V × Deletion
  delete key rev m = elim (JsMap.get key m.entries) [
    | none ↦ (m, missing)
    | some revisions ↦
        if ltb rev (length revisions - 1)
        then (m, refused)
        else if is_nonexistent (get_last_or revisions none)
        then (m, missing)
        else (
          record m {
            dirty = or_bits m.dirty (shl 1 rev);
            size_diff = adjust_at rev (negsuc 0) m.size_diff;
            entries = JsMap.set key (write revisions rev none) m.entries;
          },
          deleted,
        )
  ]

  unfoldable pub get_diff : K → VersionedMap K V → Option V × Option V
  get_diff key m = elim (JsMap.get key m.entries) [
    | none ↦ (none, none)
    | some revisions ↦ (value_of (get_elem? revisions 0), get_last_or revisions none)
  ]
