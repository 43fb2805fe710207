-- ===== src/VersionedMap/Tests.antt =====
-- lib/versioned-map.ts on a small map, and the theorems at it.
use genieacs.Common.JsMap
use genieacs.Common.Eq.{nat_eq, ◌===◌}
use genieacs.Common.Integer.{pos, negsuc, ◌+ℤ◌}
use genieacs.Common.{
  ℕ, zero, suc, ◌≡◌, refl, ◌&&◌, none, some, [], ◌∷◌, length, ltb, leb, arith, if◌then◌else◌,
}
use genieacs.Common.Words.{shl, sar}
use genieacs.VersionedMap.Readings.{IsValid, get-set, get-delete, get-collapse}
use genieacs.VersionedMap.Validity.{changed-IsValid}
use genieacs.VersionedMap.Size.{live, IsCounted, changed-IsCounted}
use genieacs.VersionedMap.Revisions.{
  Revisions, get_revisions, set_revisions, collect_changes, restore, mutations_from,
}
use genieacs.VersionedMap.Revisions.RoundTrip.{IsBack, set_revisions-get_revisions}
use genieacs.VersionedMap.{
  VersionedMap, num, empty, size, get, set, delete, set_revision, collapse, decrement_below,
  adjust_at, write,
}

-- The map with key 7 set at revision 1, and deleted at revision 2.
abbrev one_key : VersionedMap ℕ ℕ
one_key = record {
  size_diff = num (negsuc 0) ∷ num (pos 0) ∷ [];
  revision = 1;
  entries = (7, none ∷ some 40 ∷ []) ∷ [];
  dirty = 2;
}

abbrev deleted_key : VersionedMap ℕ ℕ
deleted_key = record {
  size_diff = num (negsuc 0) ∷ num (pos 0) ∷ num (negsuc 0) ∷ [];
  revision = 1;
  entries = (7, none ∷ some 40 ∷ none ∷ []) ∷ [];
  dirty = 6;
}

one_key_is_set : (set 7 40 1 (set_revision 1 empty)).0 ≡ one_key
unfolding set set_revision decrement_below JsMap.get JsMap.set ◌+ℤ◌ shl
one_key_is_set = refl

deleted_key_is_deleted :
    (delete 7 2 (set_revision 2 one_key)).0 ≡ record deleted_key { revision = 2 }
unfolding delete set_revision adjust_at write JsMap.get JsMap.set ◌+ℤ◌ shl
deleted_key_is_deleted = refl

-- After a collapse at revision 1 the map is empty, and its size is -1.
collapsed_size : size (collapse 1 deleted_key) ≡ num (negsuc 0)
unfolding size collapse ◌+ℤ◌
collapsed_size = refl

one_key-IsValid : IsValid one_key
unfolding JsMap.get
one_key-IsValid = record { fits = (omega arith, tt); distinct = (refl, tt) }

deleted_key-IsValid : IsValid deleted_key
unfolding JsMap.get
deleted_key-IsValid = record { fits = (omega arith, tt); distinct = (refl, tt) }

one_key-IsCounted : IsCounted one_key
unfolding live
one_key-IsCounted zero p = refl
one_key-IsCounted (suc zero) p = refl
one_key-IsCounted (suc (suc r)) p = absurd (omega arith)

get-set_example :
    get 7 1 (set 7 41 1 one_key).0
    ≡ (if ◌===◌ {A = ℕ} 7 7 && leb 1 1 then some 41 else get 7 1 one_key)
unfolding set JsMap.get
get-set_example = get-set 7 7 41 1 1 one_key one_key-IsValid refl

get-delete_example :
    get 7 0 (delete 7 1 one_key).0
    ≡ (if ◌===◌ {A = ℕ} 7 7 && leb 1 0 then none else get 7 0 one_key)
unfolding delete JsMap.get
get-delete_example = get-delete 7 7 1 0 one_key one_key-IsValid refl

get-collapse_example :
    get 7 1 (collapse 1 deleted_key)
    ≡ (if ltb 1 1 then get 7 1 deleted_key else get 7 (length deleted_key.size_diff) deleted_key)
get-collapse_example = get-collapse 7 1 1 deleted_key deleted_key-IsValid

changed-IsValid_example :
    IsValid (set 8 1 1 deleted_key).0
    × IsValid (delete 8 1 deleted_key).0
    × IsValid (collapse 1 deleted_key)
changed-IsValid_example = changed-IsValid 8 1 1 deleted_key deleted_key-IsValid (omega arith)

changed-IsCounted_example : IsCounted (set 7 1 1 one_key).0 × IsCounted (delete 7 1 one_key).0
changed-IsCounted_example = changed-IsCounted 7 1 1 one_key one_key-IsValid one_key-IsCounted refl

-- Key 7 was set at revision 1 and deleted at revision 2.
abbrev stored_changes : Revisions ℕ
stored_changes = record { values = (1, 40) ∷ []; deleted = 4 }

changes_of_deleted : get_revisions 7 deleted_key ≡ some stored_changes
unfolding get_revisions collect_changes JsMap.get JsMap.set shl
changes_of_deleted = refl

set_revisions-get_revisions_example : IsBack 7 deleted_key (set_revisions 7 stored_changes empty)
unfolding JsMap.get
set_revisions-get_revisions_example =
    set_revisions-get_revisions 7 deleted_key empty (none ∷ some 40 ∷ none ∷ []) stored_changes refl
      (omega arith) changes_of_deleted

-- With bit 31 the loop goes on for ever.
endless :
    set_revisions {V = ℕ} 7 (record { values = []; deleted = 2147483648 }) (empty {K = ℕ}) ≡ none
unfolding set_revisions restore mutations_from JsMap.get shl sar
endless = refl
