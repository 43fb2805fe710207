-- ===== src/Lock/Table.antt =====
-- A collection of locks as a map, which behaves as lib/lock.ts asks.
use genieacs.Common.Eq.{JsString, js_string_eq, ◌===◌, ===_iff}
use genieacs.Common.JsMap.{JsMap, get, set, delete, get-set, get-delete}
use genieacs.Common.{
  ℕ, ◌<◌, ◌≡◌, ◌≢◌, refl, sym, ap, subst, ◌∙◌, true, false, Bool-cases, Option-cases, inl, inr,
  Option, none, some, [], ◌∷◌, ltb, if◌then◌else◌, arith,
}
use genieacs.Lock.{LockDoc, LockCollection, IsCollection}

abbrev pub LockTable : Type 0
LockTable = JsMap JsString LockDoc

abbrev pub upsert_doc : JsString → JsString → ℕ → ℕ → LockTable → Option (LockTable × LockDoc)
upsert_doc name token expire now d =
    let doc : LockDoc = record { value = token; expire = expire; timestamp = now } in
    elim (get name d) [
      | none ↦ some (set name doc d, doc)
      | some e ↦ if e.value === token then some (set name doc d, doc) else none
    ]

abbrev pub delete_doc : JsString → JsString → LockTable → LockTable × ℕ
delete_doc name token d = elim (get name d) [
  | none ↦ (d, 0)
  | some e ↦ if e.value === token then (delete name d, 1) else (d, 0)
]

abbrev pub sweep_docs : ℕ → LockTable → LockTable
sweep_docs now [] = []
sweep_docs now ((k, e) ∷ d) =
    let more = sweep_docs now d in if ltb now e.expire then (k, e) ∷ more else more

abbrev pub table : LockCollection LockTable
table = record {
  upsert = upsert_doc;
  delete_one = delete_doc;
  find_one = λ name d. get name d;
  sweep = sweep_docs;
}

differs : (a b : JsString) → a ≢ b → (a === b) ≡ false
differs a b n = elim (Bool-cases (a === b)) [
  | inl same ↦ absurd (n ((===_iff a b).0 same))
  | inr apart ↦ apart
]

agrees : (a b : JsString) → a ≡ b → (a === b) ≡ true
agrees a b h = (===_iff a b).1 h

get-sweep :
    (name : JsString) (now : ℕ) (d : LockTable) (e : LockDoc)
    → get name d ≡ some e
    → now < e.expire
    → get name (sweep_docs now d) ≡ some e
unfolding get
get-sweep name now [] e h k = absurd (ground (arith, h))
get-sweep name now ((j, f) ∷ d) e h k = elim (Bool-cases (j === name)) [
  | inl here ↦
      let one : f ≡ e = ground (arith, h, here) in
      let kept : ltb now f.expire ≡ true = rw (one) (ground arith) in rw (kept, here) (ap some one)
  | inr there ↦
      let rest = get-sweep name now d e (ground (arith, h, there)) k in
      elim (Bool-cases (ltb now f.expire)) [
        | inl kept ↦ rw (kept, there) rest
        | inr expired ↦ rw (expired) rest
      ]
]

module _ (name token : JsString) (expire now : ℕ) (d : LockTable) where
  taken :
      (e : LockDoc)
      → get name d ≡ some e
      → e.value ≢ token
      → upsert_doc name token expire now d ≡ none
  taken e h n = rw (upsert_doc, h, differs e.value token n) refl

  abbrev doc : LockDoc
  doc = record { value = token; expire = expire; timestamp = now }

  stored : get name (set name doc d) ≡ some doc
  stored = get-set name name doc d ∙ rw (agrees name name refl) refl

  opened :
      ((e : LockDoc) → get name d ≡ some e → e.value ≡ token)
      → (after : LockTable) × (upsert_doc name token expire now d ≡ some (after, doc))
        × (get name after ≡ some doc)
  opened h = elim (Option-cases (get name d)) [
    | inl missing ↦ (set name doc d, rw (upsert_doc, missing) refl, stored)
    | inr (e, found) ↦
        (set name doc d, rw (upsert_doc, found, agrees e.value token (h e found)) refl, stored)
  ]

  kept_by :
      (other : JsString) (after : LockTable) (e : LockDoc)
      → upsert_doc name token expire now d ≡ some (after, e)
      → upsert_doc name token expire now d ≡ some (set name doc d, doc)
      → get other (set name doc d) ≡ get other d
      → get other after ≡ get other d
  kept_by other after e h k same =
      let one : set name doc d ≡ after = ground (arith, h, k) in
      subst (λ x. get other x ≡ get other d) one same

  others_kept :
      (other : JsString) (after : LockTable) (e : LockDoc)
      → other ≢ name
      → upsert_doc name token expire now d ≡ some (after, e)
      → get other after ≡ get other d
  others_kept other after e n h =
      let apart : (name === other) ≡ false = differs name other (λ q. n (sym q)) in
      let same : get other (set name doc d) ≡ get other d =
        get-set name other doc d ∙ rw (apart) refl in
      elim (Option-cases (get name d)) [
        | inl missing ↦ kept_by other after e h (rw (upsert_doc, missing) refl) same
        | inr (f, found) ↦ elim (Bool-cases (f.value === token)) [
          | inl mine ↦ kept_by other after e h (rw (upsert_doc, found, mine) refl) same
          | inr others ↦
              let refused : upsert_doc name token expire now d ≡ none =
                rw (upsert_doc, found, others) refl in
              absurd (ground (arith, h, refused))
        ]
      ]

  deleted :
      (e : LockDoc)
      → get name d ≡ some e
      → e.value ≡ token
      → (after : LockTable) × (delete_doc name token d ≡ (after, 1)) × (get name after ≡ none)
  deleted e h m = (
    delete name d,
    rw (delete_doc, h, agrees e.value token m) refl,
    get-delete name name d ∙ rw (agrees name name refl) refl,
  )

  missed :
      ((e : LockDoc) → get name d ≡ some e → e.value ≢ token) → delete_doc name token d ≡ (d, 0)
  missed h = elim (Option-cases (get name d)) [
    | inl missing ↦ rw (delete_doc, missing) refl
    | inr (e, found) ↦ rw (delete_doc, found, differs e.value token (h e found)) refl
  ]

  delete_kept :
      (other : JsString) → other ≢ name → get other (delete_doc name token d).0 ≡ get other d
  delete_kept other n =
      let apart : (name === other) ≡ false = differs name other (λ q. n (sym q)) in
      elim (Option-cases (get name d)) [
        | inl missing ↦ rw (delete_doc, missing) refl
        | inr (e, found) ↦ elim (Bool-cases (e.value === token)) [
          | inl mine ↦ rw (delete_doc, found, mine, get-delete name other d, apart) refl
          | inr others ↦ rw (delete_doc, found, others) refl
        ]
      ]

pub table-IsCollection : IsCollection table
table-IsCollection = record {
  upsert_taken = taken;
  upsert_open = opened;
  upsert_others =
      λ name token other expire now d after e. others_kept name token expire now d other after e;
  delete_hit = λ name token d. deleted name token 0 0 d;
  delete_miss = λ name token d. missed name token 0 0 d;
  delete_others = λ name token other d. delete_kept name token 0 0 d other;
  sweep_keeps = get-sweep;
}
