-- ===== src/VersionedMap/Revisions/Collecting.antt =====
-- lib/versioned-map.ts: the loop of `getRevisions` collects changes that tell the history.
use genieacs.Common.JsMap
use genieacs.Common.JsMap.{JsMap, get-set}
use genieacs.Common.Eq.{Equality, ===_iff, nat_eq}
use genieacs.Common.Words.{shl, or_bits}
use genieacs.Common.Bits.{bit}
use genieacs.Common.BitFields.{bit-mark, bit_beyond, below_power, test_digit}
use genieacs.Common.{
  ℕ, suc, ◌+◌, ◌≤◌, ◌<◌, ◌≡◌, refl, sym, ◌∙◌, ap, subst, Bool, true, false, Option, none, some, [],
  ◌∷◌, length, ◌==◌, if◌then◌else◌, inl, inr, Bool-cases, All, arith,
}
use genieacs.VersionedMap.{History}
use genieacs.VersionedMap.Revisions.{
  Revisions, same_entry, put_change, collect_changes, restored_entry,
}
use genieacs.VersionedMap.Revisions.Changes.{
  stored, bit-mutations, get-beyond, All-mono, All-set, IsBelow, Agrees, All-bound,
  IsBelow-mutations, power_up, same_entry_lem, IsEntry, Follows,
}

module _ {V : Type 0} ⦃e : Equality V⦄ where
  -- what one entry does to the changes
  abbrev pub step : ℕ → Option V → Option V → Revisions V → Revisions V
  step i prev v res = if same_entry v prev then res else put_change i v res

  pub put_change-IsBelow :
      (i : ℕ) (v : Option V) (res : Revisions V)
      → i < 32
      → IsBelow i res
      → IsBelow (suc i) (put_change i v res)
  put_change-IsBelow i none res k b = record {
    bits = below_power (suc i) (or_bits res.deleted (shl 1 i)) (λ j h.
        let beyond = bit_beyond i j res.deleted b.bits (omega arith) in
        bit-mark j i res.deleted k ∙ ground (arith, beyond));
    places = All-mono i res.values b.places;
  }
  put_change-IsBelow i (some v) res k b = record {
    bits = power_up res.deleted i b.bits;
    places = All-set i v res.values b.places;
  }

  pub step-IsBelow :
      (i : ℕ) (prev v : Option V) (res : Revisions V)
      → i < 32
      → IsBelow i res
      → IsBelow (suc i) (step i prev v res)
  step-IsBelow i prev v res k b = elim (Bool-cases (same_entry v prev)) [
    | inl same ↦
        rw same
          (record { bits = power_up res.deleted i b.bits; places = All-mono i res.values b.places })
    | inr new_ ↦ rw new_ (put_change-IsBelow i v res k b)
  ]

  pub put_change-Agrees :
      (i : ℕ) (v : Option V) (res : Revisions V) → i < 32 → Agrees i (put_change i v res) res
  put_change-Agrees i none res k = record {
    bits = λ j h. bit-mark j i res.deleted k ∙ ground arith;
    places = λ j h. refl;
  }
  put_change-Agrees i (some v) res k = record {
    bits = λ j h. refl;
    places = λ j h. get-set i j v res.values ∙ ground (arith, ===_iff i j);
  }

  pub step-Agrees :
      (i : ℕ) (prev v : Option V) (res : Revisions V) → i < 32 → Agrees i (step i prev v res) res
  step-Agrees i prev v res k = elim (Bool-cases (same_entry v prev)) [
    | inl same ↦ rw same (record { bits = λ j h. refl; places = λ j h. refl })
    | inr new_ ↦ rw new_ (put_change-Agrees i v res k)
  ]

  pub Agrees-trans :
      (i : ℕ) (a b c : Revisions V) → Agrees (suc i) a b → Agrees i b c → Agrees i a c
  Agrees-trans i a b c x y = record {
    bits = λ j h. x.bits j (omega arith) ∙ y.bits j h;
    places = λ j h. x.places j (omega arith) ∙ y.places j h;
  }

  -- the entry at `i`, from its digit and its value
  abbrev pub entry_of : ℕ → Option V → Option V → Option V
  entry_of digit value_ prev =
      if digit == 0 then elim value_ [ none ↦ prev | some v ↦ some v ] else none

  pub restored_entry_lem :
      (res : Revisions V) (i : ℕ) (prev : Option V)
      → i < 32
      → restored_entry res i prev ≡ entry_of (bit i res.deleted) (JsMap.get i res.values) prev
  restored_entry_lem res i prev h = elim (Bool-cases (bit i res.deleted == 0)) [
    | inl clear ↦ let tested = test_digit i res.deleted h in rw (restored_entry, tested, clear) refl
    | inr set_ ↦ let tested = test_digit i res.deleted h in rw (restored_entry, tested, set_) refl
  ]

  pub changed_entry :
      (i : ℕ) (prev v : Option V) (res : Revisions V)
      → i < 32
      → IsBelow i res
      → entry_of (bit i (put_change i v res).deleted) (JsMap.get i (put_change i v res).values) prev
        ≡ v
  changed_entry i prev none res k b =
      let set_ : bit i (or_bits res.deleted (shl 1 i)) ≡ 1 =
        bit-mark i i res.deleted k ∙ ground arith in
      rw set_ refl
  changed_entry i prev (some w) res k b =
      let unset = bit_beyond i i res.deleted b.bits (omega arith) in
      let there : JsMap.get i (JsMap.set i w res.values) ≡ some w =
        get-set i i w res.values ∙ ground (arith, ===_iff i i) in
      rw (unset, there) refl

  pub step-entry :
      (i : ℕ) (prev v : Option V) (res : Revisions V)
      → i < 32
      → IsBelow i res
      → entry_of (bit i (step i prev v res).deleted) (JsMap.get i (step i prev v res).values) prev
        ≡ v
  step-entry i prev v res k b = elim (Bool-cases (same_entry v prev)) [
    | inl same ↦
        let unset = bit_beyond i i res.deleted b.bits (omega arith) in
        let missing = get-beyond i i res.values b.places (omega arith) in
        rw (same, unset, missing) (sym (same_entry_lem v prev same))
    | inr new_ ↦ rw new_ (changed_entry i prev v res k b)
  ]

  pub change_marked :
      (i : ℕ) (v : Option V) (res : Revisions V)
      → i < 32
      → (if stored i (put_change i v res).values then 1 else bit i (put_change i v res).deleted) ≡ 1
  change_marked i none res k =
      let set_ : bit i (or_bits res.deleted (shl 1 i)) ≡ 1 =
        bit-mark i i res.deleted k ∙ ground arith in
      rw set_ (ground arith)
  change_marked i (some w) res k =
      let there : JsMap.get i (JsMap.set i w res.values) ≡ some w =
        get-set i i w res.values ∙ ground (arith, ===_iff i i) in
      rw (stored, there) refl

  pub kept_entry : (v prev : Option V) → (if same_entry v prev then prev else v) ≡ v
  kept_entry v prev = elim (Bool-cases (same_entry v prev)) [
    | inl same ↦ rw same (sym (same_entry_lem v prev same))
    | inr new_ ↦ rw new_ refl
  ]

  -- the entry at `i` in what the loop collects, from what it has after that entry
  pub entry_lem :
      (i : ℕ) (prev v : Option V) (res last : Revisions V)
      → i < 32
      → IsBelow i res
      → All (λ (e : ℕ × V). e.0 < 32) last.values
      → Agrees (suc i) last (step i prev v res)
      → IsEntry last i prev v
  entry_lem i prev v res last k b h a = record {
    restored =
        restored_entry_lem last i prev k
        ∙ ap (λ d. entry_of d (JsMap.get i last.values) prev) (a.bits i (omega arith))
        ∙ ap (λ o. entry_of (bit i (step i prev v res).deleted) o prev) (a.places i (omega arith))
        ∙ step-entry i prev v res k b;
    marked = elim (Bool-cases (same_entry v prev)) [
      | inl same ↦ inl (same_entry_lem v prev same)
      | inr new_ ↦ inr (
          bit-mutations i last.deleted last.values h
          ∙ ap (λ d. if stored i last.values then 1 else d) (a.bits i (omega arith))
          ∙ ap
              (λ (o : Option V).
                if (elim o as (λ _. Bool) [ none ↦ false | some w ↦ true ])
                then 1
                else bit i (step i prev v res).deleted)
              (a.places i (omega arith))
          ∙ rw new_ (change_marked i v res k))
    ];
  }

  pub record IsCollected (i : ℕ) (prev : Option V) (l : History V) (res : Revisions V)
      (r : Revisions V × Option V) : Type 0 where
    pub agrees : Agrees i r.0 res
    pub follows : Follows r.0 i prev l
    pub below : IsBelow (i + length l) r.0

  pub collect_changes-IsCollected :
      (i : ℕ) (prev : Option V) (l : History V) (res : Revisions V)
      → i + length l ≤ 31
      → IsBelow i res
      → IsCollected i prev l res (collect_changes i prev l res)
  unfolding collect_changes
  collect_changes-IsCollected i prev [] res k b = record {
    agrees = record { bits = λ j h. refl; places = λ j h. refl };
    follows = IsBelow-mutations i res (omega arith) b;
    below = let same : i + 0 ≡ i = omega arith in subst (λ n. IsBelow n res) (sym same) b;
  }
  collect_changes-IsCollected i prev (v ∷ l) res k b =
      let known = same_entry v prev in
      let x =
        collect_changes-IsCollected (suc i) (if known then prev else v) l (step i prev v res)
          (omega arith) (step-IsBelow i prev v res (omega arith) b) in
      let last = (collect_changes (suc i) (if known then prev else v) l (step i prev v res)).0 in
      let next : suc i + length l ≡ i + suc (length l) = omega arith in
      record {
        agrees =
            Agrees-trans i last (step i prev v res) res x.agrees
              (step-Agrees i prev v res (omega arith));
        follows = (
          entry_lem i prev v res last (omega arith) b
              (All-bound (suc i + length l) 32 last.values (omega arith) x.below.places) x.agrees,
          subst (λ w. Follows last (suc i) w l) (kept_entry v prev) x.follows,
        );
        below = subst (λ n. IsBelow n last) next x.below;
      }
