-- ===== src/Session/Duplicates.antt =====
-- lib/session.ts: what the search for duplicates in `addProvisions` finds and leaves.
use genieacs.Common.Eq.{JsString, js_string_eq, ◌===◌, ===_iff}
use genieacs.Common.{
  ℕ, suc, ◌+◌, ◌≡◌, refl, ap, subst, true, false, Bool-cases, inl, inr, ◌⊎◌, List, [], ◌∷◌, ◌++◌,
  length, arith,
}
use genieacs.Expression.{Primitives, Items}
use genieacs.Session.{Channels, provision_text, remove_duplicates, take_out, holders}

module _ {N : Type 0} ⦃p : Primitives N⦄ where
  -- no provision has the text
  abbrev pub IsFree : JsString → List (Items N) → Type 0
  IsFree s [] = Unit
  IsFree s (q ∷ l) = ((provision_text q === s) ≡ false) × IsFree s l

  -- no two provisions have the same text
  abbrev pub IsDistinct : List (Items N) → Type 0
  IsDistinct [] = Unit
  IsDistinct (q ∷ l) = IsFree (provision_text q) l × IsDistinct l

  pub IsFree-append :
      (s : JsString) (l m : List (Items N)) → IsFree s l → IsFree s m → IsFree s (l ++ m)
  IsFree-append s [] m h k = k
  IsFree-append s (q ∷ l) m (f, h) k = (f, IsFree-append s l m h k)

  IsFree-left : (s : JsString) (l m : List (Items N)) → IsFree s (l ++ m) → IsFree s l
  IsFree-left s [] m h = tt
  IsFree-left s (q ∷ l) m (f, h) = (f, IsFree-left s l m h)

  IsFree-right : (s : JsString) (l m : List (Items N)) → IsFree s (l ++ m) → IsFree s m
  IsFree-right s [] m h = h
  IsFree-right s (q ∷ l) m (f, h) = IsFree-right s l m h

  pub without_middle :
      (l : List (Items N)) (d : Items N) (m : List (Items N))
      → IsDistinct (l ++ d ∷ m)
      → IsDistinct (l ++ m)
  without_middle [] d m (_, h) = h
  without_middle (q ∷ l) d m (f, h) = (
    IsFree-append (provision_text q) l m (IsFree-left (provision_text q) l (d ∷ m) f)
        (IsFree-right (provision_text q) l (d ∷ m) f).1,
    without_middle l d m h,
  )

  pub add_last :
      (l : List (Items N)) (q : Items N)
      → IsDistinct l
      → IsFree (provision_text q) l
      → IsDistinct (l ++ q ∷ [])
  add_last [] q h f = (tt, tt)
  add_last (r ∷ l) q (g, h) (f, k) = (
    IsFree-append (provision_text r) l (q ∷ []) g (
      ground (
        arith,
        f,
        ===_iff (provision_text r) (provision_text q),
        ===_iff (provision_text q) (provision_text r),
      ),
      tt,
    ),
    add_last l q h k,
  )

  -- Where a list has the provision with the text: nowhere, or at one place.
  pub record IsFound (s : JsString) (provisions : List (Items N)) : Type 0 where
    pub before : List (Items N)
    pub duplicate : Items N
    pub after : List (Items N)
    pub shape : provisions ≡ before ++ duplicate ∷ after
    pub at : (provision_text duplicate === s) ≡ true
    pub free_before : IsFree s before
    pub free_after : IsFree s after

  pub locate :
      (s : JsString) (provisions : List (Items N))
      → IsDistinct provisions
      → IsFree s provisions ⊎ IsFound s provisions
  locate s [] h = inl tt
  locate s (q ∷ l) (f, h) = elim (Bool-cases (provision_text q === s)) [
    | inl here ↦
        let same : provision_text q ≡ s = (===_iff (provision_text q) s).0 here in
        inr (record {
          before = [];
          duplicate = q;
          after = l;
          shape = refl;
          at = here;
          free_before = tt;
          free_after = subst (λ t. IsFree t l) same f;
        })
    | inr other ↦ elim (locate s l h) [
      | inl free ↦ inl (other, free)
      | inr found ↦ inr (record {
        before = q ∷ found.before;
        duplicate = found.duplicate;
        after = found.after;
        shape = ap (λ r. q ∷ r) found.shape;
        at = found.at;
        free_before = (other, found.free_before);
        free_after = found.free_after;
      })
    ]
  ]

  pub remove_duplicates_free :
      (s : JsString) (j : ℕ) (l : List (Items N)) (channels : Channels) (names : List JsString)
      → IsFree s l
      → remove_duplicates s j l channels names ≡ (l, channels, names)
  unfolding remove_duplicates
  remove_duplicates_free s j [] channels names h = refl
  remove_duplicates_free s j (q ∷ []) channels names (f, _) = rw (f) refl
  remove_duplicates_free s j (q ∷ r ∷ l) channels names (f, h) =
      rw (f, remove_duplicates_free s (suc j) (r ∷ l) channels names h) refl

  pub remove_duplicates_found :
      (s : JsString) (j : ℕ) (l : List (Items N)) (d : Items N) (m : List (Items N))
      (channels : Channels) (names : List JsString)
      → IsFree s l
      → (provision_text d === s) ≡ true
      → IsFree s m
      → remove_duplicates s j (l ++ d ∷ m) channels names ≡ (
        l ++ m,
        take_out (j + length l) channels,
        names ++ holders (j + length l) channels channels,
      )
  unfolding remove_duplicates
  remove_duplicates_found s j [] d [] channels names h e k =
      let place : j + 0 ≡ j = omega arith in rw (e, place) refl
  remove_duplicates_found s j [] d (r ∷ m) channels names h e (_, k) =
      let place : j + 0 ≡ j = omega arith in
      rw
        (
          e,
          place,
          remove_duplicates_free s (suc j) m (take_out j channels)
              (names ++ holders j channels channels) k,
        )
        refl
  remove_duplicates_found s j (q ∷ []) d m channels names (f, h) e k =
      let place : j + 1 ≡ suc j + 0 = omega arith in
      rw (f, place, remove_duplicates_found s (suc j) [] d m channels names tt e k) refl
  remove_duplicates_found s j (q ∷ r ∷ l) d m channels names (f, h) e k =
      let place : j + suc (suc (length l)) ≡ suc j + suc (length l) = omega arith in
      rw (f, place, remove_duplicates_found s (suc j) (r ∷ l) d m channels names h e k) refl
