-- ===== src/PathSet/Adding.antt =====
-- lib/common/path-set.ts: sequences of `add`, and the whole `find` on the sets they make.
use genieacs.Common.Eq.{◌===◌, js_string_eq, ===_iff}
use genieacs.Common.{
  ℕ, ◌+◌, ◌≡◌, refl, ◌∙◌, ap, true, ◌||◌, Option, none, some, List, [], ◌∷◌, ◌==◌, Bool-cases,
  Option-cases, inl, inr, All,
}
use genieacs.ParameterPath.RoundTrip.{IsPlain}
use genieacs.ParameterPath.{is_alias, mark_bits, ParameterPath, Segment, frag, aliased, make}
use genieacs.PathSet.Search.{IsMade, is_stored, IsIndexed}
use genieacs.PathSet.Insertion.{insert-IsIndexed, is_stored-insert, make-injective}
use genieacs.PathSet.{PathSet, get, insert, add}

alias-plain :
    (i : ℕ) (segments : List Segment) → All IsPlain segments → mark_bits is_alias i 0 segments ≡ 0
unfolding mark_bits
alias-plain i [] a = refl
alias-plain i (frag s ∷ r) (f, a) = alias-plain (i + 1) r a
alias-plain i (aliased x ∷ r) (f, a) = absurd f

pub made_alias : (p : ParameterPath) → IsMade p → p.alias ≡ 0
unfolding make
made_alias p (m, a) = ap (λ (r : ParameterPath). r.alias) m ∙ alias-plain 0 p.segments a

-- What `add` leaves of a set: the set itself after the error.
abbrev pub set_after : PathSet → Option (ParameterPath × PathSet) → PathSet
set_after s none = s
set_after s (some (p, t)) = t

-- `add` gives back the path and a set that stores it and no other path more.
pub record IsAdded (path : ParameterPath) (s : PathSet) (r : Option (ParameterPath × PathSet))
    : Type 0 where
  pub returns : r ≡ some (path, set_after s r)
  pub stores :
      (q : ParameterPath)
      → is_stored (set_after s r) q ≡ (path.string === q.string || is_stored s q)
  pub in_step : IsIndexed (set_after s r)

stored_already :
    (path : ParameterPath) (s : PathSet) (q p : ParameterPath)
    → get path s ≡ some p
    → is_stored s q ≡ (path.string === q.string || is_stored s q)
unfolding get is_stored
stored_already path s q p e = elim (Bool-cases (path.string === q.string)) [
  | inl same ↦ rw (same, ← (===_iff path.string q.string).0 same, e)
  | inr other ↦ rw other
]

-- On a set whose indexes by length, fragment and text hold the same paths, add of a path
-- without an alias returns that path, stores it and no other path more, and keeps the indexes
-- in step.
pub add-IsAdded :
    (path : ParameterPath) (s : PathSet) → IsMade path → IsIndexed s → IsAdded path s (add path s)
unfolding add
add-IsAdded path s m x =
    let a : (path.alias == 0) ≡ true = rw (made_alias path m) in
    elim (Option-cases (get path s)) [
      | inl e ↦
          let r : add path s ≡ some (path, insert path s) = rw (add, a, e) in
          rw r (record {
            returns = refl;
            stores = λ q. is_stored-insert path q s;
            in_step = insert-IsIndexed path s m x;
          })
      | inr (p, e) ↦
          let (text, made) = x.by_text path.string p (unfold get in e) in
          let same : p ≡ path = make-injective p path made m text in
          let r : add path s ≡ some (path, s) = rw (add, a, e, same) in
          rw r (record { returns = refl; stores = λ q. stored_already path s q p e; in_step = x })
    ]
