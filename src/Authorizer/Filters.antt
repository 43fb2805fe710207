-- ===== src/Authorizer/Filters.antt =====
-- lib/common/authorizer.ts: the filter that `getFilter` builds selects what some permission grants.
use genieacs.Common.Eq.{JsString, js_string_eq}
use genieacs.Common.JsMap.{JsMap, get}
use genieacs.Common.{
  ℕ, ◌≡◌, refl, subst, Bool, false, ◌&&◌, ◌||◌, Option, none, some, Option-cases, Bool-cases, inl,
  inr, List, [], ◌∷◌, All, leb, arith,
}
use genieacs.Expression.{Primitives, Expression, null}
use genieacs.Expression.Evaluation.{Lookup, evaluate, comes_true, holds, or}
use genieacs.Expression.Junctions.{evaluate_value}
use genieacs.Expression.Disjunction.{or-holds}
use genieacs.Authorizer.{Permission, PermissionSet, set_filter, sets_filter}
use genieacs.Authorizer.Caches.{any}

module _ {N : Type 0} ⦃p : Primitives N⦄ (obj : Lookup N) (now : Expression N) (resource : JsString)
    (access : ℕ) where
  -- whether the permission grants the access and its filter holds of the object
  abbrev pub selects : JsMap JsString (Permission N) → Bool
  selects perm = elim (get resource perm) [
    | none ↦ false
    | some permission ↦
        leb access permission.access && comes_true (evaluate obj now (λ e. e) permission.filter)
  ]

  -- the filter of the permission, if there is one, evaluates without an exception
  abbrev pub PermissionEvaluates : Option (Permission N) → Type 0
  PermissionEvaluates none = Unit
  PermissionEvaluates (some permission) =
      (v : Expression N) × (evaluate obj now (λ e. e) permission.filter ≡ some v)

  abbrev pub FilterEvaluates : JsMap JsString (Permission N) → Type 0
  FilterEvaluates perm = PermissionEvaluates (get resource perm)

  found_evaluates :
      (o : Option (Permission N)) (permission : Permission N)
      → o ≡ some permission
      → PermissionEvaluates o
      → (v : Expression N) × (evaluate obj now (λ e. e) permission.filter ≡ some v)
  found_evaluates o permission h e = subst PermissionEvaluates h e

  -- `e` evaluates without an exception, and holds just if `b`
  record Tells (e : Expression N) (b : Bool) : Type 0 where
    value : Expression N
    evaluates : evaluate obj now (λ e. e) e ≡ some value
    tells : holds value ≡ b

  Tells-same : (e : Expression N) (a b : Bool) → a ≡ b → Tells e a → Tells e b
  Tells-same e a b h t = subst (λ x. Tells e x) h t

  or_Tells :
      (a b v : Expression N) (x : Bool)
      → Tells a x
      → evaluate obj now (λ e. e) b ≡ some v
      → Tells (or a b) (x || holds v)
  or_Tells a b v x t h =
      let (r, e, same, _) = or-holds obj now a b t.value v t.evaluates h in
      record { value = r; evaluates = e; tells = ground (arith, same, t.tells) }

  set_filter-Tells :
      (perms : PermissionSet N) (filter : Expression N) (b : Bool)
      → All FilterEvaluates perms
      → Tells filter b
      → Tells (set_filter resource access filter perms) (b || any selects perms)
  unfolding set_filter
  set_filter-Tells [] filter b h t = Tells-same filter b (b || false) (ground arith) t
  set_filter-Tells (perm ∷ l) filter b (e, h) t = elim (Option-cases (get resource perm)) [
    | inl missing ↦ rw (set_filter, any, selects, missing) (set_filter-Tells l filter b h t)
    | inr (permission, found) ↦
        let (v, evaluates) = found_evaluates (get resource perm) permission found e in
        elim (Bool-cases (leb access permission.access)) [
          | inl granted ↦
              rw (set_filter, any, selects, found, granted, evaluates)
                (Tells-same _ _ _ (ground arith) (
                  set_filter-Tells l (or filter permission.filter) (b || holds v) h
                    (or_Tells filter permission.filter v b t evaluates)))
          | inr refused ↦
              rw (set_filter, any, selects, found, refused) (set_filter-Tells l filter b h t)
        ]
  ]

  sets_filter-Tells :
      (sets : List (PermissionSet N)) (filter : Expression N) (b : Bool)
      → All (All FilterEvaluates) sets
      → Tells filter b
      → Tells (sets_filter resource access filter sets) (b || any (any selects) sets)
  unfolding sets_filter
  sets_filter-Tells [] filter b h t = Tells-same filter b (b || false) (ground arith) t
  sets_filter-Tells (perms ∷ l) filter b (e, h) t = Tells-same _ _ _ (ground arith) (
      sets_filter-Tells l (set_filter resource access filter perms) (b || any selects perms) h
        (set_filter-Tells perms filter b e t))

  -- If every filter for the resource evaluates without an exception, the filter that getFilter
  -- builds accepts an object just if some permission grants the access and its own filter
  -- accepts the object.
  pub sets_filter-comes_true :
      (sets : List (PermissionSet N))
      → All (All FilterEvaluates) sets
      → comes_true (evaluate obj now (λ e. e) (sets_filter resource access null sets))
        ≡ any (any selects) sets
  sets_filter-comes_true sets h =
      let t =
        sets_filter-Tells sets null false h
          (record { value = null; evaluates = evaluate_value obj now null refl; tells = refl }) in
      rw (t.evaluates) t.tells
