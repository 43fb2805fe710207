-- ===== src/Authorizer/Caches.antt =====
-- lib/common/authorizer.ts: `hasAccess` answers from the permission sets, cached or not.
use genieacs.Common.Eq.{JsString, js_string_eq, ◌===◌, ===_iff}
use genieacs.Common.JsMap.{JsMap, get, set, get-set}
use genieacs.Common.Decimal.{with_decimal-injective}
use genieacs.Common.{
  ℕ, ◌≡◌, refl, sym, ◌∙◌, Bool, true, false, ◌||◌, some, Option-cases, Bool-cases, inl, inr, List,
  [], ◌∷◌, if◌then◌else◌, arith,
}
use genieacs.Expression.{Primitives, null}
use genieacs.Authorizer.{
  PermissionSet, Authorizer, cache_key, new_authorizer, grants, set_grants, some_set_grants,
  has_access, sets_filter, get_filter,
}

cache_key-injective : (r s : JsString) (j k : ℕ) → cache_key r j ≡ cache_key s k → (r ≡ s) × (j ≡ k)
unfolding cache_key
cache_key-injective r s j k h = with_decimal-injective r s j k h

-- Every entry of a cache is the answer computed anew.
abbrev IsCoherent {ℓ} : {A : Type ℓ} → (JsString → ℕ → A) → JsMap JsString A → Type ℓ
IsCoherent {A} answer cache =
    (resource : JsString) (access : ℕ) (a : A)
    → get (cache_key resource access) cache ≡ some a
    → a ≡ answer resource access

set-IsCoherent {ℓ} :
    {A : Type ℓ} (answer : JsString → ℕ → A) (cache : JsMap JsString A) (resource : JsString)
    (access : ℕ)
    → IsCoherent answer cache
    → IsCoherent answer (set (cache_key resource access) (answer resource access) cache)
set-IsCoherent answer cache resource access c r k a h =
    let found =
      sym (get-set (cache_key resource access) (cache_key r k) (answer resource access) cache)
      ∙ h in
    elim (Bool-cases (cache_key resource access === cache_key r k)) [
      | inl hit ↦
          let (same, level) = cache_key-injective resource r access k ((===_iff _ _).0 hit) in
          rw (sym same, sym level) (ground (arith, found, hit))
      | inr miss ↦ c r k a (ground (arith, found, miss))
    ]

abbrev pub any {ℓ} : {A : Type ℓ} → (A → Bool) → List A → Bool
any f [] = false
any f (x ∷ l) = f x || any f l

module _ {N : Type 0} where
  -- whether some permission of some set grants the access
  abbrev pub is_granted : List (PermissionSet N) → JsString → ℕ → Bool
  is_granted sets resource access = any (any (grants resource access)) sets

  set_grants-any :
      (resource : JsString) (access : ℕ) (perms : PermissionSet N)
      → set_grants resource access perms ≡ any (grants resource access) perms
  unfolding set_grants
  set_grants-any resource access [] = refl
  set_grants-any resource access (perm ∷ l) = ground (arith, set_grants-any resource access l)

  some_set_grants-any :
      (resource : JsString) (access : ℕ) (has : Bool) (sets : List (PermissionSet N))
      → some_set_grants resource access has sets ≡ (has || is_granted sets resource access)
  unfolding some_set_grants
  some_set_grants-any resource access has [] = ground arith
  some_set_grants-any resource access has (perms ∷ l) = ground (
    arith,
    some_set_grants-any resource access (if set_grants resource access perms then true else has) l,
    set_grants-any resource access perms,
  )

module _ {N : Type 0} ⦃p : Primitives N⦄ where
  -- The states of an authorizer after any number of calls.
  pub data Reach (sets : List (PermissionSet N)) : Authorizer N → Type 0 where
    created : Reach sets (new_authorizer sets)
    asked_access :
        {a : Authorizer N} (resource : JsString) (access : ℕ)
        → Reach sets a
        → Reach sets (has_access resource access a).0
    asked_filter :
        {a : Authorizer N} (resource : JsString) (access : ℕ)
        → Reach sets a
        → Reach sets (get_filter resource access a).0

  pub record IsRight (sets : List (PermissionSet N)) (a : Authorizer N) : Type 0 where
    pub same_sets : a.permission_sets ≡ sets
    pub accesses : IsCoherent (is_granted sets) a.has_access_cache
    pub filters : IsCoherent (λ r k. sets_filter r k null sets) a.get_filter_cache

  has_access_lem :
      (sets : List (PermissionSet N)) (a : Authorizer N) (resource : JsString) (access : ℕ)
      → IsRight sets a
      → ((has_access resource access a).1 ≡ is_granted sets resource access)
        × IsRight sets (has_access resource access a).0
  unfolding has_access
  has_access_lem sets a resource access i =
      let direct : some_set_grants resource access false a.permission_sets
          ≡ is_granted sets resource access =
        rw (some_set_grants-any resource access false a.permission_sets, i.same_sets) refl in
      elim (Option-cases (get (cache_key resource access) a.has_access_cache)) [
        | inl missing ↦
            rw (has_access, missing, direct)
              (
                refl,
                record {
                  same_sets = i.same_sets;
                  accesses =
                      set-IsCoherent (is_granted sets) a.has_access_cache resource access
                        i.accesses;
                  filters = i.filters;
                },
              )
        | inr (has, found) ↦ rw (has_access, found) (i.accesses resource access has found, i)
      ]

  get_filter_lem :
      (sets : List (PermissionSet N)) (a : Authorizer N) (resource : JsString) (access : ℕ)
      → IsRight sets a
      → ((get_filter resource access a).1 ≡ sets_filter resource access null sets)
        × IsRight sets (get_filter resource access a).0
  unfolding get_filter
  get_filter_lem sets a resource access i =
      elim (Option-cases (get (cache_key resource access) a.get_filter_cache)) [
        | inl missing ↦
            rw (get_filter, missing, i.same_sets)
              (
                refl,
                record {
                  same_sets = refl;
                  accesses = i.accesses;
                  filters =
                      set-IsCoherent (λ r k. sets_filter r k null sets) a.get_filter_cache resource
                        access i.filters;
                },
              )
        | inr (filter, found) ↦ rw (get_filter, found) (i.filters resource access filter found, i)
      ]

  Reach-IsRight : (sets : List (PermissionSet N)) (a : Authorizer N) → Reach sets a → IsRight sets a
  unfolding get
  Reach-IsRight sets a created = record {
    same_sets = refl;
    accesses = λ r k b h. absurd (ground (arith, h));
    filters = λ r k b h. absurd (ground (arith, h));
  }
  Reach-IsRight sets a (asked_access {a = b} resource access r) =
      (has_access_lem sets b resource access (Reach-IsRight sets b r)).1
  Reach-IsRight sets a (asked_filter {a = b} resource access r) =
      (get_filter_lem sets b resource access (Reach-IsRight sets b r)).1

  -- In every state that calls of hasAccess and getFilter lead to from a new authorizer,
  -- hasAccess answers true just if some permission of some set grants the access, and getFilter
  -- answers what the sets give, whatever the caches hold.
  pub Reach-answers :
      (sets : List (PermissionSet N)) (a : Authorizer N) (resource : JsString) (access : ℕ)
      → Reach sets a
      → ((has_access resource access a).1 ≡ is_granted sets resource access)
        × ((get_filter resource access a).1 ≡ sets_filter resource access null sets)
  Reach-answers sets a resource access r =
      let i = Reach-IsRight sets a r in
      ((has_access_lem sets a resource access i).0, (get_filter_lem sets a resource access i).0)
