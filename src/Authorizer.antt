-- ===== src/Authorizer.antt =====
-- lib/common/authorizer.ts: permission sets, the two caches and validators.
pub mod Caches
pub mod Filters
pub mod Validators
mod Tests
use genieacs.Common.Eq.{JsString, js_string_eq}
use genieacs.Common.JsMap.{JsMap, get, set}
use genieacs.Common.Text.{codes, decimal}
use genieacs.Common.{
  ℕ, Bool, true, false, ◌&&◌, ◌||◌, Option, none, some, List, [], ◌∷◌, ◌++◌, leb, if◌then◌else◌,
}
use genieacs.Expression.{
  Primitives, Expression, Items, null, text, array, empty, item, node, truthy,
}
use genieacs.Expression.Evaluation.{Lookup, evaluate, or, holds}

pub record Permission (N : Type 0) : Type 0 where
  pub access : ℕ
  -- null when there is none
  pub validate : Expression N
  pub filter : Expression N

-- `PermissionSet`, an array of objects from resource types
abbrev pub PermissionSet : Type 0 → Type 0
PermissionSet N = List (JsMap JsString (Permission N))

pub record Authorizer (N : Type 0) : Type 0 where
  pub permission_sets : List (PermissionSet N)
  pub has_access_cache : JsMap JsString Bool
  pub get_filter_cache : JsMap JsString (Expression N)

-- `${resourceType}-${access}`
unfoldable pub cache_key : JsString → ℕ → JsString
unfolding decimal
cache_key resource access = resource ++ b'-' ∷ decimal access

module _ {N : Type 0} where
  abbrev pub new_authorizer : List (PermissionSet N) → Authorizer N
  new_authorizer sets = record {
    permission_sets = sets;
    has_access_cache = [];
    get_filter_cache = [];
  }

  -- `perm[resourceType] && perm[resourceType].access >= access`
  unfoldable pub grants : JsString → ℕ → JsMap JsString (Permission N) → Bool
  grants resource access perm = elim (get resource perm) [
    | none ↦ false
    | some permission ↦ leb access permission.access
  ]

  -- the inner loop of `hasAccess`, which stops at the first permission that grants
  unfoldable pub set_grants : JsString → ℕ → PermissionSet N → Bool
  unfolding grants
  set_grants resource access [] = false
  set_grants resource access (perm ∷ l) =
      let more = set_grants resource access l in if grants resource access perm then true else more

  -- the outer loop, which goes on after a set that grants
  unfoldable pub some_set_grants : JsString → ℕ → Bool → List (PermissionSet N) → Bool
  unfolding set_grants
  some_set_grants resource access has [] = has
  some_set_grants resource access has (perms ∷ l) =
      some_set_grants resource access (if set_grants resource access perms then true else has) l

  -- `hasAccess`
  unfoldable pub has_access : JsString → ℕ → Authorizer N → Authorizer N × Bool
  has_access resource access a = elim (get (cache_key resource access) a.has_access_cache) [
    | some has ↦ (a, has)
    | none ↦
        let has = some_set_grants resource access false a.permission_sets in
        (
          record a { has_access_cache = set (cache_key resource access) has a.has_access_cache },
          has,
        )
  ]

module _ {N : Type 0} ⦃p : Primitives N⦄ where
  unfoldable pub set_filter : JsString → ℕ → Expression N → PermissionSet N → Expression N
  set_filter resource access filter [] = filter
  set_filter resource access filter (perm ∷ l) = elim (get resource perm) [
    | none ↦ set_filter resource access filter l
    | some permission ↦
        set_filter resource access
          (if leb access permission.access then or filter permission.filter else filter) l
  ]

  unfoldable pub sets_filter : JsString → ℕ → Expression N → List (PermissionSet N) → Expression N
  unfolding set_filter
  sets_filter resource access filter [] = filter
  sets_filter resource access filter (perms ∷ l) =
      sets_filter resource access (set_filter resource access filter perms) l

  -- `getFilter`
  unfoldable pub get_filter : JsString → ℕ → Authorizer N → Authorizer N × Expression N
  get_filter resource access a = elim (get (cache_key resource access) a.get_filter_cache) [
    | some filter ↦ (a, filter)
    | none ↦
        let filter = sets_filter resource access null a.permission_sets in
        (
          record a { get_filter_cache = set (cache_key resource access) filter a.get_filter_cache },
          filter,
        )
  ]

  -- the loop of `getValidator` over one set
  unfoldable pub set_validators : JsString → PermissionSet N → List (Expression N)
  set_validators resource [] = []
  set_validators resource (perm ∷ l) =
      let more = set_validators resource l in
      elim (get resource perm) [
        | none ↦ more
        | some permission ↦
            if leb 3 permission.access && truthy permission.validate
            then permission.validate ∷ more
            else more
      ]

  unfoldable pub validators : JsString → List (PermissionSet N) → List (Expression N)
  unfolding set_validators
  validators resource [] = []
  validators resource (perms ∷ l) = set_validators resource perms ++ validators resource l

  abbrev pub to_items : List (Expression N) → Items N
  to_items [] = empty
  to_items (e ∷ l) = item e (to_items l)

  -- `["OR", validators]`, or the only validator
  unfoldable pub validator_expression : Expression N → List (Expression N) → Expression N
  validator_expression v [] = v
  validator_expression v (w ∷ l) = node (codes "OR") (item (array (to_items (v ∷ w ∷ l))) empty)

  -- the function that `getValidator` returns, on a mutation whose values `obj` finds; `none` when
  -- the evaluation throws
  unfoldable pub validate : List (Expression N) → Lookup N → Expression N → Option Bool
  validate [] obj now = some false
  validate (v ∷ l) obj now = elim (evaluate obj now (λ e. e) (validator_expression v l)) [
    | none ↦ none
    | some res ↦ some (holds res)
  ]

  -- `getValidator` for a resource type, and its result called
  unfoldable pub validator :
      JsString → Lookup N → Expression N → List (PermissionSet N) → Option Bool
  validator resource obj now sets = validate (validators resource sets) obj now
