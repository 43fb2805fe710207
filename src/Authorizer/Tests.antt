-- ===== src/Authorizer/Tests.antt =====
-- Concrete runs of lib/common/authorizer.ts, and the theorems applied to them.
use genieacs.Common.Eq.{js_string_eq}
use genieacs.Common.Integer.{ℤ, pos}
use genieacs.Common.JsMap.{get}
use genieacs.Common.Text.{codes}
use genieacs.Common.{◌≡◌, refl, true, false, some, List, [], ◌∷◌}
use genieacs.Expression.{
  Expression, null, boolean, number, text, unary, binary, op_of, compare_values,
}
use genieacs.Expression.Samples.{integers}
use genieacs.Expression.Nodes.{compare_node, evaluate_callback}
use genieacs.Expression.Evaluation.{Lookup, plain, evaluate, comes_true}
use genieacs.Authorizer.{
  Permission, PermissionSet, Authorizer, new_authorizer, has_access, get_filter, sets_filter,
  validators, validator_expression, validate, validator,
}
use genieacs.Authorizer.Caches.{any, is_granted, created, asked_access, Reach-answers}
use genieacs.Authorizer.Filters.{selects, sets_filter-comes_true}
use genieacs.Authorizer.Validators.{is_accepted, decided, validator_lem}

abbrev E : Type 0
E = Expression ℤ

abbrev tagged : E
tagged = binary (codes "=") (unary (codes "PARAM") (text (codes "tag"))) (number (pos 1))

abbrev read_devices : Permission ℤ
read_devices = record { access = 1; validate = null; filter = tagged }

abbrev write_devices : Permission ℤ
write_devices = record { access = 3; validate = tagged; filter = boolean false }

abbrev sets : List (PermissionSet ℤ)
sets =
    (((codes "devices", read_devices) ∷ []) ∷ [])
    ∷ (((codes "devices", write_devices) ∷ []) ∷ ((codes "devices", write_devices) ∷ []) ∷ [])
    ∷ []

abbrev obj : Lookup ℤ
obj = some (λ name. plain (number (pos 1)))

abbrev asked : Authorizer ℤ
asked = (has_access (codes "devices") 2 (new_authorizer sets)).0

Reach-answers_example :
    ((has_access (codes "devices") 2 asked).1 ≡ is_granted sets (codes "devices") 2)
    × ((get_filter (codes "devices") 2 asked).1 ≡ sets_filter (codes "devices") 2 null sets)
Reach-answers_example =
    Reach-answers sets asked (codes "devices") 2 (asked_access (codes "devices") 2 created)

sets_filter-comes_true_example :
    comes_true (evaluate obj null (λ e. e) (sets_filter (codes "devices") 1 null sets))
    ≡ any (any (selects obj null (codes "devices") 1)) sets
unfolding get evaluate evaluate_callback compare_node op_of compare_values
sets_filter-comes_true_example =
    sets_filter-comes_true obj null (codes "devices") 1 sets
      (((boolean true, refl), tt), (((boolean false, refl), ((boolean false, refl), tt)), tt))

-- Two validators that each accept refuse together.
two_validators : validator {N = ℤ} (codes "devices") obj null sets ≡ some false
unfolding validator validate validators validator_expression evaluate op_of get
two_validators = refl

validator_lem_example :
    is_accepted (validator (codes "devices") obj null sets)
    ≡ decided obj null (validators (codes "devices") sets)
unfolding validators get
validator_lem_example = validator_lem obj null (codes "devices") sets (λ t. t)
