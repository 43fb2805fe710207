-- ===== src/InstanceSet/Tests.antt =====
-- lib/instance-set.ts on three instances.
use genieacs.Common.JsMap
use genieacs.Common.Text.{codes}
use genieacs.Common.{◌≡◌, ◌↔◌, refl, [], ◌∷◌}
use genieacs.InstanceSet.{Instance, InstanceSet, superset, subset}
use genieacs.InstanceSet.Selection.{IsIn, Includes, selected_iff}
use genieacs.InstanceSet.Ranking.{IsChain, HasMore, HasFewer, superset-IsChain}

abbrev named : Instance
named = record { identity = 1; fields = (codes "name", codes "a") ∷ [] }

abbrev named_on : Instance
named_on = record {
  identity = 2;
  fields = (codes "name", codes "a") ∷ (codes "on", codes "1") ∷ [];
}

abbrev other : Instance
other = record { identity = 3; fields = (codes "name", codes "b") ∷ [] }

abbrev three : InstanceSet
three = named ∷ named_on ∷ other ∷ []

most_specific_first : superset named three ≡ named_on ∷ named ∷ []
unfolding superset JsMap.get
most_specific_first = refl

least_specific_first : subset named_on three ≡ named ∷ named_on ∷ []
unfolding subset JsMap.get
least_specific_first = refl

selected_iff_example :
    (IsIn named_on (superset named three)
      ↔ (IsIn named_on three × Includes named_on.fields named.fields))
    × (IsIn named_on (subset named three)
        ↔ (IsIn named_on three × Includes named.fields named_on.fields))
selected_iff_example = selected_iff named named_on three

superset-IsChain_example :
    IsChain HasMore (superset named three) × IsChain HasFewer (subset named three)
superset-IsChain_example = superset-IsChain named three
