-- ===== src/GpnEstimate/Tests.antt =====
-- Runs of the estimate, and its termination at a concrete list of patterns.
use genieacs.Common.JsMap.{get, set}
use genieacs.Common.Words.{sar}
use genieacs.Common.Text.{codes}
use genieacs.Common.{arith, ℕ, ◌≡◌, refl, some, List, [], ◌∷◌}
use genieacs.GpnEstimate.{Pattern, estimate_gpn_count, scan_patterns, count_children}
use genieacs.GpnEstimate.Depth.{estimate_gpn_count_lem}

-- Device.*.Enable, of which the names below Device are to be discovered, and Device.Hosts.*
abbrev patterns : List Pattern
patterns =
    (codes "Device" ∷ codes "*" ∷ codes "Enable" ∷ [], 14)
    ∷ (codes "Device" ∷ codes "Hosts" ∷ codes "*" ∷ [], 8)
    ∷ []

estimate_gpn_count_test : estimate_gpn_count 4 0 patterns ≡ some 5
unfolding estimate_gpn_count scan_patterns count_children sar set get
estimate_gpn_count_test = refl

estimate_gpn_count_lem_example : (count : ℕ) × (estimate_gpn_count 4 0 patterns ≡ some count)
estimate_gpn_count_lem_example =
    estimate_gpn_count_lem 3 0 patterns (omega arith, (omega arith, tt))
