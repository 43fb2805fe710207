-- ===== src/PathSet/Tests.antt =====
-- lib/common/path-set.ts on a set of three paths.
use genieacs.Common.JsMap
use genieacs.Common.Words
use genieacs.Common.Text.{codes, join}
use genieacs.Common.{
  arith, ℕ, inl, inr, ◌≡◌, refl, true, false, ◌&&◌, some, List, [], ◌∷◌, length, ◌≤◌, get_elem?,
}
use genieacs.ParameterPath.RoundTrip.{IsPlain}
use genieacs.ParameterPath.{ParameterPath, frag, make, legal_char, segment_string, is_wildcard}
use genieacs.PathSet.Search.{IsMade, is_stored}
use genieacs.PathSet.Exact.{found}
use genieacs.PathSet.Wanted.{is_wanted}
use genieacs.PathSet.Insertion.{empty-IsIndexed, insert-IsIndexed}
use genieacs.PathSet.Wildcards.{passes, wildcard_at-make}
use genieacs.PathSet.Adding.{IsAdded, add-IsAdded}
use genieacs.PathSet.Finding.{has-find, find-add_each, add_each}
use genieacs.PathSet.{empty, has, insert, add, find, keep_in, wildcard_at}

abbrev device_model : ParameterPath
device_model = make (frag (codes "D") ∷ frag (codes "M") ∷ [])

abbrev wifi_any : ParameterPath
wifi_any = make (frag (codes "D") ∷ frag (codes "*") ∷ [])

abbrev top : ParameterPath
top = make (frag (codes "D") ∷ [])

fragment_IsPlain : (c : ℕ) → legal_char c ≡ true → IsPlain (frag (c ∷ []))
fragment_IsPlain c h = inr ((λ e. cc), (h, tt))

device_model-IsMade : IsMade device_model
unfolding make
device_model-IsMade = (
  refl,
  (
    fragment_IsPlain b'D' (unfold legal_char in refl),
    (fragment_IsPlain b'M' (unfold legal_char in refl), tt),
  ),
)

wifi_any-IsMade : IsMade wifi_any
unfolding make
wifi_any-IsMade = (refl, (fragment_IsPlain b'D' (unfold legal_char in refl), (inl refl, tt)))

top-IsMade : IsMade top
unfolding make
top-IsMade = (refl, (fragment_IsPlain b'D' (unfold legal_char in refl), tt))

abbrev three_paths : List ParameterPath
three_paths = device_model ∷ wifi_any ∷ top ∷ []

found_under_wildcard :
    find wifi_any false true 2 (add_each three_paths empty) ≡ some (device_model ∷ wifi_any ∷ [])
unfolding add find make Words.shl JsMap.get JsMap.set join segment_string Words.sar
found_under_wildcard = refl

found_over_fragment :
    find device_model true false 2 (add_each three_paths empty)
    ≡ some (device_model ∷ wifi_any ∷ [])
unfolding add find make Words.shl JsMap.get JsMap.set join segment_string Words.sar keep_in
found_over_fragment = refl

add-IsAdded_example : IsAdded device_model empty (add device_model empty)
add-IsAdded_example = add-IsAdded device_model empty device_model-IsMade empty-IsIndexed

short_wifi : length wifi_any.segments ≤ 32
unfolding make
short_wifi = omega arith

has-find_example :
    has (found (find wifi_any true true 2 (insert device_model empty))) device_model ≡ (
      is_stored (insert device_model empty) device_model
      && is_wanted wifi_any true true 2 device_model)
has-find_example =
    has-find wifi_any device_model true true 2 (insert device_model empty) wifi_any-IsMade
      short_wifi device_model-IsMade
      (insert-IsIndexed device_model empty device_model-IsMade empty-IsIndexed)

find-add_each_example :
    has (found (find wifi_any false true 2 (add_each three_paths empty))) device_model
    ≡ (has three_paths device_model && is_wanted wifi_any false true 2 device_model)
find-add_each_example =
    find-add_each three_paths wifi_any device_model false true 2
      (device_model-IsMade, (wifi_any-IsMade, (top-IsMade, tt))) wifi_any-IsMade short_wifi
      device_model-IsMade

wildcard_at-make_example :
    wildcard_at (make (frag (codes "D") ∷ frag (codes "*") ∷ [])) 1
    ≡ passes is_wildcard (get_elem? (frag (codes "D") ∷ frag (codes "*") ∷ []) 1)
wildcard_at-make_example =
    wildcard_at-make (frag (codes "D") ∷ frag (codes "*") ∷ []) 1 (omega arith) (omega arith)
