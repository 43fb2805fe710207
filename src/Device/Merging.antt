-- ===== src/Device/Merging.antt =====
-- lib/device.ts: the attributes that `set` merges: the newer stamp wins, and setting the same again
-- changes nothing.
use genieacs.Common.{max, ◌≡◌, refl, Option, none, some, List, [], ◌∷◌, arith, fun_ext}
use genieacs.Device.{AttrName, Stamped, Attributes, attr_names}
use genieacs.Device.Attributes.{newer, merge, time_of, flag_of_change, flags_of_changes}

newer-newer : (c g : Option Stamped) → newer (newer c g) g ≡ newer c g
newer-newer none none = refl
newer-newer none (some g) = ground arith
newer-newer (some c) none = refl
newer-newer (some c) (some g) = ground arith

flag_of_change-newer : (n : AttrName) (c g : Option Stamped) → flag_of_change n (newer c g) g ≡ 0
flag_of_change-newer n none none = refl
flag_of_change-newer n none (some g) = ground arith
flag_of_change-newer n (some c) none = refl
flag_of_change-newer n (some c) (some g) = ground arith

time_of-newer : (c g : Option Stamped) → time_of (newer c g) ≡ max (time_of c) (time_of g)
time_of-newer none none = omega arith
time_of-newer none (some g) = omega arith
time_of-newer (some c) none = omega arith
time_of-newer (some c) (some g) = ground arith

flags_of_changes-merge :
    (names : List AttrName) (c g : Attributes) → flags_of_changes names (merge c g) g ≡ 0
unfolding flags_of_changes merge
flags_of_changes-merge [] c g = refl
flags_of_changes-merge (n ∷ r) c g =
    rw (flag_of_change-newer n (c n) (g n), flags_of_changes-merge r c g)

-- Merging the same attributes a second time changes nothing and raises no change flag, and
-- every merged attribute has the later of the two timestamps.
pub merge-merge :
    (c g : Attributes)
    → (merge (merge c g) g ≡ merge c g)
      × (flags_of_changes attr_names (merge c g) g ≡ 0)
      × ((n : AttrName) → time_of (merge c g n) ≡ max (time_of (c n)) (time_of (g n)))
unfolding merge
merge-merge c g = (
  fun_ext (λ n. newer-newer (c n) (g n)),
  flags_of_changes-merge attr_names c g,
  λ n. time_of-newer (c n) (g n),
)
