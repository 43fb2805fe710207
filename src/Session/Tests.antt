-- ===== src/Session/Tests.antt =====
-- Concrete runs of lib/session.ts, and the theorem applied to one.
use genieacs.Common.Integer.{ℤ, pos}
use genieacs.Common.JsMap.{get, set}
use genieacs.Common.Json.{stringify}
use genieacs.Common.Text.{codes, decimal, join}
use genieacs.Common.Words.{shl, sar}
use genieacs.Common.{ℕ, ◌≡◌, refl, [], ◌∷◌, map, arith}
use genieacs.Expression.{Items, number, text, empty, item}
use genieacs.Expression.Samples.{integers}
use genieacs.Session.{
  Session, json, provision_text, take_digit_out, holders, mark_all, remove_duplicates,
  add_provision, add_each, next_cycle, reset_run, collapse_data, add_provisions, init,
}
use genieacs.Session.Membership.{IsSound}
use genieacs.Session.Adding.{IsAdded, add_provisions-IsAdded}

abbrev refresh : Items ℤ
refresh = item (text (codes "refresh")) (item (number (pos 1)) empty)

abbrev download : Items ℤ
download = item (text (codes "download")) empty

-- `["refresh",1]`
refresh_text : provision_text refresh ≡ codes "[\"refresh\",1]"
unfolding json stringify join decimal
refresh_text = refl

abbrev fresh : Session ℤ ℕ
fresh = init 7 (codes "cpe") (codes "1.0") 30

abbrev first_run : Session ℤ ℕ
first_run = add_provisions 16 (codes "a") (refresh ∷ download ∷ []) fresh

abbrev second_run : Session ℤ ℕ
second_run = add_provisions 16 (codes "b") (refresh ∷ []) first_run

-- A provision added again moves to the end, and the channel that wanted it wants it there.
moved :
    (second_run.provisions ≡ download ∷ refresh ∷ [])
    × (second_run.channels ≡ (codes "a", 3) ∷ (codes "b", 2) ∷ [])
unfolding add_provisions add_each add_provision remove_duplicates holders mark_all take_digit_out
    reset_run collapse_data next_cycle json stringify join decimal get set shl sar
moved = (refl, refl)

fresh-IsSound : IsSound fresh.provisions fresh.channels
unfolding get
fresh-IsSound = record { distinct = tt; fits = λ c. omega arith }

add_provisions-IsAdded_example :
    IsAdded
      (codes "a")
      (map provision_text (refresh ∷ download ∷ []))
      []
      []
      first_run.provisions
      first_run.channels
add_provisions-IsAdded_example =
    add_provisions-IsAdded 16 (codes "a") (refresh ∷ download ∷ []) fresh fresh-IsSound
      (omega arith)
