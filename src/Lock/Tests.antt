-- ===== src/Lock/Tests.antt =====
-- Concrete runs of lib/lock.ts on a collection of locks, and the theorems applied to them.
use genieacs.Common.Eq.{js_string_eq}
use genieacs.Common.JsMap.{get, set}
use genieacs.Common.Text.{codes}
use genieacs.Common.{◌≡◌, ◌≢◌, refl, true, none, some, [], ◌∷◌, arith}
use genieacs.Lock.{Outcome, acquired, refused, Turn, attempt, acquire_lock, release_lock, get_token}
use genieacs.Lock.Exclusion.{Run, done, next, other_attempt, sweeps, acquired-IsExclusive}
use genieacs.Lock.Attempts.{acquire_lock_lem}
use genieacs.Lock.Table.{LockTable, table, table-IsCollection}

abbrev mine : LockTable
mine = (codes "cwmp", record { value = codes "a"; expire = 35100; timestamp = 90 }) ∷ []

abbrev turn : Turn LockTable
turn = record { now = 100; database_now = 90; wait = 60; others = λ d. d }

taken : attempt table (codes "cwmp") 5000 (codes "a") 100 90 [] ≡ (mine, some acquired)
unfolding attempt get set
taken = refl

-- Another token is refused when its timeout is over.
given_up :
    acquire_lock table (codes "cwmp") 5000 (codes "b") 70 (turn ∷ turn ∷ turn ∷ []) mine
    ≡ (mine, some refused)
unfolding acquire_lock attempt get
given_up = refl

different : codes "b" ≢ codes "a"
different h = ground (arith, h)

others_try : Run table (codes "cwmp") (codes "a") 5090 mine mine
unfolding attempt get
others_try =
    next (other_attempt (codes "cwmp") (codes "b") 1 200 200 different)
      (next (sweeps 5000 (omega arith)) done)

acquired-IsExclusive_example :
    (attempt table (codes "cwmp") 1 (codes "b") 300 300 mine ≡ (mine, none))
    × (get_token table (codes "cwmp") mine ≡ some (codes "a"))
    × ((release_lock table (codes "cwmp") (codes "a") mine).1 ≡ true)
acquired-IsExclusive_example =
    acquired-IsExclusive table table-IsCollection (codes "cwmp") (codes "a") 5000 100 90 [] mine
      mine (codes "b") 1 300 300 taken others_try different

acquire_lock_lem_example :
    (outcome : Outcome) × ((acquire_lock table
        (codes "cwmp")
        5000
        (codes "b")
        70
        (turn ∷ turn ∷ turn ∷ [])
        mine).1
      ≡ some outcome)
acquire_lock_lem_example =
    acquire_lock_lem table (codes "cwmp") (codes "b") 5000 70 (turn ∷ turn ∷ turn ∷ []) mine
      (ground arith) (omega arith)
