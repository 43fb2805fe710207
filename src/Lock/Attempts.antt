-- ===== src/Lock/Attempts.antt =====
-- lib/lock.ts: `acquireLock` gives up after as many calls as its timeout allows.
use genieacs.Common.Eq.{JsString}
use genieacs.Common.{
  ℕ, ◌+◌, ◌-◌, ◌*◌, ◌≤◌, ◌≡◌, refl, Bool-cases, Option-cases, inl, inr, some, List, [], ◌∷◌, All,
  length, ◌==◌, arith,
}
use genieacs.Lock.{LockCollection, Outcome, refused, Turn, attempt, acquire_lock}

module _ {D : Type 0} (locks : LockCollection D) where
  -- the waits are no shorter than 50
  abbrev pub IsPatient : Turn D → Type 0
  IsPatient turn = 50 ≤ turn.wait

  -- If each wait is at least 50 milliseconds, the given calls of acquireLock, one for each 50
  -- milliseconds of the timeout and one more, are enough for it to end with the token, null or
  -- the error of the clocks.
  pub acquire_lock_lem :
      (name token : JsString) (ttl timeout : ℕ) (turns : List (Turn D)) (d : D)
      → All IsPatient turns
      → timeout + 50 ≤ 50 * length turns
      → (outcome : Outcome) × ((acquire_lock locks name ttl token timeout turns d).1 ≡ some outcome)
  unfolding acquire_lock
  acquire_lock_lem name token ttl timeout [] d w h = absurd (omega arith)
  acquire_lock_lem name token ttl timeout (turn ∷ turns) d (p, w) h =
      let tried = attempt locks name ttl token turn.now turn.database_now d in
      elim (Option-cases tried.1) [
        | inr (outcome, ended) ↦ (outcome, rw (acquire_lock, ended) refl)
        | inl busy ↦ elim (Bool-cases (timeout == 0)) [
          | inl over ↦ (refused, rw (acquire_lock, busy, over) refl)
          | inr more ↦
              let (outcome, ended) =
                acquire_lock_lem name token ttl (timeout - turn.wait) turns (turn.others tried.0) w
                  (ground arith) in
              (outcome, rw (acquire_lock, busy, more) ended)
        ]
      ]
