-- ===== src/Lock.antt =====
-- lib/lock.ts: locks as documents of a collection whose operations are atomic. Times are whole
-- milliseconds.
pub mod Exclusion
pub mod Attempts
pub mod Table
mod Tests
use genieacs.Common.Eq.{JsString}
use genieacs.Common.{
  ℕ, zero, suc, ◌+◌, ◌-◌, ◌<◌, ◌≡◌, ◌≢◌, Bool, true, false, not, ◌||◌, Option, none, some, List, [],
  ◌∷◌, ltb, ◌==◌, if◌then◌else◌,
}

-- A document of `collections.locks`, under its `_id`.
pub record LockDoc : Type 0 where
  pub value : JsString
  pub expire : ℕ
  pub timestamp : ℕ

-- What lib/lock.ts uses of the collection `D`: `findOneAndUpdate` by `_id` and `value` with `upsert`
-- at the database's time, where `none` is the error of a duplicate key; `deleteOne` with its count;
-- `findOne`; and the removal of documents that have expired.
pub record LockCollection (D : Type 0) : Type 0 where
  pub upsert : JsString → JsString → ℕ → ℕ → D → Option (D × LockDoc)
  pub delete_one : JsString → JsString → D → D × ℕ
  pub find_one : JsString → D → Option LockDoc
  pub sweep : ℕ → D → D

-- What MongoDB documents of these operations.
pub record IsCollection {D : Type 0} (locks : LockCollection D) : Type 0 where
  pub upsert_taken :
      (name token : JsString) (expire now : ℕ) (d : D) (e : LockDoc)
      → locks.find_one name d ≡ some e
      → e.value ≢ token
      → locks.upsert name token expire now d ≡ none
  pub upsert_open :
      (name token : JsString) (expire now : ℕ) (d : D)
      → ((e : LockDoc) → locks.find_one name d ≡ some e → e.value ≡ token)
      → (after : D) × (locks.upsert name token expire now d
          ≡ some (after, record { value = token; expire = expire; timestamp = now }))
        × (locks.find_one name after
            ≡ some (record { value = token; expire = expire; timestamp = now }))
  pub upsert_others :
      (name token other : JsString) (expire now : ℕ) (d after : D) (e : LockDoc)
      → other ≢ name
      → locks.upsert name token expire now d ≡ some (after, e)
      → locks.find_one other after ≡ locks.find_one other d
  pub delete_hit :
      (name token : JsString) (d : D) (e : LockDoc)
      → locks.find_one name d ≡ some e
      → e.value ≡ token
      → (after : D) × (locks.delete_one name token d ≡ (after, 1))
        × (locks.find_one name after ≡ none)
  pub delete_miss :
      (name token : JsString) (d : D)
      → ((e : LockDoc) → locks.find_one name d ≡ some e → e.value ≢ token)
      → locks.delete_one name token d ≡ (d, 0)
  pub delete_others :
      (name token other : JsString) (d : D)
      → other ≢ name
      → locks.find_one other (locks.delete_one name token d).0 ≡ locks.find_one other d
  pub sweep_keeps :
      (name : JsString) (now : ℕ) (d : D) (e : LockDoc)
      → locks.find_one name d ≡ some e
      → now < e.expire
      → locks.find_one name (locks.sweep now d) ≡ some e

-- CLOCK_SKEW_TOLERANCE
abbrev pub clock_skew_tolerance : ℕ
clock_skew_tolerance = 30000

pub data Outcome : Type 0 where
  -- the token, null, and the error of a great clock skew
  acquired refused skewed : Outcome

-- `Math.abs(timestamp - now) > CLOCK_SKEW_TOLERANCE`
abbrev pub is_skewed : ℕ → ℕ → Bool
is_skewed timestamp now =
    ltb clock_skew_tolerance (timestamp - now) || ltb clock_skew_tolerance (now - timestamp)

-- What happens around one call of `acquireLock`: the clocks of the process and of the database, what
-- others do until the next call, and how long this one waits for that.
pub record Turn (D : Type 0) : Type 0 where
  pub now : ℕ
  pub database_now : ℕ
  pub wait : ℕ
  pub others : D → D

module _ {D : Type 0} (locks : LockCollection D) where
  -- one `findOneAndUpdate` with the check of the clocks; `none` is the error of a duplicate key
  unfoldable pub attempt : JsString → ℕ → JsString → ℕ → ℕ → D → D × Option Outcome
  attempt name ttl token now database_now d =
      elim (locks.upsert name token (now + ttl + clock_skew_tolerance) database_now d) [
        | none ↦ (d, none)
        | some (after, e) ↦ (after, some (if is_skewed e.timestamp now then skewed else acquired))
      ]

  -- `acquireLock`, with a turn for each call; `none` when the turns run out
  unfoldable pub acquire_lock : JsString → ℕ → JsString → ℕ → List (Turn D) → D → D × Option Outcome
  acquire_lock name ttl token timeout [] d = (d, none)
  acquire_lock name ttl token timeout (turn ∷ turns) d =
      let tried = attempt name ttl token turn.now turn.database_now d in
      let later = acquire_lock name ttl token (timeout - turn.wait) turns (turn.others tried.0) in
      elim tried.1 [
        | some outcome ↦ (tried.0, some outcome)
        | none ↦ if timeout == 0 then (tried.0, some refused) else later
      ]

  -- `releaseLock`; `false` is the error "Lock expired"
  unfoldable pub release_lock : JsString → JsString → D → D × Bool
  release_lock name token d =
      let deleted = locks.delete_one name token d in (deleted.0, deleted.1 == 1)

  -- `getToken`
  unfoldable pub get_token : JsString → D → Option JsString
  get_token name d = elim (locks.find_one name d) [ none ↦ none | some e ↦ some e.value ]
