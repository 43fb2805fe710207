-- ===== src/Lock/Exclusion.antt =====
-- lib/lock.ts: a lock that was acquired is held against others until its time has passed.
use genieacs.Common.Eq.{JsString, js_string_eq, ◌===◌, ===_iff}
use genieacs.Common.{
  ℕ, ◌+◌, ◌≤◌, ◌<◌, ◌≡◌, ◌≢◌, refl, sym, ap, subst, ◌∙◌, ◌⊎◌, inl, inr, true, false, Bool-cases,
  none, some, Option-cases, if◌then◌else◌, arith,
}
use genieacs.Lock.{
  LockDoc, LockCollection, IsCollection, clock_skew_tolerance, acquired, skewed, is_skewed, attempt,
  release_lock, get_token,
}

module _ {D : Type 0} (locks : LockCollection D) (name token : JsString) (deadline : ℕ) where
  -- What may happen to the collection while the lock is held: others try for locks and release
  -- theirs, and the database removes what has expired before the deadline.
  pub data Step : D → D → Type 0 where
    other_attempt :
        {d : D} (lock other : JsString) (ttl now database_now : ℕ)
        → other ≢ token
        → Step d (attempt locks lock ttl other now database_now d).0
    other_release :
        {d : D} (lock other : JsString) → other ≢ token → Step d (release_lock locks lock other d).0
    sweeps : {d : D} (now : ℕ) → now < deadline → Step d (locks.sweep now d)

  pub data Run : D → D → Type 0 where
    done : {d : D} → Run d d
    next : {d e f : D} → Step d e → Run e f → Run d f

  -- The document of the lock bears the token and does not expire before the deadline.
  pub record IsHeld (d : D) : Type 0 where
    pub doc : LockDoc
    pub found : locks.find_one name d ≡ some doc
    pub mine : doc.value ≡ token
    pub lasts : deadline ≤ doc.expire

apart_names : (a b : JsString) → (a === b) ≡ false → a ≢ b
apart_names a b h e = let same = (===_iff a b).1 e in absurd (ground (arith, same, h))

module _ {D : Type 0} (locks : LockCollection D) (c : IsCollection locks) (name token : JsString)
    (deadline : ℕ) where
  attempt-IsHeld :
      (d : D) (lock other : JsString) (ttl now database_now : ℕ)
      → other ≢ token
      → IsHeld locks name token deadline d
      → IsHeld locks name token deadline (attempt locks lock ttl other now database_now d).0
  unfolding attempt
  attempt-IsHeld d lock other ttl now database_now n i =
      elim (Option-cases
        (locks.upsert lock other (now + ttl + clock_skew_tolerance) database_now d)) [
          | inl taken ↦ rw (attempt, taken) i
          | inr ((after, e), given) ↦ elim (Bool-cases (name === lock)) [
            | inl same ↦
                let at_name : name ≡ lock = (===_iff name lock).0 same in
                absurd (
                  ground (
                    arith,
                    given,
                    c.upsert_taken lock other (now + ttl + clock_skew_tolerance) database_now d
                        i.doc (subst (λ l. locks.find_one l d ≡ some i.doc) at_name i.found)
                        (λ h. n (sym h ∙ i.mine)),
                  ))
            | inr apart ↦
                rw (attempt, given)
                  (record {
                    doc = i.doc;
                    found =
                        c.upsert_others lock other name (now + ttl + clock_skew_tolerance)
                          database_now d after e (apart_names name lock apart) given
                        ∙ i.found;
                    mine = i.mine;
                    lasts = i.lasts;
                  })
          ]
        ]

  release-IsHeld :
      (d : D) (lock other : JsString)
      → other ≢ token
      → IsHeld locks name token deadline d
      → IsHeld locks name token deadline (release_lock locks lock other d).0
  unfolding release_lock
  release-IsHeld d lock other n i = elim (Bool-cases (name === lock)) [
    | inl same ↦
        let at_name : name ≡ lock = (===_iff name lock).0 same in
        let missed = c.delete_miss lock other d (λ e h f.
          let there = subst (λ l. locks.find_one l d ≡ some i.doc) at_name i.found in
          let one : i.doc ≡ e = ground (arith, there, h) in
          n (sym f ∙ ap (λ x. x.value) (sym one) ∙ i.mine)) in
        rw (release_lock, missed) i
    | inr apart ↦ record {
      doc = i.doc;
      found = c.delete_others lock other name d (apart_names name lock apart) ∙ i.found;
      mine = i.mine;
      lasts = i.lasts;
    }
  ]

  Step-IsHeld :
      (d e : D)
      → Step locks name token deadline d e
      → IsHeld locks name token deadline d
      → IsHeld locks name token deadline e
  Step-IsHeld d _ (other_attempt lock other ttl now database_now n) i =
      attempt-IsHeld d lock other ttl now database_now n i
  Step-IsHeld d _ (other_release lock other n) i = release-IsHeld d lock other n i
  Step-IsHeld d _ (sweeps now early) i = record {
    doc = i.doc;
    found = c.sweep_keeps name now d i.doc i.found (omega (arith, i.lasts));
    mine = i.mine;
    lasts = i.lasts;
  }

  Run-IsHeld :
      (d e : D)
      → Run locks name token deadline d e
      → IsHeld locks name token deadline d
      → IsHeld locks name token deadline e
  Run-IsHeld d _ done i = i
  Run-IsHeld d f (next {e = e} s r) i = Run-IsHeld e f r (Step-IsHeld d e s i)

module _ {D : Type 0} (locks : LockCollection D) (c : IsCollection locks) where
  -- whether the document of a lock, if there is one, bears the token
  open_or_taken :
      (name token : JsString) (d : D)
      → ((e : LockDoc) → locks.find_one name d ≡ some e → e.value ≡ token)
        ⊎ ((e : LockDoc) × (locks.find_one name d ≡ some e) × (e.value ≢ token))
  open_or_taken name token d = elim (Option-cases (locks.find_one name d)) [
    | inl missing ↦ inl (λ e h. absurd (ground (arith, missing, h)))
    | inr (doc, found) ↦ elim (Bool-cases (doc.value === token)) [
      | inl mine ↦ inl (λ e h.
          let one : doc ≡ e = ground (arith, found, h) in
          subst (λ x. x.value ≡ token) one ((===_iff doc.value token).0 mine))
      | inr others ↦ inr (doc, found, apart_names doc.value token others)
    ]
  ]

  acquired-IsHeld :
      (name token : JsString) (ttl now database_now : ℕ) (d after : D)
      → attempt locks name ttl token now database_now d ≡ (after, some acquired)
      → IsHeld locks name token (database_now + ttl) after
  unfolding attempt
  acquired-IsHeld name token ttl now database_now d after h =
      let expire = now + ttl + clock_skew_tolerance in
      elim (open_or_taken name token d) [
        | inl opened ↦
            let (a, given, found) = c.upsert_open name token expire database_now d opened in
            let result : attempt locks name ttl token now database_now d
                ≡ (a, some (if is_skewed database_now now then skewed else acquired)) =
              rw (attempt, given) refl in
            let same : a ≡ after = ap (λ r. r.0) (sym result ∙ h) in
            let outcome : some (if is_skewed database_now now then skewed else acquired)
                ≡ some acquired =
              ap (λ r. r.1) (sym result ∙ h) in
            record {
              doc = record { value = token; expire = expire; timestamp = database_now };
              found =
                  subst
                    (λ x.
                      locks.find_one name x
                      ≡ some (record { value = token; expire = expire; timestamp = database_now }))
                    same found;
              mine = refl;
              lasts = ground (arith, outcome);
            }
        | inr (e, found, others) ↦
            let taken = c.upsert_taken name token expire database_now d e found others in
            let result : attempt locks name ttl token now database_now d ≡ (d, none) =
              rw (attempt, taken) refl in
            let outcome : none ≡ some acquired = ap (λ r. r.1) (sym result ∙ h) in
            absurd (ground (arith, outcome))
      ]

  -- If a call for a token gets the lock on a collection as MongoDB documents it, then after any
  -- calls by other tokens and removals of expired documents, before the time to live has passed
  -- on the database clock, every other token is still refused, getToken gives the token and
  -- releaseLock succeeds.
  pub acquired-IsExclusive :
      (name token : JsString) (ttl now database_now : ℕ) (d after later : D) (other : JsString)
      (ttl' now' database_now' : ℕ)
      → attempt locks name ttl token now database_now d ≡ (after, some acquired)
      → Run locks name token (database_now + ttl) after later
      → other ≢ token
      → (attempt locks name ttl' other now' database_now' later ≡ (later, none))
        × (get_token locks name later ≡ some token)
        × ((release_lock locks name token later).1 ≡ true)
  unfolding attempt get_token release_lock
  acquired-IsExclusive name token ttl now database_now d after later other ttl' now' database_now' h
        r n =
      let i =
        Run-IsHeld locks c name token (database_now + ttl) after later r
          (acquired-IsHeld name token ttl now database_now d after h) in
      let taken =
        c.upsert_taken name other (now' + ttl' + clock_skew_tolerance) database_now' later i.doc
          i.found (λ e. n (sym e ∙ i.mine)) in
      let (freed, deleted, _) = c.delete_hit name token later i.doc i.found i.mine in
      (
        rw (attempt, taken) refl,
        rw (get_token, i.found) (ap some i.mine),
        rw (release_lock, deleted) refl,
      )
