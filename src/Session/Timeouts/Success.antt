-- ===== src/Session/Timeouts/Success.antt =====
-- lib/session.ts: `timeoutOperations` where downloads count as a success when they time out.
use genieacs.Common.Eq.{JsString, js_string_eq, ◌===◌, ===_iff}
use genieacs.Common.JsMap.{JsMap, get}
use genieacs.Common.Text.{codes}
use genieacs.Common.{
  ℕ, ◌+◌, ◌<◌, ◌≡◌, ◌⊎◌, inl, inr, refl, sym, ap, subst, true, Option, none, some, List, [], ◌∷◌,
  All, ltb, Bool-cases, arith,
}
use genieacs.Requests.{Operation, Fault}
use genieacs.Session.{Session}
use genieacs.Session.Downloads.{
  Thrown, type_error, unknown_operation, Ending, returns, throws, revert_download_parameters,
  drop_operation, open_revision, complete_operation, transfer_complete,
}
use genieacs.Session.Timeouts.{
  made_up_request, succeed_operation, time_out, time_out_each, timeout_operations,
}

-- the key of an entry has a value in the map
abbrev HasValue : {V : Type 0} → JsMap JsString V → JsString × V → Type 0
HasValue {V} m (k, v) = (w : V) × (get k m ≡ some w)

get-cons :
    {V : Type 0} (j k : JsString) (v : V) (m : JsMap JsString V) (w : V)
    → get k m ≡ some w
    → HasValue ((j, v) ∷ m) (k, w)
unfolding get
get-cons j k v m w h = elim (Bool-cases (j === k)) [ inl e ↦ (v, rw e refl) | inr e ↦ (w, rw e h) ]

HasValue-cons :
    {V : Type 0} (j : JsString) (v : V) (m l : JsMap JsString V)
    → All (HasValue m) l
    → All (HasValue ((j, v) ∷ m)) l
HasValue-cons j v m [] h = tt
HasValue-cons j v m ((k, w) ∷ l) ((x, h), hs) = (get-cons j k v m x h, HasValue-cons j v m l hs)

entries-HasValue : {V : Type 0} (m : JsMap JsString V) → All (HasValue m) m
unfolding get
entries-HasValue [] = tt
entries-HasValue ((k, v) ∷ m) =
    ((v, ground (arith, ===_iff k k)), HasValue-cons k v m m (entries-HasValue m))

Ending-cases :
    {A : Type 0} (r : Ending A) → ((a : A) × (r ≡ returns a)) ⊎ ((e : Thrown) × (r ≡ throws e))
Ending-cases (returns a) = inl (a, refl)
Ending-cases (throws e) = inr (e, refl)

-- A download that has not timed out.
pub record IsWaiting {N X : Type 0} (timeout : ℕ) (s : Session N X) (entry : JsString × Operation)
    : Type 0 where
  pub download : (entry.1.name === codes "Download") ≡ true
  pub early : s.timestamp < entry.1.timestamp + timeout

module _ {N X : Type 0} where
  complete_operation-throws :
      (command_key : JsString) (operation : Operation) (s : Session N X)
      → (e : Thrown) × (complete_operation (made_up_request command_key) operation s ≡ throws e)
  unfolding complete_operation
  complete_operation-throws command_key operation s =
      elim (Ending-cases (revert_download_parameters operation.instance_name s)) [
        | inl (reverted, h) ↦ (type_error, rw (complete_operation, h) refl)
        | inr (e, h) ↦ (e, rw (complete_operation, h) refl)
      ]

  succeed_operation-throws :
      (command_key : JsString) (operations : JsMap JsString Operation) (operation : Operation)
      (s : Session N X)
      → s.operations ≡ some operations
      → get command_key operations ≡ some operation
      → (e : Thrown) × (succeed_operation command_key s ≡ throws e)
  unfolding succeed_operation transfer_complete
  succeed_operation-throws command_key operations operation s h found =
      let (e, thrown) =
        complete_operation-throws command_key operation
          (drop_operation command_key operations (open_revision s)) in
      (e, rw (succeed_operation, transfer_complete, h, found, thrown) refl)

  -- All operations wait, and there is no report; or one does not, and there is an exception.
  abbrev pub Outcomes :
      Type 0 → Session N X → Ending (Session N X × List Fault × List Operation) → Type 0
  Outcomes Waiting s r =
      (Waiting × (r ≡ returns (s, [], []))) ⊎ (¬ Waiting × (e : Thrown) × (r ≡ throws e))

  time_out_lem :
      (timeout : ℕ) (command_key : JsString) (operation : Operation)
      (operations : JsMap JsString Operation) (s : Session N X)
      → s.operations ≡ some operations
      → HasValue operations (command_key, operation)
      → Outcomes
          (IsWaiting timeout s (command_key, operation))
          s
          (time_out timeout true command_key operation s)
  unfolding time_out
  time_out_lem timeout command_key operation operations s h (w, found) =
      elim (Bool-cases (operation.name === codes "Download")) [
        | inr other ↦ inr (
          (λ i. absurd (ground (arith, other, i.download))),
          unknown_operation,
          rw (time_out, other) refl,
        )
        | inl download ↦ elim (Bool-cases (ltb s.timestamp (operation.timestamp + timeout))) [
          | inl early ↦ inl (
            record { download = download; early = ground (arith, early) },
            rw (time_out, download, early) refl,
          )
          | inr late ↦
              let (e, thrown) = succeed_operation-throws command_key operations w s h found in
              inr (
                (λ i. absurd (ground (arith, late, i.early))),
                e,
                rw (time_out, download, late) thrown,
              )
        ]
      ]

  time_out_each_lem :
      (timeout : Session N X → ℕ) (operations l : JsMap JsString Operation) (s : Session N X)
      → s.operations ≡ some operations
      → All (HasValue operations) l
      → Outcomes (All (IsWaiting (timeout s) s) l) s (time_out_each timeout (λ _. true) l s)
  unfolding time_out_each
  time_out_each_lem timeout operations [] s h i = inl (tt, refl)
  time_out_each_lem timeout operations ((k, operation) ∷ l) s h (found, i) =
      elim (time_out_lem (timeout s) k operation operations s h found) [
        | inr (n, e, thrown) ↦ inr ((λ w. n w.0), e, rw (time_out_each, thrown) refl)
        | inl (waits, done) ↦ elim (time_out_each_lem timeout operations l s h i) [
          | inl (others, rest) ↦ inl ((waits, others), rw (time_out_each, done, rest) refl)
          | inr (n, e, thrown) ↦ inr ((λ w. n w.1), e, rw (time_out_each, done, thrown) refl)
        ]
      ]

  -- With downloadSuccessOnTimeout set, timeoutOperations returns just if every operation is a
  -- download that has not timed out, and then without any report; once one has timed out or is
  -- no download it ends with an exception.
  pub timeout_operations_lem :
      (timeout : Session N X → ℕ) (operations : JsMap JsString Operation) (s : Session N X)
      → s.operations ≡ some operations
      → Outcomes
          (All (IsWaiting (timeout (open_revision s)) (open_revision s)) operations)
          (open_revision s)
          (timeout_operations timeout (λ _. true) s)
  unfolding timeout_operations
  timeout_operations_lem timeout operations s h =
      let started : timeout_operations timeout (λ _. true) s
          ≡ time_out_each timeout (λ _. true) operations (open_revision s) =
        ap
          (λ (o : Option (JsMap JsString Operation)).
            elim o as (λ _. Ending (Session N X × List Fault × List Operation)) [
              | none ↦ throws type_error
              | some l ↦ time_out_each timeout (λ _. true) l (open_revision s)
            ])
          h in
      subst
        (Outcomes (All (IsWaiting (timeout (open_revision s)) (open_revision s)) operations)
          (open_revision s))
        (sym started)
        (time_out_each_lem timeout operations operations (open_revision s) h
          (entries-HasValue operations))
