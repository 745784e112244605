-- ===== src/Store/Journal/Outcomes.antt =====
-- The outcomes of one command of a worker that is not poisoned: what makes it fail, and what does not.
use whale_ai_sdk.Base.{
  ◌⊎◌, Bool-cases, Eq, Option-cases, String, subst, arith, checked_add, false, inl, inr, none, refl,
  some, true, ◌≡◌, ℕ,
}
use whale_ai_sdk.Store.Backend.Interface.{SessionStore}
use whale_ai_sdk.Store.Env.{Env}
use whale_ai_sdk.Store.Error.{StoreError, display, Result-cases, Result-split, err, not_found, ok}
use whale_ai_sdk.Store.Journal.{
  Handled, Lease, change, exchange, exchange_failure, handle, handle_loaded, is_stale,
}
use whale_ai_sdk.Store.Journal.Apply.{Action, Response, apply, reads}
use whale_ai_sdk.Store.Retention.Lifecycle.{touch}
use whale_ai_sdk.Store.State.Mutate.{FreshIds}
use whale_ai_sdk.Store.Types.{SessionRecord}

module _ {V S : Type 0} ⦃v : Eq V⦄ ⦃env : Env V⦄ ⦃backend : SessionStore V S⦄ where
  -- A command for which the store did what it was asked: its record is not the worker's, or it is
  -- only read, or nothing was to be stored, or the exchange was committed.
  pub data Works (fresh : FreshIds) (now : ℕ) (s : S) (lease : Lease) (action : Action V)
      : SessionRecord V → Type 0 where
    not_own : (r : SessionRecord V) → is_stale lease r ≡ true → Works fresh now s lease action r
    only_read : (r : SessionRecord V) → reads action ≡ true → Works fresh now s lease action r
    rejected :
        (r : SessionRecord V) (e : StoreError)
        → apply fresh now r action ≡ err e
        → Works fresh now s lease action r
    exhausted :
        (r : SessionRecord V) → checked_add r.revision 1 ≡ none → Works fresh now s lease action r
    committed :
        (r r' : SessionRecord V) (response : Response V) (next : ℕ)
        → apply fresh now r action ≡ ok (r', response)
        → checked_add r.revision 1 ≡ some next
        → (backend.compare_exchange s lease.id r.revision
            (record (touch r' now) { revision = next })).1
          ≡ ok tt
        → Works fresh now s lease action r

  -- A command for which the store failed, with the text of the failure and the store that is left.
  pub data Fails (fresh : FreshIds) (now : ℕ) (s : S) (lease : Lease) (action : Action V)
      : String → S → Type 0 where
    unreadable :
        (e : StoreError)
        → backend.load s lease.id ≡ err e
        → Fails fresh now s lease action (display e) s
    disappeared :
        backend.load s lease.id ≡ ok none → Fails fresh now s lease action "Record disappeared" s
    unwritable :
        (r r' : SessionRecord V) (response : Response V) (next : ℕ) (e : StoreError)
        → backend.load s lease.id ≡ ok (some r)
        → is_stale lease r ≡ false
        → reads action ≡ false
        → apply fresh now r action ≡ ok (r', response)
        → checked_add r.revision 1 ≡ some next
        → (backend.compare_exchange s lease.id r.revision
            (record (touch r' now) { revision = next })).1
          ≡ err e
        → Fails fresh now s lease action
            (display e)
            (backend.compare_exchange s lease.id r.revision
              (record (touch r' now) { revision = next })).0

  -- What one command leaves of a healthy worker.
  pub data Outcome (fresh : FreshIds) (now : ℕ) (s : S) (lease : Lease) (action : Action V)
      (h : Handled V S) : Type 0 where
    works :
        (r : SessionRecord V)
        → backend.load s lease.id ≡ ok (some r)
        → Works fresh now s lease action r
        → h.poison ≡ none
        → Outcome fresh now s lease action h
    fails :
        (reason : String) (e : StoreError)
        → Fails fresh now s lease action reason h.store
        → h.poison ≡ some reason
        → h.reply ≡ err e
        → Outcome fresh now s lease action h

  exchange-Outcome :
      (fresh : FreshIds) (now : ℕ) (s : S) (lease : Lease) (action : Action V)
      (r r' : SessionRecord V) (response : Response V) (next : ℕ)
      → backend.load s lease.id ≡ ok (some r)
      → is_stale lease r ≡ false
      → reads action ≡ false
      → apply fresh now r action ≡ ok (r', response)
      → checked_add r.revision 1 ≡ some next
      → Outcome fresh now s lease action
          (exchange s lease r.revision (record (touch r' now) { revision = next }) response)
  unfolding exchange
  exchange-Outcome fresh now s lease action r r' response next loaded own changes done counted =
      let new = record (touch r' now) { revision = next } in
      elim (Result-cases (backend.compare_exchange s lease.id r.revision new).1) [
        | inl stored ↦
            works r loaded (committed r r' response next done counted stored) (ground arith)
        | inr (e, failed) ↦
            fails (display e) (exchange_failure e)
              (subst (λ t. Fails fresh now s lease action (display e) t) (ground arith)
                (unwritable r r' response next e loaded own changes done counted failed))
              (ground arith) (ground arith)
      ]

  loaded-Outcome :
      (fresh : FreshIds) (now : ℕ) (s : S) (lease : Lease) (action : Action V) (r : SessionRecord V)
      → backend.load s lease.id ≡ ok (some r)
      → Outcome fresh now s lease action (handle_loaded fresh now s lease r action)
  unfolding handle_loaded change
  loaded-Outcome fresh now s lease action r loaded = elim (Bool-cases (is_stale lease r)) [
    | inl stale ↦ works r loaded (not_own r stale) (ground arith)
    | inr own ↦ elim (Bool-cases (reads action)) [
      | inl reading ↦ works r loaded (only_read r reading) (ground arith)
      | inr changes ↦ elim (Result-split (apply fresh now r action)) [
        | inr (e, refusal) ↦ works r loaded (rejected r e refusal) (ground arith)
        | inl ((r', response), done) ↦ elim (Option-cases (checked_add r.revision 1)) [
          | inl overflow ↦ works r loaded (exhausted r overflow) (ground arith)
          | inr (next, counted) ↦ subst (Outcome fresh now s lease action) (ground arith) (
              exchange-Outcome fresh now s lease action r r' response next loaded own changes done
                counted)
        ]
      ]
    ]
  ]

  pub outcome_cases :
      (fresh : FreshIds) (now : ℕ) (s : S) (lease : Lease) (action : Action V) (h : Handled V S)
      → Outcome fresh now s lease action h
      → ((r : SessionRecord V) × (backend.load s lease.id ≡ ok (some r))
          × Works fresh now s lease action r
          × (h.poison ≡ none))
        ⊎ ((reason : String) × (e : StoreError) × Fails fresh now s lease action reason h.store
            × (h.poison ≡ some reason)
            × (h.reply ≡ err e))
  outcome_cases fresh now s lease action h (works r loaded worked healthy) =
      inl (r, loaded, worked, healthy)
  outcome_cases fresh now s lease action h (fails reason e failed poison reply) =
      inr (reason, e, failed, poison, reply)

  pub handle-Outcome :
      (fresh : FreshIds) (now : ℕ) (s : S) (lease : Lease) (action : Action V)
      → Outcome fresh now s lease action (handle fresh now s lease none action)
  unfolding handle
  handle-Outcome fresh now s lease action = elim (Result-split (backend.load s lease.id)) [
    | inr (e, failed) ↦ rw (handle, failed) (fails (display e) e (unreadable e failed) refl refl)
    | inl (found, loaded) ↦ elim (Option-cases found) [
      | inl missing ↦ subst (Outcome fresh now s lease action) (ground arith) (
          let gone : Handled V S = record {
            store = s;
            poison = some "Record disappeared";
            reply = err not_found;
          } in
          let left : Outcome fresh now s lease action gone =
            fails "Record disappeared" not_found (disappeared (ground arith)) refl refl in
          left)
      | inr (r, here) ↦
          let loads : backend.load s lease.id ≡ ok (some r) = ground arith in
          subst (Outcome fresh now s lease action) (ground arith)
            (loaded-Outcome fresh now s lease action r loads)
    ]
  ]
