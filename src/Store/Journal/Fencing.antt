-- ===== src/Store/Journal/Fencing.antt =====
-- What a worker may rely on: its lease, and a reply of success.
use whale_ai_sdk.Base.{
  Bool-cases, Eq, Option, Option-cases, String, subst, arith, checked_add, false, inl, inr, none,
  refl, some, true, ◌≡◌, ℕ,
}
use whale_ai_sdk.Store.Backend.Accepted.{accepted-Extends}
use whale_ai_sdk.Store.Backend.Extends.{Extends}
use whale_ai_sdk.Store.Backend.Interface.{SessionStore}
use whale_ai_sdk.Store.Env.{Env}
use whale_ai_sdk.Store.Error.{Result-cases, Result-split, err, ok, stale_lease}
use whale_ai_sdk.Store.Journal.{Handled, Lease, change, exchange, handle, handle_loaded, is_stale}
use whale_ai_sdk.Store.Journal.Apply.{Action, Response, apply, reads}
use whale_ai_sdk.Store.Retention.Lifecycle.{touch}
use whale_ai_sdk.Store.State.Mutate.{FreshIds}
use whale_ai_sdk.Store.Types.{SessionRecord}

module _ {V S : Type 0} ⦃v : Eq V⦄ ⦃env : Env V⦄ ⦃backend : SessionStore V S⦄ where
  pub handle_stale :
      (fresh : FreshIds) (now : ℕ) (s : S) (lease : Lease) (action : Action V) (r : SessionRecord V)
      → backend.load s lease.id ≡ ok (some r)
      → is_stale lease r ≡ true
      → handle fresh now s lease none action
        ≡ record { store = s; poison = none; reply = err stale_lease }
  unfolding handle handle_loaded
  handle_stale fresh now s lease action r found stale =
      rw (handle, found, handle_loaded, stale) refl

  -- What a success of a command that changes the record commits.
  pub record Committed (fresh : FreshIds) (now : ℕ) (s : S) (lease : Lease) (action : Action V)
      (h : Handled V S) : Type 0 where
    pub before : SessionRecord V
    pub applied : SessionRecord V
    pub response : Response V
    pub next : ℕ
    pub loaded : backend.load s lease.id ≡ ok (some before)
    pub current : is_stale lease before ≡ false
    pub changed : apply fresh now before action ≡ ok (applied, response)
    pub counted : checked_add before.revision 1 ≡ some next
    pub stored :
        backend.load h.store lease.id ≡ ok (some (record (touch applied now) { revision = next }))
    pub extends : Extends before (record (touch applied now) { revision = next })
    pub healthy : h.poison ≡ none

  exchange-Committed :
      (s : S) (lease : Lease) (revision : ℕ) (old r : SessionRecord V)
      (response answer : Response V)
      → backend.load s lease.id ≡ ok (some old)
      → (exchange s lease revision r response).reply ≡ ok answer
      → (backend.load (exchange s lease revision r response).store lease.id ≡ ok (some r))
        × Extends old r
        × ((exchange s lease revision r response).poison ≡ none)
  unfolding exchange
  exchange-Committed s lease revision old r response answer found h =
      elim (Result-cases (backend.compare_exchange s lease.id revision r).1) [
        | inr (e, refused) ↦ absurd (ground arith)
        | inl done ↦
            let (old', found', accepted) = backend.exchange_checked s lease.id revision r done in
            (
              ground (arith, backend.load-exchange s lease.id revision r done),
              subst (λ x. Extends x r) (ground arith)
                  (accepted-Extends old' r lease.id revision accepted),
              ground arith,
            )
      ]

  change-Committed :
      (fresh : FreshIds) (now : ℕ) (s : S) (lease : Lease) (action : Action V) (r : SessionRecord V)
      (answer : Response V)
      → backend.load s lease.id ≡ ok (some r)
      → is_stale lease r ≡ false
      → (change fresh now s lease r action).reply ≡ ok answer
      → Committed fresh now s lease action (change fresh now s lease r action)
  unfolding change
  change-Committed fresh now s lease action r answer found current h =
      elim (Result-split (apply fresh now r action)) [
        | inr (e, refused) ↦ absurd (ground arith)
        | inl ((r', response), done) ↦ elim (Option-cases (checked_add r.revision 1)) [
          | inl overflow ↦ absurd (ground arith)
          | inr (next, counted) ↦
              rw (change, done, counted)
                (let (stored, extends, healthy) =
                    exchange-Committed s lease r.revision r
                      (record (touch r' now) { revision = next }) response answer found
                      (ground arith) in
                  record {
                    before = r;
                    applied = r';
                    response = response;
                    next = next;
                    loaded = found;
                    current = current;
                    changed = done;
                    counted = counted;
                    stored = stored;
                    extends = extends;
                    healthy = healthy;
                  })
        ]
      ]

  -- A worker that answers a changing command with success held the current lease, and the store
  -- now has exactly what `apply` computed from the stored record, stamped with the time, at the next
  -- revision. That record extends the former one, and the worker is not poisoned.
  pub handle-Committed :
      (fresh : FreshIds) (now : ℕ) (s : S) (lease : Lease) (poison : Option String)
      (action : Action V) (answer : Response V)
      → reads action ≡ false
      → (handle fresh now s lease poison action).reply ≡ ok answer
      → Committed fresh now s lease action (handle fresh now s lease poison action)
  unfolding handle handle_loaded
  handle-Committed fresh now s lease (some reason) action answer changes h = absurd (ground arith)
  handle-Committed fresh now s lease none action answer changes h =
      elim (Result-split (backend.load s lease.id)) [
        | inr (e, failed) ↦ absurd (ground arith)
        | inl (found, loaded) ↦ elim (Option-cases found) [
          | inl missing ↦ absurd (ground arith)
          | inr (r, here) ↦ elim (Bool-cases (is_stale lease r)) [
            | inl stale ↦ absurd (ground arith)
            | inr current ↦ subst (Committed fresh now s lease action) (ground arith) (
                change-Committed fresh now s lease action r answer (ground arith) current
                  (ground arith))
          ]
        ]
      ]
