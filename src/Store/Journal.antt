-- ===== src/Store/Journal.antt =====
-- The journal of an attached session (crates/whale-store/src/runtime.rs): `apply` and the worker
-- that receives one command at a time. A lease names what the worker was spawned with, its state
-- is the poison, and the store is any implementation of the interface. The two fresh UUIDs of a
-- new call and the clock are arguments. One reading of the clock stands for the two that a Detach
-- makes, in the action and after it. The load and the exchange of a command are one step; the source
-- holds no lock between them, and the exchange compares the revision of the loaded record instead.
pub mod Apply
pub mod Fencing
pub mod Outcomes
pub mod Poisoned
pub mod Fenced
pub mod Acknowledged
pub mod Actions
use whale_ai_sdk.Base.{
  ◌!=◌, ◌==◌, ◌||◌, ◌∷◌, Bool, Eq, List, Option, String, checked_add, is_none, nat_eq, none,
  option_eq, some, string_eq, true, false, ℕ,
}
use whale_ai_sdk.Store.Backend.Interface.{SessionStore}
use whale_ai_sdk.Store.Env.{Env}
use whale_ai_sdk.Store.Error.{
  Result, StoreError, conflict, display, err, io, not_found, ok, poisoned, stale_lease,
}
use whale_ai_sdk.Store.Journal.Apply.{
  Action, Response, apply, reads, finalized, flag, metadata, nothing, receipt, recorded, shown,
}
use whale_ai_sdk.Store.Retention.Lifecycle.{touch}
use whale_ai_sdk.Store.State.Mutate.{FreshIds}
use whale_ai_sdk.Store.State.Queries
use whale_ai_sdk.Store.Types.{SessionRecord}

pub record Lease : Type 0 where
  pub id : String
  pub epoch : ℕ
  pub owner : Option String
  pub thread : Option String

-- The reply to a command whose exchange failed.
unfoldable pub exchange_failure : StoreError → StoreError
exchange_failure (io text) = io text
exchange_failure (poisoned text) = poisoned text
exchange_failure other = poisoned (display other)

-- The store, the poison, and the reply.
pub record Handled (V S : Type 0) : Type 0 where
  pub store : S
  pub poison : Option String
  pub reply : Result (Response V)

module _ {V : Type 0} where
  unfoldable pub is_stale : Lease → SessionRecord V → Bool
  is_stale lease r =
      r.epoch != lease.epoch
      || r.owner != lease.owner
      || r.thread_id != lease.thread
      || is_none r.owner
      || r.forgotten

  -- The reply to a command whose exchange succeeded.
  unfoldable pub committed_reply : SessionRecord V → Response V → Response V
  committed_reply r (receipt revision result_item) = receipt r.revision result_item
  committed_reply r (shown before) = shown (Queries.snapshot r)
  committed_reply r other = other

module _ {V S : Type 0} ⦃v : Eq V⦄ ⦃env : Env V⦄ ⦃backend : SessionStore V S⦄ where
  unfoldable pub exchange : S → Lease → ℕ → SessionRecord V → Response V → Handled V S
  unfolding exchange_failure committed_reply
  exchange s lease revision r response =
      let (s', result) = backend.compare_exchange s lease.id revision r in
      elim result [
        | ok done ↦ record { store = s'; poison = none; reply = ok (committed_reply r response) }
        | err error ↦ record {
          store = s';
          poison = some (display error);
          reply = err (exchange_failure error);
        }
      ]

  -- A command that changes the record, which the worker has loaded and found to be its own.
  unfoldable pub change : FreshIds → ℕ → S → Lease → SessionRecord V → Action V → Handled V S
  unfolding exchange
  change fresh now s lease r action = elim (apply fresh now r action) [
    | err error ↦ record { store = s; poison = none; reply = err error }
    | ok (r', response) ↦ elim (checked_add r.revision 1) [
      | none ↦ record { store = s; poison = none; reply = err conflict }
      | some next ↦ exchange s lease r.revision (record (touch r' now) { revision = next }) response
    ]
  ]

  unfoldable pub handle_loaded : FreshIds → ℕ → S → Lease → SessionRecord V → Action V → Handled V S
  unfolding change is_stale
  handle_loaded fresh now s lease r action = elim (is_stale lease r) [
    | true ↦ record { store = s; poison = none; reply = err stale_lease }
    | false ↦ elim (reads action) [
      | true ↦ record { store = s; poison = none; reply = ok (recorded r) }
      | false ↦ change fresh now s lease r action
    ]
  ]

  -- One command of the worker.
  unfoldable pub handle : FreshIds → ℕ → S → Lease → Option String → Action V → Handled V S
  unfolding handle_loaded
  handle fresh now s lease (some reason) action = record {
    store = s;
    poison = some reason;
    reply = err (poisoned reason);
  }
  handle fresh now s lease none action = elim (backend.load s lease.id) [
    | err error ↦ record { store = s; poison = some (display error); reply = err error }
    | ok none ↦ record { store = s; poison = some "Record disappeared"; reply = err not_found }
    | ok (some r) ↦ handle_loaded fresh now s lease r action
  ]
