-- ===== src/Store/Backend/Accepted.antt =====
-- `validate_replace` against the relation `Extends`.
use whale_ai_sdk.Base.{
  ◌==◌, ◌∷◌, ◌⊎◌, Bool-cases, Eq, List, Option-cases, String, [], arith, false, inl, inr, some,
  string_eq, true, ◌≡◌, ◌≤◌, ◌∙◌, ℕ, sym, ◌+◌,
}
use whale_ai_sdk.Base.TreeMap.{TreeMap, get}
use whale_ai_sdk.Protocol.Canonical.{item_eq}
use whale_ai_sdk.Protocol.Runs.{is_terminal, params_eq}
use whale_ai_sdk.Store.Backend.Extends.{CallExtends, Extends, Keeps, Prefix-starts_with, RunExtends}
use whale_ai_sdk.Store.Backend.Replace.{
  call_changed, check_contents, check_kept_calls, check_kept_runs, is_legacy_tombstone_migration,
  run_changed, validate_replace,
}
use whale_ai_sdk.Store.Env.{Env}
use whale_ai_sdk.Store.Error.{ok}
use whale_ai_sdk.Store.Retention.Lifecycle.{migrate_retention}
use whale_ai_sdk.Store.State.Queries.{find_call}
use whale_ai_sdk.Store.State.Validate.{validate}
use whale_ai_sdk.Store.Types.{SessionRecord, StoredCall, StoredRun}

module _ {V : Type 0} ⦃v : Eq V⦄ ⦃env : Env V⦄ where
  call_changed-Extends : (c d : StoredCall V) → call_changed c d ≡ false → CallExtends c d
  unfolding call_changed
  call_changed-Extends c d h = ground arith

  check_kept_calls-find :
      (calls new : List (StoredCall V))
      → check_kept_calls calls new ≡ ok tt
      → (id : String) (c : StoredCall V) → find_call id calls ≡ some c
      → (d : StoredCall V) × (find_call id new ≡ some d) × CallExtends c d
  unfolding check_kept_calls
  check_kept_calls-find [] new h id c e = cc
  check_kept_calls-find (x ∷ calls) new h id c e = elim (Option-cases (find_call x.call_id new)) [
    | inl missing ↦ absurd (ground arith)
    | inr (d, found) ↦ elim (Bool-cases (x.call_id == id)) [
      | inl here ↦ (d, ground arith, call_changed-Extends c d (ground arith))
      | inr there ↦ check_kept_calls-find calls new (ground arith) id c (ground arith)
    ]
  ]

  run_changed-params :
      (run run' : StoredRun V)
      → run_changed run run' ≡ false
      → params_eq run'.params run.params ≡ true
  unfolding run_changed
  run_changed-params run run' h = ground arith

  params_eq-fields :
      (run run' : StoredRun V)
      → params_eq run'.params run.params ≡ true
      → (run'.params.thread_id ≡ run.params.thread_id)
        × (run'.params.turn_id ≡ run.params.turn_id)
        × (run'.params.input_items ≡ run.params.input_items)
  unfolding params_eq
  params_eq-fields run run' h = ground arith

  run_changed-fields :
      (run run' : StoredRun V)
      → run_changed run run' ≡ false
      → (run'.effective_options ≡ run.effective_options)
        × (run'.history_start ≡ run.history_start)
        × (is_terminal run.snapshot.status ≡ true → run'.snapshot ≡ run.snapshot)
  unfolding run_changed
  run_changed-fields run run' h = ground arith

  run_kept :
      (run run' : StoredRun V)
      → run_changed run run' ≡ false
      → check_kept_calls run.calls run'.calls ≡ ok tt
      → RunExtends run run'
  run_kept run run' h k =
      let (thread, turn, items) = params_eq-fields run run' (run_changed-params run run' h) in
      let (options, start, ended) = run_changed-fields run run' h in
      record {
        thread_id = thread;
        turn_id = turn;
        input_items = items;
        effective_options = options;
        history_start = start;
        snapshot = ended;
        calls = check_kept_calls-find run.calls run'.calls k;
      }

  check_kept_runs-get :
      (runs new : TreeMap (StoredRun V))
      → check_kept_runs runs new ≡ ok tt
      → (turn : String) (run : StoredRun V) → get runs turn ≡ some run
      → (run' : StoredRun V) × (get new turn ≡ some run') × RunExtends run run'
  unfolding check_kept_runs get
  check_kept_runs-get [] new h turn run e = cc
  check_kept_runs-get ((id, x) ∷ runs) new h turn run e = elim (Option-cases (get new id)) [
    | inl missing ↦ absurd (ground arith)
    | inr (run', found) ↦ elim (Bool-cases (turn == id)) [
      | inl here ↦ (run', ground arith, run_kept run run' (ground arith) (ground arith))
      | inr there ↦ check_kept_runs-get runs new (ground arith) turn run (ground arith)
    ]
  ]

  pub accepted_parts :
      (old new : SessionRecord V) (id : String) (expected : ℕ)
      → validate_replace old id expected new ≡ ok tt
      → (validate new ≡ ok tt)
        × (old.revision ≡ expected)
        × (new.revision ≡ expected + 1)
        × (new.recovery_id ≡ id)
        × (new.secret_digest ≡ old.secret_digest)
        × (old.epoch ≤ new.epoch)
        × ((old.forgotten ≡ false) ⊎ (is_legacy_tombstone_migration old new ≡ true))
        × (check_contents old new ≡ ok tt)
  unfolding validate_replace
  accepted_parts old new id expected h = ground arith

  migrated : SessionRecord V → ℕ → ℕ → SessionRecord V
  migrated old now revision = record ((migrate_retention old now).0) { revision = revision }

  forgotten-migrated :
      (old : SessionRecord V) (now revision : ℕ)
      → (migrated old now revision).forgotten ≡ old.forgotten
  unfolding migrated migrate_retention
  forgotten-migrated old now revision = ground arith

  legacy_forgotten :
      (old new : SessionRecord V)
      → is_legacy_tombstone_migration old new ≡ true
      → old.forgotten ≡ new.forgotten
  unfolding is_legacy_tombstone_migration migrated
  legacy_forgotten old new h = elim (Option-cases new.created_at_ms) [
    | inl missing ↦ absurd (ground arith)
    | inr (now, e) ↦
        sym (forgotten-migrated old now new.revision)
        ∙ env.to_value-forgotten (migrated old now new.revision) new (ground arith)
  ]

  check_contents-Keeps :
      (old new : SessionRecord V)
      → check_contents old new ≡ ok tt
      → new.forgotten ≡ false
      → Keeps old new
  unfolding check_contents
  check_contents-Keeps old new h f = record {
    history = Prefix-starts_with new.history old.history (ground arith);
    identities =
        Prefix-starts_with new.historical_thread_ids old.historical_thread_ids (ground arith);
    runs = check_kept_runs-get old.runs new.runs (ground arith);
  }

  pub accepted-Extends :
      (old new : SessionRecord V) (id : String) (expected : ℕ)
      → validate_replace old id expected new ≡ ok tt
      → Extends old new
  accepted-Extends old new id expected h =
      let (valid, at, next, named, secret, epoch, forgot, contents) =
        accepted_parts old new id expected h in
      record {
        revision = omega arith;
        epoch = epoch;
        secret = secret;
        forgotten = λ f. elim forgot [
          | inl remembered ↦ absurd (ground arith)
          | inr legacy ↦ sym (legacy_forgotten old new legacy) ∙ f
        ];
        keeps = check_contents-Keeps old new contents;
      }

  -- An accepted replacement extends the record: the secret and a tombstone stay, the epoch does not
  -- fall, and unless it is forgotten, history, runs and calls are kept. It replaces exactly the
  -- expected revision by the one after it, stands under the identity asked for, and is valid itself.
  pub validate_replace-Extends :
      (old new : SessionRecord V) (id : String) (expected : ℕ)
      → validate_replace old id expected new ≡ ok tt
      → Extends old new
        × (old.revision ≡ expected)
        × (new.revision ≡ old.revision + 1)
        × (new.recovery_id ≡ id)
        × (validate new ≡ ok tt)
  validate_replace-Extends old new id expected h =
      let (valid, at, next, named, secret, epoch, forgot, contents) =
        accepted_parts old new id expected h in
      (accepted-Extends old new id expected h, at, omega arith, named, valid)
