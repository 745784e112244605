-- ===== src/Store/Journal/Actions.antt =====
-- What the actions of the journal keep.
use whale_ai_sdk.Base.{
  ◌∷◌, ◌≡◌, Bool, Bool-cases, Eq, List, Option-cases, String, [], arith, inl, inr, none, subst, sym,
  ℕ, string_eq,
}
use whale_ai_sdk.Base.TreeMap.{TreeMap, get}
use whale_ai_sdk.Protocol.Runs.{RunSnapshot, StartTurnParams, is_terminal}
use whale_ai_sdk.Store.Backend.Extends.{Keeps, Keeps-refl, Keeps-trans}
use whale_ai_sdk.Store.Env.{Env}
use whale_ai_sdk.Store.Error.{Result-split, ok}
use whale_ai_sdk.Store.Journal.Apply.{
  Action, Response, acknowledge, acknowledges, apply, begins, change_metadata, commits, detach,
  detaches, finalizes, read, replace, replaces, replaces_metadata,
}
use whale_ai_sdk.Store.Retention.Lifecycle.{mark_detached, touch}
use whale_ai_sdk.Store.State.Admitted.{begin-Begun, begin_old, no_new}
use whale_ai_sdk.Store.State.Begin.{begin}
use whale_ai_sdk.Store.State.Closed.{finalize_inverse, finalized-Keeps}
use whale_ai_sdk.Store.State.Ended.{finalize_ended}
use whale_ai_sdk.Store.State.Finalize.{fail_runs, failing, finalize, live_turns, recover}
use whale_ai_sdk.Store.State.Kept.{mutate-Keeps}
use whale_ai_sdk.Store.State.Mutate.{FreshIds, mutate}
use whale_ai_sdk.Store.Types.{FinalizedRun, SessionRecord}

module _ {V : Type 0} where
  -- The committed parts of two records are the same.
  same-Keeps :
      (r r' : SessionRecord V)
      → r'.history ≡ r.history
      → r'.historical_thread_ids ≡ r.historical_thread_ids
      → r'.runs ≡ r.runs
      → Keeps r r'
  same-Keeps r r' history identities runs =
      let k = Keeps-refl r in
      record {
        history = rw history k.history;
        identities = rw identities k.identities;
        runs = rw runs k.runs;
      }

module _ {V : Type 0} ⦃v : Eq V⦄ ⦃env : Env V⦄ where
  begin-Keeps :
      (r : SessionRecord V) (params : StartTurnParams V) (snapshot : RunSnapshot V) (options : V)
      (r' : SessionRecord V) (added : Bool)
      → begin r params snapshot options ≡ ok (r', added)
      → Keeps r r'
  begin-Keeps r params snapshot options r' added h =
      elim (Option-cases (get r.runs params.turn_id)) [
        | inr (old, found) ↦
            let (e, agrees, same, none_added) =
              begin_old r params snapshot options r' added old found h in
            subst (Keeps r) (sym e) (Keeps-refl r)
        | inl fresh ↦ elim (Bool-cases added) [
          | inr none_added ↦ absurd (no_new r params snapshot options r' added fresh h none_added)
          | inl true_added ↦
              let b = begin-Begun r params snapshot options r' (ground arith) in b.kept
        ]
      ]

  finalize_known :
      (r : SessionRecord V) (turn : String) (candidate : RunSnapshot V) (r' : SessionRecord V)
      (f : FinalizedRun V)
      → finalize r turn candidate ≡ ok (r', f)
      → get r.runs turn ≡ none
      → ⊥
  unfolding finalize
  finalize_known r turn candidate r' f h missing = ground arith

  finalize-Keeps :
      (r : SessionRecord V) (turn : String) (candidate : RunSnapshot V) (r' : SessionRecord V)
      (f : FinalizedRun V)
      → finalize r turn candidate ≡ ok (r', f)
      → Keeps r r'
  finalize-Keeps r turn candidate r' f h = elim (Option-cases (get r.runs turn)) [
    | inl missing ↦ absurd (finalize_known r turn candidate r' f h missing)
    | inr (run, found) ↦ elim (Bool-cases (is_terminal run.snapshot.status)) [
      | inl ended ↦
          let same = finalize_ended r turn run candidate found ended in
          subst (Keeps r) (ground arith) (Keeps-refl r)
      | inr live ↦
          let (usage, total, fits, e, snap, hist) =
            finalize_inverse r turn run candidate r' f found live h in
          subst (Keeps r) (sym e) (finalized-Keeps r turn run candidate usage found live)
    ]
  ]

  fail_runs-Keeps :
      (r : SessionRecord V) (turns : List String) (r' : SessionRecord V)
      → fail_runs r turns ≡ ok r'
      → Keeps r r'
  unfolding fail_runs
  fail_runs-Keeps r [] r' h = subst (Keeps r) (ground arith) (Keeps-refl r)
  fail_runs-Keeps r (turn ∷ rest) r' h = elim (Option-cases (get r.runs turn)) [
    | inl missing ↦ absurd (ground arith)
    | inr (run, found) ↦ elim (Result-split (finalize r turn (failing run))) [
      | inr (e, refused) ↦ absurd (ground arith)
      | inl ((next, f), done) ↦
          Keeps-trans (finalize-Keeps r turn (failing run) next f done)
            (fail_runs-Keeps next rest r' (ground arith))
    ]
  ]

  detach-Keeps : (now : ℕ) (r r' : SessionRecord V) → detach now r ≡ ok r' → Keeps r r'
  unfolding detach recover mark_detached touch
  detach-Keeps now r r' h = elim (Bool-cases r.forgotten) [
    | inl tombstone ↦ same-Keeps r r' (ground arith) (ground arith) (ground arith)
    | inr present ↦ elim (Result-split (fail_runs r (live_turns r.runs))) [
      | inr (e, refused) ↦ absurd (ground arith)
      | inl (next, done) ↦
          Keeps-trans (fail_runs-Keeps r (live_turns r.runs) next done)
            (same-Keeps next r' (ground arith) (ground arith) (ground arith))
    ]
  ]

  replace-Keeps :
      (r : SessionRecord V) (value : V) (r' : SessionRecord V)
      → replace r value ≡ ok r'
      → Keeps r r'
  unfolding replace
  replace-Keeps r value r' h = same-Keeps r r' (ground arith) (ground arith) (ground arith)

  change_metadata-Keeps :
      (r : SessionRecord V) (fields : TreeMap V) (r' : SessionRecord V)
      → change_metadata r fields ≡ ok r'
      → Keeps r r'
  unfolding change_metadata
  change_metadata-Keeps r fields r' h = same-Keeps r r' (ground arith) (ground arith) (ground arith)

  acknowledge-Keeps :
      (r : SessionRecord V) (expected : ℕ) (ids : List String) (r' : SessionRecord V)
      → acknowledge r expected ids ≡ ok r'
      → Keeps r r'
  unfolding acknowledge
  acknowledge-Keeps r expected ids r' h =
      same-Keeps r r' (ground arith) (ground arith) (ground arith)

  -- Whatever action succeeds on a record, the history only grows, the attachment identities stay,
  -- and every run keeps its identity, its terminal snapshot, and its calls with their identities,
  -- intents, outcomes and commitment.
  pub apply-Keeps :
      (fresh : FreshIds) (now : ℕ) (r : SessionRecord V) (action : Action V) (r' : SessionRecord V)
      (response : Response V)
      → apply fresh now r action ≡ ok (r', response)
      → Keeps r r'
  unfolding apply
  apply-Keeps fresh now r read r' response h = cc
  apply-Keeps fresh now r (begins params snapshot options) r' response h =
      elim (Result-split (begin r params snapshot options)) [
        | inr (e, refused) ↦ absurd (ground arith)
        | inl ((x, added), done) ↦
            subst (Keeps r) (ground arith) (begin-Keeps r params snapshot options x added done)
      ]
  apply-Keeps fresh now r (commits turn op) r' response h =
      elim (Result-split (mutate r fresh turn op)) [
        | inr (e, refused) ↦ absurd (ground arith)
        | inl ((x, item), done) ↦
            subst (Keeps r) (ground arith) (mutate-Keeps r fresh turn op x item done)
      ]
  apply-Keeps fresh now r (finalizes turn candidate) r' response h =
      elim (Result-split (finalize r turn candidate)) [
        | inr (e, refused) ↦ absurd (ground arith)
        | inl ((x, f), done) ↦
            subst (Keeps r) (ground arith) (finalize-Keeps r turn candidate x f done)
      ]
  apply-Keeps fresh now r (replaces value) r' response h = replace-Keeps r value r' (ground arith)
  apply-Keeps fresh now r (replaces_metadata fields) r' response h =
      change_metadata-Keeps r fields r' (ground arith)
  apply-Keeps fresh now r (acknowledges expected ids) r' response h =
      acknowledge-Keeps r expected ids r' (ground arith)
  apply-Keeps fresh now r detaches r' response h = detach-Keeps now r r' (ground arith)
