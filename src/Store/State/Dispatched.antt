-- ===== src/Store/State/Dispatched.antt =====
-- The dispatch of tool calls.
use whale_ai_sdk.Base.{
  ◌==◌, ◌||◌, ◌∷◌, ◌≡◌, ◌≢◌, Bool-cases, Eq, List, Option, [], drop, subst, Option-cases, String,
  arith, inl, inr, is_some, none, refl, some, string_eq, true,
}
use whale_ai_sdk.Base.TreeMap.{get, get-insert}
use whale_ai_sdk.Protocol.Canonical.{CanonicalItem}
use whale_ai_sdk.Protocol.Runs.{ToolExecutionRecord}
use whale_ai_sdk.Store.Backend.Extends.{CallExtends, Keeps}
use whale_ai_sdk.Store.Env.{Env}
use whale_ai_sdk.Store.Error.{ok}
use whale_ai_sdk.Store.State.Mutate.{
  FreshIds, Step, apply_step, dispatch_step, mutate, settle, update_call,
}
use whale_ai_sdk.Store.State.Queries.{find_call}
use whale_ai_sdk.Store.Types.{SessionRecord, StoredCall, StoredRun, dispatch_intent}

module _ {V : Type 0} where
  -- The call that a record holds for a turn and a call identity.
  pub record Holds (r : SessionRecord V) (turn call_id : String) (call : StoredCall V)
      : Type 0 where
    pub run : StoredRun V
    pub stored : get r.runs turn ≡ some run
    pub found : find_call call_id run.calls ≡ some call

  find-update_call :
      (calls : List (StoredCall V)) (id : String) (f : StoredCall V → StoredCall V)
      (c : StoredCall V)
      → find_call id calls ≡ some c
      → (f c).call_id ≡ c.call_id
      → find_call id (update_call id f calls) ≡ some (f c)
  find-update_call [] id f c e named = cc
  find-update_call (x ∷ calls) id f c e named = elim (Bool-cases (x.call_id == id)) [
    | inl hit ↦ ground arith
    | inr miss ↦ ground (arith, find-update_call calls id f c)
  ]

  -- What is kept of a call that a record holds.
  kept_call :
      (r r' : SessionRecord V) (turn call_id : String) (call : StoredCall V)
      → Keeps r r'
      → Holds r turn call_id call
      → (call' : StoredCall V) × Holds r' turn call_id call' × CallExtends call call'
  kept_call r r' turn call_id call kept h =
      let (run', stored, extends) = kept.runs turn h.run h.stored in
      let (call', found, same) = extends.calls call_id call h.found in
      (call', record { run = run'; stored = stored; found = found }, same)

module _ {V : Type 0} ⦃v : Eq V⦄ ⦃env : Env V⦄ where
  settle-Holds :
      (r : SessionRecord V) (turn call_id : String) (step : Step V) (call : StoredCall V)
      → find_call call_id step.run.calls ≡ some call
      → Holds (settle r turn step) turn call_id call
  unfolding settle
  settle-Holds r turn call_id step call found = record {
    run = record (step.run) {
      snapshot = record (step.run.snapshot) { items = drop step.run.history_start step.history };
    };
    stored = ground (
      arith,
      get-insert r.runs turn turn (record (step.run) {
        snapshot = record (step.run.snapshot) { items = drop step.run.history_start step.history };
      }),
    );
    found = found;
  }

  dispatch_stored :
      (r : SessionRecord V) (fresh : FreshIds) (turn call_id : String)
      (execution : ToolExecutionRecord V) (r' : SessionRecord V)
      (returned : Option (CanonicalItem V))
      → mutate r fresh turn (dispatch_intent call_id execution) ≡ ok (r', returned)
      → (call : StoredCall V) × Holds r' turn call_id call × (call.intent ≡ some execution)
  unfolding mutate apply_step dispatch_step settle
  dispatch_stored r fresh turn call_id execution r' returned h =
      elim (Option-cases (get r.runs turn)) [
        | inl missing ↦ absurd (ground arith)
        | inr (run, found) ↦ elim (Option-cases (find_call call_id run.calls)) [
          | inl missing ↦ absurd (ground arith)
          | inr (call, there) ↦
              let changed =
                find-update_call run.calls call_id (λ c. record c { intent = some execution }) call
                  there refl in
              (
                record call { intent = some execution },
                subst (λ x. Holds x turn call_id (record call { intent = some execution }))
                    (ground arith)
                    (settle-Holds r turn call_id
                      (record {
                        history = r.history;
                        run = record run {
                          calls =
                              update_call call_id (λ c. record c { intent = some execution })
                                run.calls;
                        };
                        returned = none;
                      })
                      (record call { intent = some execution }) changed),
                refl,
              )
        ]
      ]

  dispatch_refused :
      (r : SessionRecord V) (fresh : FreshIds) (turn call_id : String) (call : StoredCall V)
      (execution : ToolExecutionRecord V) (r' : SessionRecord V)
      (returned : Option (CanonicalItem V))
      → Holds r turn call_id call
      → is_some call.intent || is_some call.outcome ≡ true
      → mutate r fresh turn (dispatch_intent call_id execution) ≢ ok (r', returned)
  unfolding mutate apply_step dispatch_step
  dispatch_refused r fresh turn call_id call execution r' returned holds used h =
      ground (arith, holds.stored, holds.found)

  -- Once a tool call was dispatched, no record that keeps what was committed then accepts another
  -- dispatch of that call, whatever execution it names.
  pub dispatch_once :
      (r r' r'' r₃ : SessionRecord V) (fresh fresh' : FreshIds) (turn call_id : String)
      (execution execution' : ToolExecutionRecord V) (returned returned' : Option (CanonicalItem V))
      → mutate r fresh turn (dispatch_intent call_id execution) ≡ ok (r', returned)
      → Keeps r' r''
      → mutate r'' fresh' turn (dispatch_intent call_id execution') ≢ ok (r₃, returned')
  dispatch_once r r' r'' r₃ fresh fresh' turn call_id execution execution' returned returned' h
        kept =
      let (call, holds, sent) = dispatch_stored r fresh turn call_id execution r' returned h in
      let (call', holds', same) = kept_call r' r'' turn call_id call kept holds in
      dispatch_refused r'' fresh' turn call_id call' execution' r₃ returned' holds'
        (ground (arith, same.intent))
