-- ===== src/Store/State/Kept.antt =====
-- What `mutate` keeps of a record.
use whale_ai_sdk.Base.{
  ◌++◌, ◌==◌, ◌∷◌, Bool-cases, Eq, List, Option, Option-cases, String, [], append-nil, arith, false,
  inl, inr, none, refl, some, string_eq, subst, true, ◌≡◌, ℕ, ap,
}
use whale_ai_sdk.Base.TreeMap.{TreeMap, get, get-insert, insert}
use whale_ai_sdk.Protocol.Canonical.{CanonicalItem, tool_call}
use whale_ai_sdk.Protocol.Runs.{is_terminal, ToolExecutionRecord, UsageMetrics}
use whale_ai_sdk.Store.Backend.Extends.{
  CallExtends, CallExtends-refl, Keeps, Prefix, Prefix-refl, RunExtends, RunExtends-refl,
}
use whale_ai_sdk.Store.Env.{Env}
use whale_ai_sdk.Store.Error.{Result-split, ok}
use whale_ai_sdk.Store.State.Mutate.{
  FreshIds, Step, apply_step, batch_outcomes, batch_step, canonical_result, commit_all,
  dispatch_step, finish_step, input_step, item_step, mutate, new_call, outcome_step, record_call,
  settle, update_call,
}
use whale_ai_sdk.Store.State.Queries.{find_call}
use whale_ai_sdk.Store.Types.{
  RunMutation, SessionRecord, StoredCall, StoredRun, dispatch_intent, model_input, model_item,
  model_step_finished, tool_batch, tool_outcome,
}

module _ {V : Type 0} where
  abbrev pub CallsKept : List (StoredCall V) → List (StoredCall V) → Type 0
  CallsKept old new =
      (id : String) (c : StoredCall V)
      → find_call id old ≡ some c
      → (d : StoredCall V) × (find_call id new ≡ some d) × CallExtends c d

  pub CallsKept-refl : (calls : List (StoredCall V)) → CallsKept calls calls
  CallsKept-refl calls id c e = (c, e, CallExtends-refl c)

  -- A change of the first call with an id keeps the calls if it keeps that one.
  pub update_call-kept :
      (calls : List (StoredCall V)) (id : String) (f : StoredCall V → StoredCall V)
      → ((c : StoredCall V)
          → find_call id calls ≡ some c
          → (CallExtends c (f c)) × ((f c).call_id ≡ c.call_id))
      → CallsKept calls (update_call id f calls)
  update_call-kept [] id f keep j c e = cc
  update_call-kept (x ∷ calls) id f keep j c e = elim (Bool-cases (x.call_id == id)) [
    | inl hit ↦
        let (kept, named) = keep x (ground arith) in
        elim (Bool-cases (x.call_id == j)) [
          | inl same ↦ (f x, ground arith, subst (λ y. CallExtends y (f x)) (ground arith) kept)
          | inr other ↦ (c, ground arith, CallExtends-refl c)
        ]
    | inr miss ↦
        let rest = update_call-kept calls id f (λ y p. keep y (ground arith)) in
        elim (Bool-cases (x.call_id == j)) [
          | inl same ↦ (c, ground arith, CallExtends-refl c)
          | inr other ↦ let (d, found, h) = rest j c (ground arith) in (d, ground arith, h)
        ]
  ]

  pub append-kept :
      (calls : List (StoredCall V)) (new : List (StoredCall V)) → CallsKept calls (calls ++ new)
  append-kept [] new id c e = cc
  append-kept (x ∷ calls) new id c e = elim (Bool-cases (x.call_id == id)) [
    | inl hit ↦ (c, ground arith, CallExtends-refl c)
    | inr miss ↦
        let (d, found, h) = append-kept calls new id c (ground arith) in (d, ground arith, h)
  ]

  pub commit_all-kept : (calls : List (StoredCall V)) → CallsKept calls (commit_all calls)
  commit_all-kept [] id c e = cc
  commit_all-kept (x ∷ calls) id c e = elim (Bool-cases (x.call_id == id)) [
    | inl hit ↦ (record x { committed = true }, ground arith, ground arith)
    | inr miss ↦
        let (d, found, h) = commit_all-kept calls id c (ground arith) in (d, ground arith, h)
  ]

  -- What an operation on a live run keeps.
  pub record StepKeeps (history : List (CanonicalItem V)) (run : StoredRun V) (s : Step V)
      : Type 0 where
    pub prefix : Prefix history s.history
    pub params : s.run.params ≡ run.params
    pub effective_options : s.run.effective_options ≡ run.effective_options
    pub history_start : s.run.history_start ≡ run.history_start
    pub calls : CallsKept run.calls s.run.calls

  pub replaced-runs :
      (runs : TreeMap (StoredRun V)) (turn : String) (run run' : StoredRun V)
      → get runs turn ≡ some run
      → RunExtends run run'
      → (j : String) (x : StoredRun V) → get runs j ≡ some x
      → (y : StoredRun V) × (get (insert runs turn run') j ≡ some y) × RunExtends x y
  replaced-runs runs turn run run' found h j x e = elim (string_eq.dec j turn) [
    | yes here ↦ (
      run',
      rw (get-insert runs turn j run') (ground arith),
      subst (λ z. RunExtends z run') (ground arith) h,
    )
    | no other ↦ (x, rw (get-insert runs turn j run') (ground arith), RunExtends-refl x)
  ]

module _ {V : Type 0} ⦃v : Eq V⦄ ⦃env : Env V⦄ where
  input_step-StepKeeps :
      (r : SessionRecord V) (run : StoredRun V) (id : String) (index : ℕ) (request : V) (s : Step V)
      → input_step r run id index request ≡ ok s
      → StepKeeps r.history run s
  unfolding input_step
  input_step-StepKeeps r run id index request s h = record {
    prefix = ([], ground (arith, append-nil r.history));
    params = ground arith;
    effective_options = ground arith;
    history_start = ground arith;
    calls = subst (CallsKept run.calls) (ground arith) (CallsKept-refl run.calls);
  }

  record_call-kept :
      (r : SessionRecord V) (fresh : FreshIds) (run run' : StoredRun V) (id : String)
      (item : CanonicalItem V)
      → record_call r fresh run id item ≡ ok run'
      → StepKeeps r.history run
          (record { history = r.history ++ item ∷ []; run = run'; returned = none })
  unfolding record_call
  record_call-kept r fresh run run' id (tool_call i call_id namespace name arguments raw) h =
      record {
        prefix = (_, refl);
        params = ground arith;
        effective_options = ground arith;
        history_start = ground arith;
        calls =
            subst (CallsKept run.calls) (ground arith)
              (append-kept run.calls (new_call fresh id call_id name ∷ []));
      }
  record_call-kept r fresh run run' id item h = record {
    prefix = (_, refl);
    params = ground arith;
    effective_options = ground arith;
    history_start = ground arith;
    calls = subst (CallsKept run.calls) (ground arith) (CallsKept-refl run.calls);
  }

  item_step-StepKeeps :
      (r : SessionRecord V) (fresh : FreshIds) (run : StoredRun V) (id : String)
      (item : CanonicalItem V) (s : Step V)
      → item_step r fresh run id item ≡ ok s
      → StepKeeps r.history run s
  unfolding item_step
  item_step-StepKeeps r fresh run id item s h =
      elim (Result-split (record_call r fresh run id item)) [
        | inl (run', recorded) ↦
            subst (StepKeeps r.history run) (ground arith)
              (record_call-kept r fresh run run' id item recorded)
        | inr (e, refused) ↦ absurd (ground arith)
      ]

  finish_step-StepKeeps :
      (r : SessionRecord V) (run : StoredRun V) (id : String) (usage : UsageMetrics) (s : Step V)
      → finish_step r run id usage ≡ ok s
      → StepKeeps r.history run s
  unfolding finish_step
  finish_step-StepKeeps r run id usage s h = record {
    prefix = ([], ground (arith, append-nil r.history));
    params = ground arith;
    effective_options = ground arith;
    history_start = ground arith;
    calls = subst (CallsKept run.calls) (ground arith) (CallsKept-refl run.calls);
  }

  dispatch_step-StepKeeps :
      (r : SessionRecord V) (run : StoredRun V) (id : String) (execution : ToolExecutionRecord V)
      (s : Step V)
      → dispatch_step r run id execution ≡ ok s
      → StepKeeps r.history run s
  unfolding dispatch_step
  dispatch_step-StepKeeps r run id execution s h = record {
    prefix = ([], ground (arith, append-nil r.history));
    params = ground arith;
    effective_options = ground arith;
    history_start = ground arith;
    calls = subst (CallsKept run.calls) (ground arith) (
        update_call-kept run.calls id (λ c. record c { intent = some execution })
          (λ c found. (ground arith, refl)));
  }

  outcome_step-StepKeeps :
      (r : SessionRecord V) (run : StoredRun V) (id : String) (result : CanonicalItem V)
      (s : Step V)
      → outcome_step r run id result ≡ ok s
      → StepKeeps r.history run s
  unfolding outcome_step
  outcome_step-StepKeeps r run id result s h = elim (Option-cases (find_call id run.calls)) [
    | inl missing ↦ absurd (ground arith)
    | inr (call, found) ↦ elim (Result-split (canonical_result call id result)) [
      | inr (e, refused) ↦ absurd (ground arith)
      | inl (item, canonical) ↦ record {
        prefix = ([], ground (arith, append-nil r.history));
        params = ground arith;
        effective_options = ground arith;
        history_start = ground arith;
        calls = subst (CallsKept run.calls) (ground arith) (
            update_call-kept run.calls id (λ c. record c { outcome = some item })
              (λ c found'. (ground arith, refl)));
      }
    ]
  ]

  batch_step-StepKeeps :
      (r : SessionRecord V) (run : StoredRun V) (ids : List String) (s : Step V)
      → batch_step r run ids ≡ ok s
      → StepKeeps r.history run s
  unfolding batch_step
  batch_step-StepKeeps r run ids s h = record {
    prefix = (batch_outcomes run.calls, ground arith);
    params = ground arith;
    effective_options = ground arith;
    history_start = ground arith;
    calls = subst (CallsKept run.calls) (ground arith) (commit_all-kept run.calls);
  }

  pub apply_step-StepKeeps :
      (r : SessionRecord V) (fresh : FreshIds) (run : StoredRun V) (op : RunMutation V) (s : Step V)
      → apply_step r fresh run op ≡ ok s
      → StepKeeps r.history run s
  unfolding apply_step
  apply_step-StepKeeps r fresh run (model_input id index request) s h =
      input_step-StepKeeps r run id index request s h
  apply_step-StepKeeps r fresh run (model_item id item) s h =
      item_step-StepKeeps r fresh run id item s h
  apply_step-StepKeeps r fresh run (model_step_finished id usage) s h =
      finish_step-StepKeeps r run id usage s h
  apply_step-StepKeeps r fresh run (dispatch_intent id execution) s h =
      dispatch_step-StepKeeps r run id execution s h
  apply_step-StepKeeps r fresh run (tool_outcome id result) s h =
      outcome_step-StepKeeps r run id result s h
  apply_step-StepKeeps r fresh run (tool_batch ids) s h = batch_step-StepKeeps r run ids s h

  settle-Keeps :
      (r : SessionRecord V) (turn : String) (run : StoredRun V) (s : Step V)
      → get r.runs turn ≡ some run
      → is_terminal run.snapshot.status ≡ false
      → StepKeeps r.history run s
      → Keeps r (settle r turn s)
  unfolding settle
  settle-Keeps r turn run s found live h = record {
    history = h.prefix;
    identities = Prefix-refl r.historical_thread_ids;
    runs = replaced-runs r.runs turn run _ found (record {
      thread_id = ap (λ p. p.thread_id) h.params;
      turn_id = ap (λ p. p.turn_id) h.params;
      input_items = ap (λ p. p.input_items) h.params;
      effective_options = h.effective_options;
      history_start = h.history_start;
      snapshot = λ ended. absurd (ground arith);
      calls = h.calls;
    });
  }

  -- Each mutation of a live run keeps the history and what was recorded of every call.
  pub mutate-Keeps :
      (r : SessionRecord V) (fresh : FreshIds) (turn : String) (op : RunMutation V)
      (r' : SessionRecord V) (returned : Option (CanonicalItem V))
      → mutate r fresh turn op ≡ ok (r', returned)
      → Keeps r r'
  unfolding mutate
  mutate-Keeps r fresh turn op r' returned h = elim (Option-cases (get r.runs turn)) [
    | inl missing ↦ absurd (ground arith)
    | inr (run, found) ↦ elim (Result-split (apply_step r fresh run op)) [
      | inr (e, refused) ↦ absurd (ground arith)
      | inl (s, stepped) ↦ subst (Keeps r) (ground arith) (
          settle-Keeps r turn run s found (ground arith)
            (apply_step-StepKeeps r fresh run op s stepped))
    ]
  ]
